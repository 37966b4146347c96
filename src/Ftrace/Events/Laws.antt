-- ===== src/Ftrace/Events/Laws.antt =====
-- Enabling the events of a dictionary as one sequence of requests.
use trace_cruncher.Base.{
  ◌≡◌, refl, sym, ◌∙◌, ap, Bool, List, [], ◌∷◌, ◌++◌, Option, none, some, map, arith, if◌then◌else◌,
  Bool-cases, inl, inr,
}
use trace_cruncher.Text.{Str, codes, lax_cmp, given, Arg}
use trace_cruncher.Py.{Item, unicode, long, other, Obj, item, list, str_of_item}
use trace_cruncher.Ftrace.{Tracefs}
use trace_cruncher.Ftrace.Events.{
  event_enable_disable, Done, enabled, failed, inconsistent, enable_each, whole_system,
  enable_system, enable_systems, set_enable_events, null_pointer,
}

-- A call of libtracefs for a system and an event, or for all its events; an entry that is refused;
-- an entry whose missing text is read.
pub data Request : Type 0 where
  enable_event : Str → Option Arg → Request
  refuse crash : Request

abbrev pub event_request : Str → Item → Request
event_request system x = elim (str_of_item x) [
  | none ↦ refuse
  | some e ↦ enable_event system (some (given e))
]

abbrev pub requests_of : Str → List Item → List Request
requests_of system [] = enable_event system none ∷ []
requests_of system (unicode event ∷ []) =
    if lax_cmp event (codes "all")
    then enable_event system none ∷ []
    else event_request system (unicode event) ∷ []
requests_of system (x ∷ []) = crash ∷ []
requests_of system (x ∷ y ∷ xs) = map (event_request system) (x ∷ y ∷ xs)

abbrev pub requests : List (Item × Obj) → List Request
requests [] = []
requests ((unicode system, list events) ∷ rest) = requests_of system events ++ requests rest
requests ((_, _) ∷ rest) = refuse ∷ []

module _ (fs : Tracefs) where
  open fs use {World, Instance}

  -- The requests one by one, up to the first that is refused or fails.
  abbrev pub run : Instance → Bool → List Request → World → Done × World
  run inst enable [] w = (enabled, w)
  run inst enable (refuse ∷ rs) w = (inconsistent, w)
  run inst enable (crash ∷ rs) w = (null_pointer, w)
  run inst enable (enable_event system event ∷ rs) w =
      let (ok, w') = event_enable_disable fs inst (some (given system)) event enable w in
      let rest = run inst enable rs w' in if ok then rest else (failed, w')

  abbrev pub then_run : Instance → Bool → List Request → Done × World → Done × World
  then_run inst enable rs (enabled, w) = run inst enable rs w
  then_run inst enable rs (failed, w) = (failed, w)
  then_run inst enable rs (inconsistent, w) = (inconsistent, w)
  then_run inst enable rs (null_pointer, w) = (null_pointer, w)

  run-append :
      (inst : Instance) (enable : Bool) (rs rs' : List Request) (w : World)
      → run inst enable (rs ++ rs') w ≡ then_run inst enable rs' (run inst enable rs w)
  run-append inst enable [] rs' w = refl
  run-append inst enable (refuse ∷ rs) rs' w = refl
  run-append inst enable (crash ∷ rs) rs' w = refl
  run-append inst enable (enable_event system event ∷ rs) rs' w =
      let (ok, w') = event_enable_disable fs inst (some (given system)) event enable w in
      elim (Bool-cases ok) [ inl e ↦ rw (e, run-append inst enable rs rs' w') | inr e ↦ rw e ]

  enable_each-run :
      (inst : Instance) (enable : Bool) (system : Str) (xs : List Item) (w : World)
      → enable_each fs inst system enable xs w ≡ run inst enable (map (event_request system) xs) w
  unfolding enable_each str_of_item
  enable_each-run inst enable system [] w = refl
  enable_each-run inst enable system (long v ∷ xs) w = refl
  enable_each-run inst enable system (other ∷ xs) w = refl
  enable_each-run inst enable system (unicode s ∷ xs) w = rw (
      enable_each-run inst enable system xs
        (event_enable_disable fs inst (some (given system)) (some (given s)) enable w).1)

  whole_system-run :
      (inst : Instance) (enable : Bool) (system : Str) (w : World)
      → whole_system fs inst system enable w ≡ run inst enable (enable_event system none ∷ []) w
  unfolding whole_system
  whole_system-run inst enable system w = ground arith

  enable_system-run :
      (inst : Instance) (enable : Bool) (system : Str) (xs : List Item) (w : World)
      → enable_system fs inst system enable xs w ≡ run inst enable (requests_of system xs) w
  unfolding enable_system
  enable_system-run inst enable system [] w = whole_system-run inst enable system w
  enable_system-run inst enable system (unicode s ∷ []) w =
      elim (Bool-cases (lax_cmp s (codes "all"))) [
        | inl e ↦ rw (e, whole_system-run inst enable system w)
        | inr e ↦ rw (e, enable_each-run inst enable system (unicode s ∷ []) w)
      ]
  enable_system-run inst enable system (unicode s ∷ y ∷ xs) w =
      enable_each-run inst enable system _ w
  enable_system-run inst enable system (long v ∷ []) w = refl
  enable_system-run inst enable system (other ∷ []) w = refl
  enable_system-run inst enable system (long v ∷ y ∷ xs) w = enable_each-run inst enable system _ w
  enable_system-run inst enable system (other ∷ y ∷ xs) w = enable_each-run inst enable system _ w

  after_system :
      (inst : Instance) (enable : Bool) (rest : List (Item × Obj))
      → ((w : World) → enable_systems fs inst enable rest w ≡ run inst enable (requests rest) w)
      → (p : Done × World)
      → (elim p.0 [
        | enabled ↦ enable_systems fs inst enable rest p.1
        | failed ↦ (failed, p.1)
        | inconsistent ↦ (inconsistent, p.1)
        | null_pointer ↦ (null_pointer, p.1)
      ])
        ≡ then_run inst enable (requests rest) p
  after_system inst enable rest hyp (enabled, w) = hyp w
  after_system inst enable rest hyp (failed, w) = refl
  after_system inst enable rest hyp (inconsistent, w) = refl
  after_system inst enable rest hyp (null_pointer, w) = refl

  enable_systems-run :
      (inst : Instance) (enable : Bool) (entries : List (Item × Obj)) (w : World)
      → enable_systems fs inst enable entries w ≡ run inst enable (requests entries) w
  unfolding enable_systems
  enable_systems-run inst enable [] w = refl
  enable_systems-run inst enable ((unicode system, list events) ∷ rest) w =
      after_system inst enable rest (enable_systems-run inst enable rest)
        (enable_system fs inst system enable events w)
      ∙ (ap (then_run inst enable (requests rest)) (enable_system-run inst enable system events w)
          ∙ sym (run-append inst enable (requests_of system events) (requests rest) w))
  enable_systems-run inst enable ((unicode system, item x) ∷ rest) w = refl
  enable_systems-run inst enable ((long v, o) ∷ rest) w = refl
  enable_systems-run inst enable ((other, o) ∷ rest) w = refl

  -- `set_enable_events` on a dictionary makes the calls that the dictionary asks for, in its order: one
  -- for a system whose list is empty or is the single entry "all" in any case, and one for each entry
  -- of another list. It ends at the first call that fails, or the first entry of a wrong type, and what
  -- was done before stays; but a list with a single entry that is no string sends it through a NULL
  -- pointer.
  pub set_enable_events-run :
      (inst : Instance) (enable : Bool) (entries : List (Item × Obj)) (w : World)
      → set_enable_events fs inst enable (some entries) w ≡ run inst enable (requests entries) w
  unfolding set_enable_events
  set_enable_events-run inst enable entries w = enable_systems-run inst enable entries w
