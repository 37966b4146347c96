-- ===== src/Ftrace/Pids/Laws.antt =====
-- What setting the traced PIDs does to the files.
use trace_cruncher.Base.{
  ◌≡◌, refl, true, false, List, [], ◌∷◌, map, arith, Bool-cases, inl, inr, sym, ◌∙◌, ap₂,
}
use trace_cruncher.Base.Int.{ℤ, to_int, is_zero, is_neg}
use trace_cruncher.Text.{Str, codes}
use trace_cruncher.Py.{Item, unicode, long, other, list}
use trace_cruncher.Ftrace.{Tracefs}
use trace_cruncher.Ftrace.Files.{append_to_file}
use trace_cruncher.Ftrace.Pids.{as_long, pid2file, set_pids, set_pid, hook2pid}

module _ (fs : Tracefs) where
  open fs use {World, Instance, file_exists, decimal}

  -- The state of the system after the PIDs were appended one by one, each whatever the last gave.
  abbrev pub append_all : Instance → Str → List ℤ → World → World
  append_all inst file [] w = w
  append_all inst file (v ∷ vs) w =
      append_all inst file vs (append_to_file fs inst file (decimal (to_int (as_long v))) w).1

  -- Where `set_pid` returns true for a list, the list has only numbers, and each was appended to the
  -- file, in the order of the list.
  pub set_pid-true :
      (inst : Instance) (file : Str) (xs : List Item) (w : World)
      → (set_pid fs inst file (list xs) w).0 ≡ true
      → (vs : List ℤ) × (xs ≡ map long vs)
        × ((set_pid fs inst file (list xs) w).1 ≡ append_all inst file vs w)
  unfolding set_pid set_pids pid2file
  set_pid-true inst file [] w h = ([], refl, refl)
  set_pid-true inst file (unicode s ∷ xs) w h = ground arith
  set_pid-true inst file (other ∷ xs) w h = ground arith
  set_pid-true inst file (long v ∷ xs) w h =
      elim (Bool-cases (is_zero (append_to_file fs inst file (decimal (to_int (as_long v))) w).0)) [
        | inl e ↦ absurd (ground arith)
        | inr e ↦
            let w' = (append_to_file fs inst file (decimal (to_int (as_long v))) w).1 in
            let (vs, same, end) = set_pid-true inst file xs w' (ground arith) in
            (v ∷ vs, rw same, ground arith)
      ]

  -- Where the file does not exist, `set_pid` returns true for every list of numbers, and nothing is
  -- written: `append_to_file` returns -1, and `pid2file` only takes 0 for a failure.
  pub set_pid_missing :
      (inst : Instance) (file : Str) (vs : List ℤ) (w : World)
      → file_exists w inst file ≡ false
      → set_pid fs inst file (list (map long vs)) w ≡ (true, w)
  unfolding set_pid set_pids pid2file append_to_file
  set_pid_missing inst file [] w h = refl
  set_pid_missing inst file (v ∷ vs) w h = ground (arith, set_pid_missing inst file vs w h)

  map_long_inj : (vs vs' : List ℤ) → map long vs ≡ map long vs' → vs ≡ vs'
  map_long_inj [] [] e = refl
  map_long_inj [] (v ∷ vs') e = ground arith
  map_long_inj (v ∷ vs) [] e = ground arith
  map_long_inj (v ∷ vs) (v' ∷ vs') e = ground (arith, map_long_inj vs vs')

  -- Where `hook2pid` returns true for a list and leaves the fork options alone, the list has only
  -- numbers; each was appended to the file of the function tracer, and then each to that of the
  -- events.
  pub hook2pid-true :
      (inst : Instance) (xs : List Item) (fork : ℤ) (w : World)
      → is_neg fork ≡ true
      → (hook2pid fs inst (list xs) fork w).0 ≡ true
      → (vs : List ℤ) × (xs ≡ map long vs)
        × ((hook2pid fs inst (list xs) fork w).1
            ≡ append_all inst
                (codes "set_event_pid")
                vs
                (append_all inst (codes "set_ftrace_pid") vs w))
  unfolding hook2pid
  hook2pid-true inst xs fork w neg h =
      let w₁ = (set_pid fs inst (codes "set_ftrace_pid") (list xs) w).1 in
      let (vs, same, end) = set_pid-true inst (codes "set_ftrace_pid") xs w (ground arith) in
      let (vs', same', end') = set_pid-true inst (codes "set_event_pid") xs w₁ (ground arith) in
      let e = map_long_inj vs' vs (sym same' ∙ same) in
      let last : append_all inst (codes "set_event_pid") vs' w₁
          ≡ append_all inst (codes "set_event_pid") vs
              (append_all inst (codes "set_ftrace_pid") vs w) =
        ap₂ (λ v x. append_all inst (codes "set_event_pid") v x) e end in
      (vs, same, ground (arith, end', last))
