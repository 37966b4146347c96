-- ===== src/Dynevent.antt =====
-- Dynamic events of src/ftracepy-utils.c: the functions that make probes, `PyFtrace_synth`,
-- `PyFtrace_available_dynamic_events`, and enabling and filtering an event, after their arguments were
-- parsed.
pub mod Laws
pub mod Info
use trace_cruncher.Base.{
  ℕ, Bool, true, false, ◌&&◌, ◌||◌, List, [], ◌∷◌, ◌++◌, map, Option, none, some, if◌then◌else◌,
  ◌==◌, not,
}
use trace_cruncher.Base.Int.{ℤ, is_neg, is_pos}
use trace_cruncher.Text.{Str, codes, given, trim_new_line}
use trace_cruncher.Alloc.{Run, done, ◌>>=◌}
use trace_cruncher.Ftrace.{Tracefs}
use trace_cruncher.Ftrace.Files.{read_from_file}
use trace_cruncher.Ftrace.Events.{event_enable_disable, event_is_enabled}
use trace_cruncher.Objects.{Object, unowned}
use trace_cruncher.Version.{check_kernel_support}

-- `TC_SYS`, `SYNTH_SYS`
abbrev pub tc_sys : Str
tc_sys = codes "tcrunch"

abbrev pub synth_sys : Str
synth_sys = codes "synthetic"

-- The kinds of `enum tracefs_dynevent_type` that the code names.
pub data Kind : Type 0 where
  kprobe_event kretprobe_event uprobe_event uretprobe_event eprobe_event synth_event : Kind

-- The names in the order of the tests.
abbrev pub kind_name : Kind → Str
kind_name kprobe_event = codes "kprobe"
kind_name kretprobe_event = codes "kretprobe"
kind_name uprobe_event = codes "uprobe"
kind_name uretprobe_event = codes "uretprobe"
kind_name eprobe_event = codes "eprobe"
kind_name synth_event = codes "synthetic"

abbrev pub kinds : List Kind
kinds =
    kprobe_event ∷ kretprobe_event ∷ uprobe_event ∷ uretprobe_event ∷ eprobe_event ∷ synth_event
    ∷ []

unfoldable pub starts_with : Str → Str → Bool
starts_with s [] = true
starts_with [] (c ∷ t) = false
starts_with (a ∷ s) (c ∷ t) = (a == c) && starts_with s t

-- `strstr(s, t)`, for a `t` that is not empty.
unfoldable pub strstr : Str → Str → Bool
strstr [] t = false
strstr (a ∷ s) t = starts_with (a ∷ s) t || strstr s t

-- The bits of the filter that are set: none stands for all kinds.
unfoldable pub select_kinds : Str → List Kind → List Kind
select_kinds type [] = []
select_kinds type (k ∷ ks) =
    let rest = select_kinds type ks in if strstr type (kind_name k) then k ∷ rest else rest

unfoldable pub dynevent_filter : Option Str → List Kind
dynevent_filter none = []
dynevent_filter (some type) = select_kinds type kinds

-- libtracefs: what allocates an event (NULL on an error), `tracefs_dynevent_info` with the system and
-- the name (or an unknown type), `tracefs_dynevent_get_all`, `..._get_event` with a `tep` handle, and
-- what applies and clears a filter.
pub record DyneventLib (fs : Tracefs) : Type 1 where
  pub Ptr : Type 0
  pub Synth : Type 0
  pub TepEvent : Type 0
  pub kprobe_alloc : Str → Str → Str → Str → Option Ptr
  pub kretprobe_alloc : Str → Str → Str → Str → Option Ptr
  pub eprobe_alloc : Str → Str → Str → Str → Str → Option Ptr
  pub uprobe_alloc : Str → Str → Str → ℕ → Option Str → Option Ptr
  pub uretprobe_alloc : Str → Str → Str → ℕ → Option Str → Option Ptr
  pub synth_alloc : Str → Str × Str → Str × Str → Str × Str → Option Str → Option Synth
  pub get_tep : Bool
  pub get_all : List Kind → fs.World → Option (List Ptr)
  pub info : Ptr → fs.World → Option (Str × Str)
  pub get_event : Ptr → fs.World → Option TepEvent
  pub synth_name : Synth → Str
  pub synth_get_event : Synth → fs.World → Option TepEvent
  pub event_name : TepEvent → Str
  pub filter_apply : fs.Instance → TepEvent → Str → fs.World → ℤ × fs.World
  pub filter_clear : fs.Instance → TepEvent → fs.World → ℤ × fs.World

-- An object for an event that is allocated and not in the system.
unfoldable pub new_event : {P : Type 0} → Option P → Option (Object P)
new_event none = none
new_event (some p) = some (unowned p)

module _ (fs : Tracefs) (lib : DyneventLib fs) where
  open fs use {World, Instance}
  open lib use {
    Ptr, Synth, TepEvent, kprobe_alloc, kretprobe_alloc, eprobe_alloc, uprobe_alloc,
    uretprobe_alloc, synth_alloc, get_tep, get_all, info, get_event, synth_name, synth_get_event,
    event_name, filter_apply, filter_clear,
  }

  unfoldable pub kprobe : Str → Str → Str → Option (Object Ptr)
  kprobe event function probe = new_event (kprobe_alloc tc_sys event function probe)

  unfoldable pub kretprobe : Str → Str → Option Str → Option (Object Ptr)
  kretprobe event function none =
      new_event (kretprobe_alloc tc_sys event function (codes "$retval"))
  kretprobe event function (some probe) = new_event (kretprobe_alloc tc_sys event function probe)

  -- `release` is what `kernel_version` returns.
  unfoldable pub eprobe : Option Str → Str → Str → Str → Str → Run (Option (Object Ptr))
  eprobe release event target_system target_event fetchargs =
      check_kernel_support release 5 15 >>= (λ ok. done (
        if ok
        then new_event (eprobe_alloc tc_sys event target_system target_event fetchargs)
        else none))

  unfoldable pub alloc_uprobe : Bool → Str → Str → ℕ → Option Str → Option (Object Ptr)
  alloc_uprobe pret event file offset fetchargs = new_event (
      if pret
      then uretprobe_alloc tc_sys event file offset fetchargs
      else uprobe_alloc tc_sys event file offset fetchargs)

  unfoldable pub synth :
      Str → Str × Str → Str × Str → Str × Str → Option Str → Option (Object Synth)
  synth name start_event end_event match match_name =
      if get_tep then new_event (synth_alloc name start_event end_event match match_name) else none

  unfoldable pub available_dynamic_events : Option Str → World → List (Object Ptr)
  available_dynamic_events type w = elim (get_all (dynevent_filter type) w) [
    | none ↦ []
    | some all ↦ map unowned all
  ]

  -- The event is looked for in `TC_SYS`, whatever its system is.
  unfoldable pub enable_dynevent : Object Ptr → Instance → Bool → World → Bool × World
  enable_dynevent self inst enable w = elim (info self.ptr w) [
    | none ↦ (false, w)
    | some (system, name) ↦
        event_enable_disable fs inst (some (given tc_sys)) (some (given name)) enable w
  ]

  unfoldable pub dynevent_is_enabled : Object Ptr → Instance → World → Option Str × World
  dynevent_is_enabled self inst w = elim (info self.ptr w) [
    | none ↦ (none, w)
    | some (system, name) ↦ event_is_enabled fs inst (given tc_sys) (given name) w
  ]

  unfoldable pub enable_synth : Object Synth → Instance → Bool → World → Bool × World
  enable_synth self inst enable w =
      event_enable_disable fs inst (some (given synth_sys)) (some (given (synth_name self.ptr)))
        enable w

  unfoldable pub synth_is_enabled : Object Synth → Instance → World → Option Str × World
  synth_is_enabled self inst w =
      event_is_enabled fs inst (given synth_sys) (given (synth_name self.ptr)) w

  unfoldable pub dynevent_get_event : Object Ptr → World → Option TepEvent
  dynevent_get_event self w = if get_tep then get_event self.ptr w else none

  unfoldable pub synth_event_of : Object Synth → World → Option TepEvent
  synth_event_of self w = if get_tep then synth_get_event self.ptr w else none

  unfoldable pub set_filter : Instance → Option TepEvent → Str → World → Bool × World
  set_filter inst none filter w = (false, w)
  set_filter inst (some event) filter w =
      let (ret, w') = filter_apply inst event filter w in (not (is_neg ret), w')

  unfoldable pub clear_filter : Instance → Option TepEvent → World → Bool × World
  clear_filter inst none w = (false, w)
  clear_filter inst (some event) w =
      let (ret, w') = filter_clear inst event w in (not (is_neg ret), w')

  unfoldable pub get_filter : Instance → Str → Str → World → Option Str × World
  get_filter inst system event w =
      let (size, filter, w') =
        read_from_file fs inst (codes "events/" ++ (system ++ (b'/' ∷ event ++ codes "/filter")))
          w in
      (if is_pos size then some (trim_new_line filter) else none, w')

  unfoldable pub dynevent_get_filter : Object Ptr → Instance → World → Option Str × World
  dynevent_get_filter self inst w = elim (dynevent_get_event self w) [
    | none ↦ (none, w)
    | some event ↦ elim (info self.ptr w) [
      | none ↦ (none, w)
      | some (system, name) ↦ get_filter inst system name w
    ]
  ]

  unfoldable pub synth_get_filter : Object Synth → Instance → World → Option Str × World
  synth_get_filter self inst w = elim (synth_event_of self w) [
    | none ↦ (none, w)
    | some event ↦ get_filter inst synth_sys (event_name event) w
  ]

  -- `PyDynevent_set_filter`, `PyDynevent_clear_filter`
  unfoldable pub dynevent_set_filter : Object Ptr → Instance → Str → World → Bool × World
  dynevent_set_filter self inst filter w = set_filter inst (dynevent_get_event self w) filter w

  unfoldable pub dynevent_clear_filter : Object Ptr → Instance → World → Bool × World
  dynevent_clear_filter self inst w = clear_filter inst (dynevent_get_event self w) w

  -- `PySynthEvent_set_filter`, `PySynthEvent_clear_filter`
  unfoldable pub synth_set_filter : Object Synth → Instance → Str → World → Bool × World
  synth_set_filter self inst filter w = set_filter inst (synth_event_of self w) filter w

  unfoldable pub synth_clear_filter : Object Synth → Instance → World → Bool × World
  synth_clear_filter self inst w = clear_filter inst (synth_event_of self w) w
