-- ===== src/Ftrace/Lists.antt =====
-- The lists that src/ftracepy-utils.c gives to Python: `tfs_list2py_list`, the available tracers, event
-- systems and events of a system, and the options; and `PyFtrace_set_dir`. After their arguments were
-- parsed.
pub mod Laws
mod Tests
use trace_cruncher.Base.{
  ℕ, zero, suc, ◌+◌, Bool, true, false, List, [], ◌∷◌, Option, none, some, if◌then◌else◌,
}
use trace_cruncher.Base.Int.{ℤ, is_zero}
use trace_cruncher.Text.{Str}
use trace_cruncher.Alloc.{Run, done, fault, ◌>>=◌}
use trace_cruncher.Ftrace.{Tracefs}
use trace_cruncher.Ftrace.Methods.{InstanceArg, get_optional_instance}

-- libtracefs: lists and masks of options that are NULL on an error, the masks of the options, their names and numbers; and
-- `PyList_Sort`.
pub record ListLib (fs : Tracefs) : Type 0 where
  pub event_systems : fs.World → fs.Instance → Option (List Str)
  pub system_events : fs.World → fs.Instance → Str → Option (List Str)
  pub option_max : ℕ
  pub options_enabled : fs.World → fs.Instance → Option (ℕ → Bool)
  pub options_supported : fs.World → fs.Instance → Option (ℕ → Bool)
  pub option_is_enabled : fs.World → fs.Instance → ℕ → Bool
  pub option_name : ℕ → Str
  pub option_id : Str → ℕ
  pub set_tracing_dir : Option Str → fs.World → ℤ × fs.World
  pub sort : List Str → List Str

module _ (fs : Tracefs) (lib : ListLib fs) where
  open fs use {World, Instance, tracers}
  open lib use {
    event_systems, system_events, option_max, options_enabled, options_supported, option_is_enabled,
    option_name, option_id, set_tracing_dir, sort,
  }

  -- A list that is NULL is empty.
  unfoldable pub tfs_list2py_list : Option (List Str) → Bool → List Str
  tfs_list2py_list none sorted = if sorted then sort [] else []
  tfs_list2py_list (some strs) sorted = if sorted then sort strs else strs

  -- What the three methods do with their list: `none` is an error.
  unfoldable pub py_list_of : Option (List Str) → Bool → Option (List Str)
  py_list_of none sorted = none
  py_list_of (some strs) sorted = some (tfs_list2py_list (some strs) sorted)

  -- `PyFtrace_available_tracers`
  unfoldable pub available_tracers : Instance → InstanceArg Instance → World → Option (List Str)
  available_tracers top py_inst w = elim (get_optional_instance top py_inst) [
    | none ↦ none
    | some inst ↦ py_list_of (tracers w inst) false
  ]

  -- `PyFtrace_available_event_systems`
  unfoldable pub available_event_systems :
      Instance → InstanceArg Instance → Bool → World → Option (List Str)
  available_event_systems top py_inst sorted w = elim (get_optional_instance top py_inst) [
    | none ↦ none
    | some inst ↦ py_list_of (event_systems w inst) sorted
  ]

  -- `PyFtrace_available_system_events`
  unfoldable pub available_system_events :
      Instance → Str → InstanceArg Instance → Bool → World → Option (List Str)
  available_system_events top system py_inst sorted w = elim (get_optional_instance top py_inst) [
    | none ↦ none
    | some inst ↦ py_list_of (system_events w inst system) sorted
  ]

  -- The loop over `n` options from number `i` on.
  unfoldable pub option_names : (ℕ → Bool) → ℕ → ℕ → List Str
  option_names mask i zero = []
  option_names mask i (suc n) =
      let rest = option_names mask (i + 1) n in if mask i then option_name i ∷ rest else rest

  -- The mask is followed without a test for NULL.
  unfoldable pub get_option_list : Instance → Bool → World → Run (List Str)
  get_option_list inst enabled w =
      elim (if enabled then options_enabled w inst else options_supported w inst) [
        | none ↦ fault
        | some mask ↦ done (option_names mask 0 option_max)
      ]

  -- `PyFtrace_enabled_options` (true), `PyFtrace_supported_options` (false)
  unfoldable pub py_options :
      Instance → InstanceArg Instance → Bool → World → Run (Option (List Str))
  py_options top py_inst enabled w = elim (get_optional_instance top py_inst) [
    | none ↦ done none
    | some inst ↦ get_option_list inst enabled w >>= (λ names. done (some names))
  ]

  -- `PyFtrace_option_is_set`
  unfoldable pub option_is_set : Instance → Str → InstanceArg Instance → World → Option Bool
  option_is_set top opt py_inst w = elim (get_optional_instance top py_inst) [
    | none ↦ none
    | some inst ↦ some (option_is_enabled w inst (option_id opt))
  ]

  -- An empty path stands for the default directory, as none does.
  unfoldable pub custom_dir : Option Str → Option Str
  custom_dir none = none
  custom_dir (some []) = none
  custom_dir (some (c ∷ path)) = some (c ∷ path)

  -- `PyFtrace_set_dir`: false is an error.
  unfoldable pub set_dir : Option Str → World → Bool × World
  set_dir path w = let (ret, w') = set_tracing_dir (custom_dir path) w in (is_zero ret, w')
