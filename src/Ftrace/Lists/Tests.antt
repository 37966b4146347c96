-- ===== src/Ftrace/Lists/Tests.antt =====
-- The theorems on the lists for Python at concrete inputs.
use trace_cruncher.Base.{
  ◌≡◌, refl, Bool, true, false, [], none, some, arith, if◌then◌else◌, ◌&&◌, ◌==◌, Bool-cases, inl,
  inr, ◌<◌, sym, ℕ, ap, List, ◌∙◌,
}
use trace_cruncher.Base.Int.{pos}
use mathlib.Core.Option.{some-injective}
use trace_cruncher.Text.{Str, codes, str_eq}
use trace_cruncher.Text.Laws.{eq_of_str_eq, str_eq_self}
use trace_cruncher.Ftrace.{Tracefs}
use trace_cruncher.Ftrace.Methods.{absent, get_optional_instance}
use trace_cruncher.Ftrace.Lists.{ListLib, option_is_set, py_options, done}
use trace_cruncher.Ftrace.Lists.Laws.{OptionLaws, is_in, option_is_set-listed}

-- A system with one option, and whether it is enabled.
abbrev one_option : Tracefs
one_option = record {
  World = Bool;
  Instance = Unit;
  file_exists = λ w inst f. false;
  dir_exists = λ w inst d. false;
  file_write = λ inst f s w. (pos 0, w);
  file_append = λ inst f s w. (pos 0, w);
  file_read = λ inst f w. (none, w);
  event_enable = λ inst s e w. (pos 0, w);
  event_disable = λ inst s e w. (pos 0, w);
  tracers = λ w inst. none;
  trace_on = λ inst w. (pos 0, w);
  trace_off = λ inst w. (pos 0, w);
  trace_is_on = λ w inst. pos 0;
  event_fork = λ inst b w. (pos 0, w);
  function_fork = λ inst b w. (pos 0, w);
  decimal = λ n. [];
}

abbrev enabled_mask : Bool → ℕ → Bool
enabled_mask w i = w && (i == 1)

abbrev lists : ListLib one_option
lists = record {
  event_systems = λ w inst. none;
  system_events = λ w inst s. none;
  option_max = 2;
  options_enabled = λ w inst. some (enabled_mask w);
  options_supported = λ w inst. some (enabled_mask true);
  option_is_enabled = λ w inst i. w && (i == 1);
  option_name = λ i. codes "stacktrace";
  option_id = λ s. if str_eq s (codes "stacktrace") then 1 else 0;
  set_tracing_dir = λ path w. (pos 0, w);
  sort = λ strs. strs;
}

name_of_number :
    (s : Str) → 0 < (if str_eq s (codes "stacktrace") then 1 else 0) → codes "stacktrace" ≡ s
name_of_number s h = elim (Bool-cases (str_eq s (codes "stacktrace"))) [
  | inl e ↦ sym (eq_of_str_eq s (codes "stacktrace") e)
  | inr e ↦ absurd (ground (arith, h, e))
]

number_below : (b : Bool) → (if b then 1 else 0) < 2
number_below b = ground arith

no_option : (w : Bool) (mask : ℕ → Bool) → some (enabled_mask w) ≡ some mask → mask 0 ≡ false
no_option w mask e = sym (ap (λ m. m 0) (some-injective (enabled_mask w) mask e)) ∙ ground arith

laws : OptionLaws one_option lists
laws = record {
  same = λ w inst mask i e. ap (λ m. m i) (some-injective (enabled_mask w) mask e);
  invalid = λ w inst mask e. no_option w mask e;
  id_of_name = λ i l u. ground (arith, str_eq_self (codes "stacktrace"));
  name_of_id = name_of_number;
  below_max = λ s. number_below (str_eq s (codes "stacktrace"));
}

option_is_set-listed_example :
    (names : List Str) × (py_options one_option lists tt absent true true ≡ done (some names))
    × (option_is_set one_option lists tt (codes "stacktrace") absent true
        ≡ some (is_in (codes "stacktrace") names))
unfolding get_optional_instance
option_is_set-listed_example =
    option_is_set-listed one_option lists laws tt tt absent (codes "stacktrace") true
      (enabled_mask true) refl refl
