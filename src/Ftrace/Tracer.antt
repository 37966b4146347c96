-- ===== src/Ftrace/Tracer.antt =====
-- The current tracer, and switching the trace on and off: `PyFtrace_set_current_tracer`,
-- `PyFtrace_get_current_tracer`, `tracing_ON`, `tracing_OFF` and `PyFtrace_is_tracing_ON` of
-- src/ftracepy-utils.c, after their arguments were parsed.
pub mod Laws
use trace_cruncher.Base.{
  ◌==◌, ℕ, Bool, true, false, not, ◌&&◌, ◌||◌, List, [], ◌∷◌, Option, none, some, if◌then◌else◌,
}
use trace_cruncher.Base.Int.{ℤ, pos, negsuc, is_neg, is_zero, is_pos}
use trace_cruncher.Text.{Str, codes, str_eq, Arg, bytes, is_set, trim_new_line}
use trace_cruncher.Ftrace.{Tracefs}
use trace_cruncher.Ftrace.Files.{read_from_file, write_to_file_and_check}

abbrev pub current_tracer : Str
current_tracer = codes "current_tracer"

-- The loop over `all_tracers`.
unfoldable pub has_tracer : Str → List Str → Bool
has_tracer tracer [] = false
has_tracer tracer (t ∷ ts) = if str_eq t tracer then true else has_tracer tracer ts

-- "nop" where no tracer is set.
unfoldable pub tracer_name : Arg → Str
tracer_name tracer = if is_set tracer then bytes tracer else codes "nop"

-- `tracefs_trace_is_on(...) == 1`
unfoldable pub is_one : ℤ → Bool
is_one (pos n) = n == 1
is_one (negsuc n) = false

module _ (fs : Tracefs) where
  open fs use {World, Instance, tracers, trace_on, trace_off, trace_is_on}

  unfoldable pub is_available : World → Instance → Arg → Bool
  is_available w inst tracer =
      if is_set tracer && not (str_eq (bytes tracer) (codes "nop"))
      then (elim (tracers w inst) [
        | none ↦ false
        | some all_tracers ↦ has_tracer (bytes tracer) all_tracers
      ])
      else true

  unfoldable pub set_current_tracer : Instance → Arg → World → Bool × World
  set_current_tracer inst tracer w =
      if is_available w inst tracer
      then write_to_file_and_check fs inst current_tracer (tracer_name tracer) w
      else (false, w)

  unfoldable pub get_current_tracer : Instance → World → Option Str × World
  get_current_tracer inst w =
      let (size, tracer, w') = read_from_file fs inst current_tracer w in
      (if is_pos size then some (trim_new_line tracer) else none, w')

  unfoldable pub tracing_on : Instance → World → Bool × World
  tracing_on inst w =
      let (ret, w') = trace_on inst w in
      (if is_neg ret then false else is_one (trace_is_on w' inst), w')

  unfoldable pub tracing_off : Instance → World → Bool × World
  tracing_off inst w =
      let (ret, w') = trace_off inst w in
      (if is_neg ret then false else is_zero (trace_is_on w' inst), w')

  -- True, false, or an error.
  unfoldable pub is_tracing_on : World → Instance → Option Bool
  is_tracing_on w inst =
      if is_neg (trace_is_on w inst) then none else some (not (is_zero (trace_is_on w inst)))
