-- ===== src/Ftrace.antt =====
-- The tracefs operations of src/ftracepy-utils.c on one trace instance (or on the top one). What the
-- library libtracefs does is a record of functions on an abstract state of the tracing system.
pub mod Files
pub mod Pids
pub mod Events
pub mod Tracer
pub mod ErrorLog
pub mod Methods
pub mod Lists
mod Tests
use trace_cruncher.Base.{ℕ, Bool, List, Option}
use trace_cruncher.Base.Int.{ℤ}
use trace_cruncher.Text.{Str}

-- libtracefs, and `sprintf("%d", ...)`. An instance that is NULL is the top one.
pub record Tracefs : Type 1 where
  pub World : Type 0
  pub Instance : Type 0
  pub file_exists : World → Instance → Str → Bool
  pub dir_exists : World → Instance → Str → Bool
  -- `tracefs_instance_file_write`, `..._append`: the size, or what is not positive on an error.
  pub file_write : Instance → Str → Str → World → ℤ × World
  pub file_append : Instance → Str → Str → World → ℤ × World
  -- `tracefs_instance_file_read`: the content with its size, or an error.
  pub file_read : Instance → Str → World → Option Str × World
  -- `tracefs_event_enable`, `tracefs_event_disable`: 0 on success; no name stands for all.
  pub event_enable : Instance → Option Str → Option Str → World → ℤ × World
  pub event_disable : Instance → Option Str → Option Str → World → ℤ × World
  -- `tracefs_tracers`: NULL on an error.
  pub tracers : World → Instance → Option (List Str)
  pub trace_on : Instance → World → ℤ × World
  pub trace_off : Instance → World → ℤ × World
  pub trace_is_on : World → Instance → ℤ
  -- The four calls that set or clear the options `event-fork` and `function-fork`.
  pub event_fork : Instance → Bool → World → ℤ × World
  pub function_fork : Instance → Bool → World → ℤ × World
  pub decimal : ℤ → Str
