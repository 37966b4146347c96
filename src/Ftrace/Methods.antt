-- ===== src/Ftrace/Methods.antt =====
-- Python methods of src/ftracepy-utils.c that take an instance as an optional argument:
-- `get_optional_instance`, `get_instance_from_arg`, and the methods that switch the trace and set
-- events, options, PIDs and the level of messages, with the defaults of their arguments.
use trace_cruncher.Base.{ℕ, ltb, Bool, false, Option, none, some, if◌then◌else◌}
use trace_cruncher.Base.Int.{ℤ, pos, negsuc}
use trace_cruncher.Text.{Str, codes, Arg, no_arg}
use trace_cruncher.Py.{Obj}
use trace_cruncher.Ftrace.{Tracefs}
use trace_cruncher.Ftrace.Pids.{set_pid, hook2pid, set_opt}
use trace_cruncher.Ftrace.Events.{event_enable_disable, event_is_enabled}
use trace_cruncher.Ftrace.Tracer.{tracing_on, tracing_off}

-- The argument `instance`: not given, an object of another type, or an instance.
pub data InstanceArg (I : Type 0) : Type 0 where
  absent incompatible : InstanceArg I
  instance_object : I → InstanceArg I

-- `top` is the NULL that stands for the top instance. Also `get_instance_from_arg`.
unfoldable pub get_optional_instance : {I : Type 0} → I → InstanceArg I → Option I
get_optional_instance top absent = some top
get_optional_instance top incompatible = none
get_optional_instance top (instance_object inst) = some inst

unfoldable pub default_arg : Option Arg → Arg
default_arg none = no_arg
default_arg (some a) = a

-- `fork` of `PyFtrace_hook2pid` is -1 where it is not given.
unfoldable pub default_fork : Option Bool → ℤ
default_fork none = negsuc 0
default_fork (some fork) = if fork then pos 1 else pos 0

-- The level that `PyFtrace_set_ftrace_loglevel` sets, where `log_all` is `TEP_LOG_ALL`.
unfoldable pub ftrace_loglevel : ℕ → ℤ → ℕ
ftrace_loglevel log_all (negsuc n) = 0
ftrace_loglevel log_all (pos level) = if ltb log_all level then log_all else level

module _ (fs : Tracefs) (top : fs.Instance) where
  open fs use {World, Instance}

  -- The test on the instance in front of an operation; false is an error.
  unfoldable pub on_instance :
      InstanceArg Instance → (Instance → World → Bool × World) → World → Bool × World
  on_instance py_inst operation w = elim (get_optional_instance top py_inst) [
    | none ↦ (false, w)
    | some inst ↦ operation inst w
  ]

  -- `PyFtrace_tracing_ON`, `PyFtrace_tracing_OFF`
  unfoldable pub py_tracing : Bool → InstanceArg Instance → World → Bool × World
  py_tracing on py_inst w =
      on_instance py_inst (λ inst w'. if on then tracing_on fs inst w' else tracing_off fs inst w')
        w

  unfoldable pub set_enable_event :
      InstanceArg Instance → Option Arg → Option Arg → Bool → World → Bool × World
  set_enable_event py_inst system event enable w =
      on_instance py_inst
        (λ inst.
          event_enable_disable fs inst (some (default_arg system)) (some (default_arg event))
            enable)
        w

  -- `PyFtrace_event_is_enabled`
  unfoldable pub py_event_is_enabled :
      InstanceArg Instance → Option Arg → Option Arg → World → Option Str × World
  py_event_is_enabled py_inst system event w = elim (get_optional_instance top py_inst) [
    | none ↦ (none, w)
    | some inst ↦ event_is_enabled fs inst (default_arg system) (default_arg event) w
  ]

  -- `PyFtrace_enable_option` (true), `PyFtrace_disable_option` (false)
  unfoldable pub set_option_py_args : Str → InstanceArg Instance → Bool → World → Bool × World
  set_option_py_args opt py_inst on w =
      on_instance py_inst (λ inst. set_opt fs inst opt (if on then codes "1" else codes "0")) w

  unfoldable pub set_event_pid : Obj → InstanceArg Instance → World → Bool × World
  set_event_pid pid_val py_inst w =
      on_instance py_inst (λ inst. set_pid fs inst (codes "set_event_pid") pid_val) w

  unfoldable pub set_ftrace_pid : Obj → InstanceArg Instance → World → Bool × World
  set_ftrace_pid pid_val py_inst w =
      on_instance py_inst (λ inst. set_pid fs inst (codes "set_ftrace_pid") pid_val) w

  unfoldable pub py_hook2pid : Obj → Option Bool → InstanceArg Instance → World → Bool × World
  py_hook2pid pid_val fork py_inst w =
      on_instance py_inst (λ inst. hook2pid fs inst pid_val (default_fork fork)) w
