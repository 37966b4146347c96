-- ===== src/Utrace/Enable.antt =====
-- Switching the user-space tracer on and off: `uprobe_start_trace`, `uprobe_exec_cmd`,
-- `py_utrace_enable`, `py_utrace_disable`, `PyUserTrace_enable` and `PyUserTrace_disable` of
-- src/ftracepy-utils.c, after their arguments were parsed.
pub mod Laws
mod Tests
use trace_cruncher.Base.{
  Bool, true, false, List, [], ◌∷◌, Option, none, some, if◌then◌else◌, ◌==◌, length, ℕ,
}
use trace_cruncher.Base.Int.{ℤ, pos, is_zero}
use trace_cruncher.Text.{Str}
use trace_cruncher.Alloc.{Run, done, fault, ◌>>=◌}
use trace_cruncher.Py.{item, long}
use trace_cruncher.Dbg.Bfd.{BfdLib}
use trace_cruncher.Dbg.Context.{Context}
use trace_cruncher.Ftrace.{Tracefs}
use trace_cruncher.Ftrace.Pids.{hook2pid}
use trace_cruncher.Trace.{Fork, fork_failed, child, parent}
use trace_cruncher.Utrace.{Entry}
use trace_cruncher.Utrace.Probes.{Dynevents, Probes}
use trace_cruncher.Utrace.Generate.{py_utrace_generate_uprobes}
use trace_cruncher.Utrace.Session.{
  WaitSystem, Poll, Step, Waited, returned, waiting, utrace_wait_pid,
}

-- `struct py_utrace_context` while it traces.
pub record Tracing (lib : Dynevents) : Type 0 where
  pub usystem : Str
  pub pid : ℤ
  pub cmd_argv : Option (List Str)
  pub trace_time : ℕ
  pub ufuncs : List Entry
  pub dbg : Context
  pub probes : Probes lib

-- What `fork` gives, the PID of the child, and whether its program can be executed.
pub record Spawn : Type 0 where
  pub fork : Fork
  pub child_pid : ℤ
  pub exec : Bool

-- The process that goes on, and whether it has become the program.
pub data Where : Type 0 where
  in_python in_child : Where
  in_program : List Str → Where

-- What `PyUserTrace_enable` ends with: an error; it waits; or a return, or the program, with the
-- tracer, the system and what the wait did to the process.
pub data Enabled (T W : Type 0) : Type 0 where
  refused : T → W → Enabled T W
  still_waiting : T → W → Enabled T W
  enabled : Where → T → W → List Step → Enabled T W

module _ (fs : Tracefs) where
  open fs use {World, Instance, event_enable, event_disable}

  unfoldable pub uprobe_start_trace : Str → ℤ → Instance → World → Bool × World
  uprobe_start_trace usystem pid inst w =
      let (hooked, w₁) = hook2pid fs inst (item (long pid)) (pos 1) w in
      let (ret, w₂) = event_enable inst (some usystem) none w₁ in
      if hooked then (is_zero ret, w₂) else (false, w₁)

  -- With the PID that it leaves. The child waits for the parent; what `uprobe_start_trace` returns is
  -- not looked at, and nor is what this function returns.
  unfoldable pub uprobe_exec_cmd : Str → ℤ → List Str → Instance → Spawn → World → Where × ℤ × World
  uprobe_exec_cmd usystem pid argv inst spawn w = elim spawn.fork [
    | fork_failed ↦ (in_python, pid, w)
    | child ↦ (if spawn.exec then in_program argv else in_child, pid, w)
    | parent ↦ (in_python, spawn.child_pid, (uprobe_start_trace usystem (spawn.child_pid) inst w).1)
  ]

  -- The process, its PID and the system.
  unfoldable pub start : Str → ℤ → Option (List Str) → Instance → Spawn → World → Where × ℤ × World
  start usystem pid none inst spawn w = (in_python, pid, (uprobe_start_trace usystem pid inst w).1)
  start usystem pid (some argv) inst spawn w = uprobe_exec_cmd usystem pid argv inst spawn w

  unfoldable pub py_utrace_disable : Str → Instance → World → Bool × World
  py_utrace_disable usystem inst w =
      let (ret, w') = event_disable inst (some usystem) none w in (is_zero ret, w')

  module _ (lib : Dynevents) where
    unfoldable pub generated : BfdLib → Tracing lib → Run (Tracing lib)
    generated bfd t =
        if length t.probes.uevents.entries == 0
        then (py_utrace_generate_uprobes lib bfd t.usystem t.ufuncs t.dbg t.probes
            >>= (λ r. done (record t { dbg = r.0; probes = r.1 })))
        else done t

    -- What follows the generation. 0 is true.
    unfoldable pub start_if_any :
        Instance → Spawn → World → Tracing lib → Run (Bool × Where × Tracing lib × World)
    start_if_any inst spawn w t =
        if length t.probes.uevents.entries == 0
        then done (false, in_python, t, w)
        else (let (place, pid, w') = start t.usystem t.pid t.cmd_argv inst spawn w in
            done (true, place, record t { pid = pid }, w'))

    unfoldable pub py_utrace_enable :
        BfdLib → Instance → Spawn → Tracing lib → World → Run (Bool × Where × Tracing lib × World)
    py_utrace_enable bfd inst spawn t w = generated bfd t >>= start_if_any inst spawn w

    -- What follows a successful `py_utrace_enable`.
    unfoldable pub wait_and_disable :
        WaitSystem
        → List Poll
        → Instance
        → Where
        → Tracing lib
        → World
        → Enabled (Tracing lib) World
    wait_and_disable sys polls inst place t w =
        elim (utrace_wait_pid sys polls t.pid t.trace_time) [
          | waiting ↦ still_waiting t w
          | returned ret pid steps ↦
              enabled place (record t { pid = pid }) (py_utrace_disable t.usystem inst w).1 steps
        ]

    unfoldable pub after_enable :
        WaitSystem
        → List Poll
        → Instance
        → Bool
        → Where
        → Tracing lib
        → World
        → Enabled (Tracing lib) World
    after_enable sys polls inst wait (in_program argv) t w = enabled (in_program argv) t w []
    after_enable sys polls inst wait in_python t w =
        if wait then wait_and_disable sys polls inst in_python t w else enabled in_python t w []
    after_enable sys polls inst wait in_child t w =
        if wait then wait_and_disable sys polls inst in_child t w else enabled in_child t w []

    unfoldable pub conclude :
        WaitSystem
        → List Poll
        → Instance
        → Bool
        → Bool × Where × Tracing lib × World
        → Run (Enabled (Tracing lib) World)
    conclude sys polls inst wait (ok, place, t, w) =
        done (if ok then after_enable sys polls inst wait place t w else refused t w)

    -- `PyUserTrace_enable`; there is no instance where `get_optional_instance` fails.
    unfoldable pub user_trace_enable :
        WaitSystem
        → List Poll
        → BfdLib
        → Option Instance
        → Spawn
        → Bool
        → Tracing lib
        → World
        → Run (Enabled (Tracing lib) World)
    user_trace_enable sys polls bfd none spawn wait t w = done (refused t w)
    user_trace_enable sys polls bfd (some inst) spawn wait t w =
        py_utrace_enable bfd inst spawn t w >>= conclude sys polls inst wait

    -- `PyUserTrace_disable`
    unfoldable pub user_trace_disable : Option Instance → Tracing lib → World → Bool × World
    user_trace_disable none t w = (false, w)
    user_trace_disable (some inst) t w = py_utrace_disable t.usystem inst w
