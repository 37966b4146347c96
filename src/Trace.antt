-- ===== src/Trace.antt =====
-- Tracing sessions of src/ftracepy-utils.c: `callback`, `iterate_raw_events_waitpid`,
-- `init_callback_tep`, `start_tracing_procces`, `PyFtrace_trace_shell_process`,
-- `PyFtrace_trace_process`, `PyFtrace_read_trace` and `PyFtrace_iterate_trace`, after their arguments
-- were parsed. Rounds of a loop are given as a list; one that runs out means that it goes on.
pub mod Loop
pub mod Child
mod Tests
use trace_cruncher.Base.{
  Bool, true, false, not, ◌&&◌, ◌||◌, List, [], ◌∷◌, Option, none, some, if◌then◌else◌,
}
use trace_cruncher.Base.Int.{ℤ, pos, is_neg, is_zero}
use trace_cruncher.Text.{Str, codes}
use trace_cruncher.Py.{Item, unicode, long, other, Obj, item, list, str_of_item}
use trace_cruncher.Ftrace.{Tracefs}
use trace_cruncher.Ftrace.Pids.{as_long, hook2pid, notrace_this_pid}
use trace_cruncher.Ftrace.Tracer.{tracing_on}

-- What calling a Python object gives: an object, an error that is printed (or no object and no error),
-- or `SystemExit` with its number, if its value is one.
pub data Called : Type 0 where
  gives : Obj → Called
  raises : Called
  system_exit : Option ℤ → Called

-- A run of C code that Python may end with `Py_Exit`.
pub data Ran (A : Type 0) : Type 0 where
  exited : ℤ → Ran A
  ran : A → Ran A

infixl 5 ◌>>=◌
abbrev pub ◌>>=◌ : {A B : Type 0} → Ran A → (A → Ran B) → Ran B
exited code >>= f = exited code
ran a >>= f = f a

-- `PyLong_CheckExact(ret) && PyLong_AsLong(ret) != 0`
unfoldable pub wants_stop : Obj → Bool
wants_stop (list xs) = false
wants_stop (item (unicode s)) = false
wants_stop (item other) = false
wants_stop (item (long v)) = not (is_zero (as_long v))

unfoldable pub exit_code : Option ℤ → ℤ
exit_code none = pos 0
exit_code (some v) = as_long v

-- `struct callback_context`, with the state of the Python program.
pub record Ctx (P : Type 0) : Type 0 where
  pub status : Bool
  pub py : P

module _ {Event P : Type 0} (py_callback : Event → P → Called × P) where
  unfoldable pub callback : Event → Ctx P → Ran (ℤ × Ctx P)
  callback event ctx =
      let (ret, py) = py_callback event ctx.py in
      elim ret [
        | gives o ↦
            if wants_stop o
            then ran (pos 1, record { status = false; py = py })
            else ran (pos 0, record ctx { py = py })
        | raises ↦ ran (pos 1, record { status = false; py = py })
        | system_exit v ↦ exited (exit_code v)
      ]

  -- A round of a loop: `tracefs_iterate_raw_events` as it runs with a callback on the events that are
  -- there, and whether the loop is told to end behind it, by `waitpid` or by the signal handler.
  pub record Round : Type 0 where
    pub iterate : (Event → Ctx P → Ran (ℤ × Ctx P)) → Ctx P → Ran (ℤ × Ctx P)
    pub ends : Bool

  -- The loop with its break, and whether it has ended.
  unfoldable pub iterate_rounds : List Round → Ctx P → Ran (Bool × Ctx P)
  iterate_rounds [] ctx = ran (false, ctx)
  iterate_rounds (r ∷ rounds) ctx = r.iterate callback ctx >>= (λ s.
      let rest = iterate_rounds rounds s.1 in
      if not (s.1.status) || is_neg s.0
      then ran (true, s.1)
      else (if r.ends then ran (true, s.1) else rest))

  unfoldable pub iterate_raw_events_waitpid : List Round → P → Ran (Bool × Ctx P)
  iterate_raw_events_waitpid rounds py = iterate_rounds rounds (record { status = true; py = py })

-- What is behind a `signal(SIGINT, ...)`.
pub data Sigint : Type 0 where
  sig_dfl stop_handler : Sigint

-- How a tracing function goes on: it raises an error, it is still in its loop, Python has ended the
-- process, or it returns; the child process may end, become the program, or return into Python.
pub data Outcome (P : Type 0) : Type 0 where
  error going : Outcome P
  exits : ℤ → Outcome P
  returns : P → Outcome P
  child_exits : ℤ → Outcome P
  child_execs : List Str → Outcome P
  child_returns : Outcome P

unfoldable pub loop_outcome : {P : Type 0} → Ran (Bool × Ctx P) → Outcome P
loop_outcome (exited code) = exits code
loop_outcome (ran (over, ctx)) = if over then returns (ctx.py) else going

-- The handler is set back behind the loop only.
unfoldable pub sigint_after : {P : Type 0} → Outcome P → Sigint
sigint_after (returns py) = sig_dfl
sigint_after error = stop_handler
sigint_after going = stop_handler
sigint_after (exits code) = stop_handler
sigint_after (child_exits code) = stop_handler
sigint_after (child_execs argv) = stop_handler
sigint_after child_returns = stop_handler

-- What `fork` gives: an error, or the one or the other process.
pub data Fork : Type 0 where
  fork_failed child parent : Fork

-- The loop of the child over the arguments: `none` is the `return NULL`.
unfoldable pub child_argv : List Item → Option (List Str)
child_argv [] = some []
child_argv (x ∷ xs) = elim (str_of_item x) [
  | none ↦ none
  | some arg ↦ elim (child_argv xs) [ none ↦ none | some args ↦ some (arg ∷ args) ]
]

module _ (fs : Tracefs) where
  open fs use {World, Instance}

  -- `func` is whether the callback was found, `tep` whether there is a handle, `pid` is `getpid()`.
  unfoldable pub init_callback_tep : Instance → Bool → Bool → ℤ → World → Bool × World
  init_callback_tep inst func tep pid w =
      if func && tep then notrace_this_pid fs inst pid w else (false, w)

  -- `exec` is whether the program can be executed.
  unfoldable pub start_tracing_procces :
      {P : Type 0} → Instance → List Str → ℤ → Bool → World → Outcome P × World
  start_tracing_procces inst argv pid exec w =
      let (ok, w₁) = hook2pid fs inst (list (long pid ∷ [])) (pos 1) w in
      if ok
      then (if exec then child_execs argv else child_exits (pos 1), (tracing_on fs inst w₁).1)
      else (child_exits (pos 1), w₁)

  unfoldable pub run_child :
      {P : Type 0} → Instance → Option (List Str) → ℤ → Bool → World → Outcome P × World
  run_child inst none pid exec w = (child_returns, w)
  run_child inst (some argv) pid exec w = start_tracing_procces inst argv pid exec w

  module _ {Event P : Type 0} (py_callback : Event → P → Called × P) where
    -- What follows the fork. `pid` is the PID of the child.
    unfoldable pub after_fork :
        Instance
        → Option (List Str)
        → Fork
        → ℤ
        → Bool
        → List (Round py_callback)
        → P
        → World
        → Outcome P × World
    after_fork inst argv fork_failed pid exec rounds py w = (error, w)
    after_fork inst argv child pid exec rounds py w = run_child inst argv pid exec w
    after_fork inst argv parent pid exec rounds py w =
        (loop_outcome (iterate_raw_events_waitpid py_callback rounds py), w)

    unfoldable pub trace_shell_process :
        Instance
        → Bool
        → Bool
        → ℤ
        → Str
        → Str
        → Fork
        → ℤ
        → Bool
        → List (Round py_callback)
        → P
        → World
        → Outcome P × World
    trace_shell_process inst func tep this_pid shell process fork pid exec rounds py w =
        let (ok, w') = init_callback_tep inst func tep this_pid w in
        if ok
        then after_fork inst (some (shell ∷ codes "-c" ∷ process ∷ [])) fork pid exec rounds py w'
        else (error, w')

    unfoldable pub trace_process :
        Instance
        → Bool
        → Bool
        → ℤ
        → Obj
        → Fork
        → ℤ
        → Bool
        → List (Round py_callback)
        → P
        → World
        → Outcome P × World
    trace_process inst func tep this_pid (item x) fork pid exec rounds py w =
        (error, (init_callback_tep inst func tep this_pid w).1)
    trace_process inst func tep this_pid (list argv) fork pid exec rounds py w =
        let (ok, w') = init_callback_tep inst func tep this_pid w in
        if ok then after_fork inst (child_argv argv) fork pid exec rounds py w' else (error, w')

    -- The outcome, the handler that is left, and the system. `stopped` is a SIGINT before the loop.
    unfoldable pub iterate_trace :
        Bool
        → Option Instance
        → ℤ
        → Bool
        → Bool
        → List (Round py_callback)
        → P
        → World
        → Outcome P × Sigint × World
    iterate_trace func none this_pid tep stopped rounds py w = (error, stop_handler, w)
    iterate_trace func (some inst) this_pid tep stopped rounds py w =
        if func
        then (let (ok, w₁) = notrace_this_pid fs inst this_pid w in
            if ok && tep
            then (let outcome =
                  if stopped
                  then returns py
                  else loop_outcome
                      (iterate_rounds py_callback rounds (record { status = true; py = py })) in
                (outcome, sigint_after outcome, (tracing_on fs inst w₁).1))
            else (error, stop_handler, w₁))
        else (error, stop_handler, w)

  -- `print` is `tracefs_trace_pipe_print`.
  unfoldable pub read_trace :
      (Instance → World → ℤ × World) → Option Instance → ℤ → World → Bool × Sigint × World
  read_trace print none this_pid w = (false, stop_handler, w)
  read_trace print (some inst) this_pid w =
      let (ok, w₁) = notrace_this_pid fs inst this_pid w in
      let (ret, w₃) = print inst (tracing_on fs inst w₁).1 in
      if ok
      then (if is_neg ret then (false, stop_handler, w₃) else (true, sig_dfl, w₃))
      else (false, stop_handler, w₁)
