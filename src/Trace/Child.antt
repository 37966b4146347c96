-- ===== src/Trace/Child.antt =====
-- What the functions that trace a program end with: in the parent, in the child, and for SIGINT.
use trace_cruncher.Base.{
  ◌≡◌, refl, ap, Bool, true, false, List, [], ◌∷◌, ◌++◌, map, arith, some, none, Option,
  if◌then◌else◌, Option-cases, inl, inr, sym, ◌∙◌,
}
use trace_cruncher.Py.{other}
use trace_cruncher.Ftrace.{Tracefs}
use trace_cruncher.Trace.{
  Called, read_trace, Outcome, loop_outcome, trace_process, iterate_trace, returns, Ran, after_fork,
  exits, Ctx, iterate_raw_events_waitpid, run_child, Round, child_exits, start_tracing_procces,
  error, sig_dfl, child_execs, exited, init_callback_tep, stop_handler, ran, parent, child, going,
  child_returns, child_argv, sigint_after,
}
use trace_cruncher.Base.Int.{ℤ, pos, is_zero, is_neg, to_int}
use trace_cruncher.Py.{Item, list, unicode, long}
use trace_cruncher.Text.{Str, codes}
use trace_cruncher.Trace.Loop.{IsOver, iterate_rounds-ends}
use trace_cruncher.Ftrace.Pids.{hook2pid, set_pid, set_pids, pid2file, set_fork_options, as_long}
use trace_cruncher.Ftrace.Tracer.{tracing_on}
use trace_cruncher.Ftrace.Files.{append_to_file}

module _ {P : Type 0} where
  -- Back in Python, or Python has ended the process.
  abbrev pub IsFinished : Outcome P → Type 0
  IsFinished (returns py) = Unit
  IsFinished (exits code) = Unit
  IsFinished error = ⊥
  IsFinished going = ⊥
  IsFinished (child_exits code) = ⊥
  IsFinished (child_execs argv) = ⊥
  IsFinished child_returns = ⊥

  module _ {Event : Type 0} (py_callback : Event → P → Called × P) where
    loop_outcome-IsFinished :
        (m : Ran (Bool × Ctx P)) → IsOver py_callback m → IsFinished (loop_outcome m)
    unfolding loop_outcome
    loop_outcome-IsFinished (exited code) h = tt
    loop_outcome-IsFinished (ran (true, ctx)) h = tt
    loop_outcome-IsFinished (ran (false, ctx)) h = absurd (ground arith)

child_argv_sound :
    (xs : List Item) (args : List Str) → child_argv xs ≡ some args → map unicode args ≡ xs
unfolding child_argv trace_cruncher.Py.str_of_item
child_argv_sound [] args h = let q : args ≡ [] = ground arith in rw q refl
child_argv_sound (unicode s ∷ xs) args h = elim (Option-cases (child_argv xs)) [
  | inl e ↦ absurd (ground arith)
  | inr (ss, e) ↦
      let q : args ≡ s ∷ ss = ground arith in rw q (ap (◌∷◌ (unicode s)) (child_argv_sound xs ss e))
]
child_argv_sound (long v ∷ xs) args h = absurd (ground arith)
child_argv_sound (other ∷ xs) args h = absurd (ground arith)

child_argv_long : (args : List Str) (v : ℤ) → child_argv (map unicode args ++ long v ∷ []) ≡ none
unfolding child_argv trace_cruncher.Py.str_of_item
child_argv_long [] v = refl
child_argv_long (a ∷ args) v = rw (child_argv_long args v) refl

module _ (fs : Tracefs) {Event P : Type 0} (py_callback : Event → P → Called × P) where
  open fs use {World, Instance}

  -- A list that is traced in the parent, with the set-up successful, gets back to Python (or ends the
  -- process where the callback asks for that) as soon as a round finds the child to be gone, whatever
  -- the library reads and whatever the callback does.
  pub trace_process-IsFinished :
      (inst : Instance) (this_pid pid : ℤ) (argv : List Item) (exec : Bool)
      (before after : List (Round py_callback)) (r : Round py_callback) (py : P) (w : World)
      → (init_callback_tep fs inst true true this_pid w).0 ≡ true
      → r.ends ≡ true
      → IsFinished
          (trace_process fs py_callback inst true true this_pid
            (list argv)
            parent
            pid
            exec
            (before ++ r ∷ after)
            py
            w).0
  unfolding trace_process after_fork iterate_raw_events_waitpid
  trace_process-IsFinished inst this_pid pid argv exec before after r py w h e =
      rw h
        (loop_outcome-IsFinished py_callback _ (iterate_rounds-ends py_callback before after r _ e))

  child_execs_hooked :
      (inst : Instance) (func tep : Bool) (this_pid pid : ℤ) (argv : List Item) (exec : Bool)
      (rounds : List (Round py_callback)) (py : P) (w w' : World) (args : List Str)
      → trace_process fs py_callback inst func tep this_pid (list argv) child pid exec rounds py w
        ≡ (child_execs args, w')
      → (map unicode args ≡ argv)
        × ((hook2pid fs inst
              (list (long pid ∷ []))
              (pos 1)
              (init_callback_tep fs inst func tep this_pid w).1).0
            ≡ true)
        × ((tracing_on fs inst
              (hook2pid fs inst
                (list (long pid ∷ []))
                (pos 1)
                (init_callback_tep fs inst func tep this_pid w).1).1).1
            ≡ w')
  unfolding trace_process after_fork run_child start_tracing_procces
  child_execs_hooked inst func tep this_pid pid argv exec rounds py w w' args h =
      elim (Option-cases (child_argv argv)) [
        | inl e ↦ absurd (ground arith)
        | inr (args', e) ↦
            let q : args ≡ args' = ground arith in
            (rw q (child_argv_sound argv args' e), ground arith, ground arith)
      ]

  -- The size of the PID that was appended to each of the two files, the results of the two fork
  -- options, and what the system is like then.
  abbrev pub hooked : Instance → ℤ → World → ℤ × ℤ × ℤ × ℤ × World
  hooked inst pid w =
      let text = fs.decimal (to_int (as_long pid)) in
      let (ftrace_size, w₁) = append_to_file fs inst (codes "set_ftrace_pid") text w in
      let (event_size, w₂) = append_to_file fs inst (codes "set_event_pid") text w₁ in
      let (event, w₃) = fs.event_fork inst true w₂ in
      let (function, w₄) = fs.function_fork inst true w₃ in
      (ftrace_size, event_size, event, function, w₄)

  hook2pid-hooked :
      (inst : Instance) (pid : ℤ) (w : World)
      → (hook2pid fs inst (list (long pid ∷ [])) (pos 1) w).0 ≡ true
      → (is_zero (hooked inst pid w).0 ≡ false)
        × (is_zero (hooked inst pid w).1 ≡ false)
        × (is_neg (hooked inst pid w).2 ≡ false)
        × (is_neg (hooked inst pid w).3 ≡ false)
        × ((hook2pid fs inst (list (long pid ∷ [])) (pos 1) w).1 ≡ (hooked inst pid w).4)
  unfolding hook2pid set_pid set_pids pid2file set_fork_options
  hook2pid-hooked inst pid w h = (
    ground (arith, h),
    ground (arith, h),
    ground (arith, h),
    ground (arith, h),
    ground (arith, h),
  )

  -- A child that becomes the program runs it with the texts of the list as its arguments. Before that,
  -- and after the set-up of the tracing, the two calls that append its own PID to the files of PIDs
  -- gave a size other than 0 (which -1 is, for a missing file), those that set the two fork options
  -- gave no error, and then the trace was switched on, whatever came of that; these calls follow one
  -- another, and nothing was done in between or behind.
  pub trace_process-child_execs :
      (inst : Instance) (func tep : Bool) (this_pid pid : ℤ) (argv : List Item) (exec : Bool)
      (rounds : List (Round py_callback)) (py : P) (w w' : World) (args : List Str)
      → trace_process fs py_callback inst func tep this_pid (list argv) child pid exec rounds py w
        ≡ (child_execs args, w')
      → (map unicode args ≡ argv)
        × (let (ftrace_size, event_size, event, function, w'') =
              hooked inst pid (init_callback_tep fs inst func tep this_pid w).1 in
            (is_zero ftrace_size ≡ false)
            × (is_zero event_size ≡ false)
            × (is_neg event ≡ false)
            × (is_neg function ≡ false)
            × ((tracing_on fs inst w'').1 ≡ w'))
  trace_process-child_execs inst func tep this_pid pid argv exec rounds py w w' args h =
      let (texts, hook, on) =
        child_execs_hooked inst func tep this_pid pid argv exec rounds py w w' args h in
      let (a, b, c, d, e) =
        hook2pid-hooked inst pid (init_callback_tep fs inst func tep this_pid w).1 hook in
      (texts, (a, b, c, d, ap (λ x. (tracing_on fs inst x).1) (sym e) ∙ on))

  -- A list with an entry that is no text makes the child process return into Python, with the set-up
  -- successful: from there on two processes run the same Python program.
  pub trace_process-child_returns :
      (inst : Instance) (this_pid pid : ℤ) (args : List Str) (v : ℤ) (exec : Bool)
      (rounds : List (Round py_callback)) (py : P) (w : World)
      → (init_callback_tep fs inst true true this_pid w).0 ≡ true
      → (trace_process fs py_callback inst true true this_pid
          (list (map unicode args ++ long v ∷ []))
          child
          pid
          exec
          rounds
          py
          w).0
        ≡ child_returns
  unfolding trace_process after_fork run_child
  trace_process-child_returns inst this_pid pid args v exec rounds py w h =
      rw (h, child_argv_long args v) refl

  -- `iterate_trace` sets the handler of SIGINT back only where its loop ends: every error leaves it
  -- set, and a later SIGINT does not reach Python.
  pub iterate_trace_handler :
      (func : Bool) (inst : Option Instance) (this_pid : ℤ) (tep stopped : Bool)
      (rounds : List (Round py_callback)) (py : P) (w : World)
      → (iterate_trace fs py_callback func inst this_pid tep stopped rounds py w).1
        ≡ sigint_after (iterate_trace fs py_callback func inst this_pid tep stopped rounds py w).0
  unfolding iterate_trace sigint_after
  iterate_trace_handler func none this_pid tep stopped rounds py w = refl
  iterate_trace_handler func (some inst) this_pid tep stopped rounds py w = ground arith

-- The same for `read_trace`: exactly a successful call sets the handler back.
pub read_trace_handler :
    (fs : Tracefs) (print : fs.Instance → fs.World → ℤ × fs.World) (inst : Option fs.Instance)
    (this_pid : ℤ) (w : fs.World)
    → (read_trace fs print inst this_pid w).1
      ≡ (if (read_trace fs print inst this_pid w).0 then sig_dfl else stop_handler)
unfolding read_trace
read_trace_handler fs print none this_pid w = refl
read_trace_handler fs print (some inst) this_pid w = ground arith
