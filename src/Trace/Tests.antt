-- ===== src/Trace/Tests.antt =====
-- Sessions at concrete inputs. The Python program collects the events that it is given, and stops at
-- an event 9.
use trace_cruncher.Base.{
  ℕ, ◌≡◌, refl, ◌==◌, Bool, true, false, List, [], ◌∷◌, ◌++◌, map, none, if◌then◌else◌,
}
use trace_cruncher.Trace.{
  ran, Called, Round, wants_stop, iterate_raw_events_waitpid, trace_process, iterate_trace,
  read_trace, gives, sigint_after, sig_dfl, ◌>>=◌, parent, stop_handler, init_callback_tep, child,
  child_returns,
}
use trace_cruncher.Trace.Loop.{Batch, visit_events, until_stop, stream, finish, iterate-until_stop}
use trace_cruncher.Ftrace.{Tracefs}
use trace_cruncher.Py.{unicode, item, list, long, other}
use trace_cruncher.Trace.Child.{
  IsFinished, trace_process-IsFinished, trace_process-child_execs, hooked,
}
use trace_cruncher.Base.Int.{pos, is_zero, is_neg}
use trace_cruncher.Ftrace.Pids.{as_long, hook2pid}
use trace_cruncher.Text.{codes}
use trace_cruncher.Ftrace.Tracer.{tracing_on}

abbrev collect : ℕ → List ℕ → Called × List ℕ
collect e seen = (gives (if e == 9 then item (long (pos 1)) else item other), seen ++ e ∷ [])

abbrev batch : List ℕ → Batch collect
batch events = record { events = events; ret = pos 0; stop_ret = pos 0 }

abbrev round : List ℕ → Bool → Round collect
round events ends = record {
  iterate = λ f ctx. visit_events collect f (pos 0) (pos 0) events ctx;
  ends = ends;
}

abbrev rounds : List (Round collect × Batch collect)
rounds =
    (round (1 ∷ 2 ∷ []) false, batch (1 ∷ 2 ∷ []))
    ∷ (round (3 ∷ 9 ∷ 4 ∷ []) false, batch (3 ∷ 9 ∷ 4 ∷ []))
    ∷ (round (5 ∷ []) true, batch (5 ∷ []))
    ∷ []

stops_at_nine : until_stop collect (stream collect rounds).0 [] ≡ ran (true, 1 ∷ 2 ∷ 3 ∷ 9 ∷ [])
unfolding wants_stop as_long
stops_at_nine = refl

iterate-until_stop_example :
    iterate_raw_events_waitpid collect (map (λ r. r.0) rounds) []
    ≡ until_stop collect (stream collect rounds).0 [] >>= finish collect (stream collect rounds).1
iterate-until_stop_example =
    iterate-until_stop collect rounds [] (λ f ctx. refl, (λ f ctx. refl, (λ f ctx. refl, tt)))

-- Every file is there, and the system keeps nothing.
abbrev silent : Tracefs
silent = record {
  World = Unit;
  Instance = Unit;
  file_exists = λ w inst file. true;
  dir_exists = λ w inst dir. false;
  file_write = λ inst file val w. (pos 1, w);
  file_append = λ inst file val w. (pos 1, w);
  file_read = λ inst file w. (none, w);
  event_enable = λ inst system event w. (pos 0, w);
  event_disable = λ inst system event w. (pos 0, w);
  tracers = λ w inst. none;
  trace_on = λ inst w. (pos 0, w);
  trace_off = λ inst w. (pos 0, w);
  trace_is_on = λ w inst. pos 1;
  event_fork = λ inst on w. (pos 0, w);
  function_fork = λ inst on w. (pos 0, w);
  decimal = λ v. codes "7";
}

trace_process-IsFinished_example :
    IsFinished
      (trace_process silent collect tt true true
        (pos 7)
        (list (unicode (codes "ls") ∷ []))
        parent
        (pos 8)
        true
        (round (1 ∷ []) false ∷ round [] true ∷ round (2 ∷ []) false ∷ [])
        []
        tt).0
unfolding init_callback_tep trace_cruncher.Ftrace.Pids.notrace_this_pid
    trace_cruncher.Ftrace.Pids.pid2file trace_cruncher.Ftrace.Files.append_to_file
trace_process-IsFinished_example =
    trace_process-IsFinished silent collect tt (pos 7) (pos 8) (unicode (codes "ls") ∷ []) true
      (round (1 ∷ []) false ∷ []) (round (2 ∷ []) false ∷ []) (round [] true) [] tt refl refl

trace_process-child_execs_example :
    (map unicode (codes "ls" ∷ []) ≡ unicode (codes "ls") ∷ [])
    × (let (ftrace_size, event_size, event, function, w'') =
          hooked silent collect tt (pos 8) (init_callback_tep silent tt true true (pos 7) tt).1 in
        (is_zero ftrace_size ≡ false)
        × (is_zero event_size ≡ false)
        × (is_neg event ≡ false)
        × (is_neg function ≡ false)
        × ((tracing_on silent tt w'').1 ≡ tt))
unfolding trace_process init_callback_tep trace_cruncher.Ftrace.Pids.notrace_this_pid
    trace_cruncher.Ftrace.Pids.pid2file trace_cruncher.Ftrace.Files.append_to_file
    trace_cruncher.Trace.after_fork trace_cruncher.Trace.run_child trace_cruncher.Trace.child_argv
    trace_cruncher.Py.str_of_item trace_cruncher.Trace.start_tracing_procces hook2pid
    trace_cruncher.Ftrace.Pids.set_pid trace_cruncher.Ftrace.Pids.set_pids
    trace_cruncher.Ftrace.Pids.set_fork_options
trace_process-child_execs_example =
    trace_process-child_execs silent collect tt true true (pos 7) (pos 8)
      (unicode (codes "ls") ∷ []) true [] [] tt tt (codes "ls" ∷ []) refl
