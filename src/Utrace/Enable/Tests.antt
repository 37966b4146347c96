-- ===== src/Utrace/Enable/Tests.antt =====
-- The user-space tracer with one event, at a concrete system that writes down what it is asked for.
use trace_cruncher.Base.{
  ℕ, ◌≡◌, refl, Bool, true, false, not, List, [], ◌∷◌, ◌++◌, some, none, ◌==◌, length, ◌⊎◌, Option,
  ◌+◌,
}
use trace_cruncher.Ftrace.{Tracefs}
use trace_cruncher.Dbg.Bfd.{BfdLib}
use trace_cruncher.Utrace.Probes.{Dynevents}
use trace_cruncher.Base.Int.{ℤ, pos}
use trace_cruncher.Utrace.Enable.{Tracing, Spawn, py_utrace_enable, Where, start}
use trace_cruncher.Utrace.Session.{Poll, WaitSystem}
use trace_cruncher.Text.{Str, codes}
use trace_cruncher.Trace.{parent}
use trace_cruncher.Alloc.{done}
use trace_cruncher.Utrace.Enable.Laws.{py_utrace_enable_total}

abbrev noting : Tracefs
noting = record {
  World = Str;
  Instance = Unit;
  file_exists = λ w inst file. true;
  dir_exists = λ w inst dir. false;
  file_write = λ inst file val w. (pos 1, w);
  file_append = λ inst file val w. (pos 1, w ++ codes "p");
  file_read = λ inst file w. (none, w);
  event_enable = λ inst system event w. (pos 0, w ++ codes "+");
  event_disable = λ inst system event w. (pos 0, w ++ codes "-");
  tracers = λ w inst. none;
  trace_on = λ inst w. (pos 0, w);
  trace_off = λ inst w. (pos 0, w);
  trace_is_on = λ w inst. pos 1;
  event_fork = λ inst on w. (pos 0, w);
  function_fork = λ inst on w. (pos 0, w);
  decimal = λ v. codes "7";
}

abbrev no_bfd : BfdLib
no_bfd = record {
  openr = λ _. none;
  nearest_function = λ _ _ _. none;
  demangle = λ _. none;
  fnmatch = λ _ _. false;
}

abbrev events : Dynevents
events = record {
  Dynevent = Str;
  World = ℕ;
  uprobe_alloc = λ system event file offset. some event;
  uretprobe_alloc = λ system event file offset. some event;
  create = λ event w. (true, w + 1);
}

abbrev tracing : ℤ → Option (List Str) → List Str → Tracing events
tracing pid argv entries = record {
  usystem = codes "tc";
  pid = pid;
  cmd_argv = argv;
  trace_time = 0;
  ufuncs = [];
  dbg = record { pid = pid; fname = none; fmaps = []; sym_count = 0; sym = []; files = [] };
  probes = record { uevents = record { size = 100; entries = entries }; mem = []; world = 0 };
}

abbrev one_event : Tracing events
one_event = tracing (pos 40) none (codes "main" ∷ [])

abbrev spawn : Spawn
spawn = record { fork = parent; child_pid = pos 41; exec = true }

abbrev polls : List Poll
polls = record { gone = false; stopped = false } ∷ record { gone = true; stopped = false } ∷ []

abbrev no_timer : WaitSystem
no_timer = record { timer_create = false; sigaction = false; timer_settime = false }

py_utrace_enable_total_example :
    (t' : Tracing events) × (ok : Bool) × (place : Where) × (w' : Str) × (py_utrace_enable noting
        events no_bfd tt spawn
        (tracing (pos 40) none [])
        []
      ≡ done (ok, place, t', w'))
    × (ok ≡ not (length t'.probes.uevents.entries == 0))
    × (((ok ≡ true) × (start noting (codes "tc") (pos 40) none tt spawn [] ≡ (place, t'.pid, w')))
        ⊎ ((ok ≡ false) × (w' ≡ [])))
    × (t'.ufuncs ≡ [])
    × (t'.usystem ≡ codes "tc")
    × (t'.cmd_argv ≡ none)
py_utrace_enable_total_example =
    py_utrace_enable_total noting events no_bfd tt spawn (tracing (pos 40) none []) [] refl tt tt
