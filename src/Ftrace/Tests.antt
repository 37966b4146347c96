-- ===== src/Ftrace/Tests.antt =====
-- The theorems on the tracefs operations for a concrete tracing system whose files share a text.
use trace_cruncher.Base.{
  ◌≡◌, refl, true, [], ◌∷◌, ◌++◌, some, length, not, ◌⊎◌, if◌then◌else◌, none, false,
}
use trace_cruncher.Base.Int.{pos, negsuc, is_neg}
use trace_cruncher.Text.{
  no_arg, given, bytes, is_set, is_all, is_no_arg, lax_cmp, Str, codes, str_eq,
}
use trace_cruncher.Py.{unicode, long, list}
use trace_cruncher.Ftrace.{Tracefs}
use trace_cruncher.Ftrace.Files.{append_to_file}
use trace_cruncher.Ftrace.Pids.{hook2pid, set_pid, set_pids, pid2file}
use trace_cruncher.Ftrace.Events.{names_all, get_event_enable_file, set_enable_events}
use trace_cruncher.Ftrace.Events.Laws.{run, requests, set_enable_events-run}
use trace_cruncher.Ftrace.ErrorLog.{
  LogLib, tfs_error_setstr, error_log, cannot_clear, get_instance_name, message,
}
use trace_cruncher.Ftrace.ErrorLog.Laws.{LawfulLog, Mentions, tfs_error_setstr-error_log}

-- The state is one text, that every file shares; all files exist but `pids`. The trace is always on.
abbrev shared_text : Tracefs
shared_text = record {
  World = Str;
  Instance = Unit;
  file_exists = λ w inst file. not (str_eq file (codes "pids"));
  dir_exists = λ w inst dir. str_eq dir (codes "events/sched");
  file_write = λ inst file val w. (pos (length val), val);
  file_append = λ inst file val w. (pos (length val), w ++ val);
  file_read = λ inst file w. (some (w ++ 10 ∷ []), w);
  event_enable = λ inst system event w. (pos 0, w ++ codes "e");
  event_disable = λ inst system event w. (negsuc 0, w);
  tracers = λ w inst. some (codes "nop" ∷ codes "function" ∷ []);
  trace_on = λ inst w. (pos 0, w);
  trace_off = λ inst w. (negsuc 0, w);
  trace_is_on = λ w inst. pos 1;
  event_fork = λ inst on w. (pos 0, w);
  function_fork = λ inst on w. (pos 0, w);
  decimal = λ v. codes "7";
}

all_set :
    (set_pid shared_text tt (codes "trace") (list (long (pos 3) ∷ long (pos 4) ∷ [])) []).0 ≡ true
unfolding set_pid set_pids pid2file append_to_file str_eq
all_set = refl

set_enable_events-run_example :
    set_enable_events shared_text tt true
      (some ((unicode (codes "sched"), list (unicode (codes "All") ∷ [])) ∷ []))
      []
    ≡ run shared_text tt true
        (requests ((unicode (codes "sched"), list (unicode (codes "All") ∷ [])) ∷ []))
        []
set_enable_events-run_example =
    set_enable_events-run shared_text tt true
      ((unicode (codes "sched"), list (unicode (codes "All") ∷ [])) ∷ []) []

hooked : (hook2pid shared_text tt (list (long (pos 3) ∷ long (pos 4) ∷ [])) (negsuc 0) []).0 ≡ true
unfolding hook2pid set_pid set_pids pid2file append_to_file str_eq
hooked = refl

sched_found :
    get_event_enable_file shared_text [] tt (given (codes "sched")) no_arg
    ≡ some (codes "events/sched/enable")
unfolding get_event_enable_file names_all str_eq is_set is_all is_no_arg lax_cmp bytes
sched_found = refl

-- A log that is a text, or empty, and can always be cleared.
abbrev one_log : LogLib shared_text
one_log = record {
  error_all = λ inst w. (if str_eq w [] then none else some w, false);
  error_clear = λ inst w. (pos 0, []);
  get_name = λ inst. none;
}

one_log_lawful : LawfulLog shared_text one_log
unfolding str_eq
one_log_lawful = record { clear_lem = λ inst w. refl }

tfs_error_setstr-error_log_example :
    ((Mentions shared_text one_log
        (codes "no")
        (tfs_error_setstr shared_text one_log tt (codes "no") (codes "bad") none).0)
      × ((error_log shared_text one_log tt
            (tfs_error_setstr shared_text one_log tt (codes "no") (codes "bad") none).1
            none).0
          ≡ some (codes "(nil)")))
    ⊎ (((is_neg (one_log.error_clear tt (codes "bad")).0 ≡ true)
          × ((tfs_error_setstr shared_text one_log tt (codes "no") (codes "bad") none).0
              ≡ some (cannot_clear (get_instance_name shared_text one_log tt))))
        ⊎ ((one_log.error_all tt (codes "bad") ≡ (none, true))
            × ((tfs_error_setstr shared_text one_log tt (codes "no") (codes "bad") none).0
                ≡ some (message (codes "no")))))
tfs_error_setstr-error_log_example =
    tfs_error_setstr-error_log shared_text one_log one_log_lawful tt (codes "no") (codes "bad") none
