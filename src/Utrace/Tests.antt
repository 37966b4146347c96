-- ===== src/Utrace/Tests.antt =====
-- The theorems on the user-space tracer at concrete inputs.
use trace_cruncher.Base.{
  ◌+◌, ◌*◌, ◌<◌, ◌≡◌, refl, true, false, ◌||◌, ◌&&◌, [], ◌∷◌, none, some, All, length, ℕ, List, ◌⊎◌,
}
use trace_cruncher.Base.Int.{pos, ℤ}
use trace_cruncher.Text.{codes, str_eq, fname_unify, strchr, is_alnum, Str}
use trace_cruncher.Text.Laws.{IsNameChar}
use trace_cruncher.Alloc.{alloc, done}
use trace_cruncher.Dbg.Requests.{has_name}
use trace_cruncher.Utrace.{
  ftrace_uprobe, ftrace_uretprobe, live, new_func, UtraceContext, add_to_known, add_type,
  py_utrace_add_func, uprobe_event_name, base_name, after_slash,
}
use trace_cruncher.Utrace.Probes.{Dynevents, Probes}
use trace_cruncher.Utrace.Generate.{py_utrace_generate_uprobes}
use trace_cruncher.Utrace.Generate.Laws.{Extends, file_symbols, generate_uprobes_total}
use trace_cruncher.Dbg.{match_exact}
use trace_cruncher.Dbg.Bfd.{BfdLib}
use trace_cruncher.Utrace.Session.{
  WaitSystem, Poll, returned, utrace_wait_pid, sigint_handler, sigint_default,
}
use trace_cruncher.Utrace.Session.Laws.{some_gone, some_stopped, utrace_wait_pid_total}
use trace_cruncher.Utrace.Names.{uprobe_event_name-IsNameChar}
use trace_cruncher.Utrace.Functions.{traces, same_type, add_func-traces}
use trace_cruncher.Dbg.Context.{Context}

abbrev context : UtraceContext
context = record {
  ufuncs = record { size = 100; entries = live (new_func (codes "main") ftrace_uprobe) ∷ [] };
  dbg = record { pid = pos 12; fname = none; fmaps = []; sym_count = 0; sym = []; files = [] };
}

abbrev both : UtraceContext
both = record context {
  ufuncs = record {
    size = 100;
    entries = live (record { uprobe = true; uretprobe = true; func_name = codes "main" }) ∷ [];
  };
}

type_added : py_utrace_add_func context (codes "main") ftrace_uretprobe [] ≡ done (true, both, [])
unfolding py_utrace_add_func add_to_known add_type new_func str_eq
type_added = refl

add_func-traces_example : traces ftrace_uprobe (codes "main") both.ufuncs.entries ≡ (
    traces ftrace_uprobe (codes "main") context.ufuncs.entries
    || (str_eq (codes "main") (codes "main") && same_type ftrace_uprobe ftrace_uretprobe))
add_func-traces_example =
    add_func-traces context both (codes "main") ftrace_uretprobe [] [] type_added ftrace_uprobe
      (codes "main")

exit_unknown : add_to_known (codes "exit") ftrace_uprobe context.ufuncs.entries ≡ done none
unfolding add_to_known new_func str_eq
exit_unknown = refl

read_unknown : add_to_known (codes "read") ftrace_uprobe context.ufuncs.entries ≡ done none
unfolding add_to_known new_func str_eq
read_unknown = refl

no_name : has_name (codes "exit") context.dbg.sym ≡ false
unfolding has_name
no_name = refl

named :
    uprobe_event_name (codes "/bin/a.out") (codes "f@1") ftrace_uretprobe []
    ≡ (some (codes "r_a_out_f_1"), [])
unfolding uprobe_event_name alloc base_name after_slash fname_unify strchr is_alnum
named = refl

uprobe_event_name-IsNameChar_example :
    All IsNameChar (codes "r_a_out_f_1") × (length (codes "r_a_out_f_1") < 64)
uprobe_event_name-IsNameChar_example =
    uprobe_event_name-IsNameChar (codes "/bin/a.out") (codes "f@1") ftrace_uretprobe [] []
      (codes "r_a_out_f_1") named

-- A bfd library that opens no file, and a tracing system that counts the events it creates.
abbrev no_files : BfdLib
no_files = record {
  openr = λ _. none;
  nearest_function = λ _ _ _. none;
  demangle = λ _. none;
  fnmatch = λ _ _. false;
}

abbrev counting : Dynevents
counting = record {
  Dynevent = Str;
  World = ℕ;
  uprobe_alloc = λ system event file offset. some event;
  uretprobe_alloc = λ system event file offset. some event;
  create = λ event w. (true, w + 1);
}

abbrev resolved : Context
resolved = record context.dbg {
  sym =
      record {
        symbol = record {
          name = some (codes "main");
          fname = some (codes "/bin/a");
          cookie = pos 0;
          vma_start = 0x1010;
          vma_near = 0;
          foffset = 0x50;
        };
        match_type = match_exact;
      }
      ∷ [];
  sym_count = 1;
}

abbrev probes : Probes counting
probes = record { uevents = record { size = 0; entries = [] }; mem = []; world = 0 }

generate_uprobes_total_example :
    (dbg' : Context) × (s' : Probes counting) × (py_utrace_generate_uprobes counting no_files
        (codes "tc")
        both.ufuncs.entries
        resolved
        probes
      ≡ done (dbg', s'))
    × Extends counting (2 * (length dbg'.sym + file_symbols dbg'.files)) probes s'
generate_uprobes_total_example =
    generate_uprobes_total counting no_files (codes "tc") both.ufuncs.entries resolved probes refl
      tt (tt, tt)

abbrev no_timer : WaitSystem
no_timer = record { timer_create = true; sigaction = true; timer_settime = false }

abbrev polls : List Poll
polls = record { gone = false; stopped = false } ∷ record { gone = true; stopped = false } ∷ []

utrace_wait_pid_total_example :
    (pid' : ℤ) × (utrace_wait_pid no_timer polls (pos 40) 0
      ≡ returned (pos 0) pid' (sigint_handler ∷ sigint_default ∷ []))
    × (((pid' ≡ pos 0) × (some_gone polls ≡ true))
        ⊎ ((pid' ≡ pos 40) × (some_stopped polls ≡ true)))
utrace_wait_pid_total_example = utrace_wait_pid_total no_timer polls (pos 40) 0 refl refl refl
