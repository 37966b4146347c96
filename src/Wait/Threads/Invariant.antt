-- ===== src/Wait/Threads/Invariant.antt =====
-- What holds in every state that the threads of `tc_wait_condition` reach.
use trace_cruncher.Base.{ℕ, ◌≡◌, ◌≢◌, ◌||◌, Bool, true, false, List, refl, arith}
use trace_cruncher.Wait.Threads.{
  Main, JobThread, Threads, MainStep, JobStep, ThreadStep, ThreadRun, start_waiting, starting,
  leaving, cancelling, joining, gone, absent, running, stopping, finishing, exiting, ended, joined,
  no_job, handler, returns_zero, again, sleeping, look, polling, no_pids, create_fails, all_gone,
  return_alone, return_completed, not_completed, cancel, join, create_job, returns_other, complete,
  main_step, next, stop_waiting, stop_wait, job_step, here, exit, cancelled,
}
use trace_cruncher.Base.Int.{pos}

-- The thread may still read or write the local `job` of the function.
abbrev pub uses_job : JobThread → Bool
uses_job running = true
uses_job stopping = true
uses_job finishing = true
uses_job _ = false

abbrev pub exists_job : JobThread → Bool
exists_job absent = false
exists_job _ = true

-- There is no thread, or it was joined.
abbrev pub is_over : JobThread → Bool
is_over absent = true
is_over joined = true
is_over _ = false

exists-over : (j : JobThread) → exists_job j ≡ false → is_over j ≡ true
exists-over absent e = refl
exists-over running e = ground arith
exists-over stopping e = ground arith
exists-over finishing e = ground arith
exists-over exiting e = ground arith
exists-over ended e = ground arith
exists-over joined e = ground arith

-- The function has not read `job.completed` yet.
abbrev pub undecided : Main → Bool
undecided cancelling = false
undecided joining = false
undecided gone = false
undecided _ = true

-- It found `job.completed` to be false.
abbrev pub ending : Main → Bool
ending cancelling = true
ending joining = true
ending _ = false

abbrev pub is_gone : Main → Bool
is_gone gone = true
is_gone _ = false

abbrev pub is_starting : Main → Bool
is_starting starting = true
is_starting _ = false

pub record Inv (s : Threads) : Type 0 where
  pub started : is_starting s.main ≡ true → s.job ≡ absent
  pub runs : s.fjob_runs ≡ exists_job s.job
  pub waits : is_gone s.main ≡ true → uses_job s.job ≡ false
  pub done : s.completed ≡ true → uses_job s.job ≡ false
  pub flag : undecided s.main ≡ true → uses_job s.job ≡ false → s.job ≢ absent → s.completed ≡ true
  pub stopped : s.ret ≡ pos 0 → s.tc_wait ≡ false
  pub chosen : ending s.main ≡ true → s.fjob_runs ≡ true
  pub once : s.job ≡ joined → is_gone s.main ≡ true
  pub outcome : is_gone s.main ≡ true → s.completed || is_over s.job ≡ true

pub Inv-start_waiting : (pids : List ℕ) → Inv (start_waiting pids)
Inv-start_waiting pids = record {
  started = λ e. refl;
  runs = refl;
  waits = λ e. refl;
  done = λ e. refl;
  flag = λ e f n. absurd (n refl);
  stopped = λ e. ground arith;
  chosen = λ e. ground arith;
  once = λ e. ground arith;
  outcome = λ e. ground arith;
}

exists-uses : (j : JobThread) → exists_job j ≡ false → uses_job j ≡ false
exists-uses absent e = refl
exists-uses running e = ground arith
exists-uses stopping e = ground arith
exists-uses finishing e = ground arith
exists-uses exiting e = ground arith
exists-uses ended e = ground arith
exists-uses joined e = ground arith

-- The premises of a step of the function.
abbrev pub MainGuard : {s t : Threads} → MainStep s t → Type 0
MainGuard {s} (create_job m) = s.main ≡ starting
MainGuard {s} (again m w) = s.main ≡ sleeping
MainGuard {s} (stop_waiting m w) = (s.main ≡ sleeping) × (s.tc_wait ≡ false)
MainGuard {s} (look d m w) = s.main ≡ polling
MainGuard {s} (no_pids m w) = s.main ≡ polling
MainGuard {s} (no_job m) = s.main ≡ starting
MainGuard {s} (create_fails m) = s.main ≡ starting
MainGuard {s} (all_gone d m h p) = s.main ≡ polling
MainGuard {s} (return_alone m r) = (s.main ≡ leaving) × (s.fjob_runs ≡ false)
MainGuard {s} (return_completed m r c) = (s.main ≡ leaving) × (s.completed ≡ true)
MainGuard {s} (not_completed m r c) = (s.main ≡ leaving) × (s.fjob_runs ≡ true)
MainGuard {s} (cancel m) = s.main ≡ cancelling
MainGuard {s} (join m e) = (s.main ≡ joining) × (s.job ≡ ended)

pub main_guard : {s t : Threads} (st : MainStep s t) → MainGuard st
main_guard (create_job m) = m
main_guard (again m w) = m
main_guard (stop_waiting m w) = (m, w)
main_guard (look d m w) = m
main_guard (no_pids m w) = m
main_guard (no_job m) = m
main_guard (create_fails m) = m
main_guard (all_gone d m h p) = m
main_guard (return_alone m r) = (m, r)
main_guard (return_completed m r c) = (m, c)
main_guard (not_completed m r c) = (m, r)
main_guard (cancel m) = m
main_guard (join m e) = (m, e)

MainStep-Inv : {s t : Threads} → MainStep s t → Inv s → Inv t
MainStep-Inv (no_job m) i = record {
  started = λ e. ground arith;
  runs = i.runs;
  waits = λ e. ground arith;
  done = i.done;
  flag = λ e f n. ground (arith, i.flag);
  stopped = i.stopped;
  chosen = λ e. ground arith;
  once = λ e. ground (arith, i.once);
  outcome = λ e. ground arith;
}
MainStep-Inv {s} st i = record {
  started = λ e. ground (arith, main_guard st, i.started);
  runs = ground (arith, main_guard st, i.runs, i.started);
  waits = λ e. ground (arith, main_guard st, i.runs, i.waits, i.done, exists-uses s.job);
  done = λ e. ground (arith, main_guard st, i.done);
  flag = λ e f n. ground (arith, main_guard st, i.flag, i.started);
  stopped = λ e. ground (arith, main_guard st, i.stopped);
  chosen = λ e. ground (arith, main_guard st, i.chosen);
  once = λ e. ground (arith, main_guard st, i.once);
  outcome = λ e. ground (arith, main_guard st, i.outcome, i.runs, exists-over s.job);
}

abbrev pub JobGuard : {s t : Threads} → JobStep s t → Type 0
JobGuard {s} (returns_zero r) = s.job ≡ running
JobGuard {s} (returns_other r) = s.job ≡ running
JobGuard {s} (stop_wait r) = s.job ≡ stopping
JobGuard {s} (complete r) = s.job ≡ finishing
JobGuard {s} (exit r) = s.job ≡ exiting
JobGuard {s} (cancelled r m) = (s.job ≡ running) × (s.main ≡ joining)

pub job_guard : {s t : Threads} (st : JobStep s t) → JobGuard st
job_guard (returns_zero r) = r
job_guard (returns_other r) = r
job_guard (stop_wait r) = r
job_guard (complete r) = r
job_guard (exit r) = r
job_guard (cancelled r m) = (r, m)

JobStep-Inv : {s t : Threads} → JobStep s t → Inv s → Inv t
JobStep-Inv (complete r) i = record {
  started = λ e. ground (arith, i.started);
  runs = ground (arith, i.runs);
  waits = λ e. refl;
  done = λ e. refl;
  flag = λ e f n. refl;
  stopped = i.stopped;
  chosen = i.chosen;
  once = λ e. ground arith;
  outcome = λ e. ground arith;
}
JobStep-Inv {s} st i = record {
  started = λ e. ground (arith, job_guard st, i.started);
  runs = ground (arith, job_guard st, i.runs);
  waits = λ e. ground (arith, job_guard st, i.waits);
  done = λ e. ground (arith, job_guard st, i.done);
  flag = λ e f n. ground (arith, job_guard st, i.flag);
  stopped = λ e. ground (arith, i.stopped);
  chosen = i.chosen;
  once = λ e. ground (arith, job_guard st);
  outcome = λ e. ground (arith, job_guard st, i.outcome, i.waits);
}

ThreadStep-Inv : {s t : Threads} → ThreadStep s t → Inv s → Inv t
ThreadStep-Inv (main_step st) i = MainStep-Inv st i
ThreadStep-Inv (job_step st) i = JobStep-Inv st i
ThreadStep-Inv handler i = record {
  started = i.started;
  runs = i.runs;
  waits = i.waits;
  done = i.done;
  flag = i.flag;
  stopped = λ e. refl;
  chosen = i.chosen;
  once = i.once;
  outcome = i.outcome;
}

pub ThreadRun-Inv : {s t : Threads} → Inv s → ThreadRun s t → Inv t
ThreadRun-Inv i here = i
ThreadRun-Inv i (next r st) = ThreadStep-Inv st (ThreadRun-Inv i r)
