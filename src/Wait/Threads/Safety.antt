-- ===== src/Wait/Threads/Safety.antt =====
-- What has happened when `tc_wait_condition` has returned.
use trace_cruncher.Base.{ℕ, ◌≡◌, ◌||◌, true, false, List, ◌∙◌, refl, arith}
use trace_cruncher.Wait.Threads.{
  Main, Threads, MainStep, ThreadStep, ThreadRun, start_waiting, gone, no_job, handler, complete,
  main_step, next, job_step, here,
}
use trace_cruncher.Base.Int.{pos}
use trace_cruncher.Wait.Threads.Invariant.{
  uses_job, is_over, is_gone, Inv-start_waiting, main_guard, job_guard, ThreadRun-Inv,
}

not_gone : (m : Main) → m ≡ gone → is_gone m ≡ true
not_gone m e = ground arith

no-MainStep : {s t : Threads} → MainStep s t → s.main ≡ gone → ⊥
no-MainStep (no_job m) g = ground arith
no-MainStep st g = ground (arith, main_guard st)

still_gone :
    {s t : Threads}
    → ThreadStep s t
    → s.main ≡ gone
    → uses_job s.job ≡ false
    → (t.main ≡ gone) × (uses_job t.job ≡ false) × (t.completed ≡ s.completed)
still_gone (main_step st) g u = absurd (no-MainStep st g)
still_gone (job_step (complete r)) g u = ground arith
still_gone (job_step st) g u = ground (arith, job_guard st)
still_gone handler g u = (g, u, refl)

still_gone_run :
    {s t : Threads}
    → ThreadRun s t
    → s.main ≡ gone
    → uses_job s.job ≡ false
    → (t.main ≡ gone) × (uses_job t.job ≡ false) × (t.completed ≡ s.completed)
still_gone_run here g u = (g, u, refl)
still_gone_run (next r st) g u =
    let (g', u', c) = still_gone_run r g u in
    let (g'', u'', c') = still_gone st g' u' in (g'', u'', c' ∙ c)

-- If it has returned 0, then `tc_wait` was false: the wait was stopped, or every process was gone.
pub returned_zero :
    (pids : List ℕ) {s : Threads}
    → ThreadRun (start_waiting pids) s
    → s.ret ≡ pos 0
    → s.tc_wait ≡ false
returned_zero pids r z = (ThreadRun-Inv (Inv-start_waiting pids) r).stopped z

-- However the threads and the handlers interleave, when the function has returned, there is no thread
-- of a job, or it was joined, or it has set `job.completed`. And from then on it never uses the local
-- `job` of the function, so that `job.completed` has the same value in every later state.
pub returned_for_good :
    (pids : List ℕ) {s t : Threads}
    → ThreadRun (start_waiting pids) s
    → s.main ≡ gone
    → ThreadRun s t
    → (s.completed || is_over s.job ≡ true) × (uses_job t.job ≡ false) × (t.completed ≡ s.completed)
returned_for_good pids {s} r g later =
    let i = ThreadRun-Inv (Inv-start_waiting pids) r in
    let (g', u', c) = still_gone_run later g (i.waits (not_gone s.main g)) in
    (i.outcome (not_gone s.main g), u', c)
