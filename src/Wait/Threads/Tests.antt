-- ===== src/Wait/Threads/Tests.antt =====
use trace_cruncher.Base.{[], refl, ◌≤◌, ◌≡◌, false, ◌⊎◌, ◌||◌, true}
use trace_cruncher.Wait.Threads.{
  Threads, ThreadRun, start_waiting, here, next, main_step, job_step, handler, create_job, no_pids,
  stop_waiting, return_completed, returns_zero, complete, exit, gone,
}
use trace_cruncher.Wait.Threads.Invariant.{uses_job, is_over}
use trace_cruncher.Wait.Threads.Safety.{returned_for_good}
use trace_cruncher.Wait.Threads.Progress.{moves, CanMove, stops_waiting}

-- A signal comes while the function sleeps; the job ends before the function looks at it.
abbrev to_sleep : (t : Threads) × ThreadRun (start_waiting []) t
to_sleep = (_, next (next here (main_step (create_job refl))) (main_step (no_pids refl refl)))

abbrev signalled : (t : Threads) × ThreadRun (start_waiting []) t
signalled = (_, next to_sleep.1 handler)

abbrev to_return : (t : Threads) × ThreadRun (start_waiting []) t
to_return = (
  _,
  next
      (next
        (next (next signalled.1 (job_step (returns_zero refl)))
          (main_step (stop_waiting refl refl)))
        (job_step (complete refl)))
      (main_step (return_completed refl refl refl)),
)

abbrev to_exit : (t : Threads) × ThreadRun to_return.0 t
to_exit = (_, next here (job_step (exit refl)))

abbrev to_leave : (t : Threads) × ThreadRun signalled.0 t
to_leave = (_, next (next here (job_step (returns_zero refl))) (main_step (stop_waiting refl refl)))

returned_for_good_example :
    (to_return.0.completed || is_over to_return.0.job ≡ true)
    × (uses_job to_exit.0.job ≡ false)
    × (to_exit.0.completed ≡ to_return.0.completed)
returned_for_good_example = returned_for_good [] to_return.1 refl to_exit.1

stops_waiting_example : (moves to_leave.1 ≤ 14) × ((to_leave.0.main ≡ gone) ⊎ CanMove to_leave.0)
stops_waiting_example = stops_waiting [] signalled.1 refl to_leave.1
