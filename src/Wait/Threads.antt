-- ===== src/Wait/Threads.antt =====
-- The threads of `tc_wait_condition`: the function itself, the thread of `run_user_job`, and the
-- handlers `wait_stop` and `wait_timer`, which interleave over `tc_wait` and the local `job`. A step is
-- one access to what they share. The function starts after `tc_wait = true`. What `fjob` does inside is
-- no step: that it returns, or comes to a point where it can be cancelled, is left to it.
pub mod Invariant
pub mod Safety
pub mod Progress
mod Tests
use trace_cruncher.Base.{ℕ, ◌≡◌, Bool, true, false, List}
use trace_cruncher.Base.Int.{ℤ, pos, negsuc}
use trace_cruncher.Wait.{poll, has_pids}

-- Where the function stands.
pub data Main : Type 0 where
  starting : Main  -- before "Run the user callback in the background"
  polling : Main  -- the body of the wait loop
  sleeping : Main  -- the `usleep`, before the test of `tc_wait`
  leaving : Main  -- the label `out`
  cancelling : Main  -- `job.completed` was false
  joining : Main  -- after `pthread_cancel`
  gone : Main  -- it has returned

-- Where the thread of the job stands.
pub data JobThread : Type 0 where
  absent : JobThread
  running : JobThread  -- in `fjob`
  stopping : JobThread  -- `fjob` returned other than 0, before `tc_wait = false`
  finishing : JobThread  -- before `job->completed = true`
  exiting : JobThread  -- before `pthread_exit`
  ended : JobThread  -- not joined yet
  joined : JobThread

-- What is shared, and the locals of the function.
pub record Threads : Type 0 where
  pub tc_wait : Bool
  pub completed : Bool
  pub main : Main
  pub job : JobThread
  pub sh_pids : List ℕ
  pub fjob_runs : Bool
  pub ret : ℤ

-- The steps of the function. `dead` says which processes are gone when it looks.
pub data MainStep (s : Threads) : Threads → Type 0 where
  no_job : s.main ≡ starting → MainStep s (record s { main = polling })
  create_job :
      s.main ≡ starting
      → MainStep s (record s { main = polling; job = running; completed = false; fjob_runs = true })
  create_fails : s.main ≡ starting → MainStep s (record s { main = leaving })
  all_gone :
      (dead : ℕ → Bool)
      → s.main ≡ polling
      → has_pids s.sh_pids ≡ true
      → (poll dead 0 s.sh_pids).1 ≡ true
      → MainStep s (record s { main = leaving; tc_wait = false; ret = pos 0 })
  look :
      (dead : ℕ → Bool)
      → s.main ≡ polling
      → (poll dead 0 s.sh_pids).1 ≡ false
      → MainStep s (record s { main = sleeping; sh_pids = (poll dead 0 s.sh_pids).0 })
  no_pids :
      s.main ≡ polling → has_pids s.sh_pids ≡ false → MainStep s (record s { main = sleeping })
  again : s.main ≡ sleeping → s.tc_wait ≡ true → MainStep s (record s { main = polling })
  stop_waiting :
      s.main ≡ sleeping → s.tc_wait ≡ false → MainStep s (record s { main = leaving; ret = pos 0 })
  return_alone : s.main ≡ leaving → s.fjob_runs ≡ false → MainStep s (record s { main = gone })
  return_completed :
      s.main ≡ leaving
      → s.fjob_runs ≡ true
      → s.completed ≡ true
      → MainStep s (record s { main = gone })
  not_completed :
      s.main ≡ leaving
      → s.fjob_runs ≡ true
      → s.completed ≡ false
      → MainStep s (record s { main = cancelling })
  cancel : s.main ≡ cancelling → MainStep s (record s { main = joining })
  join : s.main ≡ joining → s.job ≡ ended → MainStep s (record s { main = gone; job = joined })

-- The steps of the job's thread. The cancellation is deferred: it acts inside `fjob` only.
pub data JobStep (s : Threads) : Threads → Type 0 where
  returns_zero : s.job ≡ running → JobStep s (record s { job = finishing })
  returns_other : s.job ≡ running → JobStep s (record s { job = stopping })
  stop_wait : s.job ≡ stopping → JobStep s (record s { job = finishing; tc_wait = false })
  complete : s.job ≡ finishing → JobStep s (record s { job = exiting; completed = true })
  exit : s.job ≡ exiting → JobStep s (record s { job = ended })
  cancelled : s.job ≡ running → s.main ≡ joining → JobStep s (record s { job = ended })

-- `handler` is `wait_stop` or `wait_timer`; they run between any two other steps.
pub data ThreadStep (s : Threads) : Threads → Type 0 where
  main_step : {t : Threads} → MainStep s t → ThreadStep s t
  job_step : {t : Threads} → JobStep s t → ThreadStep s t
  handler : ThreadStep s (record s { tc_wait = false })

pub data ThreadRun (s : Threads) : Threads → Type 0 where
  here : ThreadRun s s
  next : {t u : Threads} → ThreadRun s t → ThreadStep t u → ThreadRun s u

-- The function after `tc_wait = true`.
abbrev pub start_waiting : List ℕ → Threads
start_waiting pids = record {
  tc_wait = true;
  completed = false;
  main = starting;
  job = absent;
  sh_pids = pids;
  fjob_runs = false;
  ret = negsuc 0;
}
