-- ===== src/Utrace/Session.antt =====
-- `utrace_wait_pid` of src/ftracepy-utils.c. What the system answers is in `WaitSystem`; what the
-- function does to the process is a list of effects. A list of rounds that runs out means that it is
-- still waiting.
pub mod Laws
use trace_cruncher.Base.{
  ℕ, Bool, true, false, List, [], ◌∷◌, ◌++◌, Option, none, some, ◌==◌, if◌then◌else◌,
}
use trace_cruncher.Base.Int.{ℤ, pos, negsuc, is_zero}
use trace_cruncher.Wait.{timer_period}

pub record WaitSystem : Type 0 where
  pub timer_create : Bool
  pub sigaction : Bool
  pub timer_settime : Bool

-- A round of the loop: whether the process is found to be gone, by `waitpid` or by `kill`, and
-- whether the signal or the timer has cleared `tracing_run` at the end of it.
pub record Poll : Type 0 where
  pub gone : Bool
  pub stopped : Bool

pub data Step : Type 0 where
  sigint_handler sigint_default sigrtmin_handler create_timer delete_timer : Step
  arm_timer : ℕ × ℕ → Step

-- The return value, `utrace->pid` and the effects.
pub data Waited : Type 0 where
  returned : ℤ → ℤ → List Step → Waited
  waiting : Waited

-- The do-while loop, with the PID that it leaves.
unfoldable pub poll_pid : List Poll → ℤ → Option ℤ
poll_pid [] pid = none
poll_pid (r ∷ rounds) pid =
    let rest = poll_pid rounds pid in
    if r.gone then some (pos 0) else (if r.stopped then some pid else rest)

-- The loop and what follows it.
unfoldable pub poll_phase : List Poll → ℤ → ℕ → List Step → Waited
poll_phase rounds pid trace_time steps = elim (poll_pid rounds pid) [
  | none ↦ waiting
  | some pid' ↦
      returned (pos 0) pid'
        (steps ++ ((if trace_time == 0 then [] else delete_timer ∷ []) ++ sigint_default ∷ []))
]

-- `trace_time` is an `unsigned int`. The handler of SIGRTMIN, which the timer sends, is never reset.
unfoldable pub utrace_wait_pid : WaitSystem → List Poll → ℤ → ℕ → Waited
utrace_wait_pid sys rounds pid trace_time =
    if is_zero pid
    then returned (negsuc 0) pid []
    else (if trace_time == 0
        then poll_phase rounds pid trace_time (sigint_handler ∷ [])
        else (if sys.timer_create
            then (if sys.sigaction
                then (if sys.timer_settime
                    then poll_phase rounds pid trace_time (
                        sigint_handler
                        ∷ create_timer
                        ∷ sigrtmin_handler
                        ∷ arm_timer (timer_period trace_time)
                        ∷ [])
                    else returned (negsuc 0) pid
                        (sigint_handler ∷ create_timer ∷ sigrtmin_handler ∷ []))
                else returned (negsuc 0) pid (sigint_handler ∷ create_timer ∷ delete_timer ∷ []))
            else returned (negsuc 0) pid (sigint_handler ∷ [])))
