-- ===== src/Utrace/Session/Laws.antt =====
-- When waiting for a traced process ends, and what it leaves behind.
use trace_cruncher.Base.{
  ℕ, ◌≡◌, refl, ◌⊎◌, inl, inr, Bool, true, false, ◌&&◌, ◌||◌, List, [], ◌∷◌, ◌++◌, some, arith,
  ◌==◌, if◌then◌else◌, Bool-cases,
}
use trace_cruncher.Base.Int.{ℤ, pos, negsuc, is_zero}
use trace_cruncher.Wait.{timer_period}
use trace_cruncher.Utrace.Session.{
  WaitSystem, Poll, Step, sigint_handler, sigint_default, create_timer, delete_timer, arm_timer,
  returned, poll_pid, poll_phase, utrace_wait_pid, sigrtmin_handler,
}

abbrev pub some_gone : List Poll → Bool
some_gone [] = false
some_gone (r ∷ rounds) = r.gone || some_gone rounds

abbrev pub some_stopped : List Poll → Bool
some_stopped [] = false
some_stopped (r ∷ rounds) = r.stopped || some_stopped rounds

-- The timer is not wanted, or each call for it succeeds.
abbrev pub timer_runs : WaitSystem → ℕ → Bool
timer_runs sys trace_time =
    (trace_time == 0) || (sys.timer_create && (sys.sigaction && sys.timer_settime))

abbrev pub timer_steps : ℕ → List Step
timer_steps trace_time =
    if trace_time == 0
    then []
    else create_timer ∷ sigrtmin_handler ∷ arm_timer (timer_period trace_time) ∷ delete_timer ∷ []

poll_pid_total :
    (rounds : List Poll) (pid : ℤ)
    → (some_gone rounds || some_stopped rounds) ≡ true
    → (pid' : ℤ) × (poll_pid rounds pid ≡ some pid')
      × (((pid' ≡ pos 0) × (some_gone rounds ≡ true))
          ⊎ ((pid' ≡ pid) × (some_stopped rounds ≡ true)))
unfolding poll_pid
poll_pid_total [] pid h = ground arith
poll_pid_total (r ∷ rounds) pid h = elim (Bool-cases r.gone) [
  | inl e ↦ (pos 0, ground arith, inl (refl, ground arith))
  | inr e ↦ elim (Bool-cases r.stopped) [
    | inl f ↦ (pid, ground arith, inr (refl, ground arith))
    | inr f ↦
        let (pid', found, why) = poll_pid_total rounds pid (ground arith) in
        (
          pid',
          ground (arith, found),
          elim why [
            | inl (zero_pid, g) ↦ inl (zero_pid, ground arith)
            | inr (same, g) ↦ inr (same, ground arith)
          ],
        )
  ]
]

-- For a PID that is set, and where each call for the timer succeeds or no timer is wanted, the wait
-- returns 0 as soon as a round finds the process gone or is stopped. The PID is cleared in the one
-- case and kept in the other. The handler of SIGINT is set and then the default; the timer is created,
-- armed and deleted, and the handler of its signal SIGRTMIN is set.
pub utrace_wait_pid_total :
    (sys : WaitSystem) (rounds : List Poll) (pid : ℤ) (trace_time : ℕ)
    → is_zero pid ≡ false
    → timer_runs sys trace_time ≡ true
    → (some_gone rounds || some_stopped rounds) ≡ true
    → (pid' : ℤ) × (utrace_wait_pid sys rounds pid trace_time
        ≡ returned (pos 0) pid' (sigint_handler ∷ (timer_steps trace_time ++ sigint_default ∷ [])))
      × (((pid' ≡ pos 0) × (some_gone rounds ≡ true))
          ⊎ ((pid' ≡ pid) × (some_stopped rounds ≡ true)))
unfolding utrace_wait_pid poll_phase
utrace_wait_pid_total sys rounds pid trace_time set runs ends =
    let (pid', found, why) = poll_pid_total rounds pid ends in
    (
      pid',
      (elim (Bool-cases (trace_time == 0)) [
        | inl e ↦ ground (arith, found)
        | inr e ↦ ground (arith, found)
      ]),
      why,
    )

-- Where a call for the timer fails the wait returns -1 at once, with the PID as it was. The handler of
-- SIGINT then stays set, and so does the timer if it was `timer_settime` that failed.
pub utrace_wait_pid_failed :
    (sys : WaitSystem) (rounds : List Poll) (pid : ℤ) (trace_time : ℕ)
    → is_zero pid ≡ false
    → timer_runs sys trace_time ≡ false
    → utrace_wait_pid sys rounds pid trace_time
      ≡ returned (negsuc 0) pid (
          sigint_handler
          ∷ (if sys.timer_create
              then create_timer
                ∷ (if sys.sigaction then sigrtmin_handler ∷ [] else delete_timer ∷ [])
              else []))
unfolding utrace_wait_pid
utrace_wait_pid_failed sys rounds pid trace_time set fails = ground arith
