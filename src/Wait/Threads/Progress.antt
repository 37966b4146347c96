-- ===== src/Wait/Threads/Progress.antt =====
-- How long `tc_wait_condition` goes on once `tc_wait` is false.
use trace_cruncher.Base.{
  ℕ, ◌+◌, ◌≤◌, ◌<◌, ◌≡◌, false, List, refl, arith, ◌⊎◌, inl, inr, Bool-cases, suc,
}
use trace_cruncher.Wait.Threads.{
  Main, JobThread, Threads, MainStep, JobStep, ThreadRun, start_waiting, starting, polling,
  sleeping, leaving, cancelling, joining, gone, absent, running, stopping, finishing, exiting,
  ended, joined, no_job, join, create_job, again, here, next, main_step, job_step, handler,
  create_job, returns_zero, again, cancelled, return_alone, stop_waiting, cancel, stop_wait,
  return_completed, no_pids, complete, not_completed, exit, all_gone, look,
}
use trace_cruncher.Wait.Threads.Invariant.{
  Inv, main_guard, job_guard, ThreadRun-Inv, Inv-start_waiting,
}
use trace_cruncher.Wait.{has_pids, poll}

-- The steps that are left where `tc_wait` is false.
abbrev pub main_rank : Main → ℕ
main_rank starting = 10
main_rank polling = 5
main_rank sleeping = 4
main_rank leaving = 3
main_rank cancelling = 2
main_rank joining = 1
main_rank gone = 0

abbrev pub job_rank : JobThread → ℕ
job_rank running = 4
job_rank stopping = 3
job_rank finishing = 2
job_rank exiting = 1
job_rank _ = 0

abbrev pub rank : Threads → ℕ
rank s = main_rank s.main + job_rank s.job

-- The steps of a run that no handler made.
abbrev pub moves : {s t : Threads} → ThreadRun s t → ℕ
moves here = 0
moves (next r (main_step _)) = suc (moves r)
moves (next r (job_step _)) = suc (moves r)
moves (next r handler) = moves r

MainStep-rank :
    {s t : Threads} → MainStep s t → s.tc_wait ≡ false → (rank t < rank s) × (t.tc_wait ≡ false)
MainStep-rank (no_job m) w = ground arith
MainStep-rank (create_job m) w = ground (arith)
MainStep-rank (again m e) w = ground arith
MainStep-rank st w = ground (arith, main_guard st)

JobStep-rank :
    {s t : Threads} → JobStep s t → s.tc_wait ≡ false → (rank t < rank s) × (t.tc_wait ≡ false)
JobStep-rank (returns_zero r) w = ground arith
JobStep-rank st w = ground (arith, job_guard st)

-- Once `tc_wait` is false, all threads together make at most `rank s` more steps.
ThreadRun-rank :
    {s t : Threads} (r : ThreadRun s t)
    → s.tc_wait ≡ false
    → (moves r + rank t ≤ rank s) × (t.tc_wait ≡ false)
ThreadRun-rank here w = (omega arith, w)
ThreadRun-rank (next r (main_step st)) w =
    let (l, w') = ThreadRun-rank r w in let (l', w'') = MainStep-rank st w' in (omega arith, w'')
ThreadRun-rank (next r (job_step st)) w =
    let (l, w') = ThreadRun-rank r w in let (l', w'') = JobStep-rank st w' in (omega arith, w'')
ThreadRun-rank (next r handler) w = ((ThreadRun-rank r w).0, refl)

-- A step that is not a handler's.
abbrev pub CanMove : Threads → Type 0
CanMove s = (t : Threads) × (MainStep s t ⊎ JobStep s t)

no_job_to_join : (s : Threads) → Inv s → s.main ≡ joining → s.job ≡ absent → ⊥
no_job_to_join s i m j = ground (arith, i.chosen, i.runs)

not_joined_twice : (s : Threads) → Inv s → s.main ≡ joining → s.job ≡ joined → ⊥
not_joined_twice s i m j = ground (arith, i.once)

-- Whatever the thread of the job does, the `pthread_join` comes to its end.
can_join : (s : Threads) → Inv s → s.main ≡ joining → (j : JobThread) → s.job ≡ j → CanMove s
can_join s i m absent e = absurd (no_job_to_join s i m e)
can_join s i m running e = (_, inr (cancelled e m))
can_join s i m stopping e = (_, inr (stop_wait e))
can_join s i m finishing e = (_, inr (complete e))
can_join s i m exiting e = (_, inr (exit e))
can_join s i m ended e = (_, inl (join m e))
can_join s i m joined e = absurd (not_joined_twice s i m e)

can_leave : (s : Threads) → s.main ≡ leaving → CanMove s
can_leave s m = elim (Bool-cases s.fjob_runs) [
  | inr f ↦ (_, inl (return_alone m f))
  | inl f ↦ elim (Bool-cases s.completed) [
    | inl c ↦ (_, inl (return_completed m f c))
    | inr c ↦ (_, inl (not_completed m f c))
  ]
]

can_look : (s : Threads) → s.main ≡ polling → CanMove s
can_look s m = elim (Bool-cases (has_pids s.sh_pids)) [
  | inr h ↦ (_, inl (no_pids m h))
  | inl h ↦ elim (Bool-cases (poll (λ i. false) 0 s.sh_pids).1) [
    | inl p ↦ (_, inl (all_gone (λ i. false) m h p))
    | inr p ↦ (_, inl (look (λ i. false) m p))
  ]
]

can_wake : (s : Threads) → s.main ≡ sleeping → CanMove s
can_wake s m = elim (Bool-cases s.tc_wait) [
  | inl w ↦ (_, inl (again m w))
  | inr w ↦ (_, inl (stop_waiting m w))
]

can_move : (s : Threads) → Inv s → (m : Main) → s.main ≡ m → (s.main ≡ gone) ⊎ CanMove s
can_move s i starting e = inr (_, inl (no_job e))
can_move s i polling e = inr (can_look s e)
can_move s i sleeping e = inr (can_wake s e)
can_move s i leaving e = inr (can_leave s e)
can_move s i cancelling e = inr (_, inl (cancel e))
can_move s i joining e = inr (can_join s i e s.job refl)
can_move s i gone e = inl e

-- However the threads interleave, once `tc_wait` is false the function and the thread of the job make
-- at most fourteen more steps; and wherever a run stands, the function has returned or one of the two
-- has a step.
pub stops_waiting :
    (pids : List ℕ) {s t : Threads}
    → ThreadRun (start_waiting pids) s
    → s.tc_wait ≡ false
    → (later : ThreadRun s t) → (moves later ≤ 14) × ((t.main ≡ gone) ⊎ CanMove t)
stops_waiting pids {s} {t} r w later =
    let i = ThreadRun-Inv (ThreadRun-Inv (Inv-start_waiting pids) r) later in
    let (l, w') = ThreadRun-rank later w in
    (omega (arith, l, main_rank_le s.main, job_rank_le s.job), can_move t i t.main refl)
  where
    main_rank_le : (m : Main) → main_rank m ≤ 10
    main_rank_le m = ground arith

    job_rank_le : (j : JobThread) → job_rank j ≤ 4
    job_rank_le j = ground arith
