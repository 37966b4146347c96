-- ===== src/Wait/Loop.antt =====
-- The wait loop: when it ends, and after how many rounds.
use trace_cruncher.Base.{
  ℕ, zero, suc, ◌+◌, ◌≤◌, ◌≡◌, refl, ◌⊎◌, inl, inr, Bool, true, false, List, [], ◌∷◌, none, some,
  if◌then◌else◌, All, arith, length, ◌&&◌,
}
use trace_cruncher.Wait.{Round, poll, has_pids, wait_loop, Children, is_gone}

-- The PIDs that are not 0: those whose processes were not yet found to be gone.
abbrev pub live : List ℕ → ℕ
live [] = 0
live (zero ∷ pids) = live pids
live (suc p ∷ pids) = suc (live pids)

abbrev pub some_stop : List Round → Bool
some_stop [] = false
some_stop (r ∷ rounds) = if r.stopped then true else some_stop rounds

poll-all :
    (gone : ℕ → Bool) (i : ℕ) (pids : List ℕ)
    → (poll gone i pids).1 ≡ true
    → live (poll gone i pids).0 ≡ 0
unfolding poll
poll-all gone i [] h = refl
poll-all gone i (zero ∷ pids) h = poll-all gone (i + 1) pids h
poll-all gone i (suc p ∷ pids) h = ground arith

has_pids-poll :
    (gone : ℕ → Bool) (i : ℕ) (pids : List ℕ) → has_pids (poll gone i pids).0 ≡ has_pids pids
unfolding poll
has_pids-poll gone i [] = refl
has_pids-poll gone i (zero ∷ pids) = refl
has_pids-poll gone i (suc p ∷ pids) = refl

-- The wait ends for one of two reasons only: every PID was found to be gone, or a signal, the timer or
-- the job stopped it.
pub wait_loop_reason :
    (c : Children) (rounds : List Round) (pids pids' : List ℕ)
    → wait_loop c rounds pids ≡ some pids'
    → (has_pids pids ≡ true) × (live pids' ≡ 0) ⊎ (some_stop rounds ≡ true)
unfolding wait_loop
wait_loop_reason c [] pids pids' h = ground arith
wait_loop_reason c (r ∷ rounds) pids pids' h = ground (
  arith,
  poll-all (is_gone c r) 0 pids,
  has_pids-poll (is_gone c r) 0 pids,
  wait_loop_reason c rounds (poll (is_gone c r) 0 pids).0 pids',
)

-- A round in which every process is gone clears the first live PID, or finds that there is none.
poll-gone :
    (gone : ℕ → Bool) (i : ℕ) (pids : List ℕ)
    → ((j : ℕ) → gone j ≡ true)
    → ((poll gone i pids).1 ≡ true) × (live pids ≡ 0)
      ⊎ ((poll gone i pids).1 ≡ false) × (live pids ≡ suc (live (poll gone i pids).0))
unfolding poll
poll-gone gone i [] h = inl (refl, refl)
poll-gone gone i (zero ∷ pids) h = poll-gone gone (i + 1) pids h
poll-gone gone i (suc p ∷ pids) h = ground (arith, h i)

-- Every process has ended, and nothing else stops the wait.
abbrev pub AllEnded : Round → Type 0
AllEnded r = ((j : ℕ) → r.ended j ≡ true) × (r.stopped ≡ false)

-- The processes are all children of ours or none is, and the first, if it is a child, had not ended
-- when the wait was called.
abbrev pub AreAlike : Children → Type 0
AreAlike c = (kids : Bool) × ((j : ℕ) → c.is_child j ≡ kids) × ((kids && c.first_ended) ≡ false)

is_gone-AllEnded :
    (c : Children) (r : Round) → AreAlike c → AllEnded r → (j : ℕ) → is_gone c r j ≡ true
unfolding is_gone
is_gone-AllEnded c r (true, children, fresh) ended j =
    ground (arith, children 0, children j, ended.0 j, fresh)
is_gone-AllEnded c r (false, children, fresh) ended j =
    ground (arith, children 0, children j, ended.0 j)

-- With that many rounds or fewer it is still waiting.
pub wait_loop_waits :
    (c : Children) (rounds : List Round) (pids : List ℕ)
    → AreAlike c
    → All AllEnded rounds
    → length rounds ≤ live pids
    → wait_loop c rounds pids ≡ none
unfolding wait_loop
wait_loop_waits c [] pids k h l = refl
wait_loop_waits c (r ∷ rounds) pids k h l =
    elim (poll-gone (is_gone c r) 0 pids (is_gone-AllEnded c r k h.0)) [
      | inl (all, none_live) ↦ absurd (omega arith)
      | inr (more, fewer) ↦
          let waits = wait_loop_waits c rounds (poll (is_gone c r) 0 pids).0 k h.1 (omega arith) in
          ground (arith, h.0.1, waits)
    ]

-- A first child that had ended when the wait was called is waited for in every round: the call of
-- `waitpid` that finds out that it is a child has reaped it, and none reports it again.
pub wait_loop_reaped :
    (c : Children) (rounds : List Round) (p : ℕ) (pids : List ℕ)
    → c.is_child 0 ≡ true
    → c.first_ended ≡ true
    → All (λ r. r.stopped ≡ false) rounds
    → wait_loop c rounds (suc p ∷ pids) ≡ none
unfolding wait_loop poll is_gone
wait_loop_reaped c [] p pids k e h = refl
wait_loop_reaped c (r ∷ rounds) p pids k e h =
    ground (arith, k, e, h.0, wait_loop_reaped c rounds p pids k e h.1)
