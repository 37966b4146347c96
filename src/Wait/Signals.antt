-- ===== src/Wait/Signals.antt =====
-- The names of signals, and the period of the timer.
use trace_cruncher.Base.{
  ℕ, ◌+◌, ◌*◌, ◌^◌, ◌<◌, ◌≡◌, refl, Bool, true, false, List, [], ◌∷◌, map, none, some, arith, All,
}
use trace_cruncher.Text.{Str, codes, str_eq, to_lower}
use trace_cruncher.Wait.{
  Signal, signal_names, strcasecmp, find_signal, set_wait_signals, timer_sec_nano, timer_period,
}

-- The names up to the first unknown one.
abbrev pub known_prefix : List Str → List Signal
known_prefix [] = []
known_prefix (s ∷ signals) = elim (find_signal s signal_names) [
  | none ↦ []
  | some sig ↦ sig ∷ known_prefix signals
]

abbrev pub all_known : List Str → Bool
all_known [] = true
all_known (s ∷ signals) = elim (find_signal s signal_names) [
  | none ↦ false
  | some sig ↦ all_known signals
]

pub set_wait_signals_lem :
    (signals : List Str) → set_wait_signals signals ≡ (known_prefix signals, all_known signals)
unfolding set_wait_signals
set_wait_signals_lem [] = refl
set_wait_signals_lem (s ∷ signals) = ground (arith, set_wait_signals_lem signals)

strcasecmp-fold :
    (s t : Str)
    → map to_lower s ≡ map to_lower t
    → (name : Str) → strcasecmp s name ≡ strcasecmp t name
unfolding strcasecmp
strcasecmp-fold s t e name = rw e

find_signal-fold :
    (s t : Str) (names : List (Str × Signal))
    → map to_lower s ≡ map to_lower t
    → find_signal s names ≡ find_signal t names
unfolding find_signal
find_signal-fold s t [] e = refl
find_signal-fold s t ((name, sig) ∷ names) e =
    ground (arith, strcasecmp-fold s t e name, find_signal-fold s t names e)

-- Each of the six names, in upper or lower case, is known.
pub find_signal_names :
    All
      (λ (n : Str × Signal).
        (s : Str) → map to_lower s ≡ map to_lower n.0 → find_signal s signal_names ≡ some n.1)
      signal_names
unfolding find_signal strcasecmp str_eq to_lower
find_signal_names = (
  (λ s e. find_signal-fold s (codes "SIGINT") signal_names e),
  (
    (λ s e. find_signal-fold s (codes "SIGTERM") signal_names e),
    (
      (λ s e. find_signal-fold s (codes "SIGABRT") signal_names e),
      (
        (λ s e. find_signal-fold s (codes "SIGALRM") signal_names e),
        (
          (λ s e. find_signal-fold s (codes "SIGUSR1") signal_names e),
          ((λ s e. find_signal-fold s (codes "SIGUSR2") signal_names e), tt),
        ),
      ),
    ),
  ),
)

-- For a time below 2 ^ 43 milliseconds the timer is armed with exactly that time, and with less than
-- a second of nanoseconds, as `timer_settime` wants.
pub timer_period_lem :
    (time : ℕ)
    → time < 2 ^ 43
    → ((timer_period time).0 * timer_sec_nano + (timer_period time).1 ≡ time * 1_000_000)
      × ((timer_period time).1 < timer_sec_nano)
unfolding timer_period
timer_period_lem time h = ground arith
