-- ===== src/Wait/Tests.antt =====
-- The theorems on waiting at concrete inputs.
use trace_cruncher.Base.{◌≡◌, refl, true, false, [], ◌∷◌, some}
use trace_cruncher.Text.{codes, str_eq, to_lower}
use trace_cruncher.Wait.{
  Round, Args, System, wait_loop, poll, tc_wait_condition, set_wait_signals, find_signal,
  strcasecmp, Children, is_gone,
}
use trace_cruncher.Wait.Signals.{all_known}
use trace_cruncher.Wait.Cleanup.{IsBalanced}
use trace_cruncher.Wait.Contract.{tc_wait_condition-IsBalanced}

abbrev gone : Round
gone = record { ended = λ _. true; stopped = false }

-- Two children, which run when the function is called.
abbrev two_children : Children
two_children = record { is_child = λ _. true; first_ended = false }

abbrev system : System
system = record {
  malloc = true;
  timer_create = true;
  sigaction = true;
  timer_settime = true;
  pthread_create = false;
  children = two_children;
  rounds = gone ∷ gone ∷ gone ∷ [];
  job_completed = false;
}

abbrev args : Args
args = record {
  signals = some (codes "sigint" ∷ codes "SIGUSR1" ∷ []);
  pids = 40 ∷ 41 ∷ [];
  terminate = true;
  time = 1500;
  fjob = true;
}

abbrev unknown : Args
unknown = record args { signals = some (codes "SIGINT" ∷ codes "SIGKILL" ∷ []); pids = [] }

known : (set_wait_signals (codes "sigint" ∷ codes "SIGUSR1" ∷ [])).1 ≡ true
unfolding set_wait_signals find_signal strcasecmp str_eq to_lower
known = refl

not_known : all_known (codes "SIGINT" ∷ codes "SIGKILL" ∷ []) ≡ false
unfolding find_signal strcasecmp str_eq to_lower
not_known = refl

tc_wait_condition-IsBalanced_example : IsBalanced (tc_wait_condition args system)
tc_wait_condition-IsBalanced_example = tc_wait_condition-IsBalanced args system known

ends : wait_loop two_children (gone ∷ gone ∷ []) (40 ∷ []) ≡ some (0 ∷ [])
unfolding wait_loop poll is_gone
ends = refl
