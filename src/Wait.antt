-- ===== src/Wait.antt =====
-- `tc_wait_condition` of src/tcrunch-base.c. What the system answers is in `System`; what the
-- function does to it is a list of effects. Each round of the wait loop is an entry of a list, and
-- a list that runs out means that the function is still waiting.
pub mod Signals
pub mod Loop
pub mod Effects
pub mod Cleanup
pub mod Contract
pub mod Command
pub mod Threads
mod Tests
use trace_cruncher.Base.{
  ℕ, zero, suc, ◌+◌, ◌*◌, ◌/◌, ◌%◌, ◌^◌, Bool, true, false, not, ◌&&◌, ◌||◌, List, [], ◌∷◌, ◌++◌,
  map, Option, none, some, ◌==◌, leb, if◌then◌else◌,
}
use trace_cruncher.Base.Int.{ℤ, pos, negsuc}
use trace_cruncher.Text.{Str, codes, str_eq, to_lower}

pub data Signal : Type 0 where
  sigint sigterm sigabrt sigalrm sigusr1 sigusr2 : Signal

abbrev pub signal_names : List (Str × Signal)
signal_names =
    (codes "SIGINT", sigint)
    ∷ (codes "SIGTERM", sigterm)
    ∷ (codes "SIGABRT", sigabrt)
    ∷ (codes "SIGALRM", sigalrm)
    ∷ (codes "SIGUSR1", sigusr1)
    ∷ (codes "SIGUSR2", sigusr2)
    ∷ []

-- `strcasecmp(s, t) == 0`
unfoldable pub strcasecmp : Str → Str → Bool
strcasecmp s t = str_eq (map to_lower s) (map to_lower t)

-- The inner loop of `set_wait_signals`.
unfoldable pub find_signal : Str → List (Str × Signal) → Option Signal
find_signal s [] = none
find_signal s ((name, sig) ∷ names) = if strcasecmp s name then some sig else find_signal s names

-- `set_wait_signals`: the signals whose handler was set, in order, and whether it returned 0.
unfoldable pub set_wait_signals : List Str → List Signal × Bool
set_wait_signals [] = ([], true)
set_wait_signals (s ∷ signals) = elim (find_signal s signal_names) [
  | none ↦ ([], false)
  | some sig ↦ let (sigs, ok) = set_wait_signals signals in (sig ∷ sigs, ok)
]

abbrev pub timer_sec_nano : ℕ
timer_sec_nano = 1_000_000_000

-- "Convert trace_time from msec to sec, nsec": `tv_sec` and `tv_nsec`. The product is an
-- `unsigned long long`; callers pass an `unsigned int`, for which it is below 2 ^ 63.
unfoldable pub timer_period : ℕ → ℕ × ℕ
timer_period time =
    let nsec = (time * 1_000_000) % 2 ^ 64 in
    if leb timer_sec_nano nsec then (nsec / timer_sec_nano, nsec % timer_sec_nano) else (0, nsec)

-- A round of the wait loop: the positions of the PIDs whose process has ended, or, where it is no child
-- of ours, exists no more, and whether `tc_wait` is false at the end of the round, by a signal, the
-- timer or the job. The PIDs are of different processes, and none of the call's PIDs is 0.
pub record Round : Type 0 where
  pub ended : ℕ → Bool
  pub stopped : Bool

-- The positions of the PIDs of our children, and whether the first one, if it is a child, had ended
-- when the function was called.
pub record Children : Type 0 where
  pub is_child : ℕ → Bool
  pub first_ended : Bool

-- What a round finds out about the PID at a position. The call of `waitpid` at the top finds out if the
-- first process is a child, and then all are taken for children (`kids`); it also reaps the first, if
-- it has ended. `waitpid` reports a child that has ended and was not reaped; `kill` finds a process
-- that no longer exists, and a child that is not reaped still does.
unfoldable pub is_gone : Children → Round → ℕ → Bool
is_gone c r i =
    let kids = c.is_child 0 in
    if kids
    then c.is_child i && (r.ended i && not ((i == 0) && c.first_ended))
    else r.ended i && not (c.is_child i)

-- The loop over the PIDs from position `i`: it looks at the first one that is not 0, and breaks. The
-- flag says that there was none.
unfoldable pub poll : (ℕ → Bool) → ℕ → List ℕ → List ℕ × Bool
poll gone i [] = ([], true)
poll gone i (zero ∷ pids) = let (pids', all) = poll gone (i + 1) pids in (zero ∷ pids', all)
poll gone i (suc p ∷ pids) = ((if gone i then 0 else suc p) ∷ pids, false)

-- `pidn > 0`
abbrev pub has_pids : List ℕ → Bool
has_pids [] = false
has_pids (_ ∷ _) = true

-- "Wait for a condition loop", with the PIDs that it ends with.
unfoldable pub wait_loop : Children → List Round → List ℕ → Option (List ℕ)
wait_loop c [] pids = none
wait_loop c (r ∷ rounds) pids =
    let (pids', all) = poll (is_gone c r) 0 pids in
    let rest = wait_loop c rounds pids' in
    if has_pids pids && all then some pids' else (if r.stopped then some pids' else rest)

-- The arguments: `signals` may be NULL, `fjob` may be NULL.
pub record Args : Type 0 where
  pub signals : Option (List Str)
  pub pids : List ℕ
  pub terminate : Bool
  pub time : ℕ
  pub fjob : Bool

-- What the calls of the function return.
pub record System : Type 0 where
  pub malloc : Bool
  pub timer_create : Bool
  pub sigaction : Bool
  pub timer_settime : Bool
  pub pthread_create : Bool
  pub children : Children
  pub rounds : List Round
  pub job_completed : Bool

pub data Effect : Type 0 where
  set_handler : Signal → Effect
  default_handler : Signal → Effect
  create_timer : Effect
  set_timer_handler : Effect
  arm_timer : ℕ × ℕ → Effect
  delete_timer : Effect
  start_job : Effect
  cancel_job : Effect
  kill : ℕ → Effect

-- The local variables that the cleanup reads.
pub record Locals : Type 0 where
  pub sh_pids : Option (List ℕ)
  pub signals_set : Bool
  pub timer_set : Bool
  pub fjob_runs : Bool

pub data Wait : Type 0 where
  returned : ℤ → List Effect → Wait
  waiting : Wait
  null_pointer : Wait

-- "Kill the PIDs, if they still run."
unfoldable pub kills : List ℕ → List Effect
kills [] = []
kills (zero ∷ pids) = kills pids
kills (suc p ∷ pids) = kill (suc p) ∷ kills pids

abbrev pub names_of : Option (List Str) → List Str
names_of none = []
names_of (some signals) = signals

-- The effects of the cleanup, but for the kills.
unfoldable pub restore : Args → Locals → List Effect
restore a v =
    (if v.timer_set then delete_timer ∷ [] else [])
    ++ (if v.signals_set then map default_handler (set_wait_signals (names_of a.signals)).0 else [])

unfoldable pub end_job : System → Locals → List Effect
end_job sys v = if v.fjob_runs && not sys.job_completed then cancel_job ∷ [] else []

-- The label `out`: the loop of the kills reads `sh_pids`, which is NULL where `malloc` failed.
unfoldable pub out : Args → System → ℤ → Locals → List Effect → Wait
out a sys ret v effects =
    if has_pids a.pids && a.terminate
    then (elim v.sh_pids [
      | none ↦ null_pointer
      | some pids ↦ returned ret (effects ++ (restore a v ++ (kills pids ++ end_job sys v)))
    ])
    else returned ret (effects ++ (restore a v ++ end_job sys v))

-- From the wait loop on.
unfoldable pub wait_phase : Args → System → List ℕ → Locals → List Effect → Wait
wait_phase a sys pids v effects = elim (wait_loop sys.children sys.rounds pids) [
  | none ↦ waiting
  | some pids' ↦ out a sys (pos 0) (record v { sh_pids = some pids' }) effects
]

-- From "Run the user callback in the background" on.
unfoldable pub job_phase : Args → System → List ℕ → Locals → List Effect → Wait
job_phase a sys pids v effects =
    if a.fjob
    then (if sys.pthread_create
        then wait_phase a sys pids (record v { fjob_runs = true }) (effects ++ start_job ∷ [])
        else out a sys (negsuc 0) v effects)
    else wait_phase a sys pids v effects

-- From "Set a timer" on. The handler of SIGRTMIN, `wait_timer`, is set once the timer was created, and
-- nothing resets it.
unfoldable pub timer_phase : Args → System → List ℕ → Locals → List Effect → Wait
timer_phase a sys pids v effects =
    let created = effects ++ create_timer ∷ [] in
    let handled = created ++ set_timer_handler ∷ [] in
    let v' = record v { timer_set = true } in
    if a.time == 0
    then job_phase a sys pids v effects
    else (if sys.timer_create
        then (if sys.sigaction
            then (if sys.timer_settime
                then job_phase a sys pids v' (handled ++ arm_timer (timer_period a.time) ∷ [])
                else out a sys (negsuc 0) v' handled)
            else out a sys (negsuc 0) v' created)
        else out a sys (negsuc 0) v effects)

-- From "Init wait signals" on: an empty list is skipped. `signals_set` stays false where a name is
-- unknown.
unfoldable pub signals_phase : Args → System → List ℕ → Locals → Wait
signals_phase a sys pids v =
    let (sigs, ok) = set_wait_signals (names_of a.signals) in
    elim (names_of a.signals) [
      | [] ↦ timer_phase a sys pids v []
      | _ ∷ _ ↦
          if ok
          then timer_phase a sys pids (record v { signals_set = true }) (map set_handler sigs)
          else out a sys (negsuc 0) v (map set_handler sigs)
    ]

abbrev pub is_given {ℓ} : {A : Type ℓ} → Option A → Bool
is_given none = false
is_given (some a) = true

unfoldable pub tc_wait_condition : Args → System → Wait
tc_wait_condition a sys =
    if not (is_given a.signals) && (not (has_pids a.pids) && ((a.time == 0) && not a.fjob))
    then returned (negsuc 0) []
    else (if has_pids a.pids && not sys.malloc
        then out a sys (negsuc 0) start []
        else signals_phase a sys a.pids (record start { sh_pids = some a.pids }))
  where
    start : Locals
    start = record { sh_pids = none; signals_set = false; timer_set = false; fjob_runs = false }
