-- ===== src/Wait/Command.antt =====
-- `PyFtrace_wait` of src/ftracepy-utils.c, after its arguments were parsed: the readers of lists and
-- the wait.
use trace_cruncher.Base.{
  ℕ, Bool, true, false, List, [], ◌∷◌, Option, none, some, ◌≡◌, refl, arith, subst,
}
use trace_cruncher.Wait.Contract.{tc_wait_condition-IsBalanced}
use trace_cruncher.Text.{Str, codes}
use trace_cruncher.Alloc.{Mem, Run, done, fault, ◌>>=◌}
use trace_cruncher.Py.{Obj, tc_list_get_str, tc_list_get_uint}
use trace_cruncher.Wait.{Args, System, Wait, tc_wait_condition, set_wait_signals}
use trace_cruncher.Wait.Cleanup.{IsBalanced}

abbrev pub signals_default : List Str
signals_default = codes "SIGINT" ∷ codes "SIGTERM" ∷ []

-- The signals to wait for, or the `goto error`. An empty list gives NULL.
unfoldable pub wait_signals : Option Obj → Mem → Option (Option (List Str))
wait_signals none m = some (some signals_default)
wait_signals (some signals_list) m = elim (tc_list_get_str signals_list m) [
  | none ↦ none
  | some (signals, size) ↦ some signals
]

unfoldable pub array_of : Option (List ℕ) → List ℕ
array_of none = []
array_of (some pids) = pids

unfoldable pub wait_pids : Option Obj → Mem → Run (Option (List ℕ))
wait_pids none m = done (some [])
wait_pids (some pids_list) m =
    tc_list_get_uint pids_list m
    >>= (λ r. elim r [ none ↦ done none | some (pids, npids, error) ↦ done (some (array_of pids)) ])

-- What the wait is called with; what it returns is not looked at.
unfoldable pub wait_args : List ℕ → Bool → ℕ → Option (List Str) → Args
wait_args pids kill time signals = record {
  signals = signals;
  pids = pids;
  terminate = kill;
  time = time;
  fjob = false;
}

-- `none` is an error. Both lists have their own allocations.
unfoldable pub py_wait : Option Obj → Option Obj → Bool → ℕ → Mem → Mem → System → Run (Option Wait)
py_wait signals_list pids_list kill time m₁ m₂ sys = elim (wait_signals signals_list m₁) [
  | none ↦ done none
  | some signals ↦ wait_pids pids_list m₂ >>= (λ r. elim r [
    | none ↦ done none
    | some pids ↦ done (some (tc_wait_condition (wait_args pids kill time signals) sys))
  ])
]

default_known : (set_wait_signals signals_default).1 ≡ true
unfolding set_wait_signals trace_cruncher.Wait.find_signal trace_cruncher.Wait.strcasecmp
    trace_cruncher.Text.str_eq trace_cruncher.Text.to_lower
default_known = refl

rest-IsBalanced :
    (kill : Bool) (time : ℕ) (sys : System) (w : Wait) (r : Run (Option (List ℕ)))
    → (r >>= (λ p. elim p [
      | none ↦ done none
      | some pids ↦
          done (some (tc_wait_condition (wait_args pids kill time (some signals_default)) sys))
    ]))
      ≡ done (some w)
    → IsBalanced w
unfolding wait_args
rest-IsBalanced kill time sys w fault h = absurd (ground arith)
rest-IsBalanced kill time sys w (done none) h = absurd (ground arith)
rest-IsBalanced kill time sys w (done (some pids)) h =
    let a = wait_args pids kill time (some signals_default) in
    let q : tc_wait_condition a sys ≡ w = ground arith in
    subst IsBalanced q (tc_wait_condition-IsBalanced a sys default_known)

-- A wait with no list of signals, for any PIDs, whatever the system answers: where it is made, it
-- sets the handlers of the two default signals back and deletes its timer.
pub py_wait-IsBalanced :
    (pids_list : Option Obj) (kill : Bool) (time : ℕ) (m₁ m₂ : Mem) (sys : System) (w : Wait)
    → py_wait none pids_list kill time m₁ m₂ sys ≡ done (some w)
    → IsBalanced w
unfolding py_wait wait_signals
py_wait-IsBalanced pids_list kill time m₁ m₂ sys w h =
    rest-IsBalanced kill time sys w (wait_pids pids_list m₂) h
