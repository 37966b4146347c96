-- ===== src/Wait/Contract.antt =====
-- What `tc_wait_condition` has changed in the process when it returns.
use trace_cruncher.Base.{
  ◌≡◌, refl, List, [], ◌∷◌, ◌++◌, arith, false, ℕ, true, Bool-cases, map, not, ◌==◌, inl, ◌∙◌, inr,
  ◌&&◌, append-nil, some,
}
use trace_cruncher.Wait.Cleanup.{
  OnTheWay, IsBalanced, out-IsBalanced, with_effect, job_phase-IsBalanced,
}
use trace_cruncher.Wait.Effects.{
  select-append, select-map, handlers-map, handler_of, default_of, created_of, select, deleted_of,
}
use trace_cruncher.Wait.{
  Args, System, Locals, Effect, timer_phase, signals_phase, tc_wait_condition, names_of,
  set_wait_signals, create_timer, set_handler, is_given, has_pids, arm_timer, timer_period, out,
  restore, null_pointer, end_job, returned, set_timer_handler,
}
use trace_cruncher.Text.{Str}
use trace_cruncher.Base.Int.{negsuc}
use trace_cruncher.Wait.Signals.{all_known, known_prefix, set_wait_signals_lem}

with_timer :
    (a : Args) (v : Locals) (effects : List Effect)
    → v.timer_set ≡ false
    → OnTheWay a v effects
    → OnTheWay a (record v { timer_set = true }) (effects ++ create_timer ∷ [])
with_timer a v effects t w = record {
  handlers =
      select-append handler_of effects (create_timer ∷ [])
      ∙ ground (arith, w.handlers, append-nil (select handler_of effects));
  defaults = select-append default_of effects (create_timer ∷ []) ∙ ground (arith, w.defaults);
  created = select-append created_of effects (create_timer ∷ []) ∙ ground (arith, w.created);
  deleted = select-append deleted_of effects (create_timer ∷ []) ∙ ground (arith, w.deleted);
}

timer_phase-IsBalanced :
    (a : Args) (sys : System) (pids : List ℕ) (v : Locals) (effects : List Effect)
    → v.timer_set ≡ false
    → OnTheWay a v effects
    → IsBalanced (timer_phase a sys pids v effects)
unfolding timer_phase
timer_phase-IsBalanced a sys pids v effects t w =
    let w' = with_timer a v effects t w in
    let v' = record v { timer_set = true } in
    let handled =
      with_effect a v' v' (effects ++ create_timer ∷ []) set_timer_handler refl refl refl refl refl
        refl w' in
    elim (Bool-cases (a.time == 0)) [
      | inl e ↦ simp (e, timer_phase) (job_phase-IsBalanced a sys pids v effects w)
      | inr e ↦ elim (Bool-cases sys.timer_create) [
        | inr f ↦ simp (e, f, timer_phase) (out-IsBalanced a sys (negsuc 0) v effects w)
        | inl f ↦ elim (Bool-cases sys.sigaction) [
          | inr g ↦ simp (e, f, g, timer_phase) (out-IsBalanced a sys (negsuc 0) _ _ w')
          | inl g ↦ elim (Bool-cases sys.timer_settime) [
            | inr h ↦ simp (e, f, g, h, timer_phase) (out-IsBalanced a sys (negsuc 0) _ _ handled)
            | inl h ↦
                simp (e, f, g, h, timer_phase)
                  (job_phase-IsBalanced a sys pids _ _ (
                    with_effect a _ _ _ (arm_timer (timer_period a.time)) refl refl refl refl refl
                      refl handled))
          ]
        ]
      ]
    ]

-- Nothing was done yet.
fresh : (a : Args) (v : Locals) → v.signals_set ≡ false → v.timer_set ≡ false → OnTheWay a v []
fresh a v s t = record {
  handlers = ground arith;
  defaults = refl;
  created = ground arith;
  deleted = refl;
}

with_handlers :
    (a : Args) (v : Locals)
    → v.timer_set ≡ false
    → OnTheWay a
        (record v { signals_set = true })
        (map set_handler (set_wait_signals (names_of a.signals)).0)
with_handlers a v t =
    let sigs = (set_wait_signals (names_of a.signals)).0 in
    record {
      handlers = handlers-map sigs;
      defaults = select-map default_of set_handler sigs (λ s. refl);
      created = select-map created_of set_handler sigs (λ s. refl) ∙ ground arith;
      deleted = select-map deleted_of set_handler sigs (λ s. refl);
    }

signals_phase_empty :
    (a : Args) (sys : System) (pids : List ℕ) (v : Locals)
    → names_of a.signals ≡ []
    → signals_phase a sys pids v ≡ timer_phase a sys pids v []
unfolding signals_phase
signals_phase_empty a sys pids v e = ground arith

signals_phase_known :
    (a : Args) (sys : System) (pids : List ℕ) (v : Locals) (s : Str) (ss : List Str)
    → names_of a.signals ≡ s ∷ ss
    → (set_wait_signals (names_of a.signals)).1 ≡ true
    → signals_phase a sys pids v
      ≡ timer_phase a sys pids
          (record v { signals_set = true })
          (map set_handler (set_wait_signals (names_of a.signals)).0)
unfolding signals_phase
signals_phase_known a sys pids v s ss e k = ground arith

signals_phase-IsBalanced :
    (a : Args) (sys : System) (pids : List ℕ) (v : Locals) (names : List Str)
    → names_of a.signals ≡ names
    → (set_wait_signals (names_of a.signals)).1 ≡ true
    → v.signals_set ≡ false
    → v.timer_set ≡ false
    → IsBalanced (signals_phase a sys pids v)
signals_phase-IsBalanced a sys pids v [] e k s t =
    rw (signals_phase_empty a sys pids v e)
      (timer_phase-IsBalanced a sys pids v [] t (fresh a v s t))
signals_phase-IsBalanced a sys pids v (n ∷ ns) e k s t =
    rw (signals_phase_known a sys pids v n ns e k)
      (timer_phase-IsBalanced a sys pids _ _ t (with_handlers a v t))

-- If the names of the signals are all known, every return of the wait, with 0 or with -1 and whatever
-- the system answers, has undone this: the handlers that were set for the named signals were all set
-- back to the default, and a timer that was created was deleted. This says nothing of the
-- handler of SIGRTMIN, the timer's own signal.
pub tc_wait_condition-IsBalanced :
    (a : Args) (sys : System)
    → (set_wait_signals (names_of a.signals)).1 ≡ true
    → IsBalanced (tc_wait_condition a sys)
unfolding tc_wait_condition
tc_wait_condition-IsBalanced a sys k =
    elim (Bool-cases
      (not (is_given a.signals) && (not (has_pids a.pids) && ((a.time == 0) && not a.fjob)))) [
        | inl e ↦ simp (e, tc_wait_condition) (refl, refl)
        | inr e ↦ elim (Bool-cases (has_pids a.pids && not sys.malloc)) [
          | inl f ↦
              simp (e, f, tc_wait_condition)
                (out-IsBalanced a sys (negsuc 0) _ [] (fresh a _ refl refl))
          | inr f ↦
              simp (e, f, tc_wait_condition)
                (signals_phase-IsBalanced a sys a.pids _ _ refl k refl refl)
        ]
      ]

-- A list of signals with an unknown name makes the wait (with no PIDs) return -1 at once, and the
-- handlers of the names in front of it stay set: none of them is set back to the default.
pub tc_wait_condition_unknown :
    (a : Args) (sys : System) (s : Str) (ss : List Str)
    → a.signals ≡ some (s ∷ ss)
    → a.pids ≡ []
    → all_known (s ∷ ss) ≡ false
    → tc_wait_condition a sys ≡ returned (negsuc 0) (map set_handler (known_prefix (s ∷ ss)))
unfolding tc_wait_condition signals_phase out restore end_job
tc_wait_condition_unknown a sys s ss e p k =
    ground
      (arith, set_wait_signals_lem (s ∷ ss), append-nil (map set_handler (known_prefix (s ∷ ss))))

-- With PIDs to terminate, a failed `malloc` sends the cleanup through a NULL pointer.
pub tc_wait_condition_no_memory :
    (a : Args) (sys : System)
    → has_pids a.pids ≡ true
    → a.terminate ≡ true
    → sys.malloc ≡ false
    → tc_wait_condition a sys ≡ null_pointer
unfolding tc_wait_condition out
tc_wait_condition_no_memory a sys p t h = ground arith
