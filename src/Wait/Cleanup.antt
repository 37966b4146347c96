-- ===== src/Wait/Cleanup.antt =====
-- The cleanup of `tc_wait_condition` undoes what the phases before it have done.
use trace_cruncher.Base.{
  ℕ, ◌≡◌, refl, ◌∙◌, inl, inr, true, ◌&&◌, List, [], ◌∷◌, ◌++◌, Option, none, some, if◌then◌else◌,
  arith, append-nil, Bool-cases, Option-cases,
}
use trace_cruncher.Base.Int.{ℤ, pos, negsuc}
use trace_cruncher.Wait.{
  set_wait_signals, has_pids, wait_loop, Args, System, Effect, default_handler, start_job,
  cancel_job, kill, Locals, Wait, returned, waiting, null_pointer, kills, names_of, restore,
  end_job, out, wait_phase, job_phase,
}
use trace_cruncher.Wait.Effects.{
  select, handler_of, default_of, created_of, deleted_of, select-append, select-map, defaults-map,
  select-kills, Balanced,
}

-- What holds on the way to the label `out`.
pub record OnTheWay (a : Args) (v : Locals) (effects : List Effect) : Type 0 where
  pub handlers :
      select handler_of effects
      ≡ (if v.signals_set then (set_wait_signals (names_of a.signals)).0 else [])
  pub defaults : select default_of effects ≡ []
  pub created : select created_of effects ≡ (if v.timer_set then 0 ∷ [] else [])
  pub deleted : select deleted_of effects ≡ []

abbrev pub IsBalanced : Wait → Type 0
IsBalanced (returned ret effects) = Balanced effects
IsBalanced waiting = Unit
IsBalanced null_pointer = Unit

-- What the cleanup appends.
abbrev ending : Args → System → Locals → List ℕ → List Effect
ending a sys v pids = restore a v ++ (kills pids ++ end_job sys v)

select-ending {ℓ} :
    {A : Type ℓ} (f : Effect → Option A) (a : Args) (sys : System) (v : Locals) (pids : List ℕ)
    (effects : List Effect)
    → ((p : ℕ) → f (kill p) ≡ none)
    → f cancel_job ≡ none
    → select f (effects ++ ending a sys v pids) ≡ select f effects ++ select f (restore a v)
unfolding end_job
select-ending f a sys v pids effects h k = ground (
  arith,
  select-append f effects (ending a sys v pids),
  select-append f (restore a v) (kills pids ++ end_job sys v),
  select-append f (kills pids) (end_job sys v),
  select-kills f pids h,
  append-nil (select f (restore a v)),
)

restore_lem :
    (a : Args) (v : Locals)
    → (select default_of (restore a v)
        ≡ (if v.signals_set then (set_wait_signals (names_of a.signals)).0 else []))
      × (select handler_of (restore a v) ≡ [])
      × (select deleted_of (restore a v) ≡ (if v.timer_set then 0 ∷ [] else []))
      × (select created_of (restore a v) ≡ [])
unfolding restore
restore_lem a v =
    let sigs = (set_wait_signals (names_of a.signals)).0 in
    ground (
      arith,
      defaults-map sigs,
      select-map handler_of default_handler sigs (λ s. refl),
      select-map deleted_of default_handler sigs (λ s. refl),
      select-map created_of default_handler sigs (λ s. refl),
    )

ending-Balanced :
    (a : Args) (sys : System) (v : Locals) (pids : List ℕ) (effects : List Effect)
    → OnTheWay a v effects
    → Balanced (effects ++ ending a sys v pids)
ending-Balanced a sys v pids effects w =
    let (r₁, r₂, r₃, r₄) = restore_lem a v in
    ground (
      arith,
      select-ending default_of a sys v pids effects (λ p. refl) refl,
      select-ending handler_of a sys v pids effects (λ p. refl) refl,
      select-ending deleted_of a sys v pids effects (λ p. refl) refl,
      select-ending created_of a sys v pids effects (λ p. refl) refl,
      append-nil (select handler_of effects),
      append-nil (select created_of effects),
    )

pub out-IsBalanced :
    (a : Args) (sys : System) (ret : ℤ) (v : Locals) (effects : List Effect)
    → OnTheWay a v effects
    → IsBalanced (out a sys ret v effects)
unfolding out kills
out-IsBalanced a sys ret v effects w = elim (Bool-cases (has_pids a.pids && a.terminate)) [
  | inr e ↦ rw (e, out) (ending-Balanced a sys v [] effects w)
  | inl e ↦ elim (Option-cases v.sh_pids) [
    | inl no_pids ↦ rw (e, no_pids, out) tt
    | inr (pids, got) ↦ rw (e, got, out) (ending-Balanced a sys v pids effects w)
  ]
]

pub with_pids :
    (a : Args) (v : Locals) (effects : List Effect) (pids : Option (List ℕ))
    → OnTheWay a v effects
    → OnTheWay a (record v { sh_pids = pids }) effects
with_pids a v effects pids w = record {
  handlers = w.handlers;
  defaults = w.defaults;
  created = w.created;
  deleted = w.deleted;
}

-- An effect that is of none of the four kinds.
pub with_effect :
    (a : Args) (v v' : Locals) (effects : List Effect) (e : Effect)
    → v'.signals_set ≡ v.signals_set
    → v'.timer_set ≡ v.timer_set
    → handler_of e ≡ none
    → default_of e ≡ none
    → created_of e ≡ none
    → deleted_of e ≡ none
    → OnTheWay a v effects
    → OnTheWay a v' (effects ++ e ∷ [])
with_effect a v v' effects e s t h₁ h₂ h₃ h₄ w = record {
  handlers =
      select-append handler_of effects (e ∷ [])
      ∙ ground (arith, w.handlers, append-nil (select handler_of effects));
  defaults = select-append default_of effects (e ∷ []) ∙ ground (arith, w.defaults);
  created =
      select-append created_of effects (e ∷ [])
      ∙ ground (arith, w.created, append-nil (select created_of effects));
  deleted = select-append deleted_of effects (e ∷ []) ∙ ground (arith, w.deleted);
}

wait_phase-IsBalanced :
    (a : Args) (sys : System) (pids : List ℕ) (v : Locals) (effects : List Effect)
    → OnTheWay a v effects
    → IsBalanced (wait_phase a sys pids v effects)
unfolding wait_phase
wait_phase-IsBalanced a sys pids v effects w =
    elim (Option-cases (wait_loop sys.children sys.rounds pids)) [
      | inl e ↦ rw (e, wait_phase) tt
      | inr (pids', e) ↦
          rw (e, wait_phase)
            (out-IsBalanced a sys (pos 0) (record v { sh_pids = some pids' }) effects
              (with_pids a v effects (some pids') w))
    ]

pub job_phase-IsBalanced :
    (a : Args) (sys : System) (pids : List ℕ) (v : Locals) (effects : List Effect)
    → OnTheWay a v effects
    → IsBalanced (job_phase a sys pids v effects)
unfolding job_phase
job_phase-IsBalanced a sys pids v effects w = elim (Bool-cases a.fjob) [
  | inr e ↦ simp (e, job_phase) (wait_phase-IsBalanced a sys pids v effects w)
  | inl e ↦ elim (Bool-cases sys.pthread_create) [
    | inr f ↦ simp (e, f, job_phase) (out-IsBalanced a sys (negsuc 0) v effects w)
    | inl f ↦
        simp (e, f, job_phase)
          (wait_phase-IsBalanced a sys pids (record v { fjob_runs = true }) _
            (with_effect a v _ effects start_job refl refl refl refl refl refl w))
  ]
]
