-- ===== src/Wait/Effects.antt =====
-- The effects of `tc_wait_condition` by their kind.
use trace_cruncher.Base.{
  ℕ, zero, suc, ◌≡◌, refl, ap, List, [], ◌∷◌, ◌++◌, map, Option, none, some, arith,
}
use trace_cruncher.Wait.{
  Signal, Effect, set_handler, default_handler, create_timer, delete_timer, kill, kills,
}

-- The effects of one kind, in order.
abbrev pub select {ℓ} : {A : Type ℓ} → (Effect → Option A) → List Effect → List A
select f [] = []
select f (e ∷ es) = let rest = select f es in elim (f e) [ none ↦ rest | some a ↦ a ∷ rest ]

abbrev pub handler_of : Effect → Option Signal
handler_of (set_handler s) = some s
handler_of _ = none

abbrev pub default_of : Effect → Option Signal
default_of (default_handler s) = some s
default_of _ = none

abbrev pub created_of : Effect → Option ℕ
created_of create_timer = some 0
created_of _ = none

abbrev pub deleted_of : Effect → Option ℕ
deleted_of delete_timer = some 0
deleted_of _ = none

abbrev pub killed_of : Effect → Option ℕ
killed_of (kill pid) = some pid
killed_of _ = none

pub select-append {ℓ} :
    {A : Type ℓ} (f : Effect → Option A) (xs ys : List Effect)
    → select f (xs ++ ys) ≡ select f xs ++ select f ys
select-append f [] ys = refl
select-append f (x ∷ xs) ys = ground (arith, select-append f xs ys)

pub select-map {ℓ} :
    {A : Type ℓ} (f : Effect → Option A) (g : Signal → Effect) (xs : List Signal)
    → ((s : Signal) → f (g s) ≡ none)
    → select f (map g xs) ≡ []
select-map f g [] h = refl
select-map f g (x ∷ xs) h = ground (arith, h x, select-map f g xs h)

pub handlers-map : (xs : List Signal) → select handler_of (map set_handler xs) ≡ xs
handlers-map [] = refl
handlers-map (x ∷ xs) = ap (◌∷◌ x) (handlers-map xs)

pub defaults-map : (xs : List Signal) → select default_of (map default_handler xs) ≡ xs
defaults-map [] = refl
defaults-map (x ∷ xs) = ap (◌∷◌ x) (defaults-map xs)

pub select-kills {ℓ} :
    {A : Type ℓ} (f : Effect → Option A) (pids : List ℕ)
    → ((p : ℕ) → f (kill p) ≡ none)
    → select f (kills pids) ≡ []
unfolding kills
select-kills f [] h = refl
select-kills f (zero ∷ pids) h = select-kills f pids h
select-kills f (suc p ∷ pids) h = ground (arith, h (suc p), select-kills f pids h)

-- The handlers that were set are those that were reset, in order; a timer that was created was
-- deleted.
abbrev pub Balanced : List Effect → Type 0
Balanced effects =
    (select default_of effects ≡ select handler_of effects)
    × (select deleted_of effects ≡ select created_of effects)
