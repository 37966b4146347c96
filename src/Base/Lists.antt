-- ===== src/Base/Lists.antt =====
-- Lists measured and indexed by native numbers, under the library's names.
use Prim.Native.Nat.{ℕ, zero, suc, ◌+◌, ◌≤◌}
use mathlib.Core.Path.{◌≡◌, refl, ap}
use mathlib.Core.Logic.{◌≢◌}
use mathlib.Core.List.{List, [], ◌∷◌, ◌++◌, map}
use mathlib.Core.Option.{Option, none, some}
use native.Mathlib.Omega.{arith}

module _ {ℓ} {A : Type ℓ} where
  abbrev pub length : List A → ℕ
  length [] = 0
  length (_ ∷ xs) = suc (length xs)

  abbrev pub get_elem? : List A → ℕ → Option A
  get_elem? [] _ = none
  get_elem? (x ∷ _) zero = some x
  get_elem? (_ ∷ xs) (suc i) = get_elem? xs i

  -- The update of one entry; out of bounds it changes nothing.
  abbrev pub modify : List A → ℕ → (A → A) → List A
  modify [] _ f = []
  modify (x ∷ xs) zero f = f x ∷ xs
  modify (x ∷ xs) (suc i) f = x ∷ modify xs i f

  abbrev pub take : ℕ → List A → List A
  take zero _ = []
  take (suc n) [] = []
  take (suc n) (x ∷ xs) = x ∷ take n xs

  pub length-append : (xs ys : List A) → length (xs ++ ys) ≡ length xs + length ys
  length-append [] ys = omega arith
  length-append (_ ∷ xs) ys = omega (arith, length-append xs ys)

  pub length-modify : (xs : List A) (i : ℕ) (f : A → A) → length (modify xs i f) ≡ length xs
  length-modify [] i f = refl
  length-modify (x ∷ xs) zero f = refl
  length-modify (x ∷ xs) (suc i) f = ap suc (length-modify xs i f)

  pub get_elem?-modify_self :
      (xs : List A) (i : ℕ) (f : A → A) (a : A)
      → get_elem? xs i ≡ some a
      → get_elem? (modify xs i f) i ≡ some (f a)
  get_elem?-modify_self [] i f a h = ground arith
  get_elem?-modify_self (x ∷ xs) zero f a h = ground arith
  get_elem?-modify_self (x ∷ xs) (suc i) f a h = get_elem?-modify_self xs i f a h

  pub get_elem?-modify_ne :
      (xs : List A) (i j : ℕ) (f : A → A) → i ≢ j → get_elem? (modify xs i f) j ≡ get_elem? xs j
  get_elem?-modify_ne [] i j f h = refl
  get_elem?-modify_ne (x ∷ xs) zero zero f h = absurd (h refl)
  get_elem?-modify_ne (x ∷ xs) zero (suc j) f h = refl
  get_elem?-modify_ne (x ∷ xs) (suc i) zero f h = refl
  get_elem?-modify_ne (x ∷ xs) (suc i) (suc j) f h =
      get_elem?-modify_ne xs i j f (λ e. h (ap suc e))

  pub length-take-le : (n : ℕ) (xs : List A) → length (take n xs) ≤ n
  length-take-le zero xs = omega arith
  length-take-le (suc n) [] = omega arith
  length-take-le (suc n) (x ∷ xs) = omega (arith, length-take-le n xs)

  -- A statement of each entry of a list, by recursion.
  abbrev pub All {κ} : (A → Type κ) → List A → Type κ
  All P [] = Unit
  All P (x ∷ xs) = P x × All P xs

module _ {ℓ} {A : Type ℓ} where
  pub All-append {κ} : (P : A → Type κ) (xs ys : List A) → All P xs → All P ys → All P (xs ++ ys)
  All-append P [] ys hx hy = hy
  All-append P (x ∷ xs) ys hx hy = (hx.0, All-append P xs ys hx.1 hy)

  pub All-get_elem? {κ} :
      (P : A → Type κ) (xs : List A) (i : ℕ) (a : A) → All P xs → get_elem? xs i ≡ some a → P a
  All-get_elem? P [] i a h e = ground arith
  All-get_elem? P (x ∷ xs) zero a h e = ground arith
  All-get_elem? P (x ∷ xs) (suc i) a h e = All-get_elem? P xs i a h.1 e

  pub All-modify {κ} :
      (P : A → Type κ) (xs : List A) (i : ℕ) (f : A → A)
      → ((a : A) → P a → P (f a))
      → All P xs
      → All P (modify xs i f)
  All-modify P [] i f keep h = h
  All-modify P (x ∷ xs) zero f keep h = (keep x h.0, h.1)
  All-modify P (x ∷ xs) (suc i) f keep h = (h.0, All-modify P xs i f keep h.1)

  pub All-take {κ} : (P : A → Type κ) (n : ℕ) (xs : List A) → All P xs → All P (take n xs)
  All-take P zero xs h = tt
  All-take P (suc n) [] h = tt
  All-take P (suc n) (x ∷ xs) h = (h.0, All-take P n xs h.1)

-- Two lists of one length whose entries are related in order, by recursion.
abbrev pub Pointwise {ℓ} : {A : Type ℓ} → (A → A → Type 0) → List A → List A → Type 0
Pointwise R [] [] = Unit
Pointwise R [] (_ ∷ _) = ⊥
Pointwise R (_ ∷ _) [] = ⊥
Pointwise R (x ∷ xs) (y ∷ ys) = R x y × Pointwise R xs ys

pub Pointwise-refl {ℓ} :
    {A : Type ℓ} (R : A → A → Type 0) (xs : List A) → ((x : A) → R x x) → Pointwise R xs xs
Pointwise-refl R [] r = tt
Pointwise-refl R (x ∷ xs) r = (r x, Pointwise-refl R xs r)

pub Pointwise-trans {ℓ} :
    {A : Type ℓ} (R : A → A → Type 0) (xs ys zs : List A)
    → ((x y z : A) → R x y → R y z → R x z)
    → Pointwise R xs ys
    → Pointwise R ys zs
    → Pointwise R xs zs
Pointwise-trans R [] [] [] t p q = tt
Pointwise-trans R (x ∷ xs) (y ∷ ys) (z ∷ zs) t p q =
    (t x y z p.0 q.0, Pointwise-trans R xs ys zs t p.1 q.1)
Pointwise-trans R [] [] (z ∷ zs) t p q = elim q [ ]
Pointwise-trans R [] (y ∷ ys) zs t p q = elim p [ ]
Pointwise-trans R (x ∷ xs) [] zs t p q = elim p [ ]
Pointwise-trans R (x ∷ xs) (y ∷ ys) [] t p q = elim q [ ]

-- The second list begins with entries that are related to those of the first, in order.
abbrev pub Begins {ℓ} : {A : Type ℓ} → (A → A → Type 0) → List A → List A → Type 0
Begins R [] ys = Unit
Begins R (_ ∷ _) [] = ⊥
Begins R (x ∷ xs) (y ∷ ys) = R x y × Begins R xs ys

pub Begins-trans {ℓ} :
    {A : Type ℓ} (R : A → A → Type 0) (xs ys zs : List A)
    → ((x y z : A) → R x y → R y z → R x z)
    → Begins R xs ys
    → Begins R ys zs
    → Begins R xs zs
Begins-trans R [] ys zs t p q = tt
Begins-trans R (x ∷ xs) [] zs t p q = elim p [ ]
Begins-trans R (x ∷ xs) (y ∷ ys) [] t p q = elim q [ ]
Begins-trans R (x ∷ xs) (y ∷ ys) (z ∷ zs) t p q =
    (t x y z p.0 q.0, Begins-trans R xs ys zs t p.1 q.1)

pub Begins-of_Pointwise {ℓ} :
    {A : Type ℓ} (R S : A → A → Type 0) (xs ys : List A)
    → ((x y : A) → R x y → S x y)
    → Pointwise R xs ys
    → Begins S xs ys
Begins-of_Pointwise R S [] ys f p = tt
Begins-of_Pointwise R S (x ∷ xs) [] f p = elim p [ ]
Begins-of_Pointwise R S (x ∷ xs) (y ∷ ys) f p = (f x y p.0, Begins-of_Pointwise R S xs ys f p.1)

pub Begins-refl {ℓ} :
    {A : Type ℓ} (R : A → A → Type 0) (xs : List A) → ((x : A) → R x x) → Begins R xs xs
Begins-refl R [] r = tt
Begins-refl R (x ∷ xs) r = (r x, Begins-refl R xs r)

pub Begins-map-append {ℓ} :
    {A : Type ℓ} (R : A → A → Type 0) (f : A → A) (xs ys : List A)
    → ((x : A) → R x (f x))
    → Begins R xs (map f xs ++ ys)
Begins-map-append R f [] ys h = tt
Begins-map-append R f (x ∷ xs) ys h = (h x, Begins-map-append R f xs ys h)

pub length-map {ℓ κ} :
    {A : Type ℓ} {B : Type κ} (f : A → B) (xs : List A) → length (map f xs) ≡ length xs
length-map f [] = refl
length-map f (x ∷ xs) = ap suc (length-map f xs)
