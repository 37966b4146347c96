-- ===== src/Blocks/Laws.antt =====
-- How often a path occurs in the lists of blocks that Blocks.antt builds: a structure owns a block
-- where the number is 1.
use trace_cruncher.Base.{
  ℕ, zero, suc, ◌+◌, ◌<◌, ◌≡◌, refl, Bool, true, false, List, [], ◌∷◌, ◌++◌, Option, none, some,
  if◌then◌else◌, arith, get_elem?,
}
use trace_cruncher.Blocks.{PathStep, at, BlockPath, same_step, count, behind, free_each}

abbrev pub bit : Bool → ℕ
bit true = 1
bit false = 0

pub count-append :
    (p : BlockPath) (qs rs : List BlockPath) → count p (qs ++ rs) ≡ count p qs + count p rs
count-append p [] rs = omega arith
count-append p (q ∷ qs) rs = ground (arith, count-append p qs rs)

-- Behind a field there are the blocks whose paths begin with it.
pub count-behind :
    (s t : PathStep) (p : BlockPath) (qs : List BlockPath)
    → count (s ∷ p) (behind t qs) ≡ (if same_step s t then count p qs else 0)
count-behind s t p [] = ground arith
count-behind s t p (q ∷ qs) = ground (arith, count-behind s t p qs)

pub count-behind_empty : (t : PathStep) (qs : List BlockPath) → count [] (behind t qs) ≡ 0
count-behind_empty t [] = refl
count-behind_empty t (q ∷ qs) = count-behind_empty t qs

abbrev pub owns_element {ℓ} : {A : Type ℓ} → (A → BlockPath → Bool) → BlockPath → Option A → Bool
owns_element h p none = false
owns_element h p (some x) = h x p

-- A list whose elements own what `h` says.
abbrev pub owns_each {ℓ} : {A : Type ℓ} → (A → BlockPath → Bool) → List A → BlockPath → Bool
owns_each h xs (at j ∷ p) = owns_element h p (get_elem? xs j)
owns_each h xs p = false

-- The blocks of the elements in front are freed by none of the later ones.
count-free_each_before {ℓ} :
    {A : Type ℓ} (f : A → List BlockPath) (i j : ℕ) (p : BlockPath) (xs : List A)
    → j < i
    → count (at j ∷ p) (free_each f i xs) ≡ 0
count-free_each_before f i j p [] l = refl
count-free_each_before f i j p (x ∷ xs) l = ground (
  arith,
  count-append (at j ∷ p) (behind (at i) (f x)) (free_each f (i + 1) xs),
  count-behind (at j) (at i) p (f x),
  count-free_each_before f (i + 1) j p xs,
)

pub count-free_each {ℓ} :
    {A : Type ℓ} (f : A → List BlockPath) (h : A → BlockPath → Bool)
    → ((x : A) (p : BlockPath) → count p (f x) ≡ bit (h x p))
    → (p : BlockPath) (i j : ℕ) (xs : List A)
    → count (at (i + j) ∷ p) (free_each f i xs) ≡ bit (owns_each h xs (at j ∷ p))
count-free_each f h e p i j [] = ground arith
count-free_each f h e p i zero (x ∷ xs) = ground (
  arith,
  count-append (at i ∷ p) (behind (at i) (f x)) (free_each f (i + 1) xs),
  count-behind (at i) (at i) p (f x),
  count-free_each_before f (i + 1) i p xs,
  e x p,
)
count-free_each f h e p i (suc j) (x ∷ xs) = ground (
  arith,
  count-append (at (i + suc j) ∷ p) (behind (at i) (f x)) (free_each f (i + 1) xs),
  count-behind (at (i + suc j)) (at i) p (f x),
  count-free_each f h e p (i + 1) j xs,
)

count-free_each_empty {ℓ} :
    {A : Type ℓ} (f : A → List BlockPath) (i : ℕ) (xs : List A) → count [] (free_each f i xs) ≡ 0
count-free_each_empty f i [] = refl
count-free_each_empty f i (x ∷ xs) = ground (
  arith,
  count-append [] (behind (at i) (f x)) (free_each f (i + 1) xs),
  count-behind_empty (at i) (f x),
  count-free_each_empty f (i + 1) xs,
)

abbrev is_at : PathStep → Bool
is_at (at i) = true
is_at s = false

not-same_step : (s : PathStep) (i : ℕ) → is_at s ≡ false → same_step s (at i) ≡ false
not-same_step (at j) i e = ground arith
not-same_step s i e = refl

count-free_each_other {ℓ} :
    {A : Type ℓ} (f : A → List BlockPath) (i : ℕ) (s : PathStep) (p : BlockPath) (xs : List A)
    → is_at s ≡ false
    → count (s ∷ p) (free_each f i xs) ≡ 0
count-free_each_other f i s p [] e = refl
count-free_each_other f i s p (x ∷ xs) e = ground (
  arith,
  count-append (s ∷ p) (behind (at i) (f x)) (free_each f (i + 1) xs),
  count-behind s (at i) p (f x),
  not-same_step s i e,
  count-free_each_other f (i + 1) s p xs e,
)

-- Freeing what each element owns frees what the list owns.
pub count-each {ℓ} :
    {A : Type ℓ} (f : A → List BlockPath) (h : A → BlockPath → Bool)
    → ((x : A) (p : BlockPath) → count p (f x) ≡ bit (h x p))
    → (xs : List A) (p : BlockPath) → count p (free_each f 0 xs) ≡ bit (owns_each h xs p)
count-each f h e xs [] = count-free_each_empty f 0 xs
count-each f h e xs (at j ∷ p) = ground (arith, count-free_each f h e p 0 j xs)
count-each f h e xs (s ∷ p) = count-free_each_other f 0 s p xs refl
