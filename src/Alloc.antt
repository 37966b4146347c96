-- ===== src/Alloc.antt =====
-- Memory allocation as the code sees it: each `calloc`, `realloc` or `strdup` succeeds or returns
-- NULL. A run is given the outcomes of its allocations in order; past the end of the list they all
-- succeed. Undefined behaviour (a NULL or freed pointer that is followed) is a `fault`.
use trace_cruncher.Base.{Bool, true, List, [], ◌∷◌, Option, none, some, if◌then◌else◌}
use trace_cruncher.Text.{Str}

abbrev pub Mem : Type 0
Mem = List Bool

-- The outcome of the next allocation, and those that are left.
unfoldable pub alloc : Mem → Bool × Mem
alloc [] = (true, [])
alloc (b ∷ m) = (b, m)

unfoldable pub strdup : Str → Mem → Option Str × Mem
unfolding alloc
strdup s m = let (got, m') = alloc m in (if got then some s else none, m')

pub data Run {ℓ} (A : Type ℓ) : Type ℓ where
  done : A → Run A
  fault : Run A

infixl 5 ◌>>=◌
abbrev pub ◌>>=◌ {ℓ κ} : {A : Type ℓ} {B : Type κ} → Run A → (A → Run B) → Run B
done a >>= f = f a
fault >>= f = fault
