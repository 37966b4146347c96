-- ===== src/Blocks.antt =====
-- The blocks of memory that a structure owns, each named by the way that leads to it from the
-- structure. What a function frees is the list of these names, in order.
pub mod Laws
use trace_cruncher.Base.{
  ℕ, zero, suc, ◌+◌, ◌≡◌, refl, Bool, true, false, ◌==◌, List, [], ◌∷◌, ◌++◌, map, Option, none,
  some, if◌then◌else◌, arith, get_elem?,
}

-- A field, an index of an array or a position in a list, or the block that a pointer leads to.
pub data PathStep : Type 0 where
  at : ℕ → PathStep
  block to_name to_fname to_sym to_files to_fmaps to_lib_maps to_lib_name to_proc_name : PathStep
  to_file_name to_dbg to_bfd to_ufuncs to_func_name to_cmd_argv to_uevents to_usystem : PathStep

abbrev pub BlockPath : Type 0
BlockPath = List PathStep

abbrev number : PathStep → ℕ
number (at i) = 0
number block = 1
number to_name = 2
number to_fname = 3
number to_sym = 4
number to_files = 5
number to_fmaps = 6
number to_lib_maps = 7
number to_lib_name = 8
number to_proc_name = 9
number to_file_name = 10
number to_dbg = 11
number to_bfd = 12
number to_ufuncs = 13
number to_func_name = 14
number to_cmd_argv = 15
number to_uevents = 16
number to_usystem = 17

abbrev pub same_step : PathStep → PathStep → Bool
same_step (at i) (at j) = i == j
same_step s t = number s == number t

abbrev pub same : BlockPath → BlockPath → Bool
same [] [] = true
same [] (t ∷ q) = false
same (s ∷ p) [] = false
same (s ∷ p) (t ∷ q) = if same_step s t then same p q else false

-- How often a block is freed.
abbrev pub count : BlockPath → List BlockPath → ℕ
count p [] = 0
count p (q ∷ qs) = if same p q then suc (count p qs) else count p qs

-- The blocks behind a field.
abbrev pub behind : PathStep → List BlockPath → List BlockPath
behind s = map (λ p. s ∷ p)

-- `free` of a pointer that may be NULL.
abbrev pub free_given {ℓ} : {A : Type ℓ} → Option A → BlockPath → List BlockPath
free_given none p = []
free_given (some a) p = p ∷ []

-- The blocks of the elements from position `i` on.
abbrev pub free_each {ℓ} : {A : Type ℓ} → (A → List BlockPath) → ℕ → List A → List BlockPath
free_each f i [] = []
free_each f i (x ∷ xs) = behind (at i) (f x) ++ free_each f (i + 1) xs
