-- ===== src/Version.antt =====
-- `check_kernel_support` of src/ftracepy-utils.c, with the `strtok` and the `atoi` of the C library as
-- the code uses them.
pub mod Laws
mod Tests
use trace_cruncher.Base.{
  ℕ, ◌+◌, ◌*◌, ◌-◌, Bool, true, false, ◌&&◌, ◌||◌, List, [], ◌∷◌, Option, none, some, ◌==◌, ltb,
  leb, if◌then◌else◌,
}
use trace_cruncher.Base.Int.{ℤ, pos, negsuc, to_int}
use trace_cruncher.Text.{Str}
use trace_cruncher.Alloc.{Run, done, fault}
use trace_cruncher.Dbg.Context.Libs.{skip_space}

unfoldable pub is_digit : ℕ → Bool
is_digit c = leb b'0' c && leb c b'9'

-- The digits at the front of a text, behind a number.
unfoldable pub digits_value : ℕ → Str → ℕ
digits_value acc [] = acc
digits_value acc (c ∷ s) =
    let rest = digits_value (acc * 10 + (c - b'0')) s in if is_digit c then rest else acc

abbrev pub neg : ℕ → ℤ
neg n = if n == 0 then pos 0 else negsuc (n - 1)

unfoldable pub signed_value : Str → ℤ
signed_value [] = pos 0
signed_value (c ∷ s) =
    if c == b'-'
    then neg (digits_value 0 s)
    else (if c == b'+' then pos (digits_value 0 s) else pos (digits_value 0 (c ∷ s)))

-- An `int`. (C leaves the result undefined where the number is none; here it wraps around.)
unfoldable pub atoi : Str → ℤ
atoi s = to_int (signed_value (skip_space s))

-- The text up to the first dot, and what follows it.
unfoldable pub cut_at_dot : Str → Str × Str
cut_at_dot [] = ([], [])
cut_at_dot (c ∷ s) =
    let (token, rest) = cut_at_dot s in if c == b'.' then ([], s) else (c ∷ token, rest)

unfoldable pub skip_dots : Str → Str
skip_dots [] = []
skip_dots (c ∷ s) = let rest = skip_dots s in if c == b'.' then rest else c ∷ s

-- `strtok(s, ".")`, and the text from which `strtok(NULL, ".")` goes on.
unfoldable pub strtok : Str → Option (Str × Str)
strtok s = elim (skip_dots s) [ [] ↦ none | c ∷ t ↦ some (cut_at_dot (c ∷ t)) ]

abbrev pub gt_int : ℤ → ℕ → Bool
gt_int (pos a) b = ltb b a
gt_int (negsuc a) b = false

abbrev pub eq_int : ℤ → ℕ → Bool
eq_int (pos a) b = a == b
eq_int (negsuc a) b = false

-- `release` is what `kernel_version` returns. `strtok` and `atoi` are called on NULL where it is NULL,
-- or where it lacks a number that is looked at.
unfoldable pub check_kernel_support : Option Str → ℕ → ℕ → Run Bool
check_kernel_support none major minor = fault
check_kernel_support (some this_kernel) major minor = elim (strtok this_kernel) [
  | none ↦ fault
  | some (buff, rest) ↦
      if eq_int (atoi buff) major
      then (elim (strtok rest) [
        | none ↦ fault
        | some (buff', _) ↦ done (gt_int (atoi buff') minor || eq_int (atoi buff') minor)
      ])
      else done (gt_int (atoi buff) major)
]
