-- ===== src/Text.antt =====
-- src/common.h, and C strings. A string is the list of its bytes without the final NUL; NULL is a
-- `none` of `Option Str` where the code tests for it.
pub mod Laws
use Prim.Native.Char.{code}
use Prim.Native.String.{String}
use trace_cruncher.Base.{
  ℕ, zero, suc, ◌+◌, ◌-◌, Bool, true, false, not, ◌&&◌, ◌||◌, List, [], ◌∷◌, ◌++◌, map, leb, ◌==◌,
  if◌then◌else◌,
}

abbrev pub Str : Type 0
Str = List ℕ

-- The bytes of an ASCII literal.
abbrev pub codes : String → Str
codes String.[] = []
codes (String.◌∷◌ c s) = code c ∷ codes s

-- `!strcmp(s, t)`
unfoldable pub str_eq : Str → Str → Bool
str_eq [] [] = true
str_eq [] (_ ∷ _) = false
str_eq (_ ∷ _) [] = false
str_eq (a ∷ s) (b ∷ t) = (a == b) && str_eq s t

-- `strchr(s, c) != NULL`
unfoldable pub strchr : Str → ℕ → Bool
strchr [] c = false
strchr (a ∷ s) c = (a == c) || strchr s c

-- `tolower` of the C locale.
unfoldable pub to_lower : ℕ → ℕ
to_lower c = if leb b'A' c && leb c b'Z' then c + 32 else c

-- `isalnum` of the C locale.
unfoldable pub is_alnum : ℕ → Bool
is_alnum c = (leb b'0' c && leb c b'9') || (leb b'A' c && leb c b'Z') || (leb b'a' c && leb c b'z')

-- The loop reads `*p` at every byte of `arg`: past the end of `model` it is the NUL, which no byte
-- of `arg` equals.
unfoldable pub lax_cmp : Str → Str → Bool
unfolding to_lower
lax_cmp [] [] = true
lax_cmp [] (_ ∷ _) = false
lax_cmp (_ ∷ _) [] = false
lax_cmp (a ∷ arg) (b ∷ model) = (to_lower a == b) && lax_cmp arg model

-- An optional argument: the default is the pointer `NO_ARG`, which `is_no_arg` compares by address,
-- so a caller's string is never that pointer, whatever its bytes.
pub data Arg : Type 0 where
  no_arg : Arg
  given : Str → Arg

-- The bytes that a pointer of type `Arg` points to.
unfoldable pub bytes : Arg → Str
bytes no_arg = codes "/NONE/"
bytes (given s) = s

unfoldable pub is_all : Arg → Bool
unfolding lax_cmp bytes
is_all arg = lax_cmp (bytes arg) (codes "all")

unfoldable pub is_no_arg : Arg → Bool
is_no_arg no_arg = true
is_no_arg (given []) = true
is_no_arg (given (_ ∷ _)) = false

unfoldable pub is_set : Arg → Bool
unfolding is_all is_no_arg
is_set arg = not (is_all arg || is_no_arg arg)

-- `trim_new_line` of src/ftracepy-utils.c: one final newline is dropped. (On the empty string the
-- source reads the byte before the buffer; its callers pass what a read of at least one byte gave.)
unfoldable pub trim_new_line : Str → Str
trim_new_line [] = []
trim_new_line (a ∷ []) = if a == 10 then [] else a ∷ []
trim_new_line (a ∷ b ∷ s) = a ∷ trim_new_line (b ∷ s)

-- `fname_unify` of src/ftracepy-utils.c
unfoldable pub fname_unify : Str → Str
unfolding is_alnum
fname_unify s = map (λ c. if not (is_alnum c) && not (c == b'_') then b'_' else c) s
