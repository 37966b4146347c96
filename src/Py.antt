-- ===== src/Py.antt =====
-- The Python objects that the C code takes apart, and src/tcrunch-base.c's readers of Python lists.
pub mod Lists
pub mod Uints
mod Tests
use trace_cruncher.Base.{
  ℕ, suc, ◌+◌, ◌-◌, ◌^◌, Bool, true, false, ◌&&◌, ◌||◌, List, [], ◌∷◌, Option, none, some, ◌==◌,
  ltb, if◌then◌else◌, length, get_elem?, modify, zero,
}
use trace_cruncher.Base.Int.{ℤ, pos, negsuc}
use trace_cruncher.Text.{Str}
use trace_cruncher.Alloc.{Mem, alloc, Run, done, fault}

-- An element of a list: `PyUnicode_Check`, `PyLong_CheckExact` (with its value), or neither. A text is
-- given by the bytes at its `PyUnicode_DATA`, up to the first that is 0: these are its characters where
-- it is ASCII and has no NUL, and otherwise what its representation in memory has there. The code looks
-- into no list inside a list.
pub data Item : Type 0 where
  unicode : Str → Item
  long : ℤ → Item
  other : Item

-- An argument: `PyList_CheckExact`, or one of the above.
pub data Obj : Type 0 where
  item : Item → Obj
  list : List Item → Obj

-- `tc_str_from_list` at an index that the list has: the C string at `PyUnicode_DATA`.
unfoldable pub str_of_item : Item → Option Str
str_of_item (unicode s) = some s
str_of_item (long v) = none
str_of_item other = none

-- The array `str`, or the `goto fail` in the loop.
unfoldable pub strs_of_items : List Item → Option (List Str)
strs_of_items [] = some []
strs_of_items (x ∷ xs) = elim (str_of_item x) [
  | none ↦ none
  | some s ↦ elim (strs_of_items xs) [ none ↦ none | some ss ↦ some (s ∷ ss) ]
]

-- `tc_list_get_str`: -1 is `none`; `*strings` is NULL for an empty list; `*size` is the length.
unfoldable pub tc_list_get_str : Obj → Mem → Option (Option (List Str) × ℕ)
tc_list_get_str (item x) m = none
tc_list_get_str (list []) m = some (none, 0)
tc_list_get_str (list (x ∷ xs)) m =
    if (alloc m).0
    then (elim (strs_of_items (x ∷ xs)) [ none ↦ none | some ss ↦ some (some ss, length (x ∷ xs)) ])
    else none

-- `(unsigned long)-1`
abbrev pub ulong_max : ℕ
ulong_max = 2 ^ 64 - 1

-- `PyLong_AsUnsignedLong`: the value, or an error and `(unsigned long)-1`.
unfoldable pub as_unsigned_long : ℤ → Option ℕ
as_unsigned_long (pos n) = if ltb n (2 ^ 64) then some n else none
as_unsigned_long (negsuc n) = none

-- `calloc(n, sizeof(*arr))`
unfoldable pub zeros : ℕ → List ℕ
zeros zero = []
zeros (suc k) = 0 ∷ zeros k

-- How the loop of `tc_list_get_uint` ends: `goto fail`, or the array and whether an error is set.
pub data Filled : Type 0 where
  filled : List ℕ → Bool → Filled
  bad_item : Filled

-- After `arr[i]` was stored: the test reads `arr[1]`, whatever `i` is, also where the array has a
-- single element.
unfoldable pub check_error : List ℕ → Bool → Run Bool
check_error arr error = elim (get_elem? arr 1) [
  | none ↦ fault
  | some second ↦ done ((second == ulong_max) && error)
]

unfoldable pub store_uint : List ℕ → ℕ → Option ℕ → List ℕ
store_uint arr i none = modify arr i (λ _. ulong_max)
store_uint arr i (some v) = modify arr i (λ _. v)

abbrev pub overflows : Option ℕ → Bool
overflows none = true
overflows (some v) = false

-- The loop from index `i`, with the array so far and whether a Python error is set.
unfoldable pub fill_uints : ℕ → List Item → List ℕ → Bool → Run Filled
fill_uints i [] arr error = done (filled arr error)
fill_uints i (unicode s ∷ xs) arr error = done bad_item
fill_uints i (other ∷ xs) arr error = done bad_item
fill_uints i (long v ∷ xs) arr error =
    let value = as_unsigned_long v in
    let arr' = store_uint arr i value in
    let error' = error || overflows value in
    elim (check_error arr' error') [
      | fault ↦ fault
      | done true ↦ done bad_item
      | done false ↦ fill_uints (i + 1) xs arr' error'
    ]

-- `tc_list_get_uint`: -1 is `none`; `*array` is NULL for an empty list; then `*size`, and whether the
-- call returns with a Python error set.
unfoldable pub tc_list_get_uint : Obj → Mem → Run (Option (Option (List ℕ) × ℕ × Bool))
tc_list_get_uint (item x) m = done none
tc_list_get_uint (list []) m = done (some (none, 0, false))
tc_list_get_uint (list (x ∷ xs)) m =
    if (alloc m).0
    then (elim (fill_uints 0 (x ∷ xs) (zeros (length (x ∷ xs))) false) [
      | fault ↦ fault
      | done bad_item ↦ done none
      | done (filled arr error) ↦ done (some (some arr, length (x ∷ xs), error))
    ])
    else done none
