-- ===== src/Hist.antt =====
-- Histograms of src/ftracepy-utils.c: `hist_key_type`, `hist_from_key`, `hist_from_axis` and
-- `PyFtrace_hist`, after their arguments were parsed.
pub mod Names
pub mod Axes
pub mod Keys
pub mod Sort
pub mod Commands
mod Tests
use trace_cruncher.Base.{
  ℕ, suc, ◌+◌, ◌-◌, Bool, true, false, not, ◌&&◌, ◌||◌, List, [], ◌∷◌, ◌++◌, map, Option, none,
  some, ◌==◌, if◌then◌else◌, length, get_elem?, modify, ltb, ◌^◌, zero,
}
use trace_cruncher.Base.Int.{ℤ, pos, negsuc, is_neg, to_int}
use trace_cruncher.Text.{Str, codes, lax_cmp}
use trace_cruncher.Alloc.{Mem, alloc, Run, done, fault, ◌>>=◌}
use trace_cruncher.Py.{Item, unicode, long, other, Obj, item, list, str_of_item}
use trace_cruncher.Ftrace.Pids.{as_long}

-- The constants of `enum tracefs_hist_key_type` that the code names.
pub data HistKey : Type 0 where
  normal hex sym sym_offset syscall execname log usecs max : HistKey

-- The `int` that `hist_key_type` returns: one of the constants, which are not negative, or a number.
pub data KeyType : Type 0 where
  named : HistKey → KeyType
  number : ℤ → KeyType

abbrev pub is_bad : KeyType → Bool
is_bad (named k) = false
is_bad (number v) = is_neg v

-- The names in the order of the tests.
abbrev pub key_names : List (Str × HistKey)
key_names =
    (codes "normal", normal)
    ∷ (codes "n", normal)
    ∷ (codes "hex", hex)
    ∷ (codes "h", hex)
    ∷ (codes "sym", sym)
    ∷ (codes "sym_offset", sym_offset)
    ∷ (codes "so", sym_offset)
    ∷ (codes "syscall", syscall)
    ∷ (codes "sc", syscall)
    ∷ (codes "execname", execname)
    ∷ (codes "e", execname)
    ∷ (codes "log", log)
    ∷ (codes "l", log)
    ∷ (codes "users", usecs)
    ∷ (codes "u", usecs)
    ∷ (codes "max", max)
    ∷ (codes "m", max)
    ∷ []

-- The chain of `lax_cmp` tests.
unfoldable pub find_name : {A : Type 0} → Str → List (Str × A) → Option A
find_name s [] = none
find_name s ((name, a) ∷ names) = if lax_cmp s name then some a else find_name s names

-- `PyLong_AsLong` sets an error where the number does not fit.
unfoldable pub fits_long : ℤ → Bool
fits_long (pos n) = ltb n (2 ^ 63)
fits_long (negsuc n) = ltb n (2 ^ 63)

-- The type, and whether a Python error is set. For an object that is neither a text nor a number the
-- message has a `%s` and no argument, which is undefined.
unfoldable pub hist_key_type : Obj → Run (KeyType × Bool)
hist_key_type (list xs) = fault
hist_key_type (item other) = fault
hist_key_type (item (long v)) = done (number (to_int (as_long v)), not (fits_long v))
hist_key_type (item (unicode s)) = elim (find_name s key_names) [
  | none ↦ done (number (negsuc 0), true)
  | some k ↦ done (named k, false)
]

-- `struct tracefs_hist_axis`
pub record Axis : Type 0 where
  pub key : Str
  pub type : KeyType

-- The functions of libtracefs: NULL on an error, or what is negative on an error. `get_tep` is false
-- where no local `tep` can be made.
pub record HistLib : Type 1 where
  pub Hist : Type 0
  pub get_tep : Bool
  pub hist_alloc : Str → Str → Str → KeyType → Option Hist
  pub hist_alloc_nd : Str → Str → List Axis → Option Hist
  pub add_name : Hist → Str → ℤ × Hist
  pub add_sort_key : Hist → Str → ℤ × Hist
  pub sort_key_direction : Hist → Str → ℤ → ℤ × Hist

-- The entries `axes[0 .. n_keys)`: `none` is a `return NULL`. The types are those of a list of numbers,
-- or 0 where there is no list.
unfoldable pub fill_keys : List Item → Run (Option (List Axis))
fill_keys [] = done (some [])
fill_keys (x ∷ xs) = elim (str_of_item x) [
  | none ↦ done none
  | some key ↦ fill_keys xs >>= (λ axes. elim axes [
    | none ↦ done none
    | some as' ↦ done (some (record { key = key; type = number (pos 0) } ∷ as'))
  ])
]

unfoldable pub fill_typed_keys : List Item → List Item → Run (Option (List Axis))
fill_typed_keys [] types = done (some [])
fill_typed_keys (x ∷ xs) [] = done none
fill_typed_keys (x ∷ xs) (t ∷ types) = elim (str_of_item x) [
  | none ↦ done none
  | some key ↦ elim t [
    | unicode s ↦ done none
    | other ↦ done none
    | long v ↦ hist_key_type (item (long v)) >>= (λ r.
        if is_bad r.0
        then done none
        else (fill_typed_keys xs types >>= (λ axes. elim axes [
          | none ↦ done none
          | some as' ↦ done (some (record { key = key; type = r.0 } ∷ as'))
        ])))
  ]
]

-- The test on the types reads the keys in place of the types; a size is -1 where there is no list.
unfoldable pub axes_of_keys : List Item → Option Obj → Mem → Run (Option (List Axis))
axes_of_keys keys none m = if (alloc m).0 then fill_keys keys else done none
axes_of_keys keys (some (item x)) m = done none
axes_of_keys keys (some (list types)) m =
    if length types == length keys
    then (if (alloc m).0 then fill_typed_keys keys types else done none)
    else done none

-- What `PyDict_Next` gives: its position after the entry, the key and the value.
abbrev pub DictEntry : Type 0
DictEntry = ℕ × Item × Obj

-- `calloc(n, sizeof(*axes))`, and the array as the library reads it, up to the first NULL key.
unfoldable pub no_axes : ℕ → List (Option Axis)
no_axes zero = []
no_axes (suc n) = none ∷ no_axes n

unfoldable pub read_axes : List (Option Axis) → Run (List Axis)
read_axes [] = fault
read_axes (none ∷ axes) = done []
read_axes (some a ∷ axes) = read_axes axes >>= (λ as'. done (a ∷ as'))

-- The loop over the dictionary, which stores at the position less 1: `none` is a `return NULL`. A store
-- behind the array is a fault, and so is a key that is no text.
unfoldable pub store_axes : List DictEntry → List (Option Axis) → Run (Option (List (Option Axis)))
store_axes [] axes = done (some axes)
store_axes ((i, unicode key, value) ∷ es) axes = hist_key_type value >>= (λ r.
    let axes' = modify axes (i - 1) (λ _. some (record { key = key; type = r.0 })) in
    if ltb (i - 1) (length axes) then (if r.1 then done none else store_axes es axes') else fault)
store_axes ((i, long v, value) ∷ es) axes = fault
store_axes ((i, other, value) ∷ es) axes = fault

module _ (lib : HistLib) where
  open lib use {Hist, get_tep, hist_alloc, hist_alloc_nd, add_name}

  unfoldable pub hist_from_key : Str → Str → Obj → Option Obj → Mem → Run (Option Hist)
  hist_from_key system event (item (unicode key)) none m =
      done (hist_alloc system event key (number (pos 0)))
  hist_from_key system event (item (unicode key)) (some t) m =
      hist_key_type t
      >>= (λ r. if is_bad r.0 then done none else done (hist_alloc system event key r.0))
  hist_from_key system event (item (long v)) t m = done none
  hist_from_key system event (item other) t m = done none
  hist_from_key system event (list keys) t m = axes_of_keys keys t m >>= (λ axes. elim axes [
    | none ↦ done none
    | some as' ↦ done (hist_alloc_nd system event as')
  ])

  -- A dictionary with its size, or an object that is none.
  unfoldable pub hist_from_axis : Str → Str → Option (List DictEntry) → Mem → Run (Option Hist)
  hist_from_axis system event none m = done none
  hist_from_axis system event (some entries) m =
      if (alloc m).0
      then (store_axes entries (no_axes (length entries + 1)) >>= (λ r. elim r [
        | none ↦ done none
        | some axes ↦ read_axes axes >>= (λ as'. done (hist_alloc_nd system event as'))
      ]))
      else done none

  -- `PyFtrace_hist`: `axes` is given as a dictionary or as another object, `some none`.
  unfoldable pub new_hist :
      Str
      → Str
      → Option Obj
      → Option Obj
      → Option (Option (List DictEntry))
      → Option Str
      → Mem
      → Run (Option Hist)
  new_hist system event key type axes name m =
      if get_tep
      then (made key axes >>= (λ r. elim r [
        | none ↦ done none
        | some hist ↦ elim name [
          | none ↦ done (some hist)
          | some n ↦
              let (ret, hist') = add_name hist n in done (if is_neg ret then none else some hist')
        ]
      ]))
      else done none
    where
      made : Option Obj → Option (Option (List DictEntry)) → Run (Option Hist)
      made (some k) none = hist_from_key system event k type m
      made none (some as') = hist_from_axis system event as' m
      made (some k) (some as') = done none
      made none none = done none
