-- ===== src/Py/Uints.antt =====
-- `tc_list_get_uint`: what it reads, and the conversions that fail unnoticed.
use trace_cruncher.Base.{
  ℕ, ◌+◌, ◌≡◌, ◌≢◌, refl, ap, ◌∙◌, Bool, true, false, ◌||◌, List, [], ◌∷◌, ◌++◌, Option, none, some,
  length, map, arith, sym, append_assoc, length-append, length-map,
}
use trace_cruncher.Base.Int.{ℤ}
use trace_cruncher.Alloc.{alloc, done, fault}
use trace_cruncher.Py.{
  Item, long, list, ulong_max, as_unsigned_long, zeros, filled, check_error, store_uint, overflows,
  fill_uints, tc_list_get_uint,
}

-- Every list of one integer makes the test read behind the end of the array.
pub tc_list_get_uint-one : (v : ℤ) → tc_list_get_uint (list (long v ∷ [])) [] ≡ fault
unfolding tc_list_get_uint alloc fill_uints store_uint check_error zeros
tc_list_get_uint-one v = ground arith

-- The entry of an integer: its value, or the largest number where it does not fit.
abbrev pub entry : ℤ → ℕ
entry v = elim (as_unsigned_long v) [ none ↦ ulong_max | some n ↦ n ]

abbrev pub any_overflow : List ℤ → Bool
any_overflow [] = false
any_overflow (v ∷ vs) = overflows (as_unsigned_long v) || any_overflow vs

store_uint-append :
    (before rest : List ℕ) (x : ℕ) (v : Option ℕ)
    → store_uint (before ++ x ∷ rest) (length before) v
      ≡ before ++ (elim v [ none ↦ ulong_max | some n ↦ n ]) ∷ rest
unfolding store_uint
store_uint-append [] rest x none = refl
store_uint-append [] rest x (some n) = refl
store_uint-append (b ∷ before) rest x none = ap (◌∷◌ b) (store_uint-append before rest x none)
store_uint-append (b ∷ before) rest x (some n) =
    ap (◌∷◌ b) (store_uint-append before rest x (some n))

||-assoc : (a b c : Bool) → ((a || b) || c) ≡ (a || (b || c))
||-assoc true b c = refl
||-assoc false b c = refl

fill_uints-long :
    (i : ℕ) (v : ℤ) (xs : List Item) (arr arr' : List ℕ) (error : Bool)
    → store_uint arr i (as_unsigned_long v) ≡ arr'
    → check_error arr' (error || overflows (as_unsigned_long v)) ≡ done false
    → fill_uints i (long v ∷ xs) arr error
      ≡ fill_uints (i + 1) xs arr' (error || overflows (as_unsigned_long v))
unfolding fill_uints
fill_uints-long i v xs arr arr' error e f = ground arith

-- From the third element on, with a second one that is not the largest number, no error is noticed.
fill_uints-tail :
    (i a b : ℕ) (before : List ℕ) (vs : List ℤ) (error : Bool)
    → i ≡ length (a ∷ b ∷ before)
    → b ≢ ulong_max
    → fill_uints i (map long vs) (a ∷ b ∷ before ++ zeros (length vs)) error
      ≡ done (filled (a ∷ b ∷ before ++ map entry vs) (error || any_overflow vs))
unfolding fill_uints zeros check_error
fill_uints-tail i a b before [] error e h = ground arith
fill_uints-tail i a b before (v ∷ vs) error e h =
    fill_uints-long i v (map long vs) _ (a ∷ b ∷ (before ++ entry v ∷ zeros (length vs))) error
      (rw e (store_uint-append (a ∷ b ∷ before) (zeros (length vs)) 0 (as_unsigned_long v)))
      (ground arith)
    ∙ ap
        (λ (l : List ℕ).
          fill_uints (i + 1) (map long vs) (a ∷ b ∷ l) (error || overflows (as_unsigned_long v)))
        (sym (append_assoc before (entry v ∷ []) (zeros (length vs))))
    ∙ fill_uints-tail (i + 1) a b (before ++ entry v ∷ []) vs _
        (omega (arith, length-append before (entry v ∷ []))) h
    ∙ ground (
      arith,
      append_assoc before (entry v ∷ []) (map entry vs),
      ||-assoc error (overflows (as_unsigned_long v)) (any_overflow vs),
    )

fill_uints-many :
    (v w : ℤ) (vs : List ℤ)
    → entry w ≢ ulong_max
    → fill_uints 0 (map long (v ∷ w ∷ vs)) (zeros (length (v ∷ w ∷ vs))) false
      ≡ done (filled (map entry (v ∷ w ∷ vs)) (any_overflow (v ∷ w ∷ vs)))
unfolding zeros store_uint check_error
fill_uints-many v w vs h =
    fill_uints-long 0 v (map long (w ∷ vs)) _ (entry v ∷ 0 ∷ zeros (length vs)) false (ground arith)
      (ground arith)
    ∙ fill_uints-long 1 w (map long vs) _ (entry v ∷ entry w ∷ zeros (length vs)) _ (ground arith)
        (ground arith)
    ∙ fill_uints-tail 2 (entry v) (entry w) [] vs _ (omega arith) h
    ∙ ground (
      arith,
      ||-assoc (overflows (as_unsigned_long v)) (overflows (as_unsigned_long w)) (any_overflow vs),
    )

-- A list of at least two integers, the second of which fits and is not the largest number, is read
-- with success and its full length, with every allocation successful. An integer that does not fit,
-- at any other place, becomes the largest number, and the call returns 0 with a Python error set.
pub tc_list_get_uint-many :
    (v w : ℤ) (vs : List ℤ)
    → entry w ≢ ulong_max
    → tc_list_get_uint (list (long v ∷ long w ∷ map long vs)) []
      ≡ done (
          some (
            some (entry v ∷ entry w ∷ map entry vs),
            length (v ∷ w ∷ vs),
            any_overflow (v ∷ w ∷ vs),
          ))
unfolding tc_list_get_uint alloc
tc_list_get_uint-many v w vs h =
    rw (ap zeros (length-map long (v ∷ w ∷ vs)), fill_uints-many v w vs h, length-map long vs)
