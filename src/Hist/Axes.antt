-- ===== src/Hist/Axes.antt =====
-- The axes that are read from a dictionary.
use trace_cruncher.Base.{
  ℕ, zero, suc, ◌+◌, ◌-◌, ◌≤◌, ◌≡◌, refl, ap, ap₂, ◌<◌, ◌∙◌, sym, true, false, List, [], ◌∷◌, ◌++◌,
  map, append_assoc, Option, none, some, arith, length, length-append, modify, All, ltb,
}
use trace_cruncher.Text.{Str}
use trace_cruncher.Alloc.{alloc, Run, done, fault, ◌>>=◌}
use trace_cruncher.Py.{unicode, Obj}
use trace_cruncher.Hist.{
  KeyType, hist_key_type, Axis, HistLib, DictEntry, no_axes, read_axes, store_axes, hist_from_axis,
}

-- A key, its value in the dictionary, and the type that the value stands for.
abbrev pub Typed : Type 0
Typed = Str × Obj × KeyType

abbrev pub HasType : Typed → Type 0
HasType (key, value, type) = hist_key_type value ≡ done (type, false)

-- The dictionary of these keys with no deleted entry in front of or between them: the position after
-- the `i`-th entry is `i + 1`.
abbrev pub entries_from : ℕ → List Typed → List DictEntry
entries_from i [] = []
entries_from i ((key, value, type) ∷ ts) = (i + 1, unicode key, value) ∷ entries_from (i + 1) ts

abbrev pub axis_of : Typed → Axis
axis_of (key, value, type) = record { key = key; type = type }

modify-length :
    {A : Type 0} (xs ys : List A) (y z : A)
    → modify (xs ++ y ∷ ys) (length xs) (λ _. z) ≡ xs ++ z ∷ ys
modify-length [] ys y z = refl
modify-length (x ∷ xs) ys y z = ap (◌∷◌ x) (modify-length xs ys y z)

length-entries_from : (i : ℕ) (ts : List Typed) → length (entries_from i ts) ≡ length ts
length-entries_from i [] = refl
length-entries_from i (t ∷ ts) = ap suc (length-entries_from (i + 1) ts)

store_axes-cons :
    (i : ℕ) (key : Str) (value : Obj) (type : KeyType) (es : List DictEntry)
    (axes : List (Option Axis))
    → hist_key_type value ≡ done (type, false)
    → i < length axes
    → store_axes ((i + 1, unicode key, value) ∷ es) axes
      ≡ store_axes es (modify axes i (λ _. some (record { key = key; type = type })))
unfolding store_axes
store_axes-cons i key value type es axes h l =
    let back : i + 1 - 1 ≡ i = omega arith in
    let inside : ltb i (length axes) ≡ true = ground arith in rw (h, store_axes, back, inside)

length-no_axes : (n : ℕ) → length (no_axes n) ≡ n
unfolding no_axes
length-no_axes zero = refl
length-no_axes (suc n) = ap suc (length-no_axes n)

store_axes-entries_from :
    (before : List (Option Axis)) (ts : List Typed)
    → All HasType ts
    → store_axes (entries_from (length before) ts) (before ++ no_axes (suc (length ts)))
      ≡ done (some (before ++ (map (λ t. some (axis_of t)) ts ++ none ∷ [])))
unfolding no_axes
store_axes-entries_from before [] h = unfold store_axes in refl
store_axes-entries_from before ((key, value, type) ∷ ts) h =
    let new = some (axis_of (key, value, type)) in
    let room = no_axes (suc (length ts)) in
    let moved : length before + 1 ≡ length (before ++ new ∷ []) =
      omega (arith, length-append before (new ∷ [])) in
    let stored : modify (before ++ none ∷ room) (length before) (λ _. new)
        ≡ (before ++ new ∷ []) ++ room =
      modify-length before room none new ∙ sym (append_assoc before (new ∷ []) room) in
    store_axes-cons (length before) key value type (entries_from (length before + 1) ts)
      (before ++ none ∷ room) h.0 (omega (arith, length-append before (none ∷ room)))
    ∙ (ap₂ (λ j axes. store_axes (entries_from j ts) axes) moved stored
        ∙ (store_axes-entries_from (before ++ new ∷ []) ts h.1
            ∙ ap (λ axes. done (some axes))
                (append_assoc before (new ∷ []) (map (λ t. some (axis_of t)) ts ++ none ∷ []))))

read_axes-some : (as' : List Axis) → read_axes (map some as' ++ none ∷ []) ≡ done as'
unfolding read_axes
read_axes-some [] = refl
read_axes-some (a ∷ as') = rw (read_axes-some as')

map-axis_of : (ts : List Typed) → map (λ t. some (axis_of t)) ts ≡ map some (map axis_of ts)
map-axis_of [] = refl
map-axis_of (t ∷ ts) = ap (◌∷◌ (some (axis_of t))) (map-axis_of ts)

-- A dictionary from which nothing was deleted, with texts as keys and a type for each value, gives a
-- histogram with exactly these axes, in the order of the dictionary, with the allocation successful.
pub hist_from_axis-entries_from :
    (lib : HistLib) (system event : Str) (ts : List Typed)
    → All HasType ts
    → hist_from_axis lib system event (some (entries_from 0 ts)) []
      ≡ done (lib.hist_alloc_nd system event (map axis_of ts))
unfolding hist_from_axis alloc
hist_from_axis-entries_from lib system event ts h =
    let size : length (entries_from 0 ts) + 1 ≡ suc (length ts) =
      omega (arith, length-entries_from 0 ts) in
    let stored = store_axes-entries_from [] ts h in
    ap (λ n. store_axes (entries_from 0 ts) (no_axes n) >>= found) size
    ∙ (ap (λ r. r >>= found) stored
        ∙ (ap (λ axes. read_axes (axes ++ none ∷ []) >>= allocate) (map-axis_of ts)
            ∙ ap (λ r. r >>= allocate) (read_axes-some (map axis_of ts))))
  where
    allocate : List Axis → Run (Option lib.Hist)
    allocate as' = done (lib.hist_alloc_nd system event as')

    found : Option (List (Option Axis)) → Run (Option lib.Hist)
    found r = elim r [ none ↦ done none | some axes ↦ read_axes axes >>= allocate ]

-- A dictionary whose one entry stands behind two or more deleted ones makes the loop store behind its
-- array: the position of `PyDict_Next` is used as if it counted entries.
pub hist_from_axis_hole :
    (lib : HistLib) (system event key : Str) (value : Obj) (type : KeyType) (i : ℕ)
    → 3 ≤ i
    → HasType (key, value, type)
    → hist_from_axis lib system event (some ((i, unicode key, value) ∷ [])) [] ≡ fault
unfolding hist_from_axis store_axes no_axes alloc
hist_from_axis_hole lib system event key value type i l h =
    let outside : ltb (i - 1) 2 ≡ false = ground arith in rw (h, store_axes, outside)
