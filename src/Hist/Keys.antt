-- ===== src/Hist/Keys.antt =====
-- The axes that are given as a list of keys with a list of types.
use trace_cruncher.Base.{
  List, [], ◌∷◌, map, some, none, ◌≡◌, refl, length, All, ◌==◌, true, arith, false,
}
use trace_cruncher.Base.Int.{ℤ, is_neg, to_int}
use trace_cruncher.Text.{Str}
use trace_cruncher.Hist.{
  fill_typed_keys, hist_from_key, Axis, hist_key_type, axes_of_keys, number, HistLib,
}
use trace_cruncher.Ftrace.Pids.{as_long}
use trace_cruncher.Py.{unicode, long, list, Item}
use trace_cruncher.Alloc.{alloc, done, Mem}

-- A key, the number of its type, and that number as the library takes it.
abbrev pub IsTypeNumber : ℤ → Type 0
IsTypeNumber v = is_neg (to_int (as_long v)) ≡ false

abbrev pub numbered : Str × ℤ → Axis
numbered (key, v) = record { key = key; type = number (to_int (as_long v)) }

abbrev pub AllNumbered : List (Str × ℤ) → Type 0
AllNumbered ts = All (λ t. IsTypeNumber t.1) ts

fill_typed_keys-numbered :
    (ts : List (Str × ℤ))
    → AllNumbered ts
    → fill_typed_keys (map (λ t. unicode t.0) ts) (map (λ t. long t.1) ts)
      ≡ done (some (map numbered ts))
unfolding fill_typed_keys hist_key_type trace_cruncher.Py.str_of_item
fill_typed_keys-numbered [] h = refl
fill_typed_keys-numbered ((key, v) ∷ ts) h = simp (h.0, fill_typed_keys-numbered ts h.1) refl

length-map-both :
    {A B C : Type 0} (f : A → B) (g : A → C) (xs : List A)
    → (length (map g xs) == length (map f xs)) ≡ true
length-map-both f g [] = ground arith
length-map-both f g (x ∷ xs) = ground (arith, length-map-both f g xs)

-- A list of texts with a list of as many type numbers, none of them negative as an `int`, gives a
-- histogram with one axis for each key, in order, each with its own type, with the allocation
-- successful.
pub hist_from_key-numbered :
    (lib : HistLib) (system event : Str) (ts : List (Str × ℤ))
    → AllNumbered ts
    → hist_from_key lib system event
        (list (map (λ t. unicode t.0) ts))
        (some (list (map (λ t. long t.1) ts)))
        []
      ≡ done (lib.hist_alloc_nd system event (map numbered ts))
unfolding hist_from_key axes_of_keys alloc
hist_from_key-numbered lib system event ts h =
    rw (length-map-both (λ t. unicode t.0) (λ t. long t.1) ts, fill_typed_keys-numbered ts h)

-- A list of keys whose first type is a name makes no histogram, though the same name serves as the
-- type of a single key.
pub hist_from_key_named_type :
    (lib : HistLib) (system event key name : Str) (keys types : List Item) (m : Mem)
    → hist_from_key lib system event
        (list (unicode key ∷ keys))
        (some (list (unicode name ∷ types)))
        m
      ≡ done none
unfolding hist_from_key axes_of_keys fill_typed_keys
hist_from_key_named_type lib system event key name keys types m = ground arith
