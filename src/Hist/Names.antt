-- ===== src/Hist/Names.antt =====
-- The names of key types and of directions, in any case.
use trace_cruncher.Base.{
  ℕ, zero, suc, ◌≡◌, refl, Bool, true, false, not, ◌&&◌, List, [], ◌∷◌, map, none, some, arith,
  get_elem?, if◌then◌else◌, ◌∙◌,
}
use trace_cruncher.Base.Int.{ℤ}
use trace_cruncher.Text.{Str, str_eq, to_lower}
use trace_cruncher.Text.Laws.{str_eq_self, lax_cmp-map, str_eq_sym}
use trace_cruncher.Alloc.{done}
use trace_cruncher.Py.{item, unicode}
use trace_cruncher.Hist.{HistKey, named, key_names, find_name, hist_key_type}
use trace_cruncher.Hist.Sort.{direction_names, sort_direction}

module _ {A : Type 0} where
  abbrev pub fresh : Str → List (Str × A) → Bool
  fresh n [] = true
  fresh n ((m, a) ∷ names) = not (str_eq m n) && fresh n names

  -- No name stands in the table twice.
  abbrev pub distinct : List (Str × A) → Bool
  distinct [] = true
  distinct ((n, a) ∷ names) = fresh n names && distinct names

  fresh-get_elem? :
      (n m : Str) (a : A) (names : List (Str × A)) (i : ℕ)
      → fresh n names ≡ true
      → get_elem? names i ≡ some (m, a)
      → str_eq m n ≡ false
  fresh-get_elem? n m a [] i f h = ground arith
  fresh-get_elem? n m a ((k, b) ∷ names) zero f h = ground arith
  fresh-get_elem? n m a ((k, b) ∷ names) (suc i) f h =
      fresh-get_elem? n m a names i (ground arith) h

  find_name-cons :
      (s n : Str) (a : A) (names : List (Str × A))
      → find_name s ((n, a) ∷ names)
        ≡ (if str_eq (map to_lower s) n then some a else find_name s names)
  unfolding find_name
  find_name-cons s n a names = rw (lax_cmp-map s n)

  pub find_name-get_elem? :
      (s n : Str) (a : A) (names : List (Str × A)) (i : ℕ)
      → distinct names ≡ true
      → get_elem? names i ≡ some (n, a)
      → map to_lower s ≡ n
      → find_name s names ≡ some a
  find_name-get_elem? s n a [] i d h e = ground arith
  find_name-get_elem? s n a ((k, b) ∷ names) zero d h e =
      find_name-cons s k b names ∙ ground (arith, str_eq_self n, str_eq_self k)
  find_name-get_elem? s n a ((k, b) ∷ names) (suc i) d h e =
      let other = fresh-get_elem? k n a names i (ground arith) h in
      find_name-cons s k b names
      ∙ rw (e, other) (find_name-get_elem? s n a names i (ground arith) h e)

  pub find_name_unknown :
      (s : Str) (names : List (Str × A))
      → fresh (map to_lower s) names ≡ true
      → find_name s names ≡ none
  unfolding find_name
  find_name_unknown s [] h = refl
  find_name_unknown s ((k, b) ∷ names) h =
      find_name-cons s k b names
      ∙ ground (arith, str_eq_sym k (map to_lower s), find_name_unknown s names)

key_names_distinct : distinct key_names ≡ true
unfolding str_eq
key_names_distinct = refl

direction_names_distinct : distinct direction_names ≡ true
unfolding str_eq
direction_names_distinct = refl

-- A text that is, in any case, the `i`-th name of the table of key types gives the key type of that
-- name and sets no error; no earlier test of the chain catches it.
pub hist_key_type-key_names :
    (s : Str) (i : ℕ) (n : Str) (k : HistKey)
    → get_elem? key_names i ≡ some (n, k)
    → map to_lower s ≡ n
    → hist_key_type (item (unicode s)) ≡ done (named k, false)
unfolding hist_key_type
hist_key_type-key_names s i n k h e =
    rw (find_name-get_elem? s n k key_names i key_names_distinct h e, hist_key_type)

-- The same for the table of directions.
pub sort_direction-direction_names :
    (s : Str) (i : ℕ) (n : Str) (dir : ℤ)
    → get_elem? direction_names i ≡ some (n, dir)
    → map to_lower s ≡ n
    → sort_direction (item (unicode s)) ≡ dir
unfolding sort_direction
sort_direction-direction_names s i n dir h e =
    rw (find_name-get_elem? s n dir direction_names i direction_names_distinct h e, sort_direction)
