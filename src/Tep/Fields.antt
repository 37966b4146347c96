-- ===== src/Tep/Fields.antt =====
-- `PyTepEvent_field_names`: the common fields and then the others, each in its place.
use trace_cruncher.Base.{
  ℕ, zero, suc, ◌+◌, ◌≤◌, ◌<◌, length, length-append, ◌≡◌, refl, ◌∙◌, ap, sym, List, [], ◌∷◌, ◌++◌,
  append_assoc, append-nil, map, Option, some, modify, arith, length-map,
}
use trace_cruncher.Text.{Str}
use trace_cruncher.Alloc.{done, fault, ◌>>=◌}
use trace_cruncher.Tep.{Format, new_list, set_items, field_names}

length-new_list : (n : ℕ) → length (new_list n) ≡ n
unfolding new_list
length-new_list zero = refl
length-new_list (suc n) = ground (arith, length-new_list n)

-- Place `length ps` behind the list `ps`.
modify-behind :
    (ps : List (Option Str)) (x y : Option Str) (qs : List (Option Str))
    → modify (ps ++ x ∷ qs) (length ps) (λ _. y) ≡ (ps ++ y ∷ []) ++ qs
modify-behind [] x y qs = refl
modify-behind (p ∷ ps) x y qs = ap (λ l. p ∷ l) (modify-behind ps x y qs)

abbrev drop {ℓ} : {A : Type ℓ} → ℕ → List A → List A
drop zero xs = xs
drop (suc n) [] = []
drop (suc n) (x ∷ xs) = drop n xs

set_items_cons :
    (ps qs : List (Option Str)) (q : Option Str) (name : Str) (names : List Str)
    → set_items (length ps) (name ∷ names) (ps ++ q ∷ qs)
      ≡ set_items (length (ps ++ some name ∷ [])) names ((ps ++ some name ∷ []) ++ qs)
unfolding set_items
set_items_cons ps qs q name names = ground (
  arith,
  length-append ps (q ∷ qs),
  length-append ps (some name ∷ []),
  modify-behind ps q (some name) qs,
)

-- The loop fills the places behind those that are set.
set_items-map :
    (ps qs : List (Option Str)) (names : List Str)
    → length names ≤ length qs
    → set_items (length ps) names (ps ++ qs)
      ≡ done (ps ++ (map (λ s. some s) names ++ drop (length names) qs))
unfolding set_items
set_items-map ps qs [] l = refl
set_items-map ps [] (name ∷ names) l = absurd (omega arith)
set_items-map ps (q ∷ qs) (name ∷ names) l =
    set_items_cons ps qs q name names
    ∙ (set_items-map (ps ++ some name ∷ []) qs names (omega arith)
        ∙ ap done
            (append_assoc ps (some name ∷ []) (map (λ s. some s) names ++ drop (length names) qs)))

-- With more names than places, it writes behind the list.
set_items_overflow :
    (ps qs : List (Option Str)) (names : List Str)
    → length qs < length names
    → set_items (length ps) names (ps ++ qs) ≡ fault
unfolding set_items
set_items_overflow ps qs [] l = absurd (omega arith)
set_items_overflow ps [] (name ∷ names) l = ground (arith, length-append ps [])
set_items_overflow ps (q ∷ qs) (name ∷ names) l =
    set_items_cons ps qs q name names
    ∙ set_items_overflow (ps ++ some name ∷ []) qs names (omega arith)

map-some-append :
    (xs ys : List Str) → map (λ s. some s) (xs ++ ys) ≡ map (λ s. some s) xs ++ map (λ s. some s) ys
map-some-append [] ys = refl
map-some-append (x ∷ xs) ys = ap (λ l. some x ∷ l) (map-some-append xs ys)

length-drop : (n : ℕ) (xs : List (Option Str)) → n ≤ length xs → length (drop n xs) + n ≡ length xs
length-drop zero xs l = omega arith
length-drop (suc n) [] l = absurd (omega arith)
length-drop (suc n) (x ∷ xs) l = omega (arith, length-drop n xs (omega arith))

drop_all : (n : ℕ) (xs : List (Option Str)) → length xs ≤ n → drop n xs ≡ []
drop_all zero [] l = refl
drop_all zero (x ∷ xs) l = absurd (omega arith)
drop_all (suc n) [] l = refl
drop_all (suc n) (x ∷ xs) l = drop_all n xs (omega arith)

module _ (format : Format) (common fields : List Str) where
  places : List (Option Str)
  places = new_list (format.nr_fields + format.nr_common)

  left : List (Option Str)
  left = drop (length common) places

  -- Both loops, where there is memory for the two arrays of fields.
  both_loops :
      format.common_fields ≡ some common
      → format.fields ≡ some fields
      → length common ≤ format.nr_fields + format.nr_common
      → field_names format ≡ (
          set_items (length (map (λ s. some s) common)) fields (map (λ s. some s) common ++ left)
          >>= λ list. done (some list))
  unfolding field_names places left
  both_loops c f l = ground (
    arith,
    set_items-map [] places common
        (omega (arith, length-new_list (format.nr_fields + format.nr_common), l)),
    length-map (λ s. some s) common,
  )

  places_left :
      length common ≤ format.nr_fields + format.nr_common
      → length left + length common ≡ format.nr_fields + format.nr_common
  unfolding places left
  places_left l = omega (
    arith,
    length-new_list (format.nr_fields + format.nr_common),
    length-drop (length common) (new_list (format.nr_fields + format.nr_common))
        (omega (arith, length-new_list (format.nr_fields + format.nr_common))),
  )

  -- Where the numbers of the format are those of its fields and there is memory for both arrays,
  -- `PyTepEvent_field_names` gives the names of the common fields and then those of the others, with no
  -- place left over.
  pub field_names-append :
      format.common_fields ≡ some common
      → format.fields ≡ some fields
      → format.nr_common ≡ length common
      → format.nr_fields ≡ length fields
      → field_names format ≡ done (some (map (λ s. some s) (common ++ fields)))
  field_names-append c f nc nf =
      let l : length common ≤ format.nr_fields + format.nr_common = omega (arith, nc) in
      let e = places_left l in
      let filled =
        set_items-map (map (λ s. some s) common) left fields (omega (arith, nc, nf, e)) in
      let rest = drop_all (length fields) left (omega (arith, nc, nf, e)) in
      both_loops c f l
      ∙ (ap (λ r. r >>= λ list. done (some list)) filled
          ∙ ap (λ x. done (some x))
              (ap (λ x. map (λ s. some s) common ++ (map (λ s. some s) fields ++ x)) rest
                ∙ (ap (λ x. map (λ s. some s) common ++ x) (append-nil (map (λ s. some s) fields))
                    ∙ sym (map-some-append common fields))))

  -- Where there are more fields than the numbers of the format say, it writes behind the list.
  pub field_names_overflow :
      format.common_fields ≡ some common
      → format.fields ≡ some fields
      → length common ≤ format.nr_fields + format.nr_common
      → format.nr_fields + format.nr_common < length common + length fields
      → field_names format ≡ fault
  field_names_overflow c f l more =
      both_loops c f l
      ∙ ap (λ r. r >>= λ list. done (some list))
          (set_items_overflow (map (λ s. some s) common) left fields
            (omega (arith, more, places_left l)))
