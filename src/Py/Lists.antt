-- ===== src/Py/Lists.antt =====
-- `tc_list_get_str` reads exactly the lists of strings.
use trace_cruncher.Base.{ℕ, ◌≡◌, refl, List, [], ◌∷◌, some, length, map, arith, ◌↔◌}
use trace_cruncher.Text.{Str}
use trace_cruncher.Alloc.{alloc}
use trace_cruncher.Py.{
  Item, unicode, long, other, list, str_of_item, strs_of_items, tc_list_get_str,
}

strs_of_items-map : (ss : List Str) → strs_of_items (map unicode ss) ≡ some ss
unfolding strs_of_items str_of_item
strs_of_items-map [] = refl
strs_of_items-map (s ∷ ss) = ground (arith, strs_of_items-map ss)

strs_of_items-some :
    (xs : List Item) (ss : List Str) → strs_of_items xs ≡ some ss → xs ≡ map unicode ss
unfolding strs_of_items str_of_item
strs_of_items-some [] [] h = refl
strs_of_items-some [] (s ∷ ss) h = ground arith
strs_of_items-some (unicode t ∷ xs) [] h = ground arith
strs_of_items-some (unicode t ∷ xs) (s ∷ ss) h = ground (arith, strs_of_items-some xs ss)
strs_of_items-some (long v ∷ xs) ss h = ground arith
strs_of_items-some (other ∷ xs) ss h = ground arith

-- With the allocation successful, reading a non-empty list gives an array of C strings exactly if the
-- entries of the list are all texts and these are the bytes of their data, in order; the size is then
-- its length.
pub tc_list_get_str_iff :
    (x : Item) (xs : List Item) (ss : List Str) (n : ℕ)
    → (tc_list_get_str (list (x ∷ xs)) [] ≡ some (some ss, n))
      ↔ ((x ∷ xs ≡ map unicode ss) × (n ≡ length (x ∷ xs)))
unfolding tc_list_get_str alloc
tc_list_get_str_iff x xs ss n = (forth, back)
  where
    forth :
        tc_list_get_str (list (x ∷ xs)) [] ≡ some (some ss, n)
        → (x ∷ xs ≡ map unicode ss) × (n ≡ length (x ∷ xs))
    forth h = ground (arith, strs_of_items-some (x ∷ xs) ss)

    back :
        (x ∷ xs ≡ map unicode ss) × (n ≡ length (x ∷ xs))
        → tc_list_get_str (list (x ∷ xs)) [] ≡ some (some ss, n)
    back h =
        let e : strs_of_items (x ∷ xs) ≡ some ss = rw h.0 (strs_of_items-map ss) in ground arith
