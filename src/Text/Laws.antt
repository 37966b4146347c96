-- ===== src/Text/Laws.antt =====
-- Laws of the string functions of src/common.h and of `trim_new_line` and `fname_unify`.
use trace_cruncher.Base.{
  ℕ, suc, ◌≡◌, refl, ap, ◌↔◌, true, ◌&&◌, ◌||◌, [], ◌∷◌, ◌++◌, map, arith, ◌==◌, All, length,
}
use trace_cruncher.Text.{Str, str_eq, to_lower, is_alnum, lax_cmp, trim_new_line, fname_unify}

pub str_eq_self : (s : Str) → str_eq s s ≡ true
unfolding str_eq
str_eq_self [] = refl
str_eq_self (a ∷ s) = ground (arith, str_eq_self s)

pub eq_of_str_eq : (s t : Str) → str_eq s t ≡ true → s ≡ t
unfolding str_eq
eq_of_str_eq [] [] h = refl
eq_of_str_eq [] (b ∷ t) h = ground arith
eq_of_str_eq (a ∷ s) [] h = ground arith
eq_of_str_eq (a ∷ s) (b ∷ t) h = ground (arith, eq_of_str_eq s t)

pub str_eq_iff : (s t : Str) → (str_eq s t ≡ true) ↔ (s ≡ t)
str_eq_iff s t = (eq_of_str_eq s t, λ e. ground (arith, str_eq_self s))

-- `lax_cmp` compares after folding the case of its first argument.
pub lax_cmp-map : (arg model : Str) → lax_cmp arg model ≡ str_eq (map to_lower arg) model
unfolding lax_cmp str_eq to_lower
lax_cmp-map [] [] = refl
lax_cmp-map [] (_ ∷ _) = refl
lax_cmp-map (_ ∷ _) [] = refl
lax_cmp-map (a ∷ arg) (b ∷ model) = ap (λ r. (to_lower a == b) && r) (lax_cmp-map arg model)

-- A character that the kernel accepts in the name of a system or an event.
abbrev pub IsNameChar : ℕ → Type 0
IsNameChar c = (is_alnum c || (c == b'_')) ≡ true

pub fname_unify-IsNameChar : (s : Str) → All IsNameChar (fname_unify s)
unfolding fname_unify is_alnum
fname_unify-IsNameChar [] = tt
fname_unify-IsNameChar (c ∷ s) = (ground arith, fname_unify-IsNameChar s)

pub length-fname_unify : (s : Str) → length (fname_unify s) ≡ length s
unfolding fname_unify
length-fname_unify [] = refl
length-fname_unify (c ∷ s) = ap suc (length-fname_unify s)

pub fname_unify-fixed : (s : Str) → All IsNameChar s → fname_unify s ≡ s
unfolding fname_unify is_alnum
fname_unify-fixed [] h = refl
fname_unify-fixed (c ∷ s) h = ground (arith, fname_unify-fixed s h.1)

pub trim_new_line-append : (s : Str) → trim_new_line (s ++ 10 ∷ []) ≡ s
unfolding trim_new_line
trim_new_line-append [] = refl
trim_new_line-append (a ∷ []) = refl
trim_new_line-append (a ∷ b ∷ s) = ap (◌∷◌ a) (trim_new_line-append (b ∷ s))

pub str_eq_sym : (s t : Str) → str_eq s t ≡ str_eq t s
unfolding str_eq
str_eq_sym [] [] = refl
str_eq_sym [] (b ∷ t) = refl
str_eq_sym (a ∷ s) [] = refl
str_eq_sym (a ∷ s) (b ∷ t) = ground (arith, str_eq_sym s t)
