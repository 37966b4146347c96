-- ===== src/Version/Laws.antt =====
-- Reading back a version that was printed.
use trace_cruncher.Base.{
  ℕ, zero, suc, ◌+◌, ◌/◌, ◌%◌, ◌<◌, ◌≡◌, refl, ap, ◌∙◌, sym, subst, true, false, ◌&&◌, ◌||◌, [],
  ◌∷◌, ◌++◌, append_assoc, some, arith, ◌==◌, ltb, leb, if◌then◌else◌, All, All-append, Bool-cases,
  inl, inr, ◌^◌,
}
use trace_cruncher.Base.Int.{pos, to_int, low_bits}
use trace_cruncher.Text.{Str}
use trace_cruncher.Alloc.{done}
use trace_cruncher.Dbg.Context.Libs.{skip_space}
use trace_cruncher.Version.{
  is_digit, digits_value, signed_value, atoi, cut_at_dot, skip_dots, strtok, check_kernel_support,
}

-- A number in decimal notation, most significant digit first, with fuel above the number.
abbrev pub decimal_on : ℕ → ℕ → Str
decimal_on zero n = []
decimal_on (suc fuel) n =
    let front = decimal_on fuel (n / 10) in
    if ltb n 10 then (b'0' + n) ∷ [] else front ++ (b'0' + n % 10) ∷ []

abbrev pub decimal : ℕ → Str
decimal n = decimal_on (suc n) n

-- A text whose first character, if it has one, is no digit.
abbrev pub StartsNoDigit : Str → Type 0
StartsNoDigit [] = Unit
StartsNoDigit (c ∷ s) = is_digit c ≡ false

digits_value-decimal_on :
    (fuel n : ℕ) (rest : Str)
    → n < fuel
    → digits_value 0 (decimal_on fuel n ++ rest) ≡ digits_value n rest
unfolding digits_value is_digit
digits_value-decimal_on zero n rest h = absurd (omega arith)
digits_value-decimal_on (suc fuel) n rest h = elim (Bool-cases (ltb n 10)) [
  | inl e ↦ rw e (ground arith)
  | inr e ↦
      rw (e, append_assoc (decimal_on fuel (n / 10)) ((b'0' + n % 10) ∷ []) rest)
        (digits_value-decimal_on fuel (n / 10) ((b'0' + n % 10) ∷ rest) (ground arith)
          ∙ ground arith)
]

digits_value_stops : (n : ℕ) (rest : Str) → StartsNoDigit rest → digits_value n rest ≡ n
unfolding digits_value
digits_value_stops n [] h = refl
digits_value_stops n (c ∷ s) h = rw h

abbrev IsDigit : ℕ → Type 0
IsDigit c = is_digit c ≡ true

decimal_on-IsDigit : (fuel n : ℕ) → All IsDigit (decimal_on fuel n)
unfolding is_digit
decimal_on-IsDigit zero n = tt
decimal_on-IsDigit (suc fuel) n = elim (Bool-cases (ltb n 10)) [
  | inl e ↦ rw e (ground arith, tt)
  | inr e ↦ rw e (
      All-append IsDigit (decimal_on fuel (n / 10)) _ (decimal_on-IsDigit fuel (n / 10))
        (ground arith, tt))
]

decimal_on_cons : (fuel n : ℕ) → n < fuel → (c : ℕ) × (s : Str) × (decimal_on fuel n ≡ c ∷ s)
decimal_on_cons zero n h = absurd (omega arith)
decimal_on_cons (suc fuel) n h = elim (Bool-cases (ltb n 10)) [
  | inl e ↦ (b'0' + n, [], rw e)
  | inr e ↦
      let (c, s, q) = decimal_on_cons fuel (n / 10) (ground arith) in
      (c, s ++ (b'0' + n % 10) ∷ [], rw (e, q))
]

-- A decimal number has a first digit.
decimal_cons : (n : ℕ) → (c : ℕ) × (s : Str) × (decimal n ≡ c ∷ s) × All IsDigit (c ∷ s)
decimal_cons n =
    let (c, s, q) = decimal_on_cons (suc n) n (omega arith) in
    (c, s, q, subst (All IsDigit) q (decimal_on-IsDigit (suc n) n))

atoi_digit : (c : ℕ) (s : Str) → IsDigit c → atoi (c ∷ s) ≡ to_int (pos (digits_value 0 (c ∷ s)))
unfolding atoi signed_value skip_space is_digit
atoi_digit c s h = ground arith

int_small : (n : ℕ) → n < 2 ^ 31 → to_int (pos n) ≡ pos n
unfolding to_int low_bits
int_small n h = ground arith

atoi-decimal :
    (n : ℕ) (rest : Str) → n < 2 ^ 31 → StartsNoDigit rest → atoi (decimal n ++ rest) ≡ pos n
atoi-decimal n rest u h =
    let (c, s, q, ds) = decimal_cons n in
    ap (λ t. atoi (t ++ rest)) q
    ∙ (atoi_digit c (s ++ rest) ds.0
        ∙ (ap (λ k. to_int (pos k))
              (ap (λ t. digits_value 0 (t ++ rest)) (sym q)
                ∙ (digits_value-decimal_on (suc n) n rest (omega arith)
                    ∙ digits_value_stops n rest h))
            ∙ int_small n u))

cut_at_dot-digits :
    (s rest : Str)
    → All IsDigit s
    → cut_at_dot (s ++ rest) ≡ (s ++ (cut_at_dot rest).0, (cut_at_dot rest).1)
unfolding cut_at_dot is_digit
cut_at_dot-digits [] rest h = refl
cut_at_dot-digits (c ∷ s) rest h = ground (arith, cut_at_dot-digits s rest h.1)

skip_dots_digit : (c : ℕ) (s : Str) → IsDigit c → skip_dots (c ∷ s) ≡ c ∷ s
unfolding skip_dots is_digit
skip_dots_digit c s h = ground arith

strtok-decimal :
    (n : ℕ) (rest : Str)
    → strtok (decimal n ++ rest) ≡ some (decimal n ++ (cut_at_dot rest).0, (cut_at_dot rest).1)
unfolding strtok
strtok-decimal n rest =
    let (c, s, q, ds) = decimal_cons n in
    subst (λ t. strtok (t ++ rest) ≡ some (t ++ (cut_at_dot rest).0, (cut_at_dot rest).1)) (sym q)
      (rw (skip_dots_digit c (s ++ rest) ds.0, strtok)
        (ap some (cut_at_dot-digits (c ∷ s) rest ds)))

cut_at_dot-StartsNoDigit : (tail : Str) → StartsNoDigit tail → StartsNoDigit (cut_at_dot tail).0
unfolding cut_at_dot
cut_at_dot-StartsNoDigit [] h = tt
cut_at_dot-StartsNoDigit (c ∷ s) h = elim (Bool-cases (c == b'.')) [
  | inl e ↦ rw e tt
  | inr e ↦ rw e h
]

check_two :
    (release x r y r' : Str) (a b major minor : ℕ)
    → strtok release ≡ some (x, r)
    → atoi x ≡ pos a
    → strtok r ≡ some (y, r')
    → atoi y ≡ pos b
    → check_kernel_support (some release) major minor
      ≡ done (ltb major a || ((a == major) && leb minor b))
unfolding check_kernel_support
check_two release x r y r' a b major minor first n second k = ground (arith, first, n, second, k)

strtok-decimal_dot :
    (n : ℕ) (rest : Str) → strtok (decimal n ++ b'.' ∷ rest) ≡ some (decimal n ++ [], rest)
unfolding cut_at_dot
strtok-decimal_dot n rest = strtok-decimal n (b'.' ∷ rest)

-- A release that is printed as two numbers of an `int` with a dot between them, and anything behind them that does
-- not start with a digit, is read back: the check accepts it exactly if the two numbers are at least
-- the two that are required, in lexicographic order.
pub check_kernel_support-decimal :
    (a b major minor : ℕ) (tail : Str)
    → a < 2 ^ 31
    → b < 2 ^ 31
    → StartsNoDigit tail
    → check_kernel_support (some (decimal a ++ (b'.' ∷ (decimal b ++ tail)))) major minor
      ≡ done (ltb major a || ((a == major) && leb minor b))
check_kernel_support-decimal a b major minor tail u v h =
    check_two (decimal a ++ (b'.' ∷ (decimal b ++ tail))) (decimal a ++ []) (decimal b ++ tail)
      (decimal b ++ (cut_at_dot tail).0) (cut_at_dot tail).1 a b major minor
      (strtok-decimal_dot a (decimal b ++ tail)) (atoi-decimal a [] u tt) (strtok-decimal b tail)
      (atoi-decimal b (cut_at_dot tail).0 v (cut_at_dot-StartsNoDigit tail h))
