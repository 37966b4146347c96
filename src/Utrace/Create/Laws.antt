-- ===== src/Utrace/Create/Laws.antt =====
-- What making a user-space tracer reads, finds and frees.
use trace_cruncher.Base.{
  ℕ, zero, suc, ◌+◌, ◌≤◌, ◌≡◌, refl, ap, ap₂, ◌∙◌, sym, Bool, true, false, List, [], ◌∷◌, ◌++◌,
  some, none, arith, length, All, ltb, length-append, Bool-cases, inl, inr, ◌==◌, ◌%◌, ◌^◌, ◌⊎◌,
  Option, Option-cases, subst,
}
use trace_cruncher.Utrace.Create.{utrace_of_pid}
use trace_cruncher.Alloc.{◌>>=◌, fault, Run, done, alloc, strdup, Mem}
use trace_cruncher.Text.Laws.{IsNameChar, fname_unify-IsNameChar}
use trace_cruncher.Utrace.Create.{
  little_endian, sum_words, str_hash, split_colon, find_accessible, full_path, word_at,
  get_full_name, find_in_path, Os, resolved, named_system, utrace_new, utrace_of_program, NewTrace,
}
use trace_cruncher.Text.{Str, strchr}
use trace_cruncher.Dbg.Bfd.{BfdLib}
use trace_cruncher.Dbg.Context.Libs.{Linker, dbg_trace_context_create_file}
use trace_cruncher.Dbg.Filemap.{Proc}
use trace_cruncher.Base.Int.{ℤ}
use trace_cruncher.Dbg.Context.{Context, dbg_trace_context_create_pid}

little_endian_short : (n : ℕ) (s : Str) → suc (length s) ≤ n → little_endian n s ≡ fault
unfolding little_endian
little_endian_short zero s h = absurd (ground arith)
little_endian_short (suc n) [] h = refl
little_endian_short (suc n) (c ∷ s) h = rw (little_endian_short n s (omega arith)) refl

bind-fault : (m : Run ℕ) (f : ℕ → Run ℕ) → ((v : ℕ) → f v ≡ fault) → m >>= f ≡ fault
bind-fault (done v) f h = h v
bind-fault fault f h = refl

word_at_five : (c : ℕ) (s : Str) → length s ≡ 4 → word_at (c ∷ s) [] ≡ fault
unfolding word_at
word_at_five c s h =
    let size : suc (length ((c ∷ s) ++ 0 ∷ [])) ≤ 8 =
      omega (arith, length-append (c ∷ s) (0 ∷ [])) in
    let many : ltb 8 (length (c ∷ s)) ≡ false = ground arith in
    let some' : ltb 4 (length (c ∷ s)) ≡ true = ground arith in
    rw (many, some') (little_endian_short 8 ((c ∷ s) ++ 0 ∷ []) size)

sum_words_fault : (s : Str) (sum : ℕ) → 5 ≤ length s → sum_words s [] sum ≡ fault
unfolding sum_words
sum_words_fault [] sum h = absurd (ground arith)
sum_words_fault (c ∷ s) sum h = elim (Bool-cases (ltb 4 (length s))) [
  | inl e ↦
      bind-fault (word_at (c ∷ s) []) _ (λ v. sum_words_fault s ((sum + v) % 2 ^ 64) (ground arith))
  | inr e ↦
      ap (λ m. m >>= (λ add. sum_words s [] ((sum + add) % 2 ^ 64)))
        (word_at_five c s (ground arith))
]

-- A text of five characters or more, in an object of its own, is hashed with a read outside it: behind
-- its final NUL stand the last bytes of the number that is read where five characters are left.
pub str_hash_outside : (s : Str) → 5 ≤ length s → str_hash s [] ≡ fault
unfolding str_hash
str_hash_outside s h = sum_words_fault s 0 h

-- The items of a path, with their separators, are the path.
abbrev pub join_colon : Str × List Str → Str
join_colon (item, []) = item
join_colon (item, next ∷ items) = item ++ b':' ∷ join_colon (next, items)

join_colon-cons :
    (c : ℕ) (item : Str) (items : List Str)
    → join_colon (c ∷ item, items) ≡ c ∷ join_colon (item, items)
join_colon-cons c item [] = refl
join_colon-cons c item (next ∷ items) = refl

-- Taking a path apart at its colons loses nothing.
pub join_colon-split_colon : (s : Str) → join_colon (split_colon s) ≡ s
unfolding split_colon
join_colon-split_colon [] = refl
join_colon-split_colon (c ∷ s) = elim (Bool-cases (c == b':')) [
  | inl e ↦
      let q : c ≡ b':' = ground arith in
      rw e (ap₂ (λ a t. a ∷ t) (sym q) (join_colon-split_colon s))
  | inr e ↦ rw e (
      join_colon-cons c (split_colon s).0 (split_colon s).1 ∙ ap (◌∷◌ c) (join_colon-split_colon s))
]

-- The names that were tried first cannot be executed, and the one that is found can.
abbrev pub IsFirst : (Str → Bool) → Str → List Str → Str → Type 0
IsFirst can_exec name dirs found =
    (before after : List Str) × (dir : Str) × (dirs ≡ before ++ dir ∷ after)
    × (found ≡ full_path dir name)
    × (can_exec found ≡ true)
    × All (λ d. can_exec (full_path d name) ≡ false) before

find_accessible-IsFirst :
    (can_exec : Str → Bool) (name : Str) (dirs : List Str) (found : Str)
    → find_accessible can_exec name dirs ≡ some found
    → IsFirst can_exec name dirs found
unfolding find_accessible
find_accessible-IsFirst can_exec name [] found h = absurd (ground arith)
find_accessible-IsFirst can_exec name (d ∷ dirs) found h =
    elim (Bool-cases (can_exec (full_path d name))) [
      | inl e ↦
          let q : found ≡ full_path d name = ground arith in ([], dirs, d, refl, q, rw q e, tt)
      | inr e ↦
          let (before, after, dir, split, q, runs, skipped) =
            find_accessible-IsFirst can_exec name dirs found (ground arith) in
          (d ∷ before, after, dir, ap (◌∷◌ d) split, q, runs, (e, skipped))
    ]

find_accessible-none :
    (can_exec : Str → Bool) (name : Str) (dirs : List Str)
    → find_accessible can_exec name dirs ≡ none
    → All (λ d. can_exec (full_path d name) ≡ false) dirs
unfolding find_accessible
find_accessible-none can_exec name [] h = tt
find_accessible-none can_exec name (d ∷ dirs) h = elim (Bool-cases (can_exec (full_path d name))) [
  | inl e ↦ absurd (ground (arith, e, h))
  | inr e ↦ (e, find_accessible-none can_exec name dirs (ground (arith, e, h)))
]

-- A program that is given by a name with no slash is looked for in the directories of a PATH that is
-- set, in their order, and the first one in which it can be executed is resolved by `realpath`; if it
-- can be executed in none of them, nothing is found. This is with every allocation successful.
pub get_full_name-IsFirst :
    (os : Os) (name paths : Str)
    → strchr name b'/' ≡ false
    → os.path ≡ some paths
    → ((get_full_name os name [] ≡ done (none, []))
        × All
            (λ d. os.can_exec (full_path d name) ≡ false)
            ((split_colon paths).0 ∷ (split_colon paths).1))
      ⊎ ((found : Str) × (get_full_name os name [] ≡ done (os.realpath found, []))
          × IsFirst os.can_exec name ((split_colon paths).0 ∷ (split_colon paths).1) found)
unfolding get_full_name find_in_path alloc strdup resolved
get_full_name-IsFirst os name paths h e =
    let dirs = (split_colon paths).0 ∷ (split_colon paths).1 in
    elim (Option-cases (find_accessible os.can_exec name dirs)) [
      | inl none_found ↦
          inl (rw (h, e, none_found) refl, find_accessible-none os.can_exec name dirs none_found)
      | inr (found, e') ↦
          inr (found, rw (h, e, e') refl, find_accessible-IsFirst os.can_exec name dirs found e')
    ]

module _ (bfd : BfdLib) (linker : Linker) (proc : Proc) (os : Os) where
  abbrev Named : Run (Option NewTrace × Bool × Mem) → Type 0
  Named (done (some t, released, m)) = All IsNameChar t.usystem
  Named (done (none, released, m)) = Unit
  Named fault = Unit

  bind-Named :
      {A : Type 0} (m : Run A) (f : A → Run (Option NewTrace × Bool × Mem))
      → ((a : A) → Named (f a))
      → Named (m >>= f)
  bind-Named (done a) f h = h a
  bind-Named fault f h = tt

  found-Named :
      {A : Type 0} (o : Option A) (m : Mem) (f : A → Run (Option NewTrace × Bool × Mem))
      → ((a : A) → Named (f a))
      → Named (elim o [ none ↦ done (none, true, m) | some a ↦ f a ])
  found-Named none m f h = tt
  found-Named (some a) m f h = h a

  named_system-Named :
      (pid : ℤ) (argv : Option (List (Option Str))) (usystem : Str) (dbg : Context) (m : Mem)
      → Named (done (named_system bfd linker proc os pid argv usystem dbg m))
  unfolding named_system
  named_system-Named pid argv usystem dbg m = elim (Bool-cases (alloc m).0) [
    | inl e ↦ rw e (fname_unify-IsNameChar usystem)
    | inr e ↦ rw e tt
  ]

  program-Named :
      (argv : List (Option Str)) (behind : Str) (libs : Bool) (m : Mem)
      → Named (utrace_of_program bfd linker proc os argv behind libs m)
  unfolding utrace_of_program
  program-Named [] behind libs m = tt
  program-Named (none ∷ argv) behind libs m = tt
  program-Named (some file ∷ argv) behind libs m =
      found-Named (dbg_trace_context_create_file bfd linker file libs m).0 _ _
        (λ c. bind-Named (str_hash file behind) _ (λ h. named_system-Named _ _ _ c _))

  pid-Named :
      (pid : ℤ) (libs : Bool) (m : Mem) → Named (utrace_of_pid bfd linker proc os pid libs m)
  unfolding utrace_of_pid
  pid-Named pid libs m =
      bind-Named (dbg_trace_context_create_pid bfd proc pid libs m) _
        (λ r. found-Named r.0 r.1 _ (λ c. named_system-Named _ _ _ c _))

  new-Named :
      (pid : ℤ) (argv : Option (List (Option Str))) (behind : Str) (libs : Bool) (m : Mem)
      → Named (utrace_new bfd linker proc os pid argv behind libs m)
  unfolding utrace_new
  new-Named pid none behind libs m = elim (Bool-cases (alloc m).0) [
    | inl e ↦ rw e (pid-Named pid libs (alloc m).1)
    | inr e ↦ rw e tt
  ]
  new-Named pid (some args) behind libs m = elim (Bool-cases (alloc m).0) [
    | inl e ↦ rw e (program-Named args behind libs (alloc m).1)
    | inr e ↦ rw e tt
  ]

  -- The name of the system of a new tracer, for a process or a program, meets the demands of the
  -- kernel on characters.
  pub utrace_new-IsNameChar :
      (pid : ℤ) (argv : Option (List (Option Str))) (behind : Str) (libs : Bool) (m m' : Mem)
      (t : NewTrace) (released : Bool)
      → utrace_new bfd linker proc os pid argv behind libs m ≡ done (some t, released, m')
      → All IsNameChar t.usystem
  utrace_new-IsNameChar pid argv behind libs m m' t released h =
      subst Named h (new-Named pid argv behind libs m)
