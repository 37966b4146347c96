-- ===== src/Utrace/Create.antt =====
-- Making a user-space tracer: `str_hash`, `utrace_new`, `find_in_path`, `get_full_name` and
-- `PyFtrace_user_trace` of src/ftracepy-utils.c, after their arguments were parsed.
pub mod Laws
mod Tests
use trace_cruncher.Base.{
  ℕ, zero, suc, ◌+◌, ◌*◌, ◌-◌, ◌%◌, ◌^◌, Bool, true, false, List, [], ◌∷◌, ◌++◌, Option, none, some,
  if◌then◌else◌, ◌==◌, length, ltb, take,
}
use trace_cruncher.Base.Int.{ℤ, is_pos, to_int, pos}
use trace_cruncher.Text.{Str, codes, strchr, fname_unify}
use trace_cruncher.Alloc.{Mem, alloc, strdup, Run, done, fault, ◌>>=◌}
use trace_cruncher.Py.{Item, unicode, long, other, Obj, item, list}
use trace_cruncher.Dbg.Bfd.{BfdLib}
use trace_cruncher.Dbg.Filemap.{Proc}
use trace_cruncher.Dbg.Context.{Context, dbg_trace_context_create_pid}
use trace_cruncher.Dbg.Context.Libs.{Linker, dbg_trace_context_create_file}

-- The first bytes of a text as a number, where they are inside it.
unfoldable pub little_endian : ℕ → Str → Run ℕ
little_endian zero s = done 0
little_endian (suc n) [] = fault
little_endian (suc n) (c ∷ s) = little_endian n s >>= (λ v. done (c % 256 + 256 * v))

-- A `char` as an `unsigned long long`.
unfoldable pub sign_extend : ℕ → ℕ
sign_extend c = if ltb c 128 then c else 2 ^ 64 - 256 + c

-- The number to add at a place of the text, from there on. Behind the text there are its final NUL and
-- the bytes `behind` that belong to the same object. A `long` has 8 bytes, as a `long long` has.
unfoldable pub word_at : Str → Str → Run ℕ
word_at [] behind = done 0
word_at (c ∷ s) behind =
    if ltb 8 (length (c ∷ s))
    then little_endian 8 ((c ∷ s) ++ 0 ∷ behind)
    else (if ltb 4 (length (c ∷ s))
        then little_endian 8 ((c ∷ s) ++ 0 ∷ behind)
        else done (sign_extend c))

unfoldable pub sum_words : Str → Str → ℕ → Run ℕ
sum_words [] behind sum = done sum
sum_words (c ∷ s) behind sum =
    word_at (c ∷ s) behind >>= (λ add. sum_words s behind ((sum + add) % 2 ^ 64))

unfoldable pub str_hash : Str → Str → Run ℕ
str_hash s behind = sum_words s behind 0

-- What the functions ask the system and the C library: `getenv("PATH")`, `access(_, F_OK | X_OK)`,
-- `realpath`, and the formats `%llX` and `%d`.
pub record Os : Type 0 where
  pub path : Option Str
  pub can_exec : Str → Bool
  pub realpath : Str → Option Str
  pub hex : ℕ → Str
  pub decimal : ℤ → Str

-- The new context, as far as it is set. `cmd_argv` is an array of strings, where NULL is `none`.
pub record NewTrace : Type 0 where
  pub pid : ℤ
  pub cmd_argv : Option (List (Option Str))
  pub usystem : Str
  pub dbg : Context

-- The items that `strsep(&paths, ":")` gives.
unfoldable pub split_colon : Str → Str × List Str
split_colon [] = ([], [])
split_colon (c ∷ s) =
    let (dir, dirs) = split_colon s in if c == b':' then ([], dir ∷ dirs) else (c ∷ dir, dirs)

-- `snprintf(fullpath, PATH_MAX, "%s/%s", dir, name)`
unfoldable pub full_path : Str → Str → Str
full_path dir name = take 4095 (dir ++ b'/' ∷ name)

unfoldable pub find_accessible : (Str → Bool) → Str → List Str → Option Str
find_accessible can_exec name [] = none
find_accessible can_exec name (dir ∷ dirs) =
    let rest = find_accessible can_exec name dirs in
    if can_exec (full_path dir name) then some (full_path dir name) else rest

-- `strdup` reads NULL where the variable is not set.
unfoldable pub find_in_path : Os → Str → Mem → Run (Option Str × Mem)
find_in_path os name m = elim os.path [
  | none ↦ fault
  | some paths ↦
      let (dir, dirs) = split_colon paths in
      let (got, m₁) = alloc m in
      if got
      then (elim (find_accessible os.can_exec name (dir ∷ dirs)) [
        | none ↦ done (none, m₁)
        | some found ↦ done (strdup found m₁)
      ])
      else done (none, m₁)
]

unfoldable pub resolved : Os → Option Str → Option Str
resolved os none = none
resolved os (some name) = os.realpath name

unfoldable pub get_full_name : Os → Str → Mem → Run (Option Str × Mem)
get_full_name os name m =
    if strchr name b'/'
    then done (os.realpath name, m)
    else (find_in_path os name m >>= (λ r. done (resolved os r.0, r.1)))

-- The loop over the arguments: an entry that is no text is passed over, and its place stays NULL. A
-- `none` is the `goto error`, which frees what there is.
unfoldable pub fill_rest : List Item → Mem → Option (List (Option Str)) × Mem
fill_rest [] m = (some [], m)
fill_rest (x ∷ xs) m = elim x [
  | long v ↦ skip (fill_rest xs m)
  | other ↦ skip (fill_rest xs m)
  | unicode s ↦
      let (copy, m₁) = strdup s m in
      let (rest, m₂) = fill_rest xs m₁ in
      elim copy [
        | none ↦ (none, m₁)
        | some arg ↦ elim rest [ none ↦ (none, m₂) | some args ↦ (some (some arg ∷ args), m₂) ]
      ]
]
  where
    skip : Option (List (Option Str)) × Mem → Option (List (Option Str)) × Mem
    skip (none, m') = (none, m')
    skip (some args, m') = (some (none ∷ args), m')

unfoldable pub with_program :
    Option Str → Option (List (Option Str)) × Mem → Option (List (Option Str)) × Mem
with_program program (none, m) = (none, m)
with_program program (some args, m) = (some (program ∷ args), m)

unfoldable pub fill_argv : Os → List Item → Mem → Run (Option (List (Option Str)) × Mem)
fill_argv os [] m = done (some [], m)
fill_argv os (long v ∷ xs) m = done (with_program none (fill_rest xs m))
fill_argv os (other ∷ xs) m = done (with_program none (fill_rest xs m))
fill_argv os (unicode s ∷ xs) m = get_full_name os s m >>= (λ r. elim r.0 [
  | none ↦ done (none, r.1)
  | some program ↦ done (with_program (some program) (fill_rest xs r.1))
])

module _ (bfd : BfdLib) (linker : Linker) (proc : Proc) (os : Os) where
  -- The name of the system, or the `goto error` behind `asprintf`. An error frees the context, and
  -- with it the array of the arguments, which it owns from the start: this is the second component.
  unfoldable pub named_system :
      ℤ → Option (List (Option Str)) → Str → Context → Mem → Option NewTrace × Bool × Mem
  named_system pid argv usystem dbg m =
      let (printed, m') = alloc m in
      if printed
      then (
        some (record { pid = pid; cmd_argv = argv; usystem = fname_unify usystem; dbg = dbg }),
        false,
        m',
      )
      else (none, true, m')

  unfoldable pub utrace_of_program :
      List (Option Str) → Str → Bool → Mem → Run (Option NewTrace × Bool × Mem)
  utrace_of_program [] behind libs m = fault
  utrace_of_program (none ∷ argv) behind libs m = fault
  utrace_of_program (some file ∷ argv) behind libs m =
      let (dbg, m₁) = dbg_trace_context_create_file bfd linker file libs m in
      elim dbg [
        | none ↦ done (none, true, m₁)
        | some c ↦ str_hash file behind >>= (λ h.
            done (
              named_system (pos 0) (some (some file ∷ argv)) (codes "tc_uprobes_" ++ os.hex h) c
                m₁))
      ]

  unfoldable pub utrace_of_pid : ℤ → Bool → Mem → Run (Option NewTrace × Bool × Mem)
  utrace_of_pid pid libs m = dbg_trace_context_create_pid bfd proc pid libs m >>= (λ r. elim r.0 [
    | none ↦ done (none, true, r.1)
    | some c ↦ done (named_system pid none (codes "tc_uprobes_" ++ os.decimal pid) c r.1)
  ])

  -- `behind` is what lies behind the name of the program.
  unfoldable pub utrace_new :
      ℤ → Option (List (Option Str)) → Str → Bool → Mem → Run (Option NewTrace × Bool × Mem)
  utrace_new pid argv behind libs m =
      let (got, m₁) = alloc m in
      if got
      then (elim argv [
        | none ↦ utrace_of_pid pid libs m₁
        | some args ↦ utrace_of_program args behind libs m₁
      ])
      else done (none, false, m₁)

  -- The end of `PyFtrace_user_trace` for an array of arguments: on an error they are freed through the
  -- array, which may be freed already.
  unfoldable pub keep_or_free : Option NewTrace × Bool × Mem → Run (Option NewTrace)
  keep_or_free (some utrace, released, m) = done (some utrace)
  keep_or_free (none, released, m) = if released then fault else done none

  unfoldable pub user_trace_program : ℤ → List Item → Str → Bool → Mem → Run (Option NewTrace)
  user_trace_program pid args behind libs m =
      let (got, m₁) = alloc m in
      if got
      then (fill_argv os args m₁ >>= (λ r. elim r.0 [
        | none ↦ done none
        | some argv ↦ utrace_new (to_int pid) (some argv) behind libs r.1 >>= keep_or_free
      ]))
      else fault

  -- `PyFtrace_user_trace`: `none` is an error. The PID is a `long long`, and a `pid_t` behind the tests.
  unfoldable pub user_trace : ℤ → Option Obj → Str → Bool → Mem → Run (Option NewTrace)
  user_trace pid none behind libs m =
      if is_pos pid
      then (utrace_new (to_int pid) none behind libs m >>= (λ r. done r.0))
      else done none
  user_trace pid (some (item x)) behind libs m = done none
  user_trace pid (some (list args)) behind libs m =
      if is_pos pid then done none else user_trace_program pid args behind libs m
