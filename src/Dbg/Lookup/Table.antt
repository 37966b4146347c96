-- ===== src/Dbg/Lookup/Table.antt =====
-- `lookup_bfd_sym` against its description, when every allocation succeeds.
use mathlib.Core.List.{reverse, reverse-append, append_assoc, append-nil}
use trace_cruncher.Base.{
  ℕ, suc, ◌+◌, ◌<◌, ◌≡◌, refl, ap, ap₂, inl, inr, Bool, true, false, List, [], ◌∷◌, ◌++◌, Option,
  none, some, if◌then◌else◌, map, arith, length, Bool-cases, ◌==◌,
}
use trace_cruncher.Dbg.{DebugSymbol, Job, Str}
use trace_cruncher.Dbg.Bfd.{Asymbol, BfdLib}
use trace_cruncher.Dbg.Lookup.{Scan, scan_table, is_final, lookup_bfd_sym}
use trace_cruncher.Dbg.Lookup.Reference.{
  settled, spawned_at, spawned, hits, ends_named, has_function, looked_up,
}
use trace_cruncher.Dbg.Lookup.Laws.{
  settle_at, last_from, scanned_all, scan_symbols_lem, spawned-settle_at, hits-settle_at,
  last_from-settle_at, last_from-last_from, named_from,
}

module _ (lib : BfdLib) (job : Job) where
  -- The first function of the table counts before the rest.
  settled-cons :
      (sp : Asymbol) (table : List Asymbol) (s : DebugSymbol)
      → settled lib job (sp ∷ table) s ≡ (
          if sp.function
          then settled lib job table (settle_at lib job sp s)
          else settled lib job table s)
  settled-cons sp table s = ground arith

  map-settled-cons :
      (sp : Asymbol) (table : List Asymbol) (ss : List DebugSymbol)
      → sp.function ≡ true
      → map (settled lib job table) (map (settle_at lib job sp) ss)
        ≡ map (settled lib job (sp ∷ table)) ss
  map-settled-cons sp table [] e = refl
  map-settled-cons sp table (s ∷ ss) e =
      ap₂ ◌∷◌ (ground (arith, settled-cons sp table s)) (map-settled-cons sp table ss e)

  map-settled-skip :
      (sp : Asymbol) (table : List Asymbol) (ss : List DebugSymbol)
      → sp.function ≡ false
      → map (settled lib job table) ss ≡ map (settled lib job (sp ∷ table)) ss
  map-settled-skip sp table [] e = refl
  map-settled-skip sp table (s ∷ ss) e =
      ap₂ ◌∷◌ (ground (arith, settled-cons sp table s)) (map-settled-skip sp table ss e)

  map-settled-nil : (ss : List DebugSymbol) → ss ≡ map (settled lib job []) ss
  map-settled-nil [] = refl
  map-settled-nil (s ∷ ss) = ap₂ ◌∷◌ (ground arith) (map-settled-nil ss)

  -- The loop state after the whole table.
  abbrev after : List Asymbol → List DebugSymbol → Scan → Scan
  after table ss st = record {
    new_list = reverse (spawned lib job table ss) ++ st.new_list;
    res = st.res + hits lib job table ss;
    last = if has_function table then last_from lib job 0 ss st.last else st.last;
    mem = [];
  }

  after-cons :
      (sp : Asymbol) (table : List Asymbol) (ss : List DebugSymbol) (st : Scan)
      → sp.function ≡ true
      → after table (map (settle_at lib job sp) ss) (scanned_all lib job sp 0 ss st)
        ≡ after (sp ∷ table) ss st
  after-cons sp table ss st e =
      let here = spawned_at lib job sp ss in
      let rest = spawned lib job table ss in
      ground (
        arith,
        spawned-settle_at lib job sp table ss,
        hits-settle_at lib job sp table ss,
        last_from-settle_at lib job sp 0 ss (last_from lib job 0 ss st.last),
        last_from-last_from lib job 0 ss st.last,
        reverse-append here rest,
        append_assoc (reverse rest) (reverse here) st.new_list,
      )

  scan_table_lem :
      (table : List Asymbol) (ss : List DebugSymbol) (st : Scan)
      → st.mem ≡ []
      → scan_table lib job table ss st ≡ (map (settled lib job table) ss, after table ss st)
  unfolding scan_table
  scan_table_lem [] ss st e = ground (arith, map-settled-nil ss)
  scan_table_lem (sp ∷ table) ss st e = elim (Bool-cases sp.function) [
    | inl f ↦ ground (
      arith,
      scan_symbols_lem lib job sp 0 ss st e,
      scan_table_lem table (map (settle_at lib job sp) ss) (scanned_all lib job sp 0 ss st),
      map-settled-cons sp table ss f,
      after-cons sp table ss st f,
    )
    | inr f ↦ ground (arith, scan_table_lem table ss st e, map-settled-skip sp table ss f)
  ]

  -- A position before `i`, or none.
  abbrev Before : ℕ → Option ℕ → Type 0
  Before i none = Unit
  Before i (some k) = k < i

  abbrev is_end : Option ℕ → ℕ → Bool
  is_end none n = false
  is_end (some k) n = k + 1 == n

  Before-named_from :
      (i : ℕ) (name : Option Str) (old : Option ℕ)
      → Before i old
      → Before (i + 1) (named_from lib job i name old)
  Before-named_from i none none h = tt
  Before-named_from i none (some k) h = omega arith
  Before-named_from i (some n) old h = omega arith

  is_end-last_from :
      (i : ℕ) (s : DebugSymbol) (ss : List DebugSymbol) (old : Option ℕ)
      → Before i old
      → is_end (last_from lib job i (s ∷ ss) old) (i + length (s ∷ ss)) ≡ ends_named (s ∷ ss)
  is_end-last_from i s [] none h = ground arith
  is_end-last_from i s [] (some k) h = ground arith
  is_end-last_from i s (t ∷ ss) old h =
      let n : i + length (s ∷ t ∷ ss) ≡ (i + 1) + length (t ∷ ss) = omega arith in
      rw n (is_end-last_from (i + 1) t ss _ (Before-named_from i s.symbol.name old h))

  length-map-settled :
      (table : List Asymbol) (ss : List DebugSymbol)
      → length (map (settled lib job table) ss) ≡ length ss
  length-map-settled table [] = refl
  length-map-settled table (s ∷ ss) = ap suc (length-map-settled table ss)

  -- The new symbols are linked exactly where the list ends with a named request.
  is_final-after :
      (table : List Asymbol) (ss : List DebugSymbol)
      → has_function table ≡ true
      → is_final (last_from lib job 0 ss none) (map (settled lib job table) ss) ≡ ends_named ss
  unfolding is_final
  is_final-after table [] h = refl
  is_final-after table (s ∷ ss) h =
      ground (arith, is_end-last_from 0 s ss none tt, length-map-settled table (s ∷ ss))

  spawned-none :
      (table : List Asymbol) (ss : List DebugSymbol)
      → has_function table ≡ false
      → spawned lib job table ss ≡ []
  spawned-none [] ss h = refl
  spawned-none (sp ∷ table) ss h = ground (arith, spawned-none table ss)

-- When every allocation succeeds, the lookup of a symbol table leaves each exact request with the
-- address of the last function of its name (or the address that it had, if there is none), leaves a
-- wildcard as it is, and appends one exact symbol for each pair of a function and a wildcard that
-- matches it, the last function first. These are appended only if the list ends with a request that
-- has a name, and are lost otherwise. The result counts all the pairs that match.
pub lookup_bfd_sym-looked_up :
    (lib : BfdLib) (job : Job) (table : List Asymbol) (ss : List DebugSymbol)
    → lookup_bfd_sym lib job table ss [] ≡ (hits lib job table ss, looked_up lib job table ss, [])
unfolding lookup_bfd_sym is_final
lookup_bfd_sym-looked_up lib job table ss = elim (Bool-cases (has_function table)) [
  | inl f ↦ ground (
    arith,
    scan_table_lem lib job table ss (record { new_list = []; res = 0; last = none; mem = [] }) refl,
    is_final-after lib job table ss f,
    append-nil (reverse (spawned lib job table ss)),
    append-nil (map (settled lib job table) ss),
  )
  | inr f ↦ ground (
    arith,
    scan_table_lem lib job table ss (record { new_list = []; res = 0; last = none; mem = [] }) refl,
    spawned-none lib job table ss f,
    append-nil (map (settled lib job table) ss),
  )
]
