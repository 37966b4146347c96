-- ===== src/Dbg/Lookup/Laws.antt =====
-- The inner loop of `lookup_bfd_sym`, over the requests, at one function of the table.
use mathlib.Core.List.{reverse, reverse-cons, append_assoc}
use trace_cruncher.Base.{
  ℕ, ◌+◌, ◌≡◌, refl, sym, ap, ◌∙◌, ◌⊎◌, inl, inr, List, [], ◌∷◌, ◌++◌, Option, none, some,
  if◌then◌else◌, map, arith, Option-cases,
}
use trace_cruncher.Text.{Str}
use trace_cruncher.Alloc.{alloc, strdup}
use trace_cruncher.Dbg.{DebugSymbol, MatchType, match_exact, match_wildcard, Job}
use trace_cruncher.Dbg.Bfd.{Asymbol, BfdLib}
use trace_cruncher.Dbg.Lookup.{
  symbol_match, function_vma, Scan, copy_fname, new_symbol, next, matched, visit, scan_symbols,
}
use trace_cruncher.Dbg.Lookup.Reference.{
  spawn, spawns_as, spawned_at, spawned, hits_as, hits_at, hits,
}

module _ (lib : BfdLib) (job : Job) where
  abbrev pub settle_as : Asymbol → DebugSymbol → MatchType → Option Str → DebugSymbol
  settle_as sp s match_exact (some name) =
      if symbol_match lib name match_exact sp.name
      then record s { symbol = record (s.symbol) { vma_start = function_vma job sp } }
      else s
  settle_as sp s match_exact none = s
  settle_as sp s match_wildcard name = s

  -- A request after one function of the table.
  abbrev pub settle_at : Asymbol → DebugSymbol → DebugSymbol
  settle_at sp s = settle_as sp s s.match_type s.symbol.name

  new_symbol-nil :
      (sp : Asymbol) (s : DebugSymbol) → new_symbol job sp s.symbol [] ≡ (spawn lib job sp s, [])
  unfolding new_symbol strdup copy_fname alloc
  new_symbol-nil sp s = ground arith

  abbrev pub named_from : ℕ → Option Str → Option ℕ → Option ℕ
  named_from i none old = old
  named_from i (some n) old = some i

  -- The position of the last request with a name, counted from `i`.
  abbrev pub last_from : ℕ → List DebugSymbol → Option ℕ → Option ℕ
  last_from i [] old = old
  last_from i (s ∷ ss) old = last_from (i + 1) ss (named_from i s.symbol.name old)

  abbrev scanned : Asymbol → ℕ → DebugSymbol → Scan → Scan
  scanned sp i s st = record {
    new_list =
        if spawns_as lib job sp s.match_type s.symbol.name
        then spawn lib job sp s ∷ st.new_list
        else st.new_list;
    res = st.res + hits_as lib job sp s.match_type s.symbol.name;
    last = named_from i s.symbol.name st.last;
    mem = [];
  }

  visit-next :
      (sp : Asymbol) (i : ℕ) (s : DebugSymbol) (st : Scan)
      → st.mem ≡ []
      → visit lib job sp i s st ≡ next (settle_at sp s) (scanned sp i s st)
  unfolding visit matched alloc
  visit-next sp i s st e = ground (arith, new_symbol-nil sp s)

  abbrev pub scanned_all : Asymbol → ℕ → List DebugSymbol → Scan → Scan
  scanned_all sp i ss st = record {
    new_list = reverse (spawned_at lib job sp ss) ++ st.new_list;
    res = st.res + hits_at lib job sp ss;
    last = last_from i ss st.last;
    mem = [];
  }

  scanned_all-cons :
      (sp : Asymbol) (i : ℕ) (s : DebugSymbol) (ss : List DebugSymbol) (st : Scan)
      → scanned_all sp (i + 1) ss (scanned sp i s st) ≡ scanned_all sp i (s ∷ ss) st
  scanned_all-cons sp i s ss st =
      let rest = spawned_at lib job sp ss in
      ground (
        arith,
        reverse-cons (spawn lib job sp s) rest,
        append_assoc (reverse rest) (spawn lib job sp s ∷ []) st.new_list,
      )

  pub scan_symbols_lem :
      (sp : Asymbol) (i : ℕ) (ss : List DebugSymbol) (st : Scan)
      → st.mem ≡ []
      → scan_symbols lib job sp i ss st ≡ (map (settle_at sp) ss, scanned_all sp i ss st)
  unfolding scan_symbols
  scan_symbols_lem sp i [] st e = ground arith
  scan_symbols_lem sp i (s ∷ ss) st e =
      rw (visit-next sp i s st e, scan_symbols)
        (rw (scan_symbols_lem sp (i + 1) ss (scanned sp i s st) refl) (
          ap (λ (r : Scan). (settle_at sp s ∷ map (settle_at sp) ss, r))
            (scanned_all-cons sp i s ss st)))

  spawn-settle_at :
      (sp sp' : Asymbol) (s : DebugSymbol)
      → spawn lib job sp' (settle_at sp s) ≡ spawn lib job sp' s
  spawn-settle_at sp sp' s = ground arith

  name-settle_at : (sp : Asymbol) (s : DebugSymbol) → (settle_at sp s).symbol.name ≡ s.symbol.name
  name-settle_at sp s = ground arith

  match_type-settle_at :
      (sp : Asymbol) (s : DebugSymbol) → (settle_at sp s).match_type ≡ s.match_type
  match_type-settle_at sp s = ground arith

  spawned_at-settle_at :
      (sp sp' : Asymbol) (ss : List DebugSymbol)
      → spawned_at lib job sp' (map (settle_at sp) ss) ≡ spawned_at lib job sp' ss
  spawned_at-settle_at sp sp' [] = refl
  spawned_at-settle_at sp sp' (s ∷ ss) = rw (
    name-settle_at sp s,
    match_type-settle_at sp s,
    spawn-settle_at sp sp' s,
    spawned_at-settle_at sp sp' ss,
  )

  pub spawned-settle_at :
      (sp : Asymbol) (table : List Asymbol) (ss : List DebugSymbol)
      → spawned lib job table (map (settle_at sp) ss) ≡ spawned lib job table ss
  spawned-settle_at sp [] ss = refl
  spawned-settle_at sp (sp' ∷ table) ss =
      rw (spawned_at-settle_at sp sp' ss, spawned-settle_at sp table ss)

  hits_at-settle_at :
      (sp sp' : Asymbol) (ss : List DebugSymbol)
      → hits_at lib job sp' (map (settle_at sp) ss) ≡ hits_at lib job sp' ss
  hits_at-settle_at sp sp' [] = refl
  hits_at-settle_at sp sp' (s ∷ ss) =
      rw (name-settle_at sp s, match_type-settle_at sp s, hits_at-settle_at sp sp' ss)

  pub hits-settle_at :
      (sp : Asymbol) (table : List Asymbol) (ss : List DebugSymbol)
      → hits lib job table (map (settle_at sp) ss) ≡ hits lib job table ss
  hits-settle_at sp [] ss = refl
  hits-settle_at sp (sp' ∷ table) ss = rw (hits_at-settle_at sp sp' ss, hits-settle_at sp table ss)

  pub last_from-settle_at :
      (sp : Asymbol) (i : ℕ) (ss : List DebugSymbol) (old : Option ℕ)
      → last_from i (map (settle_at sp) ss) old ≡ last_from i ss old
  last_from-settle_at sp i [] old = refl
  last_from-settle_at sp i (s ∷ ss) old =
      rw (name-settle_at sp s, last_from) (last_from-settle_at sp (i + 1) ss _)

  -- The last position with a name does not depend on what was there before, or nothing has a name.
  last_from-cases :
      (i : ℕ) (ss : List DebugSymbol)
      → ((x y : Option ℕ) → last_from i ss x ≡ last_from i ss y)
        ⊎ ((x : Option ℕ) → last_from i ss x ≡ x)
  last_from-cases i [] = inr (λ x. refl)
  last_from-cases i (s ∷ ss) = elim (last_from-cases (i + 1) ss) [
    | inl same ↦ inl (λ x y. same _ _)
    | inr keeps ↦ elim (Option-cases s.symbol.name) [
      | inl e ↦ inr (λ x. keeps _ ∙ ap (λ n. named_from i n x) e)
      | inr (n, e) ↦ inl (λ x y. keeps _ ∙ rw e (sym (keeps _)))
    ]
  ]

  pub last_from-last_from :
      (i : ℕ) (ss : List DebugSymbol) (old : Option ℕ)
      → last_from i ss (last_from i ss old) ≡ last_from i ss old
  last_from-last_from i ss old = elim (last_from-cases i ss) [
    | inl same ↦ same _ _
    | inr keeps ↦ keeps _
  ]
