-- ===== src/Dbg/Lookup/Reference.antt =====
-- A description of `lookup_bfd_sym` with no loop state: which address each request ends with, and
-- which symbols the wildcards spawn.
use mathlib.Core.List.{reverse}
use trace_cruncher.Base.{
  ℕ, ◌+◌, Bool, true, false, ◌&&◌, List, [], ◌∷◌, ◌++◌, Option, none, some, if◌then◌else◌, map,
}
use trace_cruncher.Text.{Str}
use trace_cruncher.Dbg.{DebugSymbol, MatchType, match_exact, match_wildcard, Job}
use trace_cruncher.Dbg.Bfd.{Asymbol, BfdLib}
use trace_cruncher.Dbg.Lookup.{symbol_match, function_vma}

module _ (lib : BfdLib) (job : Job) where
  -- The address of the last function of the table that matches, or the one that was there.
  abbrev pub last_vma : List Asymbol → Str → ℕ → ℕ
  last_vma [] name old = old
  last_vma (sp ∷ table) name old = last_vma table name (
      if sp.function && symbol_match lib name match_exact sp.name then function_vma job sp else old)

  abbrev pub settled_as : List Asymbol → DebugSymbol → MatchType → Option Str → DebugSymbol
  settled_as table s match_exact (some name) = record s {
    symbol = record (s.symbol) { vma_start = last_vma table name s.symbol.vma_start };
  }
  settled_as table s match_exact none = s
  settled_as table s match_wildcard name = s

  -- The request after the lookup.
  abbrev pub settled : List Asymbol → DebugSymbol → DebugSymbol
  settled table s = settled_as table s s.match_type s.symbol.name

  -- The symbol that a wildcard request spawns at a function of the table.
  abbrev pub spawn : Asymbol → DebugSymbol → DebugSymbol
  spawn sp s = record {
    symbol = record (s.symbol) { name = some sp.name; vma_start = function_vma job sp };
    match_type = match_exact;
  }

  abbrev pub spawns_as : Asymbol → MatchType → Option Str → Bool
  spawns_as sp match_wildcard (some name) = symbol_match lib name match_wildcard sp.name
  spawns_as sp match_wildcard none = false
  spawns_as sp match_exact name = false

  abbrev pub spawned_at : Asymbol → List DebugSymbol → List DebugSymbol
  spawned_at sp [] = []
  spawned_at sp (s ∷ ss) =
      let rest = spawned_at sp ss in
      if spawns_as sp s.match_type s.symbol.name then spawn sp s ∷ rest else rest

  -- All symbols that the wildcards spawn, in the order of the table.
  abbrev pub spawned : List Asymbol → List DebugSymbol → List DebugSymbol
  spawned [] ss = []
  spawned (sp ∷ table) ss = (if sp.function then spawned_at sp ss else []) ++ spawned table ss

  abbrev pub hits_as : Asymbol → MatchType → Option Str → ℕ
  hits_as sp kind (some name) = if symbol_match lib name kind sp.name then 1 else 0
  hits_as sp kind none = 0

  abbrev pub hits_at : Asymbol → List DebugSymbol → ℕ
  hits_at sp [] = 0
  hits_at sp (s ∷ ss) = hits_as sp s.match_type s.symbol.name + hits_at sp ss

  -- The number of pairs of a function and a request that match.
  abbrev pub hits : List Asymbol → List DebugSymbol → ℕ
  hits [] ss = 0
  hits (sp ∷ table) ss = (if sp.function then hits_at sp ss else 0) + hits table ss

-- The list ends with a request that has a name.
abbrev pub ends_named : List DebugSymbol → Bool
ends_named [] = false
ends_named (s ∷ []) = elim s.symbol.name [ some n ↦ true | none ↦ false ]
ends_named (s ∷ t ∷ ss) = ends_named (t ∷ ss)

-- Some function stands in the table, so that the inner loop runs at least once.
abbrev pub has_function : List Asymbol → Bool
has_function [] = false
has_function (sp ∷ table) = if sp.function then true else has_function table

-- The symbols after a lookup in which every allocation succeeds.
abbrev pub looked_up : BfdLib → Job → List Asymbol → List DebugSymbol → List DebugSymbol
looked_up lib job table ss =
    map (settled lib job table) ss
    ++ (if ends_named ss then reverse (spawned lib job table ss) else [])
