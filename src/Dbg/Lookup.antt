-- ===== src/Dbg/Lookup.antt =====
-- `symbol_match` and `lookup_bfd_sym` of src/trace-obj-debug.c: the requests that carry a name get
-- the address of the function of that name, and a wildcard spawns a symbol for each match.
pub mod Reference
pub mod Laws
pub mod Table
use trace_cruncher.Base.{
  ℕ, ◌+◌, ◌%◌, Bool, true, false, ◌&&◌, List, [], ◌∷◌, ◌++◌, Option, none, some, ◌==◌,
  if◌then◌else◌, length,
}
use trace_cruncher.Text.{Str, str_eq}
use trace_cruncher.Alloc.{Mem, alloc, strdup}
use trace_cruncher.Dbg.{
  TraceSymbol, DebugSymbol, MatchType, match_exact, match_wildcard, Job, u64_mod,
}
use trace_cruncher.Dbg.Bfd.{Asymbol, BfdLib}

unfoldable pub symbol_match : BfdLib → Str → MatchType → Str → Bool
symbol_match lib pattern match_exact symbol =
    (length pattern == length symbol) && str_eq pattern symbol
symbol_match lib pattern match_wildcard symbol = lib.fnmatch pattern symbol

-- The address of a function of the table, shifted if its object is loaded dynamically.
unfoldable pub function_vma : Job → Asymbol → ℕ
function_vma job sp =
    let vma = (sp.value + sp.section_vma) % u64_mod in
    if sp.dynamic then (vma + job.addr_offset) % u64_mod else vma

-- What the loops carry: `new_list`, `res`, the position of `last`, and the allocations to come.
pub record Scan : Type 0 where
  pub new_list : List DebugSymbol
  pub res : ℕ
  pub last : Option ℕ
  pub mem : Mem

-- `if (s->symbol.fname) new->symbol.fname = strdup(s->symbol.fname);`
unfoldable pub copy_fname : Option Str → Mem → Option Str × Mem
copy_fname none m = (none, m)
copy_fname (some f) m = strdup f m

-- The symbol of a wildcard match; `calloc` leaves `match` at 0, the exact match.
unfoldable pub new_symbol : Job → Asymbol → TraceSymbol → Mem → DebugSymbol × Mem
new_symbol job sp s m =
    let (name, m₁) = strdup sp.name m in
    let (fname, m₂) = copy_fname s.fname m₁ in
    (
      record {
        symbol = record {
          name = name;
          fname = fname;
          cookie = s.cookie;
          vma_start = function_vma job sp;
          vma_near = s.vma_near;
          foffset = s.foffset;
        };
        match_type = match_exact;
      },
      m₂,
    )

-- A round of the inner loop goes on with the symbol as it is now, or breaks the loop.
pub data Round : Type 0 where
  next : DebugSymbol → Scan → Round
  stop : Scan → Round

-- The body of the inner loop after a match.
unfoldable pub matched : Job → Asymbol → DebugSymbol → MatchType → Scan → Round
matched job sp s match_exact st =
    next (record s { symbol = record (s.symbol) { vma_start = function_vma job sp } })
      (record st { res = st.res + 1 })
matched job sp s match_wildcard st =
    let (got, m) = alloc st.mem in
    let (new, m') = new_symbol job sp s.symbol m in
    if got
    then next s (record st { new_list = new ∷ st.new_list; res = st.res + 1; mem = m' })
    else stop (record st { mem = m })

-- The body of the inner loop, for the request at position `i`.
unfoldable pub visit : BfdLib → Job → Asymbol → ℕ → DebugSymbol → Scan → Round
visit lib job sp i s st = elim s.symbol.name [
  | none ↦ next s st
  | some name ↦
      let st' = record st { last = some i } in
      if symbol_match lib name s.match_type sp.name
      then matched job sp s s.match_type st'
      else next s st'
]

-- The inner loop, from position `i`.
unfoldable pub scan_symbols :
    BfdLib → Job → Asymbol → ℕ → List DebugSymbol → Scan → List DebugSymbol × Scan
scan_symbols lib job sp i [] st = ([], st)
scan_symbols lib job sp i (s ∷ ss) st = elim (visit lib job sp i s st) [
  | next s' st' ↦ let (ss', st'') = scan_symbols lib job sp (i + 1) ss st' in (s' ∷ ss', st'')
  | stop st' ↦ (s ∷ ss, st')
]

-- The outer loop.
unfoldable pub scan_table :
    BfdLib → Job → List Asymbol → List DebugSymbol → Scan → List DebugSymbol × Scan
scan_table lib job [] symbols st = (symbols, st)
scan_table lib job (sp ∷ table) symbols st =
    let (symbols', st') =
      (if sp.function then scan_symbols lib job sp 0 symbols st else (symbols, st)) in
    scan_table lib job table symbols' st'

-- `last && !last->next`: the list `new_list` is linked only behind the final symbol.
unfoldable pub is_final : Option ℕ → List DebugSymbol → Bool
is_final none symbols = false
is_final (some i) symbols = i + 1 == length symbols

-- The result, the symbols as they are linked at the end, and the allocations to come.
unfoldable pub lookup_bfd_sym :
    BfdLib → Job → List Asymbol → List DebugSymbol → Mem → ℕ × List DebugSymbol × Mem
lookup_bfd_sym lib job table symbols m =
    let start : Scan = record { new_list = []; res = 0; last = none; mem = m } in
    let (symbols', st) = scan_table lib job table symbols start in
    (st.res, if is_final st.last symbols' then symbols' ++ st.new_list else symbols', st.mem)
