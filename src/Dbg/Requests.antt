-- ===== src/Dbg/Requests.antt =====
-- `dbg_trace_add_resolve_symbol` of src/trace-obj-debug.c and its two kinds of request.
pub mod Laws
use trace_cruncher.Base.{
  ℕ, ◌+◌, Bool, true, false, not, ◌&&◌, ◌||◌, List, [], ◌∷◌, Option, none, some, ◌==◌, leb,
  if◌then◌else◌,
}
use trace_cruncher.Base.Int.{ℤ, pos, negsuc}
use trace_cruncher.Text.{Str, str_eq, strchr}
use trace_cruncher.Alloc.{Mem, alloc}
use trace_cruncher.Dbg.{DebugSymbol, MatchType, match_exact, match_wildcard}
use trace_cruncher.Dbg.Context.{DebugFile, Context}

-- "Find the file, where the requested VMA is."
unfoldable pub holds : ℕ → DebugFile → Bool
holds vma file = leb file.vmem_start vma && leb vma file.vmem_end

-- "Check if the given VMA is already added for resolving."
unfoldable pub has_near : ℕ → List DebugSymbol → Bool
has_near vma [] = false
has_near vma (s ∷ ss) = if s.symbol.vma_near == vma then true else has_near vma ss

unfoldable pub near_request : DebugFile → ℕ → ℤ → DebugSymbol
near_request file vma cookie = record {
  symbol = record {
    name = none;
    fname = some file.file_name;
    cookie = cookie;
    vma_start = 0;
    vma_near = vma;
    foffset = 0;
  };
  match_type = match_exact;
}

-- The request is added to a file that holds the address, unless it is there already.
unfoldable pub add_near : DebugFile → ℕ → ℤ → Mem → Bool × DebugFile × Mem
add_near file vma cookie m =
    let (got, m₁) = alloc m in
    let (copied, m₂) = alloc m₁ in
    if has_near vma file.sym
    then (true, file, m)
    else (if got
        then (if copied
            then (
              true,
              record file {
                sym = near_request file vma cookie ∷ file.sym;
                sym_count = file.sym_count + 1;
              },
              m₂,
            )
            else (false, file, m₂))
        else (false, file, m₁))

-- The first file that holds the address is the one that changes.
unfoldable pub add_to_files : List DebugFile → ℕ → ℤ → Mem → Bool × List DebugFile × Mem
add_to_files [] vma cookie m = (false, [], m)
add_to_files (file ∷ files) vma cookie m =
    let (added, file', m') = add_near file vma cookie m in
    let (later, files', m'') = add_to_files files vma cookie m in
    if holds vma file then (added, file' ∷ files, m') else (later, file ∷ files', m'')

unfoldable pub add_resolve_vma2name : Context → ℕ → ℤ → Mem → ℤ × Context × Mem
add_resolve_vma2name obj vma cookie m =
    let (added, files, m') = add_to_files obj.files vma cookie m in
    (if added then pos 0 else negsuc 0, record obj { files = files }, m')

-- "Check if the given name is already added for resolving."
unfoldable pub has_name : Str → List DebugSymbol → Bool
has_name name [] = false
has_name name (s ∷ ss) = elim s.symbol.name [
  | none ↦ has_name name ss
  | some n ↦ if str_eq name n then true else has_name name ss
]

unfoldable pub name_request : Str → ℤ → DebugSymbol
name_request name cookie = record {
  symbol = record {
    name = some name;
    fname = none;
    cookie = cookie;
    vma_start = 0;
    vma_near = 0;
    foffset = 0;
  };
  match_type = if strchr name b'*' || strchr name b'?' then match_wildcard else match_exact;
}

unfoldable pub add_resolve_name2vma : Context → Str → ℤ → Mem → ℤ × Context × Mem
add_resolve_name2vma obj name cookie m =
    let (got, m₁) = alloc m in
    let (copied, m₂) = alloc m₁ in
    if has_name name obj.sym
    then (pos 0, obj, m)
    else (if got
        then (if copied
            then (
              pos 0,
              record obj {
                sym = name_request name cookie ∷ obj.sym;
                sym_count = obj.sym_count + 1;
              },
              m₂,
            )
            else (negsuc 0, obj, m₂))
        else (negsuc 0, obj, m₁))

-- The context is never NULL here.
unfoldable pub dbg_trace_add_resolve_symbol : Context → ℕ → Option Str → ℤ → Mem → ℤ × Context × Mem
dbg_trace_add_resolve_symbol obj vma (some name) cookie m = add_resolve_name2vma obj name cookie m
dbg_trace_add_resolve_symbol obj vma none cookie m =
    if vma == 0 then (negsuc 0, obj, m) else add_resolve_vma2name obj vma cookie m
