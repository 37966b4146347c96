-- ===== src/Dbg/Resolve.antt =====
-- `set_unknown` and `dbg_trace_resolve_symbols` of src/trace-obj-debug.c.
pub mod Laws
use trace_cruncher.Base.{Bool, List, [], ◌∷◌, Option, none, some}
use trace_cruncher.Base.Int.{ℤ, pos}
use trace_cruncher.Text.{Str}
use trace_cruncher.Alloc.{Mem, strdup, Run, done, fault, ◌>>=◌}
use trace_cruncher.Dbg.{TraceSymbol, DebugSymbol}
use trace_cruncher.Dbg.Bfd.{BfdLib}
use trace_cruncher.Dbg.Objects.{BfdHandle, resolve_symbol_vma, resolve_symbol_name}
use trace_cruncher.Dbg.Context.{DebugFile, Context}

-- One round of `set_unknown`.
unfoldable pub name_unknown : Str → DebugSymbol → Mem → DebugSymbol × Mem
name_unknown file s m = elim s.symbol.fname [
  | some f ↦ (s, m)
  | none ↦
      let (copy, m') = strdup file m in
      (record s { symbol = record (s.symbol) { fname = copy } }, m')
]

unfoldable pub set_unknown : List DebugSymbol → Str → Mem → List DebugSymbol × Mem
set_unknown [] file m = ([], m)
set_unknown (s ∷ ss) file m =
    let (s', m₁) = name_unknown file s m in let (ss', m₂) = set_unknown ss file m₁ in (s' ∷ ss', m₂)

-- One file: its own requests and those of the context, and the allocations to come.
unfoldable pub resolve_file :
    BfdLib → DebugFile → List DebugSymbol → Mem → Run (DebugFile × List DebugSymbol × Mem)
resolve_file lib file sym m = elim file.dbg [
  | none ↦
      let (own, m') = set_unknown file.sym file.file_name m in
      done (record file { sym = own }, sym, m')
  | some handle ↦ resolve_symbol_name lib handle file.sym m >>= λ (r₁, own₁, m₁).
      resolve_symbol_vma lib handle own₁ m₁ >>= λ (r₂, own₂, m₂).
      resolve_symbol_vma lib handle sym m₂ >>= λ (r₃, sym', m₃).
      done (record file { sym = own₂ }, sym', m₃)
]

unfoldable pub resolve_files :
    BfdLib → List DebugFile → List DebugSymbol → Mem → Run (List DebugFile × List DebugSymbol × Mem)
resolve_files lib [] sym m = done ([], sym, m)
resolve_files lib (file ∷ files) sym m = resolve_file lib file sym m >>= λ (file', sym₁, m₁).
    resolve_files lib files sym₁ m₁ >>= λ (files', sym₂, m₂). done (file' ∷ files', sym₂, m₂)

unfoldable pub dbg_trace_resolve_symbols : BfdLib → Context → Mem → Run (ℤ × Context × Mem)
dbg_trace_resolve_symbols lib obj m = resolve_files lib obj.files obj.sym m >>= λ (files, sym, m').
    done (pos 0, record obj { files = files; sym = sym }, m')
