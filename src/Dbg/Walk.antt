-- ===== src/Dbg/Walk.antt =====
-- `walk_symbols` and `dbg_trace_walk_resolved_symbols` of src/trace-obj-debug.c. The callback is a
-- function on the caller's context: whether it returned non-zero, and the context after it.
pub mod Laws
use trace_cruncher.Base.{Bool, true, false, List, [], ◌∷◌, if◌then◌else◌}
use trace_cruncher.Base.Int.{ℤ, pos, negsuc}
use trace_cruncher.Dbg.{TraceSymbol, DebugSymbol}
use trace_cruncher.Dbg.Context.{DebugFile, Context}

module _ {ℓ} {C : Type ℓ} (callback : TraceSymbol → C → Bool × C) where
  unfoldable pub walk_symbols : List DebugSymbol → C → ℤ × C
  walk_symbols [] context = (pos 0, context)
  walk_symbols (s ∷ ss) context =
      let (nonzero, context') = callback s.symbol context in
      let rest = walk_symbols ss context' in if nonzero then (negsuc 0, context') else rest

  -- The loop over the files: what `walk_symbols` returns is ignored.
  unfoldable pub walk_files : List DebugFile → C → C
  walk_files [] context = context
  walk_files (file ∷ files) context = walk_files files (walk_symbols file.sym context).1

  unfoldable pub dbg_trace_walk_resolved_symbols : Context → C → C
  dbg_trace_walk_resolved_symbols obj context =
      walk_files obj.files (walk_symbols obj.sym context).1
