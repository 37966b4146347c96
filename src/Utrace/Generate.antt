-- ===== src/Utrace/Generate.antt =====
-- `py_utrace_generate_uprobes` of src/ftracepy-utils.c: the requested functions are resolved, and each
-- symbol that was found goes to `symblos_walk`.
pub mod Laws
pub mod Keeps
use trace_cruncher.Base.{Bool, false, List}
use trace_cruncher.Text.{Str}
use trace_cruncher.Alloc.{Run, done, fault, ◌>>=◌}
use trace_cruncher.Dbg.{TraceSymbol}
use trace_cruncher.Dbg.Bfd.{BfdLib}
use trace_cruncher.Dbg.Context.{Context}
use trace_cruncher.Dbg.Resolve.{dbg_trace_resolve_symbols}
use trace_cruncher.Dbg.Walk.{dbg_trace_walk_resolved_symbols}
use trace_cruncher.Utrace.{Entry}
use trace_cruncher.Utrace.Probes.{Dynevents, Probes, symblos_walk}

module _ (lib : Dynevents) where
  -- The callback as the walk calls it: it returns 0.
  abbrev pub callback : Str → List Entry → TraceSymbol → Run (Probes lib) → Bool × Run (Probes lib)
  callback usystem ufuncs sym r = (false, r >>= symblos_walk lib usystem ufuncs sym)

  unfoldable pub py_utrace_generate_uprobes :
      BfdLib → Str → List Entry → Context → Probes lib → Run (Context × Probes lib)
  py_utrace_generate_uprobes bfd usystem ufuncs dbg s =
      dbg_trace_resolve_symbols bfd dbg s.mem >>= (λ r.
        dbg_trace_walk_resolved_symbols (callback usystem ufuncs) r.1
          (done (record s { mem = r.2 }))
        >>= (λ s'. done (r.1, s')))
