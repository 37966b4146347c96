-- ===== src/Dbg/Destroy/Laws.antt =====
-- Every block that a context owns is freed once, but for the names of its files.
use trace_cruncher.Base.{
  [], ◌∷◌, ◌≡◌, some, Bool, true, false, arith, List, ◌&&◌, not, ◌++◌, ℕ, ◌∙◌, Option-cases, ap,
  get_elem?, ◌+◌, inl, inr,
}
use trace_cruncher.Blocks.{
  BlockPath, at, block, to_name, to_fname, to_sym, to_files, to_fmaps, count, free_each, behind,
  free_given,
}
use trace_cruncher.Blocks.Laws.{
  bit, owns_each, count-append, count-each, count-behind_empty, count-behind,
}
use trace_cruncher.Dbg.{TraceSymbol}
use trace_cruncher.Dbg.Context.{DebugFile, Context}
use trace_cruncher.Dbg.Destroy.{
  free_symbol, procmap_free, free_file, dbg_trace_context_destroy, dbg_trace_free_filemap,
  free_trace_symbol, trace_debug_free_symbols,
}
use trace_cruncher.Dbg.Destroy.Parts.{
  not_null, owns_symbol, count-free_symbol, owns_pid_maps, count-procmap_free, owns_file,
  owns_context, is_name, is_file_name, count-free_file,
}

owns_each_named :
    (fs : List DebugFile) (j : ℕ) (p : BlockPath)
    → owns_each (λ f q. owns_file f q && not (is_name q)) fs (at j ∷ p)
      ≡ (owns_each owns_file fs (at j ∷ p) && not (is_name p))
owns_each_named fs j p = elim (Option-cases (get_elem? fs j)) [
  | inl e ↦ ground arith
  | inr (f, e) ↦ ground arith
]

-- The files, but for their names.
count-files :
    (fs : List DebugFile) (p : BlockPath)
    → count p (free_each free_file 0 fs)
      ≡ bit (owns_each owns_file fs p && not (is_file_name (to_files ∷ p)))
count-files fs (at j ∷ p) =
    count-each free_file (λ f q. owns_file f q && not (is_name q)) count-free_file fs (at j ∷ p)
    ∙ ap bit (owns_each_named fs j p)
count-files fs p =
    count-each free_file (λ f q. owns_file f q && not (is_name q)) count-free_file fs p

module _ (dbg : Context) where
  abbrev syms : List BlockPath
  syms = free_each free_symbol 0 dbg.sym

  abbrev files : List BlockPath
  files = free_each free_file 0 dbg.files

  abbrev maps : List BlockPath
  maps = free_each procmap_free 0 dbg.fmaps

  count-parts :
      (p : BlockPath)
      → count p (dbg_trace_context_destroy dbg)
        ≡ count p (behind to_sym syms)
          + (count p (behind to_files files)
              + (count p (free_given dbg.fname (to_fname ∷ []))
                  + (count p (behind to_fmaps maps) + count p ((block ∷ []) ∷ []))))
  unfolding dbg_trace_context_destroy dbg_trace_free_filemap
  count-parts p = ground (
    arith,
    count-append p (behind to_sym syms) (
        behind to_files files
        ++ (free_given dbg.fname (to_fname ∷ []) ++ (behind to_fmaps maps ++ (block ∷ []) ∷ []))),
    count-append p (behind to_files files)
        (free_given dbg.fname (to_fname ∷ []) ++ (behind to_fmaps maps ++ (block ∷ []) ∷ [])),
    count-append p (free_given dbg.fname (to_fname ∷ []))
        (behind to_fmaps maps ++ (block ∷ []) ∷ []),
    count-append p (behind to_fmaps maps) ((block ∷ []) ∷ []),
  )

  -- `dbg_trace_context_destroy` frees every block that the context owns exactly once and no other, but
  -- for the names of the files, which it frees not at all.
  pub context_destroy-owned :
      (p : BlockPath)
      → count p (dbg_trace_context_destroy dbg) ≡ bit (owns_context dbg p && not (is_file_name p))
  context_destroy-owned [] = ground (
    arith,
    count-parts [],
    count-behind_empty to_sym syms,
    count-behind_empty to_files files,
    count-behind_empty to_fmaps maps,
  )
  context_destroy-owned (s ∷ p) = ground (
    arith,
    count-parts (s ∷ p),
    count-behind s to_sym p syms,
    count-behind s to_files p files,
    count-behind s to_fmaps p maps,
    count-each free_symbol owns_symbol count-free_symbol dbg.sym p,
    count-files dbg.files p,
    count-each procmap_free owns_pid_maps count-procmap_free dbg.fmaps p,
  )

abbrev owns_trace_symbol : TraceSymbol → BlockPath → Bool
owns_trace_symbol s (to_name ∷ []) = not_null s.name
owns_trace_symbol s (to_fname ∷ []) = not_null s.fname
owns_trace_symbol s p = false

abbrev pub owns_symbols : List TraceSymbol → BlockPath → Bool
owns_symbols symbols (block ∷ []) = true
owns_symbols symbols p = owns_each owns_trace_symbol symbols p

count-free_trace_symbol :
    (s : TraceSymbol) (p : BlockPath) → count p (free_trace_symbol s) ≡ bit (owns_trace_symbol s p)
unfolding free_trace_symbol
count-free_trace_symbol s [] = ground arith
count-free_trace_symbol s (to_name ∷ []) = ground arith
count-free_trace_symbol s (to_fname ∷ []) = ground arith
count-free_trace_symbol s p = ground arith

-- `trace_debug_free_symbols` frees the names of every symbol of the array, and the array, once each.
pub free_symbols-owned :
    (symbols : List TraceSymbol) (p : BlockPath)
    → count p (trace_debug_free_symbols (some symbols)) ≡ bit (owns_symbols symbols p)
unfolding trace_debug_free_symbols
free_symbols-owned symbols [] = ground (
  arith,
  count-append [] (free_each free_trace_symbol 0 symbols) ((block ∷ []) ∷ []),
  count-each free_trace_symbol owns_trace_symbol count-free_trace_symbol symbols [],
)
free_symbols-owned symbols (s ∷ p) = ground (
  arith,
  count-append (s ∷ p) (free_each free_trace_symbol 0 symbols) ((block ∷ []) ∷ []),
  count-each free_trace_symbol owns_trace_symbol count-free_trace_symbol symbols (s ∷ p),
)
