-- ===== src/Dbg/Destroy.antt =====
-- What src/trace-obj-debug.c frees: `debug_handle_destroy`, `procmap_free`, `dbg_trace_free_filemap`,
-- `dbg_trace_context_destroy` and `trace_debug_free_symbols`. The file name of a `struct debug_file` is
-- freed by none of them.
pub mod Parts
pub mod Laws
use trace_cruncher.Base.{List, [], ◌∷◌, ◌++◌, Option, none, some, Bool, true, false, if◌then◌else◌}
use trace_cruncher.Blocks.{
  BlockPath, block, to_name, to_fname, to_sym, to_files, to_fmaps, to_lib_maps, to_lib_name,
  to_proc_name, to_file_name, to_dbg, to_bfd, behind, free_given, free_each,
}
use trace_cruncher.Dbg.{TraceSymbol, DebugSymbol, AddrMap, PidMaps}
use trace_cruncher.Dbg.Objects.{BfdHandle}
use trace_cruncher.Dbg.Context.{DebugFile, Context}

-- `bfd_close`, which frees what `bfd_openr` made, and the handle.
unfoldable pub debug_handle_destroy : Option BfdHandle → List BlockPath
debug_handle_destroy none = []
debug_handle_destroy (some obj) = (to_bfd ∷ []) ∷ (block ∷ []) ∷ []

-- An entry of a list of symbols.
unfoldable pub free_symbol : DebugSymbol → List BlockPath
free_symbol s =
    free_given s.symbol.name (to_name ∷ [])
    ++ (free_given s.symbol.fname (to_fname ∷ []) ++ (block ∷ []) ∷ [])

unfoldable pub free_map : AddrMap → List BlockPath
free_map m = (to_lib_name ∷ []) ∷ []

-- `lib_maps` is NULL where there are no entries.
unfoldable pub free_maps : List AddrMap → List BlockPath
free_maps [] = []
free_maps (m ∷ ms) = free_each free_map 0 (m ∷ ms) ++ (block ∷ []) ∷ []

unfoldable pub procmap_free : PidMaps → List BlockPath
procmap_free maps =
    behind to_lib_maps (free_maps maps.lib_maps) ++ (to_proc_name ∷ []) ∷ (block ∷ []) ∷ []

unfoldable pub dbg_trace_free_filemap : List PidMaps → List BlockPath
dbg_trace_free_filemap maps = free_each procmap_free 0 maps

unfoldable pub free_file : DebugFile → List BlockPath
free_file f =
    behind to_dbg (debug_handle_destroy f.dbg)
    ++ (behind to_sym (free_each free_symbol 0 f.sym) ++ (block ∷ []) ∷ [])

unfoldable pub dbg_trace_context_destroy : Context → List BlockPath
dbg_trace_context_destroy dbg =
    behind to_sym (free_each free_symbol 0 dbg.sym)
    ++ (behind to_files (free_each free_file 0 dbg.files)
        ++ (free_given dbg.fname (to_fname ∷ [])
            ++ (behind to_fmaps (dbg_trace_free_filemap dbg.fmaps) ++ (block ∷ []) ∷ [])))

unfoldable pub free_trace_symbol : TraceSymbol → List BlockPath
free_trace_symbol s = free_given s.name (to_name ∷ []) ++ free_given s.fname (to_fname ∷ [])

-- The array of `count` symbols; NULL is `none`.
unfoldable pub trace_debug_free_symbols : Option (List TraceSymbol) → List BlockPath
trace_debug_free_symbols none = []
trace_debug_free_symbols (some symbols) = free_each free_trace_symbol 0 symbols ++ (block ∷ []) ∷ []
