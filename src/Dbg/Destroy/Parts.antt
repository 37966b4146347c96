-- ===== src/Dbg/Destroy/Parts.antt =====
-- The blocks of the structures of a context, and that each is freed once.
use trace_cruncher.Base.{
  [], ◌∷◌, ◌≡◌, refl, Option, none, some, Bool, true, false, arith, List, ◌&&◌, not, ◌++◌,
}
use trace_cruncher.Blocks.{
  BlockPath, at, block, to_name, to_fname, to_sym, to_files, to_fmaps, to_bfd, to_dbg, to_lib_name,
  to_file_name, count, to_lib_maps, free_each, behind, to_proc_name,
}
use trace_cruncher.Blocks.Laws.{
  bit, owns_each, count-append, count-each, count-behind_empty, count-behind,
}
use trace_cruncher.Dbg.{DebugSymbol, AddrMap, PidMaps}
use trace_cruncher.Dbg.Objects.{BfdHandle}
use trace_cruncher.Dbg.Context.{DebugFile, Context}
use trace_cruncher.Dbg.Destroy.{
  debug_handle_destroy, free_symbol, free_map, free_maps, procmap_free, free_file,
}

abbrev pub not_null {ℓ} : {A : Type ℓ} → Option A → Bool
not_null none = false
not_null (some a) = true

-- The blocks of each structure, by the way that leads to them.
abbrev pub owns_symbol : DebugSymbol → BlockPath → Bool
owns_symbol s (to_name ∷ []) = not_null s.symbol.name
owns_symbol s (to_fname ∷ []) = not_null s.symbol.fname
owns_symbol s (block ∷ []) = true
owns_symbol s p = false

abbrev pub owns_handle : Option BfdHandle → BlockPath → Bool
owns_handle (some h) (to_bfd ∷ []) = true
owns_handle (some h) (block ∷ []) = true
owns_handle h p = false

pub count-free_symbol :
    (s : DebugSymbol) (p : BlockPath) → count p (free_symbol s) ≡ bit (owns_symbol s p)
unfolding free_symbol
count-free_symbol s [] = ground arith
count-free_symbol s (to_name ∷ []) = ground arith
count-free_symbol s (to_fname ∷ []) = ground arith
count-free_symbol s p = ground arith

count-debug_handle_destroy :
    (h : Option BfdHandle) (p : BlockPath)
    → count p (debug_handle_destroy h) ≡ bit (owns_handle h p)
unfolding debug_handle_destroy
count-debug_handle_destroy none p = refl
count-debug_handle_destroy (some h) (to_bfd ∷ []) = refl
count-debug_handle_destroy (some h) (block ∷ []) = refl
count-debug_handle_destroy (some h) p = ground arith

abbrev pub owns_map : AddrMap → BlockPath → Bool
owns_map m (to_lib_name ∷ []) = true
owns_map m p = false

abbrev pub owns_maps : List AddrMap → BlockPath → Bool
owns_maps [] p = false
owns_maps (m ∷ ms) (block ∷ []) = true
owns_maps (m ∷ ms) p = owns_each owns_map (m ∷ ms) p

abbrev pub owns_pid_maps : PidMaps → BlockPath → Bool
owns_pid_maps m (to_lib_maps ∷ p) = owns_maps m.lib_maps p
owns_pid_maps m (to_proc_name ∷ []) = true
owns_pid_maps m (block ∷ []) = true
owns_pid_maps m p = false

count-free_map : (m : AddrMap) (p : BlockPath) → count p (free_map m) ≡ bit (owns_map m p)
unfolding free_map
count-free_map m (to_lib_name ∷ []) = refl
count-free_map m p = ground arith

count-free_maps :
    (ms : List AddrMap) (p : BlockPath) → count p (free_maps ms) ≡ bit (owns_maps ms p)
unfolding free_maps
count-free_maps [] p = refl
count-free_maps (m ∷ ms) (block ∷ []) = ground (
  arith,
  count-append (block ∷ []) (free_each free_map 0 (m ∷ ms)) ((block ∷ []) ∷ []),
  count-each free_map owns_map count-free_map (m ∷ ms) (block ∷ []),
)
count-free_maps (m ∷ ms) p = ground (
  arith,
  count-append p (free_each free_map 0 (m ∷ ms)) ((block ∷ []) ∷ []),
  count-each free_map owns_map count-free_map (m ∷ ms) p,
)

pub count-procmap_free :
    (m : PidMaps) (p : BlockPath) → count p (procmap_free m) ≡ bit (owns_pid_maps m p)
unfolding procmap_free
count-procmap_free m [] = ground (
  arith,
  count-append [] (behind to_lib_maps (free_maps m.lib_maps))
      ((to_proc_name ∷ []) ∷ (block ∷ []) ∷ []),
  count-behind_empty to_lib_maps (free_maps m.lib_maps),
)
count-procmap_free m (s ∷ p) = ground (
  arith,
  count-append (s ∷ p) (behind to_lib_maps (free_maps m.lib_maps))
      ((to_proc_name ∷ []) ∷ (block ∷ []) ∷ []),
  count-behind s to_lib_maps p (free_maps m.lib_maps),
  count-free_maps m.lib_maps p,
)

abbrev pub owns_file : DebugFile → BlockPath → Bool
owns_file f (to_dbg ∷ p) = owns_handle f.dbg p
owns_file f (to_sym ∷ p) = owns_each owns_symbol f.sym p
owns_file f (to_file_name ∷ []) = true
owns_file f (block ∷ []) = true
owns_file f p = false

abbrev pub owns_context : Context → BlockPath → Bool
owns_context dbg (to_sym ∷ p) = owns_each owns_symbol dbg.sym p
owns_context dbg (to_files ∷ p) = owns_each owns_file dbg.files p
owns_context dbg (to_fname ∷ []) = not_null dbg.fname
owns_context dbg (to_fmaps ∷ p) = owns_each owns_pid_maps dbg.fmaps p
owns_context dbg (block ∷ []) = true
owns_context dbg p = false

abbrev pub is_name : BlockPath → Bool
is_name (to_file_name ∷ []) = true
is_name p = false

-- The name of a file of the context.
abbrev pub is_file_name : BlockPath → Bool
is_file_name (to_files ∷ at i ∷ p) = is_name p
is_file_name p = false

pub count-free_file :
    (f : DebugFile) (p : BlockPath) → count p (free_file f) ≡ bit (owns_file f p && not (is_name p))
unfolding free_file
count-free_file f [] = ground (
  arith,
  count-append [] (behind to_dbg (debug_handle_destroy f.dbg))
      (behind to_sym (free_each free_symbol 0 f.sym) ++ (block ∷ []) ∷ []),
  count-append [] (behind to_sym (free_each free_symbol 0 f.sym)) ((block ∷ []) ∷ []),
  count-behind_empty to_dbg (debug_handle_destroy f.dbg),
  count-behind_empty to_sym (free_each free_symbol 0 f.sym),
)
count-free_file f (s ∷ p) = ground (
  arith,
  count-append (s ∷ p) (behind to_dbg (debug_handle_destroy f.dbg))
      (behind to_sym (free_each free_symbol 0 f.sym) ++ (block ∷ []) ∷ []),
  count-append (s ∷ p) (behind to_sym (free_each free_symbol 0 f.sym)) ((block ∷ []) ∷ []),
  count-behind s to_dbg p (debug_handle_destroy f.dbg),
  count-behind s to_sym p (free_each free_symbol 0 f.sym),
  count-debug_handle_destroy f.dbg p,
  count-each free_symbol owns_symbol count-free_symbol f.sym p,
)
