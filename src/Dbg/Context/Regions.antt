-- ===== src/Dbg/Context/Regions.antt =====
-- `dbg_trace_context_add_file`: how the regions of one file are merged.
use trace_cruncher.Base.{
  ℕ, ◌+◌, ◌-◌, ◌%◌, ◌≡◌, ◌≢◌, refl, false, List, [], ◌∷◌, Option, none, some, All, arith,
}
use trace_cruncher.Base.Int.{pos}
use trace_cruncher.Text.{Str, str_eq}
use trace_cruncher.Text.Laws.{str_eq_self}
use trace_cruncher.Alloc.{Mem, alloc}
use trace_cruncher.Dbg.{u64_mod}
use trace_cruncher.Dbg.Bfd.{BfdLib}
use trace_cruncher.Dbg.Objects.{BfdHandle}
use trace_cruncher.Dbg.Context.{
  DebugFile, Context, debug_handle_create, continues, find_mapped, add_new_file, get_mapped_file,
  map_region, dbg_trace_context_add_file,
}

-- No file of the list has the name.
abbrev pub Absent : Str → List DebugFile → Type 0
Absent fname files = All (λ f. str_eq fname f.file_name ≡ false) files

find_mapped-Absent :
    (fname : Str) (start i : ℕ) (files : List DebugFile)
    → Absent fname files
    → find_mapped fname start i files ≡ none
unfolding find_mapped continues
find_mapped-Absent fname start i [] h = refl
find_mapped-Absent fname start i (f ∷ fs) h =
    ground (arith, h.0, find_mapped-Absent fname start (i + 1) fs h.1)

-- The file in front of the list ends where the region starts: it grows, and nothing is allocated.
add_file_continues :
    (lib : BfdLib) (dbg : Context) (f : DebugFile) (fs : List DebugFile) (from to pgoff : ℕ)
    (m : Mem)
    → dbg.files ≡ f ∷ fs
    → f.vmem_end ≡ from
    → from ≢ 0
    → dbg_trace_context_add_file lib dbg f.file_name from to pgoff m
      ≡ (pos 0, record dbg { files = record f { vmem_end = to } ∷ fs }, m)
unfolding dbg_trace_context_add_file get_mapped_file find_mapped continues map_region
add_file_continues lib dbg f fs from to pgoff m e g h = ground (arith, str_eq_self f.file_name)

-- The bfd handle of a new file, shifted by where the file is mapped.
abbrev pub new_handle : BfdLib → Str → ℕ → ℕ → Option BfdHandle
new_handle lib fname start pgoff = elim (lib.openr fname) [
  | none ↦ none
  | some bfd ↦ some (record { bfd = bfd; addr_offset = (start + u64_mod - pgoff) % u64_mod })
]

abbrev pub new_file : BfdLib → Str → ℕ → ℕ → ℕ → DebugFile
new_file lib fname start end pgoff = record {
  file_name = fname;
  vmem_start = start;
  vmem_end = end;
  dbg = new_handle lib fname start pgoff;
  sym_count = 0;
  sym = [];
}

add_file_new :
    (lib : BfdLib) (dbg : Context) (fname : Str) (from to pgoff : ℕ)
    → Absent fname dbg.files
    → from ≢ 0
    → dbg_trace_context_add_file lib dbg fname from to pgoff []
      ≡ (pos 0, record dbg { files = new_file lib fname from to pgoff ∷ dbg.files }, [])
unfolding dbg_trace_context_add_file get_mapped_file add_new_file debug_handle_create alloc
    map_region
add_file_new lib dbg fname from to pgoff h nz =
    ground (arith, find_mapped-Absent fname from 0 dbg.files h)

-- A region for each end, each starting where the one before it ended.
pub add_consecutive : BfdLib → Context → Str → ℕ → List ℕ → Mem → Context × Mem
add_consecutive lib dbg fname from [] m = (dbg, m)
add_consecutive lib dbg fname from (to ∷ ends) m =
    let (ret, dbg', m') = dbg_trace_context_add_file lib dbg fname from to 0 m in
    add_consecutive lib dbg' fname to ends m'

abbrev pub last_end : ℕ → List ℕ → ℕ
last_end from [] = from
last_end from (to ∷ ends) = last_end to ends

add_consecutive_grows :
    (lib : BfdLib) (dbg : Context) (f : DebugFile) (fs : List DebugFile) (ends : List ℕ) (m : Mem)
    → dbg.files ≡ f ∷ fs
    → f.vmem_end ≢ 0
    → All (λ e. e ≢ 0) ends
    → add_consecutive lib dbg f.file_name f.vmem_end ends m
      ≡ (record dbg { files = record f { vmem_end = last_end f.vmem_end ends } ∷ fs }, m)
unfolding add_consecutive
add_consecutive_grows lib dbg f fs [] m e h hs = ground arith
add_consecutive_grows lib dbg f fs (to ∷ ends) m e h hs =
    rw (add_file_continues lib dbg f fs f.vmem_end to 0 m e refl h) (
      add_consecutive_grows lib (record dbg { files = record f { vmem_end = to } ∷ fs })
        (record f { vmem_end = to }) fs ends m refl hs.0 hs.1)

-- Regions of one file that follow one another in memory, at non-zero addresses, added to a context
-- without that file and with every allocation successful, make one file in front of the list: it
-- starts where the first region starts, ends where the last one ends, and its bfd handle is shifted
-- by the start of the first region.
pub add_consecutive-new_file :
    (lib : BfdLib) (dbg : Context) (fname : Str) (from to : ℕ) (ends : List ℕ)
    → Absent fname dbg.files
    → from ≢ 0
    → All (λ e. e ≢ 0) (to ∷ ends)
    → add_consecutive lib dbg fname from (to ∷ ends) []
      ≡ (record dbg { files = new_file lib fname from (last_end to ends) 0 ∷ dbg.files }, [])
unfolding add_consecutive
add_consecutive-new_file lib dbg fname from to ends absent nz hs =
    rw (add_file_new lib dbg fname from to 0 absent nz) (
      add_consecutive_grows lib (record dbg { files = new_file lib fname from to 0 ∷ dbg.files })
        (new_file lib fname from to 0) dbg.files ends [] refl hs.0 hs.1)
