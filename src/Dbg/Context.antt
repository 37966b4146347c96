-- ===== src/Dbg/Context.antt =====
-- `struct dbg_trace_context` of src/trace-obj-debug.c: the files that are mapped into a process,
-- and how they get into the context. A pointer to a file of the context is its position.
pub mod Files
pub mod Regions
pub mod Libs
pub mod Programs
use trace_cruncher.Base.{
  ℕ, ◌+◌, ◌-◌, ◌%◌, Bool, true, false, not, ◌&&◌, List, [], ◌∷◌, ◌++◌, Option, none, some, ◌==◌,
  if◌then◌else◌, modify, ◌||◌, leb,
}
use trace_cruncher.Base.Int.{ℤ, pos, negsuc, is_zero}
use trace_cruncher.Text.{Str, str_eq}
use trace_cruncher.Alloc.{Mem, alloc, strdup, Run, done, fault, ◌>>=◌}
use trace_cruncher.Dbg.{DebugSymbol, AddrMap, PidMaps, u64_mod}
use trace_cruncher.Dbg.Bfd.{Bfd, BfdLib}
use trace_cruncher.Dbg.Objects.{BfdHandle}
use trace_cruncher.Dbg.Filemap.{Proc, dbg_trace_get_filemap}

-- `struct debug_file`
pub record DebugFile : Type 0 where
  pub file_name : Str
  pub vmem_start : ℕ
  pub vmem_end : ℕ
  pub dbg : Option BfdHandle
  pub sym_count : ℕ
  pub sym : List DebugSymbol

-- `struct dbg_trace_context`
pub record Context : Type 0 where
  pub pid : ℤ
  pub fname : Option Str
  pub fmaps : List PidMaps
  pub sym_count : ℕ
  pub sym : List DebugSymbol
  pub files : List DebugFile

unfoldable pub debug_handle_create : BfdLib → Str → Mem → Option BfdHandle × Mem
debug_handle_create lib file m =
    let (got, m') = alloc m in
    (
      if got
          then (elim (lib.openr file) [
            | some bfd ↦ some (record { bfd = bfd; addr_offset = 0 })
            | none ↦ none
          ])
          else none,
      m',
    )

-- "Search if the file is already added": the test of the loop.
unfoldable pub continues : Str → ℕ → DebugFile → Bool
continues fname vmem_start file =
    str_eq fname file.file_name && (not (vmem_start == 0) && (file.vmem_end == vmem_start))

-- The position of the first file that passes it, counted from `i`.
unfoldable pub find_mapped : Str → ℕ → ℕ → List DebugFile → Option ℕ
find_mapped fname vmem_start i [] = none
find_mapped fname vmem_start i (file ∷ files) =
    if continues fname vmem_start file then some i else find_mapped fname vmem_start (i + 1) files

-- A new file in front of the list.
unfoldable pub add_new_file : BfdLib → Context → Str → Mem → Option ℕ × Context × Mem
add_new_file lib dbg fname m =
    let (got, m₁) = alloc m in
    let (copied, m₂) = alloc m₁ in
    let (handle, m₃) = debug_handle_create lib fname m₂ in
    if got
    then (if copied
        then (
          some 0,
          record dbg {
            files =
                record {
                  file_name = fname;
                  vmem_start = 0;
                  vmem_end = 0;
                  dbg = handle;
                  sym_count = 0;
                  sym = [];
                }
                ∷ dbg.files;
          },
          m₃,
        )
        else (none, dbg, m₂))
    else (none, dbg, m₁)

unfoldable pub get_mapped_file : BfdLib → Context → Str → ℕ → Mem → Option ℕ × Context × Mem
get_mapped_file lib dbg fname vmem_start m = elim (find_mapped fname vmem_start 0 dbg.files) [
  | some i ↦ (some i, dbg, m)
  | none ↦ add_new_file lib dbg fname m
]

-- The part of `dbg_trace_context_add_file` that follows `get_mapped_file`.
unfoldable pub map_region : ℕ → ℕ → ℕ → DebugFile → DebugFile
map_region vmem_start vmem_end pgoff file =
    if file.vmem_end == vmem_start then record file { vmem_end = vmem_end } else record file {
      vmem_start = vmem_start;
      vmem_end = vmem_end;
      dbg = elim file.dbg [
        | none ↦ none
        | some handle ↦
            some (record handle { addr_offset = (vmem_start + u64_mod - pgoff) % u64_mod })
      ];
    }

unfoldable pub dbg_trace_context_add_file :
    BfdLib → Context → Str → ℕ → ℕ → ℕ → Mem → ℤ × Context × Mem
dbg_trace_context_add_file lib dbg file_name vmem_start vmem_end pgoff m =
    let (file, dbg', m') = get_mapped_file lib dbg file_name vmem_start m in
    elim file [
      | none ↦ (negsuc 0, dbg', m')
      | some i ↦ (
        pos 0,
        record dbg' { files = modify dbg'.files i (map_region vmem_start vmem_end pgoff) },
        m',
      )
    ]

-- The loop of `dbg_trace_context_create_pid` over the memory map.
unfoldable pub add_maps : BfdLib → Str → Bool → List AddrMap → Context → Mem → Context × Mem
add_maps lib fname libs [] dbg m = (dbg, m)
add_maps lib fname libs (map ∷ maps) dbg m =
    let (ret, added, m') = dbg_trace_context_add_file lib dbg map.lib_name map.start map.end 0 m in
    let (dbg₁, m₁) =
      (if not libs && not (str_eq fname map.lib_name) then (dbg, m) else (added, m')) in
    add_maps lib fname libs maps dbg₁ m₁

-- `dbg->fmaps->lib_maps` of the context that is built, whose list has one entry or is NULL.
unfoldable pub mapped_libs : List PidMaps → Run (List AddrMap)
mapped_libs [] = fault
mapped_libs (p ∷ ps) = done p.lib_maps

-- `get_full_name` reads the same link as `dbg_trace_get_filemap`; here it is `proc.exe`. The result
-- of the latter is ignored, and its list followed.
unfoldable pub create_pid_with : BfdLib → Proc → Context → Str → Bool → Mem → Run (Context × Mem)
create_pid_with lib proc dbg fname libs m =
    dbg_trace_get_filemap proc dbg.pid dbg.fmaps m >>= λ (ret, fmaps, m₁).
    mapped_libs fmaps >>= λ maps.
    done (add_maps lib fname libs maps (record dbg { fmaps = fmaps }) m₁)

unfoldable pub dbg_trace_context_create_pid :
    BfdLib → Proc → ℤ → Bool → Mem → Run (Option Context × Mem)
dbg_trace_context_create_pid lib proc pid libs m =
    let (got, m₁) = alloc m in
    let (copied, m₂) = alloc m₁ in
    elim proc.exe [
      | none ↦ done (none, m₁)
      | some fname ↦
          if got
          then (if copied
              then (create_pid_with lib proc (empty fname) fname libs m₂ >>= λ (dbg, m').
                  done (some dbg, m'))
              else done (none, m₂))
          else done (none, m₁)
    ]
  where
    empty : Str → Context
    empty fname = record {
      pid = pid;
      fname = some fname;
      fmaps = [];
      sym_count = 0;
      sym = [];
      files = [];
    }
