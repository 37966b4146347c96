-- ===== src/Dbg/Context/Libs.antt =====
-- `get_lib_full_path`, `debug_obj_file_add_libs` and `dbg_trace_context_create_file` of
-- src/trace-obj-debug.c: the context of a program that is not running, and its libraries.
use trace_cruncher.Base.{
  Bool, ◌&&◌, List, [], ◌∷◌, ◌++◌, Option, none, some, ◌==◌, if◌then◌else◌, ◌||◌, leb,
}
use trace_cruncher.Base.Int.{pos}
use trace_cruncher.Text.{Str}
use trace_cruncher.Alloc.{Mem, alloc, strdup}
use trace_cruncher.Dbg.Bfd.{BfdLib}
use trace_cruncher.Dbg.Context.{Context, get_mapped_file}

-- The dynamic linker: what `popen` of a program prints with LD_TRACE_LOADED_OBJECTS set, and the
-- directory of a library, by `dlmopen` and `dlinfo`.
pub record Linker : Type 0 where
  pub loaded_objects : Str → Option (List Str)
  pub origin : Str → Option Str

-- The line up to its first space, if it has one.
unfoldable pub cut_at_space : Str → Option Str
cut_at_space [] = none
cut_at_space (c ∷ s) =
    if c == 32 then some [] else (elim (cut_at_space s) [ none ↦ none | some t ↦ some (c ∷ t) ])

-- `while (isspace(*trimmed)) trimmed++;`
unfoldable pub skip_space : Str → Str
skip_space [] = []
skip_space (c ∷ s) = if c == 32 || (leb 9 c && leb c 13) then skip_space s else c ∷ s

-- `get_lib_full_path`: "%s/%s"
unfoldable pub get_lib_full_path : Linker → Str → Mem → Option Str × Mem
get_lib_full_path linker libname m = elim (linker.origin libname) [
  | none ↦ (none, m)
  | some dldir ↦
      let (got, m') = alloc m in (if got then some (dldir ++ b'/' ∷ libname) else none, m')
]

-- The file of a line of the linker's output.
unfoldable pub line_file : Linker → Str → Mem → Option Str × Mem
line_file linker trimmed m = elim trimmed [
  | [] ↦ get_lib_full_path linker [] m
  | c ∷ s ↦ if c == b'/' then (some (c ∷ s), m) else get_lib_full_path linker (c ∷ s) m
]

-- The body of the loop over the lines.
unfoldable pub add_line : BfdLib → Linker → Str → Context → Mem → Context × Mem
add_line lib linker line dbg m = elim (cut_at_space line) [
  | none ↦ (dbg, m)
  | some name ↦
      let (file, m₁) = line_file linker (skip_space name) m in
      elim file [
        | none ↦ (dbg, m₁)
        | some path ↦ let (i, dbg₁, m₂) = get_mapped_file lib dbg path 0 m₁ in (dbg₁, m₂)
      ]
]

unfoldable pub add_lines : BfdLib → Linker → List Str → Context → Mem → Context × Mem
add_lines lib linker [] dbg m = (dbg, m)
add_lines lib linker (line ∷ lines) dbg m =
    let (dbg', m') = add_line lib linker line dbg m in add_lines lib linker lines dbg' m'

-- Its return value is -1 on every path, and its caller ignores it.
unfoldable pub debug_obj_file_add_libs : BfdLib → Linker → Str → Context → Mem → Context × Mem
debug_obj_file_add_libs lib linker file dbg m = elim (linker.loaded_objects file) [
  | none ↦ (dbg, m)
  | some lines ↦ add_lines lib linker lines dbg m
]

unfoldable pub dbg_trace_context_create_file :
    BfdLib → Linker → Str → Bool → Mem → Option Context × Mem
dbg_trace_context_create_file lib linker fname libs m =
    let (got, m₁) = alloc m in
    let (copy, m₂) = strdup fname m₁ in
    let start : Context = record {
      pid = pos 0;
      fname = copy;
      fmaps = [];
      sym_count = 0;
      sym = [];
      files = [];
    } in
    let (file, dbg, m₃) = get_mapped_file lib start fname 0 m₂ in
    if got
    then (elim file [
      | none ↦ (none, m₃)
      | some i ↦
          let (all, m₄) =
            (if libs then debug_obj_file_add_libs lib linker fname dbg m₃ else (dbg, m₃)) in
          (some all, m₄)
    ])
    else (none, m₁)
