-- ===== src/Dbg/Context/Programs.antt =====
-- Which files the context of a program that is not running has.
use trace_cruncher.Base.{
  ◌≡◌, refl, ap, ◌∙◌, Bool, true, false, List, [], ◌∷◌, ◌++◌, map, Option, none, some, arith, ◌==◌,
  if◌then◌else◌, Option-cases, ℕ, ◌+◌, inl, inr,
}
use trace_cruncher.Text.{Str}
use trace_cruncher.Alloc.{alloc, strdup}
use trace_cruncher.Dbg.Bfd.{BfdLib}
use trace_cruncher.Dbg.Context.{
  DebugFile, Context, debug_handle_create, continues, find_mapped, add_new_file, get_mapped_file,
}
use trace_cruncher.Dbg.Context.Libs.{
  Linker, cut_at_space, skip_space, get_lib_full_path, line_file, add_line, add_lines,
  debug_obj_file_add_libs, dbg_trace_context_create_file,
}
use trace_cruncher.Base.Int.{pos}

-- A library by its path, or in the directory where the linker finds it.
abbrev pub library_path : Linker → Str → Option Str
library_path linker name = elim (linker.origin name) [
  | none ↦ none
  | some dldir ↦ some (dldir ++ b'/' ∷ name)
]

abbrev pub name_path : Linker → Str → Option Str
name_path linker [] = library_path linker []
name_path linker (c ∷ s) = if c == b'/' then some (c ∷ s) else library_path linker (c ∷ s)

-- The library that a line names in front of its first space.
abbrev pub line_path : Linker → Str → Option Str
line_path linker line = elim (cut_at_space line) [
  | none ↦ none
  | some name ↦ name_path linker (skip_space name)
]

-- The names of the files after the lines, the last line first.
abbrev pub with_libraries : Linker → List Str → List Str → List Str
with_libraries linker [] names = names
with_libraries linker (line ∷ lines) names = elim (line_path linker line) [
  | none ↦ with_libraries linker lines names
  | some path ↦ with_libraries linker lines (path ∷ names)
]

line_file-name_path :
    (linker : Linker) (name : Str) → line_file linker name [] ≡ (name_path linker name, [])
unfolding line_file get_lib_full_path alloc
line_file-name_path linker [] = ground arith
line_file-name_path linker (c ∷ s) = ground arith

find_mapped_start :
    (fname : Str) (i : ℕ) (files : List DebugFile) → find_mapped fname 0 i files ≡ none
unfolding find_mapped continues
find_mapped_start fname i [] = refl
find_mapped_start fname i (f ∷ files) = ground (arith, find_mapped_start fname (i + 1) files)

abbrev names : Context → List Str
names c = map (λ f. f.file_name) c.files

get_mapped_file-names :
    (lib : BfdLib) (c : Context) (fname : Str)
    → ((get_mapped_file lib c fname 0 []).0 ≡ some 0)
      × (names (get_mapped_file lib c fname 0 []).1 ≡ fname ∷ names c)
      × ((get_mapped_file lib c fname 0 []).2 ≡ [])
unfolding get_mapped_file add_new_file debug_handle_create alloc
get_mapped_file-names lib c fname =
    let new = find_mapped_start fname 0 c.files in (ground arith, ground arith, ground arith)

-- The names after a line, with no allocation left to fail.
add_line-names :
    (lib : BfdLib) (linker : Linker) (line : Str) (c : Context)
    → (names (add_line lib linker line c []).0
        ≡ (elim (line_path linker line) [ none ↦ names c | some path ↦ path ∷ names c ]))
      × ((add_line lib linker line c []).1 ≡ [])
unfolding add_line
add_line-names lib linker line c = elim (Option-cases (cut_at_space line)) [
  | inl e ↦ (ground arith, ground arith)
  | inr (name, e) ↦
      let same = line_file-name_path linker (skip_space name) in
      elim (Option-cases (name_path linker (skip_space name))) [
        | inl f ↦ (ground arith, ground arith)
        | inr (path, f) ↦
            let (_, files, left) = get_mapped_file-names lib c path in (ground arith, ground arith)
      ]
]

add_lines-names :
    (lib : BfdLib) (linker : Linker) (lines : List Str) (c : Context)
    → names (add_lines lib linker lines c []).0 ≡ with_libraries linker lines (names c)
unfolding add_lines
add_lines-names lib linker [] c = refl
add_lines-names lib linker (line ∷ lines) c =
    let (here, left) = add_line-names lib linker line c in
    let c' = (add_line lib linker line c []).0 in
    let step : add_lines lib linker (line ∷ lines) c [] ≡ add_lines lib linker lines c' [] =
      ap (add_lines lib linker lines c') left in
    ap (λ r. names r.0) step
    ∙ (add_lines-names lib linker lines c' ∙ elim (Option-cases (line_path linker line)) [
      | inl e ↦ ground arith
      | inr (path, e) ↦ ground arith
    ])

abbrev pub printed_lines : Linker → Str → Bool → List Str
printed_lines linker fname true = elim (linker.loaded_objects fname) [
  | none ↦ []
  | some lines ↦ lines
]
printed_lines linker fname false = []

add_libs-names :
    (lib : BfdLib) (linker : Linker) (fname : Str) (c : Context)
    → names (debug_obj_file_add_libs lib linker fname c []).0
      ≡ with_libraries linker (printed_lines linker fname true) (names c)
unfolding debug_obj_file_add_libs
add_libs-names lib linker fname c = elim (Option-cases (linker.loaded_objects fname)) [
  | inl e ↦ ground arith
  | inr (lines, e) ↦ ground (arith, add_lines-names lib linker lines c)
]

abbrev start : Str → Context
start fname = record {
  pid = pos 0;
  fname = some fname;
  fmaps = [];
  sym_count = 0;
  sym = [];
  files = [];
}

-- With every allocation successful, the context of a program has the program as its oldest file and,
-- if the libraries are wanted, one file in front of it for each line of the linker's output that names
-- a library which has a path, the last line first.
pub create_file-names :
    (lib : BfdLib) (linker : Linker) (fname : Str) (libs : Bool)
    → (c : Context) × ((dbg_trace_context_create_file lib linker fname libs []).0 ≡ some c)
      × (map (λ f. f.file_name) c.files
          ≡ with_libraries linker (printed_lines linker fname libs) (fname ∷ []))
unfolding dbg_trace_context_create_file debug_obj_file_add_libs alloc strdup
create_file-names lib linker fname true =
    let (found, files, left) = get_mapped_file-names lib (start fname) fname in
    let c = (get_mapped_file lib (start fname) fname 0 []).1 in
    (
      (debug_obj_file_add_libs lib linker fname c []).0,
      ground (arith, found, left),
      add_libs-names lib linker fname c
          ∙ ap (with_libraries linker (printed_lines linker fname true)) files,
    )
create_file-names lib linker fname false =
    let (found, files, left) = get_mapped_file-names lib (start fname) fname in
    ((get_mapped_file lib (start fname) fname 0 []).1, ground (arith, found, left), files)
