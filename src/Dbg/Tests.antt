-- ===== src/Dbg/Tests.antt =====
-- The theorems on the resolver of symbols at concrete inputs.
use trace_cruncher.Base.{
  ◌≡◌, ◌≢◌, refl, true, false, List, [], ◌∷◌, map, none, some, arith, Pointwise, Begins,
}
use trace_cruncher.Base.Int.{pos}
use trace_cruncher.Text.{codes, str_eq}
use trace_cruncher.Alloc.{alloc, done}
use trace_cruncher.Dbg.{DebugSymbol, match_exact, Job}
use trace_cruncher.Dbg.Bfd.{Section, Asymbol, stored, Object, object, BfdLib}
use trace_cruncher.Dbg.Sections.{map_over_sections}
use trace_cruncher.Dbg.Sections.Laws.{KeepsSymbol}
use trace_cruncher.Dbg.Sections.Offset.{offset_of, foffset-map_over_sections}
use trace_cruncher.Dbg.Lookup.{lookup_bfd_sym}
use trace_cruncher.Dbg.Lookup.Reference.{hits, looked_up}
use trace_cruncher.Dbg.Lookup.Table.{lookup_bfd_sym-looked_up}
use trace_cruncher.Dbg.Objects.{canonical_table, positive, get_sym_table, resolve_symbol_vma}
use trace_cruncher.Dbg.Objects.Total.{vma_job, resolve_symbol_vma-object}
use trace_cruncher.Dbg.Filemap.{Line, dbg_trace_get_filemap}
use trace_cruncher.Dbg.Filemap.Outcome.{Outcome, get_filemap-Outcome}
use trace_cruncher.Dbg.Context.{DebugFile, Context, dbg_trace_context_add_file}
use trace_cruncher.Dbg.Context.Files.{IsValid, FileIsValid, add_file-IsValid}
use trace_cruncher.Dbg.Context.Regions.{
  add_consecutive, new_file, last_end, add_consecutive-new_file,
}
use trace_cruncher.Dbg.Requests.{
  has_name, add_resolve_name2vma, add_resolve_vma2name, add_to_files, add_near, holds, has_near,
  dbg_trace_add_resolve_symbol,
}
use trace_cruncher.Dbg.Requests.Laws.{add_resolve_symbol-IsValid}
use trace_cruncher.Dbg.Context.Libs.{Linker, dbg_trace_context_create_file}
use trace_cruncher.Dbg.Context.Programs.{with_libraries, printed_lines, create_file-names}
use trace_cruncher.Dbg.Resolve.{dbg_trace_resolve_symbols}
use trace_cruncher.Dbg.Resolve.Laws.{SameFile, resolve_symbols_total}
use trace_cruncher.Dbg.Objects.Laws.{SameRequest}

abbrev text : Section
text = record { code = true; vma = 0x1000; size = 0x100; filepos = 0x40 }

abbrev table : List Asymbol
table =
    record {
      function = true;
      name = codes "main";
      value = 0x10;
      section_vma = 0x1000;
      dynamic = false;
    }
    ∷ record {
      function = true;
      name = codes "mend";
      value = 0x20;
      section_vma = 0x1000;
      dynamic = false;
    }
    ∷ []

abbrev program : Object
program = record {
  filename = codes "/bin/a";
  dynamic = false;
  format_matches = true;
  has_syms = true;
  dynamic_symtab_bound = pos 0;
  symtab_bound = pos 24;
  symtab = stored table;
  dynamic_symtab = stored [];
  nameless = λ _ _. false;
  sections = text ∷ [];
}

-- Every file is the program, and a pattern matches the names that it is equal to.
abbrev lib : BfdLib
lib = record {
  openr = λ _. some (object program);
  nearest_function = λ _ _ _. none;
  demangle = λ _. none;
  fnmatch = str_eq;
}

abbrev job : Job
job = vma_job (record { bfd = object program; addr_offset = 0 })

abbrev main_request : DebugSymbol
main_request = record {
  symbol = record {
    name = some (codes "main");
    fname = none;
    cookie = pos 7;
    vma_start = 0x1010;
    vma_near = 0;
    foffset = 0;
  };
  match_type = match_exact;
}

abbrev requests : List DebugSymbol
requests = main_request ∷ []

abbrev file : DebugFile
file = record {
  file_name = codes "/bin/a";
  vmem_start = 0x1000;
  vmem_end = 0x2000;
  dbg = some (record { bfd = object program; addr_offset = 0 });
  sym_count = 0;
  sym = [];
}

abbrev context : Context
context = record {
  pid = pos 12;
  fname = none;
  fmaps = [];
  sym_count = 1;
  sym = requests;
  files = file ∷ [];
}

abbrev empty : Context
empty = record { pid = pos 12; fname = none; fmaps = []; sym_count = 0; sym = []; files = [] }

abbrev lines : List Line
lines = some (0x1000, 0x2000, codes "/bin/a") ∷ none ∷ some (0x2000, 0x3000, []) ∷ []

abbrev file-IsValid : FileIsValid file
file-IsValid = record { interval = omega arith; counted = refl; distinct = tt }

abbrev empty-IsValid : IsValid empty
empty-IsValid = record { files_valid = tt; counted = refl; distinct = tt }

abbrev context-IsValid : IsValid context
unfolding has_name
context-IsValid = record { files_valid = (file-IsValid, tt); counted = refl; distinct = (refl, tt) }

table_read : get_sym_table program [] ≡ done (some table, [])
unfolding get_sym_table canonical_table alloc positive
table_read = refl

foffset-map_over_sections_example :
    map (λ s. s.symbol.foffset) (map_over_sections lib program job (text ∷ []) requests []).0
    ≡ map (λ s. offset_of program job (text ∷ []) s.symbol) requests
foffset-map_over_sections_example =
    foffset-map_over_sections lib program job (text ∷ []) requests [] refl

lookup_bfd_sym-looked_up_example :
    lookup_bfd_sym lib job table requests []
    ≡ (hits lib job table requests, looked_up lib job table requests, [])
lookup_bfd_sym-looked_up_example = lookup_bfd_sym-looked_up lib job table requests

resolve_symbol_vma-object_example :
    (ss' : List DebugSymbol) × (resolve_symbol_vma lib
        (record { bfd = object program; addr_offset = 0 })
        requests
        []
      ≡ done (pos 0, ss', []))
    × Pointwise KeepsSymbol (looked_up lib job table requests) ss'
    × (map (λ s. s.symbol.foffset) ss'
        ≡ map (λ s. offset_of program job (text ∷ []) s.symbol) (looked_up lib job table requests))
resolve_symbol_vma-object_example =
    resolve_symbol_vma-object lib (record { bfd = object program; addr_offset = 0 }) program table
      requests refl refl table_read

get_filemap-Outcome_example : Outcome (pos 12) (codes "/bin/a") lines [] (true ∷ true ∷ []) (
    dbg_trace_get_filemap
      (record { exe = some (codes "/bin/a"); maps = some lines })
      (pos 12)
      []
      (true ∷ true ∷ []))
get_filemap-Outcome_example =
    get_filemap-Outcome (pos 12) (codes "/bin/a") lines [] (true ∷ true ∷ [])

add_resolve_symbol-IsValid_example :
    IsValid (dbg_trace_add_resolve_symbol context 0 (some (codes "exit")) (pos 8) []).1
add_resolve_symbol-IsValid_example =
    add_resolve_symbol-IsValid context 0 (some (codes "exit")) (pos 8) [] context-IsValid

no_room :
    (dbg_trace_add_resolve_symbol context 0 (some (codes "exit")) (pos 8) (false ∷ [])).0 ≢ pos 0
unfolding dbg_trace_add_resolve_symbol add_resolve_name2vma has_name alloc str_eq
no_room e = ground arith

near_added : (dbg_trace_add_resolve_symbol context 0x1010 none (pos 8) []).0 ≡ pos 0
unfolding dbg_trace_add_resolve_symbol add_resolve_vma2name add_to_files add_near holds has_near
    alloc
near_added = refl

add_file-IsValid_example :
    IsValid (dbg_trace_context_add_file lib context (codes "/bin/a") 0x2000 0x3000 0x1000 []).1
add_file-IsValid_example =
    add_file-IsValid lib context (codes "/bin/a") 0x2000 0x3000 0x1000 [] (omega arith)
      context-IsValid

add_consecutive-new_file_example :
    add_consecutive lib empty (codes "/bin/a") 0x1000 (0x2000 ∷ 0x3000 ∷ []) [] ≡ (
      record empty {
        files = new_file lib (codes "/bin/a") 0x1000 (last_end 0x2000 (0x3000 ∷ [])) 0 ∷ [];
      },
      [],
    )
add_consecutive-new_file_example =
    add_consecutive-new_file lib empty (codes "/bin/a") 0x1000 0x2000 (0x3000 ∷ []) tt
      (λ e. ground arith) ((λ e. ground arith), ((λ e. ground arith), tt))

abbrev linker : Linker
linker = record {
  loaded_objects = λ _. some (codes "libc.so => x" ∷ codes "/lib/ld.so x" ∷ codes "static" ∷ []);
  origin = λ _. some (codes "/lib");
}

create_file-names_example :
    (c : Context) × ((dbg_trace_context_create_file lib linker (codes "/bin/a") true []).0 ≡ some c)
    × (map (λ f. f.file_name) c.files
        ≡ with_libraries linker (printed_lines linker (codes "/bin/a") true) (codes "/bin/a" ∷ []))
create_file-names_example = create_file-names lib linker (codes "/bin/a") true

resolve_symbols_total_example :
    (c' : Context) × (dbg_trace_resolve_symbols lib context [] ≡ done (pos 0, c', []))
    × Pointwise SameFile context.files c'.files
    × Begins SameRequest context.sym c'.sym
resolve_symbols_total_example = resolve_symbols_total lib context ((tt, λ _ _. refl), tt)
