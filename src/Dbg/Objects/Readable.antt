-- ===== src/Dbg/Objects/Readable.antt =====
-- With every allocation successful, a pass over a readable file ends, for each of the two jobs, and
-- the list of symbols goes on beginning with the requests.
use trace_cruncher.Base.{
  false, refl, ◌≡◌, List, Begins, [], if◌then◌else◌, Bool-cases, inl, inr, ◌||◌, Begins-refl, arith,
  Bool, Option-cases, true,
}
use trace_cruncher.Dbg.Objects.Total.{Canonicalises, get_sym_table_total}
use trace_cruncher.Dbg.Bfd.{BfdLib, Bfd, Object, Asymbol, object, archive}
use trace_cruncher.Dbg.Objects.{
  resolve_object, process_bfd_object, read_all_bfd, resolve_symbol_vma, resolve_symbol_name, Job,
  BfdHandle, DebugSymbol, object_demangles_null,
}
use trace_cruncher.Dbg.Lookup.Reference.{looked_up}
use trace_cruncher.Dbg.Objects.Laws.{
  SameRequest, Passes, looked_up-Begins, map_over_sections-Begins, SameRequest-refl,
}
use trace_cruncher.Dbg.Sections.{map_over_sections}
use trace_cruncher.Base.Int.{negsuc, pos}
use trace_cruncher.Dbg.Sections.Memory.{map_over_sections-nil}
use trace_cruncher.Dbg.Lookup.Table.{lookup_bfd_sym-looked_up}
use trace_cruncher.Dbg.Sections.Nameless.{NamesItsHits, pass_demangles_null-NamesItsHits}

-- The symbols before the pass over the sections.
abbrev looked : BfdLib → Job → List Asymbol → List DebugSymbol → List DebugSymbol
looked lib job t ss = if job.flags.resolve_vma then looked_up lib job t ss else ss

looked-Begins :
    (lib : BfdLib) (job : Job) (t : List Asymbol) (ss : List DebugSymbol) (vma : Bool)
    → Begins SameRequest ss (if vma then looked_up lib job t ss else ss)
looked-Begins lib job t ss true = looked_up-Begins lib job t ss
looked-Begins lib job t ss false = Begins-refl SameRequest ss SameRequest-refl

resolve_object_lem :
    (lib : BfdLib) (o : Object) (job : Job) (t : List Asymbol) (ss : List DebugSymbol)
    → resolve_object lib o job t ss [] ≡ (
        if job.flags.resolve_name || job.flags.resolve_foffset
        then map_over_sections lib o job o.sections (looked lib job t ss) []
        else (looked lib job t ss, []))
unfolding resolve_object
resolve_object_lem lib o job t ss = ground (arith, lookup_bfd_sym-looked_up lib job t ss)

resolve_object-Begins :
    (lib : BfdLib) (o : Object) (job : Job) (t : List Asymbol) (ss : List DebugSymbol)
    → ((resolve_object lib o job t ss []).1 ≡ [])
      × Begins SameRequest ss (resolve_object lib o job t ss []).0
resolve_object-Begins lib o job t ss =
    rw (resolve_object_lem lib o job t ss)
      (elim (Bool-cases (job.flags.resolve_name || job.flags.resolve_foffset)) [
        | inl e ↦ rw e (
          map_over_sections-nil lib o job o.sections (looked lib job t ss),
          map_over_sections-Begins lib o job ss _
              (looked-Begins lib job t ss job.flags.resolve_vma),
        )
        | inr e ↦ rw e (refl, looked-Begins lib job t ss job.flags.resolve_vma)
      ])

object_demangles_null-NamesItsHits :
    (lib : BfdLib) (o : Object) (job : Job) (t : List Asymbol) (ss : List DebugSymbol)
    → NamesItsHits o
    → object_demangles_null lib o job t ss [] ≡ false
unfolding object_demangles_null
object_demangles_null-NamesItsHits lib o job t ss h = ground (
  arith,
  lookup_bfd_sym-looked_up lib job t ss,
  pass_demangles_null-NamesItsHits lib o job o.sections (looked_up lib job t ss) [] h,
  pass_demangles_null-NamesItsHits lib o job o.sections ss [] h,
)

process_bfd_object-Passes :
    (lib : BfdLib) (job : Job) (o : Object) (ss : List DebugSymbol)
    → Canonicalises o.symtab o.dynamic_symtab
    → NamesItsHits o
    → Passes ss (process_bfd_object lib o job ss [])
unfolding process_bfd_object
process_bfd_object-Passes lib job o ss h names = elim (Bool-cases o.format_matches) [
  | inr e ↦ (negsuc 0, ss, ground arith, Begins-refl SameRequest ss SameRequest-refl)
  | inl e ↦
      let (table, g) = get_sym_table_total o h in
      elim (Option-cases table) [
        | inl missing ↦ (negsuc 0, ss, ground arith, Begins-refl SameRequest ss SameRequest-refl)
        | inr (t, got) ↦
            let (m, b) = resolve_object-Begins lib o job t ss in
            let no_null = object_demangles_null-NamesItsHits lib o job t ss names in
            (pos 0, (resolve_object lib o job t ss []).0, ground arith, b)
      ]
]

-- A file that resolving can read: no archive, a symbol table as above, and the name of a function for
-- each address that is found.
abbrev pub IsReadable : Bfd → Type 0
IsReadable (object o) = Canonicalises o.symtab o.dynamic_symtab × NamesItsHits o
IsReadable (archive ms) = ⊥

read_all_bfd-Passes :
    (lib : BfdLib) (job : Job) (b : Bfd) (ss : List DebugSymbol)
    → IsReadable b
    → Passes ss (read_all_bfd lib job b ss [])
unfolding read_all_bfd
read_all_bfd-Passes lib job (object o) ss h = process_bfd_object-Passes lib job o ss h.0 h.1
read_all_bfd-Passes lib job (archive ms) ss h = elim h [ ]

pub resolve_symbol_vma-Passes :
    (lib : BfdLib) (obj : BfdHandle) (ss : List DebugSymbol)
    → IsReadable obj.bfd
    → Passes ss (resolve_symbol_vma lib obj ss [])
unfolding resolve_symbol_vma
resolve_symbol_vma-Passes lib obj ss h = read_all_bfd-Passes lib _ obj.bfd ss h

pub resolve_symbol_name-Passes :
    (lib : BfdLib) (obj : BfdHandle) (ss : List DebugSymbol)
    → IsReadable obj.bfd
    → Passes ss (resolve_symbol_name lib obj ss [])
unfolding resolve_symbol_name
resolve_symbol_name-Passes lib obj ss h = read_all_bfd-Passes lib _ obj.bfd ss h
