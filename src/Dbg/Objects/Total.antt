-- ===== src/Dbg/Objects/Total.antt =====
-- A pass over an object file ends, with every allocation successful, and what it finds.
use trace_cruncher.Base.{
  ◌+◌, ◌≡◌, refl, inl, inr, true, false, List, [], ◌∷◌, Option, none, some, ◌==◌, arith, map,
  Pointwise, Bool-cases,
}
use trace_cruncher.Base.Int.{pos}
use trace_cruncher.Alloc.{alloc, done}
use trace_cruncher.Dbg.{DebugSymbol, Job}
use trace_cruncher.Dbg.Bfd.{Asymbol, Canonical, stored, failed, Object, object, BfdLib}
use trace_cruncher.Dbg.Sections.{map_over_sections}
use trace_cruncher.Dbg.Sections.Laws.{KeepsSymbol, map_over_sections-Keeps}
use trace_cruncher.Dbg.Sections.Offset.{offset_of, foffset-map_over_sections}
use trace_cruncher.Dbg.Sections.Memory.{map_over_sections-nil}
use trace_cruncher.Dbg.Lookup.Reference.{looked_up}
use trace_cruncher.Dbg.Lookup.Table.{lookup_bfd_sym-looked_up}
use trace_cruncher.Dbg.Objects.{
  canonical_table, get_sym_table, resolve_object, process_bfd_object, read_all_bfd, BfdHandle,
  resolve_symbol_vma, positive, object_demangles_null,
}
use trace_cruncher.Dbg.Sections.Nameless.{pass_demangles_null-no_names}

-- The static symbol table can be read, or the dynamic one cannot be read either.
abbrev pub Canonicalises : Canonical → Canonical → Type 0
Canonicalises (stored ss) d = Unit
Canonicalises failed failed = Unit
Canonicalises failed (stored ds) = ⊥

canonical_table_total :
    (s d : Canonical)
    → Canonicalises s d
    → (t : Option (List Asymbol)) × (canonical_table s d ≡ done t)
unfolding canonical_table
canonical_table_total (stored []) (stored []) h = (_, refl)
canonical_table_total (stored []) (stored (d ∷ ds)) h = (_, refl)
canonical_table_total (stored (s ∷ ss)) (stored ds) h = (_, refl)
canonical_table_total (stored []) failed h = (_, refl)
canonical_table_total (stored (s ∷ [])) failed h = (_, refl)
canonical_table_total (stored (s ∷ t ∷ ss)) failed h = (_, refl)
canonical_table_total failed (stored ds) h = elim h [ ]
canonical_table_total failed failed h = (_, refl)

pub get_sym_table_total :
    (o : Object)
    → Canonicalises o.symtab o.dynamic_symtab
    → (t : Option (List Asymbol)) × (get_sym_table o [] ≡ done (t, []))
unfolding get_sym_table alloc
get_sym_table_total o h =
    let (t, e) = canonical_table_total o.symtab o.dynamic_symtab h in
    elim (Bool-cases o.has_syms) [
      | inr no_syms ↦ (none, ground arith)
      | inl syms ↦
          elim (Bool-cases (positive o.dynamic_symtab_bound + positive o.symtab_bound == 0)) [
            | inl empty ↦ (none, ground arith)
            | inr sized ↦ (t, ground arith)
          ]
    ]

resolve_object_vma :
    (lib : BfdLib) (o : Object) (job : Job) (t : List Asymbol) (ss : List DebugSymbol)
    → job.flags.resolve_vma ≡ true
    → job.flags.resolve_foffset ≡ true
    → resolve_object lib o job t ss []
      ≡ map_over_sections lib o job o.sections (looked_up lib job t ss) []
unfolding resolve_object
resolve_object_vma lib o job t ss h k = ground (arith, lookup_bfd_sym-looked_up lib job t ss)

resolve_object_name :
    (lib : BfdLib) (o : Object) (job : Job) (t : List Asymbol) (ss : List DebugSymbol)
    → job.flags.resolve_vma ≡ false
    → job.flags.resolve_name ≡ true
    → resolve_object lib o job t ss [] ≡ map_over_sections lib o job o.sections ss []
unfolding resolve_object
resolve_object_name lib o job t ss h k = ground arith

object_demangles_null-no_names :
    (lib : BfdLib) (o : Object) (job : Job) (t : List Asymbol) (ss : List DebugSymbol)
    → job.flags.resolve_name ≡ false
    → object_demangles_null lib o job t ss [] ≡ false
unfolding object_demangles_null
object_demangles_null-no_names lib o job t ss h = ground (
  arith,
  lookup_bfd_sym-looked_up lib job t ss,
  pass_demangles_null-no_names lib o job o.sections (looked_up lib job t ss) [] h,
  pass_demangles_null-no_names lib o job o.sections ss [] h,
)

abbrev pub vma_job : BfdHandle → Job
vma_job obj = record {
  flags = record { resolve_name = false; resolve_vma = true; resolve_foffset = true };
  addr_offset = obj.addr_offset;
}

-- Resolving names in an object file whose symbol table can be read, with every allocation
-- successful: it returns 0; the requests end with the addresses of the functions of their names, and
-- with one more symbol for each match of a wildcard; and each of them that has an address gets the
-- file offset of that address, as the last code section which covers it gives it.
pub resolve_symbol_vma-object :
    (lib : BfdLib) (obj : BfdHandle) (o : Object) (t : List Asymbol) (ss : List DebugSymbol)
    → obj.bfd ≡ object o
    → o.format_matches ≡ true
    → get_sym_table o [] ≡ done (some t, [])
    → (ss' : List DebugSymbol) × (resolve_symbol_vma lib obj ss [] ≡ done (pos 0, ss', []))
      × Pointwise KeepsSymbol (looked_up lib (vma_job obj) t ss) ss'
      × (map (λ s. s.symbol.foffset) ss'
          ≡ map
              (λ s. offset_of o (vma_job obj) o.sections s.symbol)
              (looked_up lib (vma_job obj) t ss))
unfolding resolve_symbol_vma read_all_bfd process_bfd_object
resolve_symbol_vma-object lib obj o t ss e f g =
    let job = vma_job obj in
    (
      (map_over_sections lib o job o.sections (looked_up lib job t ss) []).0,
      ground (
        arith,
        resolve_object_vma lib o job t ss refl refl,
        object_demangles_null-no_names lib o job t ss refl,
        map_over_sections-nil lib o job o.sections (looked_up lib job t ss),
      ),
      map_over_sections-Keeps lib o job o.sections (looked_up lib job t ss) [],
      foffset-map_over_sections lib o job o.sections (looked_up lib job t ss) [] refl,
    )
