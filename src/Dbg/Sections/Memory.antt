-- ===== src/Dbg/Sections/Memory.antt =====
-- With every allocation successful, a pass over the sections leaves it so.
use trace_cruncher.Base.{ℕ, ◌≡◌, refl, List, [], ◌∷◌, arith, inl, inr, Option-cases}
use trace_cruncher.Alloc.{strdup, alloc}
use trace_cruncher.Dbg.{TraceSymbol, DebugSymbol, Job}
use trace_cruncher.Dbg.Bfd.{Section, Object, BfdLib}
use trace_cruncher.Dbg.Sections.{
  requested_vma, object_vma, function_name, set_fname, set_foffset, set_name, resolve_covered,
  resolve_in_section, process_symbols, process_bfd_section, map_over_sections,
}

module _ (lib : BfdLib) (o : Object) (job : Job) where
  set_fname-nil : (s : TraceSymbol) → (set_fname o s []).1 ≡ []
  unfolding set_fname strdup alloc
  set_fname-nil s = ground arith

  set_name-nil :
      (section : Section) (vma : ℕ) (s : TraceSymbol) → (set_name lib o section job vma s []).1 ≡ []
  unfolding set_name function_name strdup alloc
  set_name-nil section vma s = ground arith

  resolve_in_section-nil :
      (section : Section) (s : TraceSymbol) → (resolve_in_section lib o section job s []).1 ≡ []
  unfolding resolve_in_section resolve_covered
  resolve_in_section-nil section s = elim (Option-cases (requested_vma s)) [
    | inl e ↦ rw (e, resolve_in_section) refl
    | inr (a, e) ↦
        rw (e, resolve_in_section)
          (ground (
            arith,
            set_fname-nil s,
            set_name-nil section (object_vma o job a)
                (set_foffset section job (object_vma o job a) (set_fname o s []).0),
          ))
  ]

  process_symbols-nil :
      (section : Section) (ss : List DebugSymbol) → (process_symbols lib o section job ss []).1 ≡ []
  unfolding process_symbols
  process_symbols-nil section [] = refl
  process_symbols-nil section (s ∷ ss) =
      rw (resolve_in_section-nil section s.symbol) (process_symbols-nil section ss)

  process_bfd_section-nil :
      (section : Section) (ss : List DebugSymbol)
      → (process_bfd_section lib o job section ss []).1 ≡ []
  unfolding process_bfd_section
  process_bfd_section-nil section ss = ground (arith, process_symbols-nil section ss)

  pub map_over_sections-nil :
      (sections : List Section) (ss : List DebugSymbol)
      → (map_over_sections lib o job sections ss []).1 ≡ []
  unfolding map_over_sections
  map_over_sections-nil [] ss = refl
  map_over_sections-nil (section ∷ rest) ss =
      rw (process_bfd_section-nil section ss, map_over_sections)
        (map_over_sections-nil rest (process_bfd_section lib o job section ss []).0)
