-- ===== src/Dbg/Sections/Offset.antt =====
-- The file offset that a pass over the sections gives each request, against its description: it is
-- that of the last code section which covers the address.
use trace_cruncher.Base.{
  ℕ, ◌+◌, ◌-◌, ◌%◌, ◌≡◌, refl, ap, ap₂, fun_ext, ◌∙◌, inl, inr, true, false, ◌&&◌, List, [], ◌∷◌,
  Option, none, some, if◌then◌else◌, map, arith, Bool-cases, Option-cases,
}
use trace_cruncher.Alloc.{Mem}
use trace_cruncher.Dbg.{TraceSymbol, DebugSymbol, Job, u64_mod}
use trace_cruncher.Dbg.Bfd.{Section, Object, BfdLib}
use trace_cruncher.Dbg.Sections.{
  requested_vma, object_vma, covers, set_fname, set_foffset, set_name, resolve_covered,
  resolve_in_section, process_symbols, process_bfd_section, map_over_sections,
}
use trace_cruncher.Dbg.Sections.Laws.{
  resolve_in_section-Keeps, process_bfd_section-code, process_bfd_section-data,
}

-- The last code section that covers an address.
abbrev pub last_cover : List Section → ℕ → Option Section
last_cover [] vma = none
last_cover (section ∷ rest) vma = elim (last_cover rest vma) [
  | some later ↦ some later
  | none ↦ if section.code && covers section vma then some section else none
]

-- The offset of an address in the file, or the one that was there.
abbrev pub offset_at : List Section → ℕ → ℕ → ℕ
offset_at sections vma old = elim (last_cover sections vma) [
  | some section ↦ (section.filepos + (vma - section.vma)) % u64_mod
  | none ↦ old
]

abbrev pub offset_of : Object → Job → List Section → TraceSymbol → ℕ
offset_of o job sections s = elim (requested_vma s) [
  | some vma ↦ offset_at sections (object_vma o job vma) s.foffset
  | none ↦ s.foffset
]

foffset-set_fname :
    (o : Object) (s : TraceSymbol) (m : Mem) → (set_fname o s m).0.foffset ≡ s.foffset
unfolding set_fname
foffset-set_fname o s m = ground arith

foffset-set_name :
    (lib : BfdLib) (o : Object) (section : Section) (job : Job) (vma : ℕ) (s : TraceSymbol)
    (m : Mem)
    → (set_name lib o section job vma s m).0.foffset ≡ s.foffset
unfolding set_name
foffset-set_name lib o section job vma s m = ground arith

foffset-resolve_covered :
    (lib : BfdLib) (o : Object) (section : Section) (job : Job) (vma : ℕ) (s : TraceSymbol)
    (m : Mem)
    → job.flags.resolve_foffset ≡ true
    → (resolve_covered lib o section job vma s m).0.foffset
      ≡ (section.filepos + (vma - section.vma)) % u64_mod
unfolding resolve_covered set_foffset
foffset-resolve_covered lib o section job vma s m h =
    foffset-set_name lib o section job vma _ _ ∙ rw h

requested_vma-resolve_in_section :
    (lib : BfdLib) (o : Object) (section : Section) (job : Job) (s : TraceSymbol) (m : Mem)
    → requested_vma (resolve_in_section lib o section job s m).0 ≡ requested_vma s
unfolding requested_vma
requested_vma-resolve_in_section lib o section job s m =
    let k = resolve_in_section-Keeps lib o section job s m in rw (k.vma_near, k.vma_start)

-- The offset after one section, for a request with the address `a`.
foffset-resolve_in_section :
    (lib : BfdLib) (o : Object) (section : Section) (job : Job) (s : TraceSymbol) (m : Mem) (a : ℕ)
    → job.flags.resolve_foffset ≡ true
    → requested_vma s ≡ some a
    → (resolve_in_section lib o section job s m).0.foffset ≡ (
        let vma = object_vma o job a in
        if covers section vma then (section.filepos + (vma - section.vma)) % u64_mod else s.foffset)
unfolding resolve_in_section
foffset-resolve_in_section lib o section job s m a h e =
    rw (e, resolve_in_section)
      (ground (arith, foffset-resolve_covered lib o section job (object_vma o job a) s m h))

idle-resolve_in_section :
    (lib : BfdLib) (o : Object) (section : Section) (job : Job) (s : TraceSymbol) (m : Mem)
    → requested_vma s ≡ none
    → (resolve_in_section lib o section job s m).0 ≡ s
unfolding resolve_in_section
idle-resolve_in_section lib o section job s m e = rw (e, resolve_in_section)

offset_of-nil : (o : Object) (job : Job) (s : TraceSymbol) → s.foffset ≡ offset_of o job [] s
offset_of-nil o job s = ground arith

offset_of-data :
    (o : Object) (section : Section) (rest : List Section) (job : Job) (s : TraceSymbol)
    → section.code ≡ false
    → offset_of o job rest s ≡ offset_of o job (section ∷ rest) s
offset_of-data o section rest job s c = ground arith

-- A section in front of the others counts where none of those covers the address.
offset_of-cons :
    (lib : BfdLib) (o : Object) (section : Section) (rest : List Section) (job : Job)
    (s : TraceSymbol) (m : Mem)
    → job.flags.resolve_foffset ≡ true
    → section.code ≡ true
    → offset_of o job rest (resolve_in_section lib o section job s m).0
      ≡ offset_of o job (section ∷ rest) s
offset_of-cons lib o section rest job s m h c = elim (Option-cases (requested_vma s)) [
  | inl e ↦ rw (idle-resolve_in_section lib o section job s m e) (ground arith)
  | inr (a, e) ↦
      rw (requested_vma-resolve_in_section lib o section job s m, e, offset_of)
        (ground (arith, foffset-resolve_in_section lib o section job s m a h e))
]

offset_of-process_symbols :
    (lib : BfdLib) (o : Object) (section : Section) (rest : List Section) (job : Job)
    (ss : List DebugSymbol) (m : Mem)
    → job.flags.resolve_foffset ≡ true
    → section.code ≡ true
    → map (λ s. offset_of o job rest s.symbol) (process_symbols lib o section job ss m).0
      ≡ map (λ s. offset_of o job (section ∷ rest) s.symbol) ss
unfolding process_symbols
offset_of-process_symbols lib o section rest job [] m h c = refl
offset_of-process_symbols lib o section rest job (s ∷ ss) m h c =
    ap₂ ◌∷◌ (offset_of-cons lib o section rest job s.symbol m h c)
      (offset_of-process_symbols lib o section rest job ss _ h c)

offset_of-process_bfd_section :
    (lib : BfdLib) (o : Object) (section : Section) (rest : List Section) (job : Job)
    (ss : List DebugSymbol) (m : Mem)
    → job.flags.resolve_foffset ≡ true
    → map (λ s. offset_of o job rest s.symbol) (process_bfd_section lib o job section ss m).0
      ≡ map (λ s. offset_of o job (section ∷ rest) s.symbol) ss
offset_of-process_bfd_section lib o section rest job ss m h = elim (Bool-cases section.code) [
  | inl c ↦
      rw (process_bfd_section-code lib o job section ss m c)
        (offset_of-process_symbols lib o section rest job ss m h c)
  | inr c ↦ rw (process_bfd_section-data lib o job section ss m c) (
      ap (λ (f : DebugSymbol → ℕ). map f ss)
        (fun_ext λ s. offset_of-data o section rest job s.symbol c))
]

-- With `RESOLVE_FOFFSET`, a pass over the sections gives each request that carries an address the
-- file offset of that address in the last code section that covers it; a request without an
-- address, or with one that no code section covers, keeps its offset. This holds whatever the
-- library answers and whichever allocations fail.
pub foffset-map_over_sections :
    (lib : BfdLib) (o : Object) (job : Job) (sections : List Section) (ss : List DebugSymbol)
    (m : Mem)
    → job.flags.resolve_foffset ≡ true
    → map (λ s. s.symbol.foffset) (map_over_sections lib o job sections ss m).0
      ≡ map (λ s. offset_of o job sections s.symbol) ss
unfolding map_over_sections
foffset-map_over_sections lib o job [] ss m h =
    ap (λ (f : DebugSymbol → ℕ). map f ss) (fun_ext λ s. offset_of-nil o job s.symbol)
foffset-map_over_sections lib o job (section ∷ rest) ss m h =
    foffset-map_over_sections lib o job rest _ _ h
    ∙ offset_of-process_bfd_section lib o section rest job ss m h
