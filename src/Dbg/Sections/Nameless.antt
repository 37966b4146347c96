-- ===== src/Dbg/Sections/Nameless.antt =====
-- When a pass over the sections calls `bfd_demangle` on no NULL: in an object whose hits all name a
-- function, and for a job that resolves no names.
use trace_cruncher.Base.{ℕ, ◌≡◌, refl, false, List, [], ◌∷◌, arith, Option-cases, inl, inr, ◌-◌}
use trace_cruncher.Alloc.{Mem}
use trace_cruncher.Dbg.{TraceSymbol, DebugSymbol, Job}
use trace_cruncher.Dbg.Bfd.{Section, Object, BfdLib}
use trace_cruncher.Dbg.Sections.{
  demangles_null, some_demangles_null, pass_demangles_null, process_bfd_section, object_vma,
  requested_vma,
}

-- Every hit in the object names a function.
abbrev pub NamesItsHits : Object → Type 0
NamesItsHits o = (section : Section) (offset : ℕ) → o.nameless section offset ≡ false

abbrev NeverNull : Object → Job → Type 0
NeverNull o job = (section : Section) (s : TraceSymbol) → demangles_null o section job s ≡ false

some_demangles_null-NeverNull :
    (o : Object) (section : Section) (job : Job) (ss : List DebugSymbol)
    → NeverNull o job
    → some_demangles_null o section job ss ≡ false
unfolding some_demangles_null
some_demangles_null-NeverNull o section job [] h = refl
some_demangles_null-NeverNull o section job (s ∷ ss) h =
    ground (arith, h section s.symbol, some_demangles_null-NeverNull o section job ss h)

pass_demangles_null-NeverNull :
    (lib : BfdLib) (o : Object) (job : Job) (sections : List Section) (ss : List DebugSymbol)
    (m : Mem)
    → NeverNull o job
    → pass_demangles_null lib o job sections ss m ≡ false
unfolding pass_demangles_null
pass_demangles_null-NeverNull lib o job [] ss m h = refl
pass_demangles_null-NeverNull lib o job (section ∷ rest) ss m h =
    let (ss', m') = process_bfd_section lib o job section ss m in
    ground (
      arith,
      some_demangles_null-NeverNull o section job ss h,
      pass_demangles_null-NeverNull lib o job rest ss' m' h,
    )

demangles_null-NamesItsHits : (o : Object) (job : Job) → NamesItsHits o → NeverNull o job
unfolding demangles_null
demangles_null-NamesItsHits o job h section s = elim (Option-cases (requested_vma s)) [
  | inl e ↦ rw (e, demangles_null) refl
  | inr (a, e) ↦
      rw (e, demangles_null) (ground (arith, h section (object_vma o job a - section.vma)))
]

demangles_null-no_names :
    (o : Object) (job : Job) → job.flags.resolve_name ≡ false → NeverNull o job
unfolding demangles_null
demangles_null-no_names o job h section s = elim (Option-cases (requested_vma s)) [
  | inl e ↦ rw (e, demangles_null) refl
  | inr (a, e) ↦ rw (e, demangles_null) (ground (arith, h))
]

pub pass_demangles_null-NamesItsHits :
    (lib : BfdLib) (o : Object) (job : Job) (sections : List Section) (ss : List DebugSymbol)
    (m : Mem)
    → NamesItsHits o
    → pass_demangles_null lib o job sections ss m ≡ false
pass_demangles_null-NamesItsHits lib o job sections ss m h =
    pass_demangles_null-NeverNull lib o job sections ss m (demangles_null-NamesItsHits o job h)

pub pass_demangles_null-no_names :
    (lib : BfdLib) (o : Object) (job : Job) (sections : List Section) (ss : List DebugSymbol)
    (m : Mem)
    → job.flags.resolve_name ≡ false
    → pass_demangles_null lib o job sections ss m ≡ false
pass_demangles_null-no_names lib o job sections ss m h =
    pass_demangles_null-NeverNull lib o job sections ss m (demangles_null-no_names o job h)
