-- ===== src/Dbg/Sections/Laws.antt =====
-- What `process_bfd_section` does to a request, and a whole pass over the sections of an object.
use trace_cruncher.Base.{
  ℕ, ◌≡◌, refl, ◌∙◌, ◌⊎◌, inl, inr, List, [], ◌∷◌, Option, none, arith, Pointwise, Pointwise-refl,
  Pointwise-trans, Bool-cases, Option-cases, true, false,
}
use trace_cruncher.Text.{Str}
use trace_cruncher.Alloc.{Mem}
use trace_cruncher.Dbg.{TraceSymbol, DebugSymbol, Job}
use trace_cruncher.Dbg.Bfd.{Section, Object, BfdLib}
use trace_cruncher.Dbg.Sections.{
  requested_vma, object_vma, set_fname, set_foffset, set_name, resolve_covered, resolve_in_section,
  process_symbols, process_bfd_section, map_over_sections,
}

-- A text that was there is never overwritten.
abbrev pub Filled : Option Str → Option Str → Type 0
Filled a b = (a ≡ none) ⊎ (b ≡ a)

-- What a pass over sections leaves of a request: the request itself, and what was found before.
pub record Keeps (s t : TraceSymbol) : Type 0 where
  pub cookie : t.cookie ≡ s.cookie
  pub vma_start : t.vma_start ≡ s.vma_start
  pub vma_near : t.vma_near ≡ s.vma_near
  pub name : Filled s.name t.name
  pub fname : Filled s.fname t.fname

abbrev pub KeepsSymbol : DebugSymbol → DebugSymbol → Type 0
KeepsSymbol s t = Keeps s.symbol t.symbol × (t.match_type ≡ s.match_type)

Keeps-refl : (s : TraceSymbol) → Keeps s s
Keeps-refl s = record {
  cookie = refl;
  vma_start = refl;
  vma_near = refl;
  name = inr refl;
  fname = inr refl;
}

Filled-trans : (a b c : Option Str) → Filled a b → Filled b c → Filled a c
Filled-trans a b c p q = ground arith

Keeps-trans : (s t u : TraceSymbol) → Keeps s t → Keeps t u → Keeps s u
Keeps-trans s t u p q = record {
  cookie = q.cookie ∙ p.cookie;
  vma_start = q.vma_start ∙ p.vma_start;
  vma_near = q.vma_near ∙ p.vma_near;
  name = Filled-trans s.name t.name u.name p.name q.name;
  fname = Filled-trans s.fname t.fname u.fname p.fname q.fname;
}

set_fname-Keeps : (o : Object) (s : TraceSymbol) (m : Mem) → Keeps s (set_fname o s m).0
unfolding set_fname
set_fname-Keeps o s m = ground arith

set_name-Keeps :
    (lib : BfdLib) (o : Object) (section : Section) (job : Job) (vma : ℕ) (s : TraceSymbol)
    (m : Mem)
    → Keeps s (set_name lib o section job vma s m).0
unfolding set_name
set_name-Keeps lib o section job vma s m = ground arith

set_foffset-Keeps :
    (section : Section) (job : Job) (vma : ℕ) (s : TraceSymbol)
    → Keeps s (set_foffset section job vma s)
unfolding set_foffset
set_foffset-Keeps section job vma s = ground arith

resolve_covered-Keeps :
    (lib : BfdLib) (o : Object) (section : Section) (job : Job) (vma : ℕ) (s : TraceSymbol)
    (m : Mem)
    → Keeps s (resolve_covered lib o section job vma s m).0
unfolding resolve_covered
resolve_covered-Keeps lib o section job vma s m =
    Keeps-trans s _ _
      (Keeps-trans s _ _ (set_fname-Keeps o s m) (set_foffset-Keeps section job vma _))
      (set_name-Keeps lib o section job vma _ _)

pub resolve_in_section-Keeps :
    (lib : BfdLib) (o : Object) (section : Section) (job : Job) (s : TraceSymbol) (m : Mem)
    → Keeps s (resolve_in_section lib o section job s m).0
unfolding resolve_in_section
resolve_in_section-Keeps lib o section job s m = elim (Option-cases (requested_vma s)) [
  | inl e ↦ rw (e, resolve_in_section) (Keeps-refl s)
  | inr (a, e) ↦
      rw (e, resolve_in_section)
        (ground
          (arith, Keeps-refl s, resolve_covered-Keeps lib o section job (object_vma o job a) s m))
]

process_symbols-Keeps :
    (lib : BfdLib) (o : Object) (section : Section) (job : Job) (ss : List DebugSymbol) (m : Mem)
    → Pointwise KeepsSymbol ss (process_symbols lib o section job ss m).0
unfolding process_symbols
process_symbols-Keeps lib o section job [] m = tt
process_symbols-Keeps lib o section job (s ∷ ss) m = (
  (resolve_in_section-Keeps lib o section job s.symbol m, refl),
  process_symbols-Keeps lib o section job ss _,
)

KeepsSymbol-refl : (s : DebugSymbol) → KeepsSymbol s s
KeepsSymbol-refl s = (Keeps-refl s.symbol, refl)

pub process_bfd_section-code :
    (lib : BfdLib) (o : Object) (job : Job) (section : Section) (ss : List DebugSymbol) (m : Mem)
    → section.code ≡ true
    → process_bfd_section lib o job section ss m ≡ process_symbols lib o section job ss m
unfolding process_bfd_section
process_bfd_section-code lib o job section ss m e = simp e

pub process_bfd_section-data :
    (lib : BfdLib) (o : Object) (job : Job) (section : Section) (ss : List DebugSymbol) (m : Mem)
    → section.code ≡ false
    → process_bfd_section lib o job section ss m ≡ (ss, m)
unfolding process_bfd_section
process_bfd_section-data lib o job section ss m e = simp e

process_bfd_section-Keeps :
    (lib : BfdLib) (o : Object) (job : Job) (section : Section) (ss : List DebugSymbol) (m : Mem)
    → Pointwise KeepsSymbol ss (process_bfd_section lib o job section ss m).0
process_bfd_section-Keeps lib o job section ss m = elim (Bool-cases section.code) [
  | inl e ↦
      rw (process_bfd_section-code lib o job section ss m e)
        (process_symbols-Keeps lib o section job ss m)
  | inr e ↦
      rw (process_bfd_section-data lib o job section ss m e)
        (Pointwise-refl KeepsSymbol ss KeepsSymbol-refl)
]

-- A pass over the sections of an object, whatever the library answers and whichever allocations
-- fail, leaves the requests in place and in order, with their cookie, both addresses and the kind
-- of match as they were; a name or a file name that a request had is kept.
pub map_over_sections-Keeps :
    (lib : BfdLib) (o : Object) (job : Job) (sections : List Section) (ss : List DebugSymbol)
    (m : Mem)
    → Pointwise KeepsSymbol ss (map_over_sections lib o job sections ss m).0
unfolding map_over_sections
map_over_sections-Keeps lib o job [] ss m = Pointwise-refl KeepsSymbol ss KeepsSymbol-refl
map_over_sections-Keeps lib o job (section ∷ rest) ss m =
    Pointwise-trans KeepsSymbol ss _ _
      (λ x y z p q. (Keeps-trans x.symbol y.symbol z.symbol p.0 q.0, q.1 ∙ p.1))
      (process_bfd_section-Keeps lib o job section ss m)
      (map_over_sections-Keeps lib o job rest _ _)
