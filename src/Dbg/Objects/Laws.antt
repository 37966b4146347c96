-- ===== src/Dbg/Objects/Laws.antt =====
-- Reading a bfd: what a pass over an object leaves, and that every archive that ends in the normal
-- way is read past its end.
use trace_cruncher.Base.{
  ◌≡◌, refl, ◌∙◌, inr, List, [], arith, Begins, Begins-trans, Begins-map-append,
  Begins-of_Pointwise,
}
use trace_cruncher.Base.Int.{ℤ}
use trace_cruncher.Alloc.{Run, done}
use trace_cruncher.Dbg.{DebugSymbol, Job}
use trace_cruncher.Dbg.Bfd.{Asymbol, Object, BfdLib}
use trace_cruncher.Dbg.Sections.{map_over_sections}
use trace_cruncher.Dbg.Sections.Laws.{KeepsSymbol, Filled, map_over_sections-Keeps}
use trace_cruncher.Dbg.Lookup.Reference.{settled, looked_up}
use trace_cruncher.Dbg.Objects.{Pass}

-- What resolving leaves of a request: all but its addresses, and names that were not there.
pub record SameRequest (s t : DebugSymbol) : Type 0 where
  pub cookie : t.symbol.cookie ≡ s.symbol.cookie
  pub vma_near : t.symbol.vma_near ≡ s.symbol.vma_near
  pub match_type : t.match_type ≡ s.match_type
  pub name : Filled s.symbol.name t.symbol.name
  pub fname : Filled s.symbol.fname t.symbol.fname

pub SameRequest-refl : (s : DebugSymbol) → SameRequest s s
SameRequest-refl s = record {
  cookie = refl;
  vma_near = refl;
  match_type = refl;
  name = inr refl;
  fname = inr refl;
}

SameRequest-of_KeepsSymbol : (s t : DebugSymbol) → KeepsSymbol s t → SameRequest s t
SameRequest-of_KeepsSymbol s t k = record {
  cookie = k.0.cookie;
  vma_near = k.0.vma_near;
  match_type = k.1;
  name = k.0.name;
  fname = k.0.fname;
}

pub SameRequest-trans : (s t u : DebugSymbol) → SameRequest s t → SameRequest t u → SameRequest s u
SameRequest-trans s t u p q = record {
  cookie = q.cookie ∙ p.cookie;
  vma_near = q.vma_near ∙ p.vma_near;
  match_type = q.match_type ∙ p.match_type;
  name = ground arith;
  fname = ground arith;
}

settled-SameRequest :
    (lib : BfdLib) (job : Job) (table : List Asymbol) (s : DebugSymbol)
    → SameRequest s (settled lib job table s)
settled-SameRequest lib job table s = ground arith

-- A pass over an object, with every allocation successful: it ends, and the list begins with the
-- same requests.
abbrev pub Passes : List DebugSymbol → Run Pass → Type 0
Passes ss r =
    (ret : ℤ) × (ss' : List DebugSymbol) × (r ≡ done (ret, ss', [])) × Begins SameRequest ss ss'

pub map_over_sections-Begins :
    (lib : BfdLib) (o : Object) (job : Job) (ss ss' : List DebugSymbol)
    → Begins SameRequest ss ss'
    → Begins SameRequest ss (map_over_sections lib o job o.sections ss' []).0
map_over_sections-Begins lib o job ss ss' b =
    Begins-trans SameRequest ss ss' _ SameRequest-trans b (
      Begins-of_Pointwise KeepsSymbol SameRequest ss' _ SameRequest-of_KeepsSymbol
        (map_over_sections-Keeps lib o job o.sections ss' []))

pub looked_up-Begins :
    (lib : BfdLib) (job : Job) (table : List Asymbol) (ss : List DebugSymbol)
    → Begins SameRequest ss (looked_up lib job table ss)
looked_up-Begins lib job table ss =
    Begins-map-append SameRequest (settled lib job table) ss _ (settled-SameRequest lib job table)
