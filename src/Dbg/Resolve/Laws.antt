-- ===== src/Dbg/Resolve/Laws.antt =====
-- Resolving ends for every context whose files can be read, and keeps the requests.
use trace_cruncher.Base.{
  ◌≡◌, refl, inl, inr, List, [], ◌∷◌, Option, none, some, arith, All, Pointwise, Begins,
  Begins-refl, Begins-trans, Option-cases, subst,
}
use trace_cruncher.Base.Int.{pos}
use trace_cruncher.Text.{Str}
use trace_cruncher.Alloc.{alloc, strdup, done}
use trace_cruncher.Dbg.{DebugSymbol}
use trace_cruncher.Dbg.Bfd.{BfdLib}
use trace_cruncher.Dbg.Objects.{BfdHandle}
use trace_cruncher.Dbg.Objects.Laws.{SameRequest, SameRequest-refl, SameRequest-trans}
use trace_cruncher.Dbg.Objects.Readable.{
  IsReadable, resolve_symbol_vma-Passes, resolve_symbol_name-Passes,
}
use trace_cruncher.Dbg.Context.{DebugFile, Context}
use trace_cruncher.Dbg.Resolve.{
  name_unknown, set_unknown, resolve_file, resolve_files, dbg_trace_resolve_symbols,
}

name_unknown-SameRequest :
    (file : Str) (s : DebugSymbol)
    → SameRequest s (name_unknown file s []).0 × ((name_unknown file s []).1 ≡ [])
unfolding name_unknown strdup alloc
name_unknown-SameRequest file s = ground arith

set_unknown-Begins :
    (ss : List DebugSymbol) (file : Str)
    → Begins SameRequest ss (set_unknown ss file []).0 × ((set_unknown ss file []).1 ≡ [])
unfolding set_unknown
set_unknown-Begins [] file = (tt, refl)
set_unknown-Begins (s ∷ ss) file =
    let (keeps, m) = name_unknown-SameRequest file s in
    let (rest, m') = set_unknown-Begins ss file in rw (m, set_unknown) ((keeps, rest), m')

-- A file that could not be opened, or whose bfd can be read.
abbrev pub Readable? : Option BfdHandle → Type 0
Readable? none = Unit
Readable? (some handle) = IsReadable handle.bfd

-- What resolving leaves of a file: all but its requests, which it may extend.
pub record SameFile (f g : DebugFile) : Type 0 where
  pub file_name : g.file_name ≡ f.file_name
  pub vmem_start : g.vmem_start ≡ f.vmem_start
  pub vmem_end : g.vmem_end ≡ f.vmem_end
  pub dbg : g.dbg ≡ f.dbg
  pub sym : Begins SameRequest f.sym g.sym

same_file :
    (f : DebugFile) (ss : List DebugSymbol)
    → Begins SameRequest f.sym ss
    → SameFile f (record f { sym = ss })
same_file f ss b = record {
  file_name = refl;
  vmem_start = refl;
  vmem_end = refl;
  dbg = refl;
  sym = b;
}

resolve_opened :
    (lib : BfdLib) (f : DebugFile) (handle : BfdHandle) (ss : List DebugSymbol)
    → f.dbg ≡ some handle
    → IsReadable handle.bfd
    → (f' : DebugFile) × (ss' : List DebugSymbol) × (resolve_file lib f ss [] ≡ done (f', ss', []))
      × SameFile f f'
      × Begins SameRequest ss ss'
unfolding resolve_file
resolve_opened lib f handle ss e h =
    let (r₁, own₁, e₁, b₁) = resolve_symbol_name-Passes lib handle f.sym h in
    let (r₂, own₂, e₂, b₂) = resolve_symbol_vma-Passes lib handle own₁ h in
    let (r₃, ss', e₃, b₃) = resolve_symbol_vma-Passes lib handle ss h in
    (
      record f { sym = own₂ },
      ss',
      ground arith,
      same_file f own₂ (Begins-trans SameRequest f.sym own₁ own₂ SameRequest-trans b₁ b₂),
      b₃,
    )

resolve_file_total :
    (lib : BfdLib) (f : DebugFile) (ss : List DebugSymbol)
    → Readable? f.dbg
    → (f' : DebugFile) × (ss' : List DebugSymbol) × (resolve_file lib f ss [] ≡ done (f', ss', []))
      × SameFile f f'
      × Begins SameRequest ss ss'
unfolding resolve_file
resolve_file_total lib f ss h = elim (Option-cases f.dbg) [
  | inl e ↦
      let (b, m) = set_unknown-Begins f.sym f.file_name in
      (
        record f { sym = (set_unknown f.sym f.file_name []).0 },
        ss,
        ground arith,
        same_file f _ b,
        Begins-refl SameRequest ss SameRequest-refl,
      )
  | inr (handle, e) ↦ resolve_opened lib f handle ss e (subst Readable? e h)
]

resolve_files_total :
    (lib : BfdLib) (fs : List DebugFile) (ss : List DebugSymbol)
    → All (λ f. Readable? f.dbg) fs
    → (fs' : List DebugFile) × (ss' : List DebugSymbol) × (resolve_files lib fs ss []
        ≡ done (fs', ss', []))
      × Pointwise SameFile fs fs'
      × Begins SameRequest ss ss'
unfolding resolve_files
resolve_files_total lib [] ss h = ([], ss, refl, tt, Begins-refl SameRequest ss SameRequest-refl)
resolve_files_total lib (f ∷ fs) ss h =
    let (f', ss₁, e, s, b) = resolve_file_total lib f ss h.0 in
    let (fs', ss₂, e', s', b') = resolve_files_total lib fs ss₁ h.1 in
    (
      f' ∷ fs',
      ss₂,
      ground arith,
      (s, s'),
      Begins-trans SameRequest ss ss₁ ss₂ SameRequest-trans b b',
    )

-- With every allocation successful, resolving the requests of a context all of whose opened files
-- are readable (no archive, no dynamic symbol table behind a static one that fails, and no line found
-- without its function) ends and returns 0. The files stay in place, with their names, regions and handles; the requests of each file and
-- of the context stay in place, in order, each with its cookie, its requested address, its kind of
-- match and the names that it had, in front of what wildcards have added.
pub resolve_symbols_total :
    (lib : BfdLib) (c : Context)
    → All (λ f. Readable? f.dbg) c.files
    → (c' : Context) × (dbg_trace_resolve_symbols lib c [] ≡ done (pos 0, c', []))
      × Pointwise SameFile c.files c'.files
      × Begins SameRequest c.sym c'.sym
unfolding dbg_trace_resolve_symbols
resolve_symbols_total lib c h =
    let (fs, ss, e, s, b) = resolve_files_total lib c.files c.sym h in
    (record c { files = fs; sym = ss }, ground arith, s, b)
