-- ===== src/Utrace/Generate/Keeps.antt =====
-- What every creation of an event keeps, the whole generation of probes keeps.
use trace_cruncher.Base.{
  Bool-cases, Option-cases, List, [], ◌∷◌, arith, inl, inr, ◌≡◌, ℕ, Bool, true, false,
  if◌then◌else◌, ◌==◌, subst, sym,
}
use trace_cruncher.Text.{Str}
use trace_cruncher.Alloc.{Run, done, fault, ◌>>=◌}
use trace_cruncher.Dbg.{TraceSymbol, DebugSymbol}
use trace_cruncher.Dbg.Context.{Context, DebugFile}
use trace_cruncher.Dbg.Walk.{walk_symbols, walk_files, dbg_trace_walk_resolved_symbols}
use trace_cruncher.Utrace.{Entry, live, freed, ProbeType, ftrace_uprobe, ftrace_uretprobe}
use trace_cruncher.Utrace.Probes.{
  Dynevents, Probes, utrace_event_create, create_events, func_at, symblos_walk,
}
use trace_cruncher.Utrace.Generate.{callback}

module _ (lib : Dynevents) (P : Probes lib → Type 0) where
  -- A run that does not fault ends with `P`.
  abbrev pub Holds : Run (Probes lib) → Type 0
  Holds (done s) = P s
  Holds fault = Unit

  -- Creating an event keeps it, whether it is created or not.
  abbrev pub Creates : Type 0
  Creates =
      (usystem fname name : Str) (foffset : ℕ) (type : ProbeType) (s : Probes lib)
      → P s
      → P (utrace_event_create lib usystem fname name foffset type s).1

  module _ (keeps : Creates) where
    if-Holds : (b : Bool) (s t : Probes lib) → P s → P t → P (if b then s else t)
    if-Holds true s t p q = p
    if-Holds false s t p q = q

    create_events-Holds :
        (usystem fname name : Str) (foffset : ℕ) (f : Entry) (s : Probes lib)
        → P s
        → Holds (create_events lib usystem fname name foffset f s)
    unfolding create_events
    create_events-Holds usystem fname name foffset freed s p = tt
    create_events-Holds usystem fname name foffset (live f) s p =
        let s₁ =
          (if f.uprobe
            then (utrace_event_create lib usystem fname name foffset ftrace_uprobe s).1
            else s) in
        let q = if-Holds f.uprobe _ s (keeps usystem fname name foffset ftrace_uprobe s p) p in
        if-Holds f.uretprobe _ s₁ (keeps usystem fname name foffset ftrace_uretprobe s₁ q) q

    same-Holds : (s : Probes lib) (r : Run (Probes lib)) → r ≡ done s → P s → Holds r
    same-Holds s r e p = subst Holds (sym e) p

    equal-Holds : (r t : Run (Probes lib)) → r ≡ t → Holds t → Holds r
    equal-Holds r t e h = subst Holds (sym e) h

    symblos_walk-Holds :
        (usystem : Str) (ufuncs : List Entry) (sym : TraceSymbol) (s : Probes lib)
        → P s
        → Holds (symblos_walk lib usystem ufuncs sym s)
    unfolding symblos_walk
    symblos_walk-Holds usystem ufuncs sym s p = elim (Option-cases sym.name) [
      | inl e ↦ same-Holds s _ (ground arith) p
      | inr (name, e) ↦ elim (Option-cases sym.fname) [
        | inl f ↦ same-Holds s _ (ground arith) p
        | inr (fname, f) ↦ elim (Bool-cases (sym.foffset == 0)) [
          | inl g ↦ same-Holds s _ (ground arith) p
          | inr g ↦ elim (Option-cases (func_at sym.cookie ufuncs)) [
            | inl k ↦ same-Holds s _ (ground arith) p
            | inr (func, k) ↦
                equal-Holds _ (create_events lib usystem fname name sym.foffset func s)
                  (ground arith) (create_events-Holds usystem fname name sym.foffset func s p)
          ]
        ]
      ]
    ]

    callback-Holds :
        (usystem : Str) (ufuncs : List Entry) (sym : TraceSymbol) (r : Run (Probes lib))
        → Holds r
        → Holds (r >>= symblos_walk lib usystem ufuncs sym)
    callback-Holds usystem ufuncs sym (done s) h = symblos_walk-Holds usystem ufuncs sym s h
    callback-Holds usystem ufuncs sym fault h = h

    walk_symbols-Holds :
        (usystem : Str) (ufuncs : List Entry) (ss : List DebugSymbol) (r : Run (Probes lib))
        → Holds r
        → Holds (walk_symbols (callback lib usystem ufuncs) ss r).1
    unfolding walk_symbols
    walk_symbols-Holds usystem ufuncs [] r h = h
    walk_symbols-Holds usystem ufuncs (x ∷ ss) r h =
        walk_symbols-Holds usystem ufuncs ss _ (callback-Holds usystem ufuncs x.symbol r h)

    walk_files-Holds :
        (usystem : Str) (ufuncs : List Entry) (fs : List DebugFile) (r : Run (Probes lib))
        → Holds r
        → Holds (walk_files (callback lib usystem ufuncs) fs r)
    unfolding walk_files
    walk_files-Holds usystem ufuncs [] r h = h
    walk_files-Holds usystem ufuncs (f ∷ fs) r h =
        walk_files-Holds usystem ufuncs fs _ (walk_symbols-Holds usystem ufuncs f.sym r h)

    -- The walk over a resolved context keeps `P`.
    pub walk_resolved-Holds :
        (usystem : Str) (ufuncs : List Entry) (dbg : Context) (s : Probes lib)
        → P s
        → Holds (dbg_trace_walk_resolved_symbols (callback lib usystem ufuncs) dbg (done s))
    unfolding dbg_trace_walk_resolved_symbols
    walk_resolved-Holds usystem ufuncs dbg s p =
        walk_files-Holds usystem ufuncs dbg.files _
          (walk_symbols-Holds usystem ufuncs dbg.sym (done s) p)
