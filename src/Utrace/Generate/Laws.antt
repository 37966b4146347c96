-- ===== src/Utrace/Generate/Laws.antt =====
-- The probes that are generated: none is lost, and at most two are added for a symbol.
use trace_cruncher.Base.{
  leb, ℕ, zero, suc, ◌+◌, ◌*◌, ◌≤◌, ◌≡◌, refl, sym, ◌∙◌, ap, ◌⊎◌, inl, inr, List, [], ◌∷◌, ◌++◌,
  append_assoc, append-nil, none, some, arith, if◌then◌else◌, Bool-cases, Option-cases, length,
  length-append, get_elem?, All, ◌==◌, subst,
}
use trace_cruncher.Base.Int.{ℤ, pos, negsuc}
use trace_cruncher.Text.{Str}
use trace_cruncher.Alloc.{Mem, alloc, Run, done, ◌>>=◌}
use trace_cruncher.Dbg.{TraceSymbol, DebugSymbol}
use trace_cruncher.Dbg.Bfd.{BfdLib}
use trace_cruncher.Dbg.Context.{Context, DebugFile}
use trace_cruncher.Dbg.Resolve.{dbg_trace_resolve_symbols}
use trace_cruncher.Dbg.Resolve.Laws.{Readable?, resolve_symbols_total}
use trace_cruncher.Dbg.Walk.{walk_symbols, walk_files, dbg_trace_walk_resolved_symbols}
use trace_cruncher.Utrace.{
  ProbesList, utrace_list_add, Entry, live, freed, UtraceFunc, ProbeType, ftrace_uprobe,
  ftrace_uretprobe, uprobe_event_name, is_ret,
}
use trace_cruncher.Utrace.Probes.{
  Dynevents, Probes, utrace_event_create, create_events, func_at, symblos_walk,
}
use trace_cruncher.Utrace.Generate.{callback, py_utrace_generate_uprobes}

abbrev pub IsLive : Entry → Type 0
IsLive (live f) = Unit
IsLive freed = ⊥

func_at-IsLive :
    (i : ℕ) (fs : List Entry) (e : Entry) → All IsLive fs → get_elem? fs i ≡ some e → IsLive e
func_at-IsLive i [] e h g = ground arith
func_at-IsLive zero (f ∷ fs) e h g = subst IsLive (ground (arith, g)) h.0
func_at-IsLive (suc i) (f ∷ fs) e h g = func_at-IsLive i fs e h.1 g

live-func_at :
    (cookie : ℤ) (fs : List Entry)
    → All IsLive fs
    → (func_at cookie fs ≡ none) ⊎ ((f : UtraceFunc) × (func_at cookie fs ≡ some (live f)))
unfolding func_at
live-func_at (negsuc n) fs h = inl refl
live-func_at (pos i) fs h = elim (Option-cases (get_elem? fs i)) [
  | inl e ↦ inl e
  | inr (live f, e) ↦ inr (f, e)
  | inr (freed, e) ↦ absurd (func_at-IsLive i fs freed h e)
]

-- The number of symbols that a walk visits.
abbrev pub file_symbols : List DebugFile → ℕ
file_symbols [] = 0
file_symbols (f ∷ fs) = length f.sym + file_symbols fs

module _ (lib : Dynevents) where
  open lib use {Dynevent}

  -- At most `n` events are added, behind those that are there.
  abbrev pub Extends : ℕ → Probes lib → Probes lib → Type 0
  Extends n s s' =
      (new : List Dynevent) × (s'.uevents.entries ≡ s.uevents.entries ++ new) × (length new ≤ n)

  Extends-refl : (s : Probes lib) → Extends 0 s s
  Extends-refl s = ([], sym (append-nil s.uevents.entries), omega arith)

  Extends-trans :
      (n k : ℕ) (s t u : Probes lib) → Extends n s t → Extends k t u → Extends (n + k) s u
  Extends-trans n k s t u (new, e, l) (new', e', l') = (
    new ++ new',
    e' ∙ (ap (λ x. x ++ new') e ∙ append_assoc s.uevents.entries new new'),
    omega (arith, l, l', length-append new new'),
  )

  Extends-weaken : (n k : ℕ) (s t : Probes lib) → n ≤ k → Extends n s t → Extends k s t
  Extends-weaken n k s t h (new, e, l) = (new, e, omega (arith, h, l))

  -- The list without the new entry, or with it at its end.
  utrace_list_add-entries :
      (list : ProbesList Dynevent) (x : Dynevent) (m : Mem)
      → ((utrace_list_add list x m).1.entries ≡ list.entries)
        ⊎ ((utrace_list_add list x m).1.entries ≡ list.entries ++ x ∷ [])
  unfolding utrace_list_add
  utrace_list_add-entries list x m = elim (Bool-cases (leb list.size (length list.entries))) [
    | inr e ↦ inr (ground arith)
    | inl e ↦ elim (Bool-cases (alloc m).0) [
      | inl f ↦ inr (ground arith)
      | inr f ↦ inl (ground arith)
    ]
  ]

  -- The entries after an event was created, or was not.
  created_entries :
      (usystem fname name : Str) (foffset : ℕ) (type : ProbeType) (s : Probes lib)
      → let s' = (utrace_event_create lib usystem fname name foffset type s).1 in
        (s'.uevents.entries ≡ s.uevents.entries)
        ⊎ ((x : Dynevent) × (s'.uevents.entries ≡ s.uevents.entries ++ x ∷ []))
  unfolding utrace_event_create
  created_entries usystem fname name foffset type s =
      let r = uprobe_event_name fname name type s.mem in
      elim (Option-cases r.0) [
        | inl e ↦ inl (ground arith)
        | inr (event, e) ↦
            elim (Option-cases (
              if is_ret type
              then lib.uretprobe_alloc usystem event fname foffset
              else lib.uprobe_alloc usystem event fname foffset)) [
                | inl f ↦ inl (ground arith)
                | inr (x, f) ↦ elim (Bool-cases (lib.create x s.world).0) [
                  | inr g ↦ inl (ground arith)
                  | inl g ↦ elim (utrace_list_add-entries s.uevents x r.1) [
                    | inl h ↦ inl (ground arith)
                    | inr h ↦ inr (x, ground arith)
                  ]
                ]
              ]
      ]

  utrace_event_create-Extends :
      (usystem fname name : Str) (foffset : ℕ) (type : ProbeType) (s : Probes lib)
      → Extends 1 s (utrace_event_create lib usystem fname name foffset type s).1
  utrace_event_create-Extends usystem fname name foffset type s =
      elim (created_entries usystem fname name foffset type s) [
        | inl e ↦ ([], e ∙ sym (append-nil s.uevents.entries), omega arith)
        | inr (x, e) ↦ (x ∷ [], e, omega arith)
      ]

  create_events-Extends :
      (usystem fname name : Str) (foffset : ℕ) (f : UtraceFunc) (s : Probes lib)
      → (s' : Probes lib) × (create_events lib usystem fname name foffset (live f) s ≡ done s')
        × Extends 2 s s'
  unfolding create_events
  create_events-Extends usystem fname name foffset f s =
      let up = utrace_event_create-Extends usystem fname name foffset ftrace_uprobe s in
      let s₁ = (utrace_event_create lib usystem fname name foffset ftrace_uprobe s).1 in
      let ret = utrace_event_create-Extends usystem fname name foffset ftrace_uretprobe s in
      let s₂ = (utrace_event_create lib usystem fname name foffset ftrace_uretprobe s₁).1 in
      let s₃ = (utrace_event_create lib usystem fname name foffset ftrace_uretprobe s).1 in
      let both = utrace_event_create-Extends usystem fname name foffset ftrace_uretprobe s₁ in
      elim (Bool-cases f.uprobe) [
        | inl e ↦ elim (Bool-cases f.uretprobe) [
          | inl g ↦ (s₂, ground arith, Extends-trans 1 1 s s₁ s₂ up both)
          | inr g ↦ (s₁, ground arith, Extends-weaken 1 2 s s₁ (omega arith) up)
        ]
        | inr e ↦ elim (Bool-cases f.uretprobe) [
          | inl g ↦ (s₃, ground arith, Extends-weaken 1 2 s s₃ (omega arith) ret)
          | inr g ↦ (s, ground arith, Extends-weaken 0 2 s s (omega arith) (Extends-refl s))
        ]
      ]

  unchanged :
      (s : Probes lib) (r : Run (Probes lib))
      → r ≡ done s
      → (s' : Probes lib) × (r ≡ done s') × Extends 2 s s'
  unchanged s r e = (s, e, Extends-weaken 0 2 s s (omega arith) (Extends-refl s))

  symblos_walk-Extends :
      (usystem : Str) (ufuncs : List Entry) (sym : TraceSymbol) (s : Probes lib)
      → All IsLive ufuncs
      → (s' : Probes lib) × (symblos_walk lib usystem ufuncs sym s ≡ done s') × Extends 2 s s'
  unfolding symblos_walk
  symblos_walk-Extends usystem ufuncs sym s h = elim (Option-cases sym.name) [
    | inl e ↦ unchanged s _ (ground arith)
    | inr (name, e) ↦ elim (Option-cases sym.fname) [
      | inl f ↦ unchanged s _ (ground arith)
      | inr (fname, f) ↦ elim (Bool-cases (sym.foffset == 0)) [
        | inl g ↦ unchanged s _ (ground arith)
        | inr g ↦ elim (live-func_at sym.cookie ufuncs h) [
          | inl k ↦ unchanged s _ (ground arith)
          | inr (func, k) ↦
              let (s', done', more) = create_events-Extends usystem fname name sym.foffset func s in
              (s', ground (arith, done'), more)
        ]
      ]
    ]
  ]

  walk_symbols-Extends :
      (usystem : Str) (ufuncs : List Entry) (ss : List DebugSymbol) (s : Probes lib)
      → All IsLive ufuncs
      → (s' : Probes lib) × ((walk_symbols (callback lib usystem ufuncs) ss (done s)).1 ≡ done s')
        × Extends (2 * length ss) s s'
  unfolding walk_symbols
  walk_symbols-Extends usystem ufuncs [] s h = (s, refl, Extends-refl s)
  walk_symbols-Extends usystem ufuncs (x ∷ ss) s h =
      let (s₁, e₁, more₁) = symblos_walk-Extends usystem ufuncs x.symbol s h in
      let (s₂, e₂, more₂) = walk_symbols-Extends usystem ufuncs ss s₁ h in
      (
        s₂,
        ap (λ r. (walk_symbols (callback lib usystem ufuncs) ss r).1) e₁ ∙ e₂,
        Extends-weaken (2 + 2 * length ss) (2 * suc (length ss)) s s₂ (omega arith)
            (Extends-trans 2 (2 * length ss) s s₁ s₂ more₁ more₂),
      )

  walk_files-Extends :
      (usystem : Str) (ufuncs : List Entry) (fs : List DebugFile) (s : Probes lib)
      → All IsLive ufuncs
      → (s' : Probes lib) × (walk_files (callback lib usystem ufuncs) fs (done s) ≡ done s')
        × Extends (2 * file_symbols fs) s s'
  unfolding walk_files
  walk_files-Extends usystem ufuncs [] s h = (s, refl, Extends-refl s)
  walk_files-Extends usystem ufuncs (f ∷ fs) s h =
      let (s₁, e₁, more₁) = walk_symbols-Extends usystem ufuncs f.sym s h in
      let (s₂, e₂, more₂) = walk_files-Extends usystem ufuncs fs s₁ h in
      (
        s₂,
        ap (walk_files (callback lib usystem ufuncs) fs) e₁ ∙ e₂,
        Extends-weaken (2 * length f.sym + 2 * file_symbols fs)
            (2 * (length f.sym + file_symbols fs)) s s₂ (omega arith)
            (Extends-trans (2 * length f.sym) (2 * file_symbols fs) s s₁ s₂ more₁ more₂),
      )

  -- With every allocation of the resolving successful, all opened files readable and no function of
  -- the list freed, `py_utrace_generate_uprobes` ends, whatever libtracefs answers: the events that
  -- were there stay, in order, and at most two are added for each symbol of the resolved context.
  pub generate_uprobes_total :
      (bfd : BfdLib) (usystem : Str) (ufuncs : List Entry) (dbg : Context) (s : Probes lib)
      → s.mem ≡ []
      → All (λ f. Readable? f.dbg) dbg.files
      → All IsLive ufuncs
      → (dbg' : Context) × (s' : Probes lib) × (py_utrace_generate_uprobes lib bfd usystem ufuncs
            dbg s
          ≡ done (dbg', s'))
        × Extends (2 * (length dbg'.sym + file_symbols dbg'.files)) s s'
  unfolding py_utrace_generate_uprobes dbg_trace_walk_resolved_symbols
  generate_uprobes_total bfd usystem ufuncs dbg s no_failure readable h =
      let (dbg', e, _, _) = resolve_symbols_total bfd dbg readable in
      let (s₁, e₁, more₁) =
        walk_symbols-Extends usystem ufuncs dbg'.sym (record s { mem = [] }) h in
      let (s₂, e₂, more₂) = walk_files-Extends usystem ufuncs dbg'.files s₁ h in
      let resolved = ap (dbg_trace_resolve_symbols bfd dbg) no_failure ∙ e in
      let walked = ap (walk_files (callback lib usystem ufuncs) dbg'.files) e₁ ∙ e₂ in
      (
        dbg',
        s₂,
        ap
              (λ r. r >>= (λ r'.
                dbg_trace_walk_resolved_symbols (callback lib usystem ufuncs) r'.1
                  (done (record s { mem = r'.2 }))
                >>= (λ s'. done (r'.1, s'))))
              resolved
            ∙ ap (λ r. r >>= (λ s'. done (dbg', s'))) walked,
        Extends-weaken (2 * length dbg'.sym + 2 * file_symbols dbg'.files)
            (2 * (length dbg'.sym + file_symbols dbg'.files)) s s₂ (omega arith)
            (Extends-trans (2 * length dbg'.sym) (2 * file_symbols dbg'.files) s s₁ s₂ more₁ more₂),
      )
