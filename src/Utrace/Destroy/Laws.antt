-- ===== src/Utrace/Destroy/Laws.antt =====
-- Destroying a tracer takes back what its generation of probes added to the system.
use trace_cruncher.Base.{
  Bool-cases, Option-cases, List, [], ◌∷◌, ◌++◌, arith, ◌⊎◌, inl, inr, ◌≡◌, ◌∙◌, ap, ℕ, Bool, true,
  false, if◌then◌else◌, refl, subst, sym, All,
}
use trace_cruncher.Text.{Str}
use trace_cruncher.Alloc.{Mem, alloc, Run, done, fault, ◌>>=◌}
use trace_cruncher.Dbg.Bfd.{BfdLib}
use trace_cruncher.Dbg.Context.{Context}
use trace_cruncher.Dbg.Resolve.{dbg_trace_resolve_symbols}
use trace_cruncher.Dbg.Resolve.Laws.{Readable?, resolve_symbols_total}
use trace_cruncher.Dbg.Walk.{dbg_trace_walk_resolved_symbols}
use trace_cruncher.Utrace.{ProbesList, utrace_list_add, Entry, ProbeType, uprobe_event_name, is_ret}
use trace_cruncher.Utrace.Probes.{Dynevents, Probes, utrace_event_create}
use trace_cruncher.Utrace.Generate.{callback, py_utrace_generate_uprobes}
use trace_cruncher.Utrace.Generate.Keeps.{Holds, Creates, walk_resolved-Holds}
use trace_cruncher.Utrace.Generate.Laws.{IsLive, generate_uprobes_total}
use trace_cruncher.Utrace.Destroy.{destroy_events, py_utrace_destroy}

-- Whether an event is in the system, and what libtracefs documents of creating and destroying one.
pub record Removable (lib : Dynevents) (destroy : lib.Dynevent → lib.World → lib.World)
    : Type 0 where
  pub there : lib.Dynevent → lib.World → Bool
  pub created :
      (e x : lib.Dynevent) (w : lib.World)
      → there x (lib.create e w).1 ≡ true
      → (there x w ≡ true) ⊎ ((lib.create e w).0 ≡ true) × (x ≡ e)
  pub destroyed : (e : lib.Dynevent) (w : lib.World) → there e (destroy e w) ≡ false
  pub adds_none :
      (e x : lib.Dynevent) (w : lib.World) → there x w ≡ false → there x (destroy e w) ≡ false

module _ (lib : Dynevents) (destroy : lib.Dynevent → lib.World → lib.World)
    (r : Removable lib destroy) where
  open lib use {Dynevent, World}
  open r use {there, created, destroyed, adds_none}

  abbrev Among : Dynevent → List Dynevent → Type 0
  Among x [] = ⊥
  Among x (e ∷ es) = (x ≡ e) ⊎ Among x es

  Among-last : (x e : Dynevent) (es : List Dynevent) → x ≡ e → Among x (es ++ e ∷ [])
  Among-last x e [] h = inl h
  Among-last x e (e' ∷ es) h = inr (Among-last x e es h)

  Among-append : (x e : Dynevent) (es : List Dynevent) → Among x es → Among x (es ++ e ∷ [])
  Among-append x e [] m = absurd m
  Among-append x e (e' ∷ es) (inl h) = inl h
  Among-append x e (e' ∷ es) (inr m) = inr (Among-append x e es m)

  destroy_events-adds_none :
      (es : List Dynevent) (x : Dynevent) (w : World)
      → there x w ≡ false
      → there x (destroy_events lib destroy es w) ≡ false
  unfolding destroy_events
  destroy_events-adds_none [] x w h = h
  destroy_events-adds_none (e ∷ es) x w h =
      destroy_events-adds_none es x (destroy e w) (adds_none e x w h)

  destroy_events-Among :
      (es : List Dynevent) (x : Dynevent) (w : World)
      → Among x es
      → there x (destroy_events lib destroy es w) ≡ false
  unfolding destroy_events
  destroy_events-Among [] x w m = absurd m
  destroy_events-Among (e ∷ es) x w (inl h) =
      destroy_events-adds_none es x (destroy e w)
        (ap (λ y. there y (destroy e w)) h ∙ destroyed e w)
  destroy_events-Among (e ∷ es) x w (inr m) = destroy_events-Among es x (destroy e w) m

  -- An event in the system was there in `w₀`, or is in the list of the tracer, which has memory.
  pub record Listed (w₀ : World) (s : Probes lib) : Type 0 where
    pub memory : s.mem ≡ []
    pub listed :
        (x : Dynevent) → there x s.world ≡ true → (there x w₀ ≡ true) ⊎ Among x s.uevents.entries

  named :
      (fname name : Str) (type : ProbeType) (m : Mem)
      → m ≡ []
      → (uprobe_event_name fname name type m).1 ≡ []
  unfolding uprobe_event_name alloc
  named fname name type m e = ground (arith, e)

  added :
      (list : ProbesList Dynevent) (x : Dynevent) (m : Mem)
      → m ≡ []
      → ((utrace_list_add list x m).1.entries ≡ list.entries ++ x ∷ [])
        × ((utrace_list_add list x m).2 ≡ [])
  unfolding utrace_list_add alloc
  added list x m e = ground (arith, e)

  -- What the creation of an event has done: nothing; or `create` was called, and the event is in the
  -- list, or refused.
  abbrev Made : Probes lib → Probes lib → Type 0
  Made s s' =
      (s'.mem ≡ [])
      × ((s'.world ≡ s.world) × (s'.uevents.entries ≡ s.uevents.entries)
          ⊎ (x : Dynevent) × (s'.world ≡ (lib.create x s.world).1)
            × (((lib.create x s.world).0 ≡ false) × (s'.uevents.entries ≡ s.uevents.entries)
                ⊎ (s'.uevents.entries ≡ s.uevents.entries ++ x ∷ [])))

  event_create-Made :
      (usystem fname name : Str) (foffset : ℕ) (type : ProbeType) (s : Probes lib)
      → s.mem ≡ []
      → Made s (utrace_event_create lib usystem fname name foffset type s).1
  unfolding utrace_event_create
  event_create-Made usystem fname name foffset type s e =
      let r = uprobe_event_name fname name type s.mem in
      let no_failure = named fname name type s.mem e in
      elim (Option-cases r.0) [
        | inl f ↦ (ground arith, inl (ground arith, ground arith))
        | inr (event, f) ↦
            elim (Option-cases (
              if is_ret type
              then lib.uretprobe_alloc usystem event fname foffset
              else lib.uprobe_alloc usystem event fname foffset)) [
                | inl g ↦ (ground arith, inl (ground arith, ground arith))
                | inr (x, g) ↦ elim (Bool-cases (lib.create x s.world).0) [
                  | inr k ↦ (ground arith, inr (x, ground arith, inl (k, ground arith)))
                  | inl k ↦
                      let (more, left) = added s.uevents x r.1 no_failure in
                      (ground arith, inr (x, ground arith, inr (ground arith)))
                ]
              ]
      ]

  Made-Listed : (w₀ : World) (s s' : Probes lib) → Listed w₀ s → Made s s' → Listed w₀ s'
  Made-Listed w₀ s s' h (e, inl (world, same)) = record {
    memory = e;
    listed = λ x m.
        subst (λ es. (there x w₀ ≡ true) ⊎ Among x es) (sym same)
          (h.listed x (ap (there x) (sym world) ∙ m));
  }
  Made-Listed w₀ s s' h (e, inr (y, world, inl (refused, same))) = record {
    memory = e;
    listed = λ x m. elim (created y x s.world (ap (there x) (sym world) ∙ m)) [
      | inl before ↦ subst (λ es. (there x w₀ ≡ true) ⊎ Among x es) (sym same) (h.listed x before)
      | inr (ok, eq) ↦ absurd (ground (arith, refused, ok))
    ];
  }
  Made-Listed w₀ s s' h (e, inr (y, world, inr more)) = record {
    memory = e;
    listed = λ x m.
        subst (λ es. (there x w₀ ≡ true) ⊎ Among x es) (sym more)
          (elim (created y x s.world (ap (there x) (sym world) ∙ m)) [
            | inl before ↦ elim (h.listed x before) [
              | inl old ↦ inl old
              | inr among ↦ inr (Among-append x y s.uevents.entries among)
            ]
            | inr (ok, eq) ↦ inr (Among-last x y s.uevents.entries eq)
          ]);
  }

  event_create-Listed : (w₀ : World) → Creates lib (Listed w₀)
  event_create-Listed w₀ usystem fname name foffset type s h =
      Made-Listed w₀ s (utrace_event_create lib usystem fname name foffset type s).1 h
        (event_create-Made usystem fname name foffset type s h.memory)

  walked :
      (w₀ : World) (c : Context) (p : Run (Probes lib)) (t : Context × Probes lib)
      → Holds lib (Listed w₀) p
      → (p >>= (λ s'. done (c, s'))) ≡ done t
      → Listed w₀ t.1
  walked w₀ c (done s) t h e = subst (Listed w₀) (probes_of (c, s) t e) h
    where
      probes_of : (u v : Context × Probes lib) → done u ≡ done v → u.1 ≡ v.1
      probes_of u v e = ground (arith, e)
  walked w₀ c fault t h e = absurd (ground (arith, e))

  generate_uprobes-Listed :
      (bfd : BfdLib) (usystem : Str) (ufuncs : List Entry) (dbg : Context) (s : Probes lib)
      (t : Context × Probes lib)
      → s.mem ≡ []
      → All (λ f. Readable? f.dbg) dbg.files
      → py_utrace_generate_uprobes lib bfd usystem ufuncs dbg s ≡ done t
      → Listed s.world t.1
  unfolding py_utrace_generate_uprobes
  generate_uprobes-Listed bfd usystem ufuncs dbg s t no_failure readable g =
      let (dbg', e, _, _) = resolve_symbols_total bfd dbg readable in
      let resolved = ap (dbg_trace_resolve_symbols bfd dbg) no_failure ∙ e in
      walked s.world dbg' _ t
        (walk_resolved-Holds lib (Listed s.world) (event_create-Listed s.world) usystem ufuncs dbg'
          (record s { mem = [] }) (record { memory = refl; listed = λ x m. inl m }))
        (sym (
            ap
              (λ r. r >>= (λ r'.
                dbg_trace_walk_resolved_symbols (callback lib usystem ufuncs) r'.1
                  (done (record s { mem = r'.2 }))
                >>= (λ s'. done (r'.1, s'))))
              resolved)
          ∙ g)

  -- Let libtracefs remove what it is told to destroy, every allocation succeed, the opened files
  -- be readable and no function of the list be freed. Then the generation of the probes ends, and
  -- once `py_utrace_destroy` has followed it, an event that was not in the system before is not in
  -- it, whatever libtracefs refused on the way.
  pub destroy-generate_uprobes :
      (bfd : BfdLib) (usystem : Str) (ufuncs : List Entry) (dbg : Context) (s : Probes lib)
      (x : Dynevent)
      → s.mem ≡ []
      → All (λ f. Readable? f.dbg) dbg.files
      → All IsLive ufuncs
      → there x s.world ≡ false
      → (dbg' : Context) × (s' : Probes lib) × (py_utrace_generate_uprobes lib bfd usystem ufuncs
            dbg s
          ≡ done (dbg', s'))
        × (there x (py_utrace_destroy lib destroy s').world ≡ false)
  unfolding py_utrace_destroy
  destroy-generate_uprobes bfd usystem ufuncs dbg s x no_failure readable h absent =
      let (dbg', s', e, _) =
        generate_uprobes_total lib bfd usystem ufuncs dbg s no_failure readable h in
      let l = generate_uprobes-Listed bfd usystem ufuncs dbg s (dbg', s') no_failure readable e in
      (
        dbg',
        s',
        e,
        elim (Bool-cases (there x s'.world)) [
          | inr gone ↦ destroy_events-adds_none s'.uevents.entries x s'.world gone
          | inl left ↦ elim (l.listed x left) [
            | inl before ↦ absurd (ground (arith, before, absent))
            | inr among ↦ destroy_events-Among s'.uevents.entries x s'.world among
          ]
        ],
      )
