-- ===== src/Utrace/Probes.antt =====
-- `utrace_event_create` and `symblos_walk` of src/ftracepy-utils.c. The dynamic events of libtracefs
-- are a parameter.
use trace_cruncher.Base.{
  ℕ, Bool, true, false, List, Option, none, some, ◌==◌, if◌then◌else◌, get_elem?,
}
use trace_cruncher.Base.Int.{ℤ, pos, negsuc}
use trace_cruncher.Text.{Str}
use trace_cruncher.Alloc.{Mem, Run, done, fault}
use trace_cruncher.Dbg.{TraceSymbol}
use trace_cruncher.Utrace.{
  ProbesList, utrace_list_add, Entry, live, freed, ProbeType, ftrace_uprobe, ftrace_uretprobe,
  uprobe_event_name, is_ret,
}

-- `tracefs_uprobe_alloc`, `tracefs_uretprobe_alloc` (system, event, file, offset; NULL on an error),
-- and whether `tracefs_dynevent_create` returns 0.
pub record Dynevents : Type 1 where
  pub Dynevent : Type 0
  pub World : Type 0
  pub uprobe_alloc : Str → Str → Str → ℕ → Option Dynevent
  pub uretprobe_alloc : Str → Str → Str → ℕ → Option Dynevent
  pub create : Dynevent → World → Bool × World

-- `ufuncs.data[cookie]`, where the cookie is an index of the list.
unfoldable pub func_at : ℤ → List Entry → Option Entry
func_at (negsuc n) ufuncs = none
func_at (pos i) ufuncs = get_elem? ufuncs i

module _ (lib : Dynevents) where
  open lib use {Dynevent, World, uprobe_alloc, uretprobe_alloc, create}

  -- What the callback changes: the events, the allocator and the system.
  pub record Probes : Type 0 where
    pub uevents : ProbesList Dynevent
    pub mem : Mem
    pub world : World

  -- The result of `utrace_list_add` is not tested; an event that it has no room for is lost.
  unfoldable pub utrace_event_create : Str → Str → Str → ℕ → ProbeType → Probes → Bool × Probes
  utrace_event_create usystem fname name foffset type s =
      let (rname, m) = uprobe_event_name fname name type s.mem in
      elim rname [
        | none ↦ (false, record s { mem = m })
        | some event ↦
            elim (if is_ret type
              then uretprobe_alloc usystem event fname foffset
              else uprobe_alloc usystem event fname foffset) [
                | none ↦ (false, record s { mem = m })
                | some uevent ↦
                    let (created, world) = create uevent s.world in
                    let (_, uevents, m') = utrace_list_add s.uevents uevent m in
                    if created
                    then (true, record { uevents = uevents; mem = m'; world = world })
                    else (false, record { uevents = s.uevents; mem = m; world = world })
              ]
      ]

  -- The two tests of `ufunc->type`.
  unfoldable pub create_events : Str → Str → Str → ℕ → Entry → Probes → Run Probes
  create_events usystem fname name foffset freed s = fault
  create_events usystem fname name foffset (live f) s =
      let s₁ =
        (if f.uprobe
          then (utrace_event_create usystem fname name foffset ftrace_uprobe s).1
          else s) in
      let s₂ = (utrace_event_create usystem fname name foffset ftrace_uretprobe s₁).1 in
      done (if f.uretprobe then s₂ else s₁)

  -- It always returns 0, so that the walk goes on.
  unfoldable pub symblos_walk : Str → List Entry → TraceSymbol → Probes → Run Probes
  symblos_walk usystem ufuncs sym s = elim sym.name [
    | none ↦ done s
    | some name ↦ elim sym.fname [
      | none ↦ done s
      | some fname ↦ if sym.foffset == 0 then done s else (elim (func_at sym.cookie ufuncs) [
        | none ↦ done s
        | some f ↦ create_events usystem fname name sym.foffset f s
      ])
    ]
  ]
