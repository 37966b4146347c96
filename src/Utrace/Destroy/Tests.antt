-- ===== src/Utrace/Destroy/Tests.antt =====
-- The theorems on the end of a user-space tracer at concrete inputs.
use trace_cruncher.Base.{
  ◌≡◌, refl, Bool, true, false, not, ◌&&◌, ◌||◌, inl, inr, Bool-cases, [], ◌∷◌, none, some, List,
  arith,
}
use trace_cruncher.Base.Int.{pos}
use trace_cruncher.Text.{codes, str_eq, Str}
use trace_cruncher.Text.Laws.{str_eq_self, eq_of_str_eq}
use trace_cruncher.Alloc.{done, fault}
use trace_cruncher.Blocks.{BlockPath, count}
use trace_cruncher.Blocks.Laws.{bit}
use trace_cruncher.Dbg.{match_exact}
use trace_cruncher.Dbg.Bfd.{BfdLib}
use trace_cruncher.Dbg.Context.{Context}
use trace_cruncher.Utrace.{live, freed, ftrace_uprobe, new_func, Entry}
use trace_cruncher.Utrace.Generate.{py_utrace_generate_uprobes}
use trace_cruncher.Utrace.Probes.{Dynevents, Probes}
use trace_cruncher.Utrace.Destroy.{Pointers, py_utrace_destroy, py_utrace_free, free_funcs}
use trace_cruncher.Utrace.Destroy.Laws.{Removable, destroy-generate_uprobes}
use trace_cruncher.Utrace.Destroy.Frees.{utrace_free-owned, owns_utrace, is_name_in_dbg}

-- A system that says which events it has.
abbrev named_events : Dynevents
named_events = record {
  Dynevent = Str;
  World = Str → Bool;
  uprobe_alloc = λ system event file offset. some event;
  uretprobe_alloc = λ system event file offset. some event;
  create = λ event w. (true, λ x. str_eq x event || w x);
}

abbrev remove : Str → (Str → Bool) → Str → Bool
remove event w x = w x && not (str_eq x event)

removable : Removable named_events remove
removable = record {
  there = λ x w. w x;
  created = λ e x w h. elim (Bool-cases (w x)) [
    | inl f ↦ inl f
    | inr f ↦ inr (refl, eq_of_str_eq x e (ground arith))
  ];
  destroyed = λ e w. ground (arith, str_eq_self e);
  adds_none = λ e x w h. ground arith;
}

abbrev nothing_opened : BfdLib
nothing_opened = record {
  openr = λ _. none;
  nearest_function = λ _ _ _. none;
  demangle = λ _. none;
  fnmatch = λ _ _. false;
}

abbrev main_found : Context
main_found = record {
  pid = pos 12;
  fname = some (codes "/bin/a");
  fmaps = [];
  files = [];
  sym =
      record {
        symbol = record {
          name = some (codes "main");
          fname = some (codes "/bin/a");
          cookie = pos 0;
          vma_start = 0x1010;
          vma_near = 0;
          foffset = 0x50;
        };
        match_type = match_exact;
      }
      ∷ [];
  sym_count = 1;
}

abbrev main_traced : List Entry
main_traced = live (new_func (codes "main") ftrace_uprobe) ∷ []

abbrev no_probes : Probes named_events
no_probes = record { uevents = record { size = 0; entries = [] }; mem = []; world = λ x. false }

destroy-generate_uprobes_example :
    (dbg' : Context) × (s' : Probes named_events) × (py_utrace_generate_uprobes named_events
        nothing_opened
        (codes "tc")
        main_traced
        main_found
        no_probes
      ≡ done (dbg', s'))
    × ((py_utrace_destroy named_events remove s').world (codes "a_main") ≡ false)
unfolding removable
destroy-generate_uprobes_example =
    destroy-generate_uprobes named_events remove removable nothing_opened (codes "tc") main_traced
      main_found no_probes (codes "a_main") refl tt (tt, tt) refl

abbrev pointers : Pointers named_events
pointers = record {
  dbg = some main_found;
  ufuncs = record { size = 100; entries = main_traced };
  cmd_argv = some (some (codes "/bin/a") ∷ none ∷ some (codes "x") ∷ []);
  uevents = record { size = 100; entries = codes "a_main" ∷ [] };
  usystem = some (codes "tc_uprobes_1");
}

utrace_free-owned_example :
    (blocks : List BlockPath) × (py_utrace_free named_events (some pointers) ≡ done blocks)
    × ((p : BlockPath)
        → count p blocks ≡ bit (owns_utrace named_events pointers p && not (is_name_in_dbg p)))
utrace_free-owned_example = utrace_free-owned named_events pointers (tt, tt)

-- A function whose request failed is read when the tracer is freed.
freed_is_read : free_funcs 0 (live (new_func (codes "main") ftrace_uprobe) ∷ freed ∷ []) ≡ fault
unfolding free_funcs new_func
freed_is_read = refl
