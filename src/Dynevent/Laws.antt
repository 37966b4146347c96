-- ===== src/Dynevent/Laws.antt =====
-- The kinds of dynamic events by their names, and who owns an event.
use trace_cruncher.Dynevent.{synth_event}
use trace_cruncher.Base.{◌≡◌, refl, List, [], ◌∷◌, map, some, Option, Option-cases, inl, inr}
use trace_cruncher.Objects.{Object, dealloc, unowned, set_destroy_flag, object_new}
use trace_cruncher.Ftrace.{Tracefs}
use trace_cruncher.Dynevent.{
  dynevent_filter, DyneventLib, select_kinds, available_dynamic_events, strstr, starts_with, Kind,
  kind_name, kprobe_event, kretprobe_event, uprobe_event, uretprobe_event, eprobe_event,
}
use trace_cruncher.Base.Int.{ℤ}
use trace_cruncher.Text.{Str}

-- The name of each kind selects this kind and no other: none of the names contains another.
pub dynevent_filter-kind_name : (k : Kind) → dynevent_filter (some (kind_name k)) ≡ k ∷ []
unfolding dynevent_filter select_kinds strstr starts_with
dynevent_filter-kind_name kprobe_event = refl
dynevent_filter-kind_name kretprobe_event = refl
dynevent_filter-kind_name uprobe_event = refl
dynevent_filter-kind_name uretprobe_event = refl
dynevent_filter-kind_name eprobe_event = refl
dynevent_filter-kind_name synth_event = refl

module _ (fs : Tracefs) (lib : DyneventLib fs) where
  open fs use {World}
  open lib use {Ptr, get_all}

  -- Deleting the objects of a list one after the other, with what removes an event from the system.
  abbrev pub delete_events : (Ptr → World → ℤ × World) → List (Object Ptr) → World → World
  delete_events destroy [] w = w
  delete_events destroy (o ∷ os) w = delete_events destroy os (dealloc destroy o w)

  delete_unowned :
      (destroy : Ptr → World → ℤ × World) (ps : List Ptr) (w : World)
      → delete_events destroy (map unowned ps) w ≡ w
  unfolding dealloc unowned set_destroy_flag object_new
  delete_unowned destroy [] w = refl
  delete_unowned destroy (p ∷ ps) w = delete_unowned destroy ps w

  -- Listing the dynamic events, of any kind, and deleting all the objects leaves the system as it was:
  -- none of them owns its event.
  pub available_dynamic_events-delete :
      (destroy : Ptr → World → ℤ × World) (type : Option Str) (w : World)
      → delete_events destroy (available_dynamic_events fs lib type w) w ≡ w
  unfolding available_dynamic_events
  available_dynamic_events-delete destroy type w =
      elim (Option-cases (get_all (dynevent_filter type) w)) [
        | inl e ↦ rw (e, available_dynamic_events) refl
        | inr (all, e) ↦ rw (e, available_dynamic_events) (delete_unowned destroy all w)
      ]
