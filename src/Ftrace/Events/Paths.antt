-- ===== src/Ftrace/Events/Paths.antt =====
-- The paths of the files that enable events.
use trace_cruncher.Base.{◌≡◌, refl, ◌⊎◌, inl, inr, true, ◌∷◌, ◌++◌, some, arith, Bool-cases}
use trace_cruncher.Text.{Str, codes, Arg, bytes, is_set}
use trace_cruncher.Ftrace.{Tracefs}
use trace_cruncher.Ftrace.Events.{names_all, get_event_enable_file}

module _ (fs : Tracefs) where
  open fs use {World, Instance, dir_exists}

  -- The path that `get_event_enable_file` finds is that of all events, and then its arguments name
  -- all of them, or it is the file `enable` in an existing directory below `events/`, that of the
  -- system or of its event.
  pub get_event_enable_file-exists :
      (w : World) (inst : Instance) (system event : Arg) (path : Str)
      → get_event_enable_file fs w inst system event ≡ some path
      → ((names_all fs system event ≡ true) × (path ≡ codes "events/enable"))
        ⊎ ((dir : Str) × (dir_exists w inst dir ≡ true)
            × (path ≡ dir ++ codes "/enable")
            × ((dir ≡ codes "events/" ++ bytes system)
                ⊎ (dir ≡ (codes "events/" ++ bytes system) ++ b'/' ∷ bytes event)))
  unfolding get_event_enable_file
  get_event_enable_file-exists w inst system event path h =
      let dir = codes "events/" ++ bytes system in
      let event_dir = dir ++ b'/' ∷ bytes event in
      elim (Bool-cases (names_all fs system event)) [
        | inl all ↦ inl (all, ground arith)
        | inr some_only ↦ elim (Bool-cases (is_set event)) [
          | inl e ↦ inr (event_dir, ground arith, ground arith, inr refl)
          | inr e ↦ inr (dir, ground arith, ground arith, inl refl)
        ]
      ]
