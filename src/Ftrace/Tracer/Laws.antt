-- ===== src/Ftrace/Tracer/Laws.antt =====
-- What a successful switch of the tracer means.
use trace_cruncher.Base.{◌≡◌, ◌⊎◌, true, List, some}
use trace_cruncher.Text.{Str, codes, trim_new_line}
use trace_cruncher.Ftrace.{Tracefs}
use trace_cruncher.Ftrace.Tracer.{has_tracer}

module _ (fs : Tracefs) where
  open fs use {World, Instance, tracers, file_exists, file_read, trace_on, trace_off, trace_is_on}

  -- A value that the file gives back.
  abbrev pub ReadBack : Instance → Str → Str → World → Type 0
  ReadBack inst file val w' =
      (w : World) × (content : Str) × (file_read inst file w ≡ (some content, w'))
      × (trim_new_line content ≡ val)

  -- A tracer that needs no list, or that the list has.
  abbrev pub IsOffered : World → Instance → Str → Type 0
  IsOffered w inst name =
      (name ≡ codes "nop")
      ⊎ ((all_tracers : List Str) × (tracers w inst ≡ some all_tracers)
          × (has_tracer name all_tracers ≡ true))
