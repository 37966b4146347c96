-- ===== src/Synth/Tests.antt =====
-- Synthetic events at concrete inputs, with a library that shows the same text everywhere.
use trace_cruncher.Base.{◌≡◌, refl, true, false, ◌∷◌, ◌++◌, some, none, if◌then◌else◌, length, ltb}
use trace_cruncher.Synth.{SynthLib, synth_repr, strcat_all, strcat, repr_parts, shown}
use trace_cruncher.Text.{Str, codes}
use trace_cruncher.Base.Int.{pos}
use trace_cruncher.Synth.Laws.{synth_repr-concat, lines_of}
use trace_cruncher.Alloc.{done, fault}

abbrev lib : SynthLib
lib = record {
  Synth = Str;
  add_field = λ to_start field name s. (pos 0, s ++ field);
  add_compare_field = λ start end calc name s. (pos 0, s);
  timestamp = codes "t";
  timestamp_usecs = codes "u";
  show_event = λ s. some s;
  show_start_hist = λ s. none;
  show_end_hist = λ s. some s;
}

two_lines :
    synth_repr lib false true true (codes "e")
    ≡ done (codes "hist. start: " ++ (10 ∷ codes "hist. end: e"))
unfolding synth_repr strcat_all strcat repr_parts shown
two_lines = refl

synth_repr-concat_example : synth_repr lib true false true (codes "e") ≡ (
    if ltb (length (lines_of lib true false true (codes "e"))) 2048
    then done (lines_of lib true false true (codes "e"))
    else fault)
synth_repr-concat_example = synth_repr-concat lib true false true (codes "e")
