-- ===== src/KShark/Streams/Tests.antt =====
-- The theorem on buffers at a concrete input.
use trace_cruncher.Base.{◌≡◌, refl, Bool, true, false, none, if◌then◌else◌}
use trace_cruncher.Base.Int.{pos, negsuc}
use trace_cruncher.Text.{codes}
use trace_cruncher.KShark.Streams.{
  KsharkLib, open_tep_buffer, id_or_error, open_buffer_of, top_stream,
}
use trace_cruncher.KShark.Streams.Buffers.{StreamLaws, open_tep_buffer-again}

-- A library with one file, and whether it was opened.
abbrev one_file : KsharkLib
one_file = record {
  World = Bool;
  DataStream = Unit;
  Doc = Unit;
  instance_of = λ w. (true, w);
  open_stream = λ f w. (pos 0, true);
  close_all = λ w. false;
  tep_check_data = λ f. true;
  tep_find_top_stream = λ f w. if w then pos 0 else negsuc 0;
  tep_open_buffer = λ sd b w. (pos 1, w);
  get_data_stream = λ sd w. none;
  find_event_id = λ s name. negsuc 0;
  get_event_name = λ e w. none;
  read_event_field_int = λ e f w. (negsuc 0, pos 0);
  is_generic = λ s. true;
  load_matrix = λ s. none;
  config_new = λ s. tt;
  set_filter_mask = λ w. w;
  export_all_dstreams = λ w d. d;
  export_new_model = tt;
  config_doc_add = λ d s e. d;
  save_config_file = λ f d w. (pos 0, w);
}

stream_laws : StreamLaws one_file
stream_laws = record {
  ready = λ w e. refl;
  ready_open = λ f w e. refl;
  ready_buffer = λ sd b w e. refl;
  found = λ f w c g e. refl;
  same_top = λ f b sd w. refl;
}

open_tep_buffer-again_example :
    open_tep_buffer one_file (codes "a.dat") (codes "other") true
    ≡ id_or_error one_file (pos 1, true)
unfolding open_tep_buffer open_buffer_of top_stream id_or_error
open_tep_buffer-again_example =
    open_tep_buffer-again one_file stream_laws (codes "a.dat") (codes "one") (codes "other") false
      true (pos 1) refl
