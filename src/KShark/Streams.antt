-- ===== src/KShark/Streams.antt =====
-- Opening and reading data streams of KernelShark: the rest of src/ksharkpy-utils.c, and
-- src/trace2matrix.c. After their arguments were parsed.
pub mod Buffers
mod Tests
use trace_cruncher.Base.{ℕ, Bool, true, false, not, ◌&&◌, List, Option, none, some, if◌then◌else◌}
use trace_cruncher.Base.Int.{ℤ, pos, negsuc, is_neg, is_zero}
use trace_cruncher.Text.{Str, codes}

-- `struct kshark_entry`, where the code sets the event and the stream, and the offset or the mask
-- `visible`; what it does not set is not initialised.
pub record KsharkEntry : Type 0 where
  pub event_id : ℤ
  pub stream_id : ℤ
  pub offset : Option ℤ
  pub visible : Option ℕ

-- libkshark: what a function returns that is negative is an error. `instance` is `kshark_instance`,
-- `load_matrix` the function of a generic interface, if the stream has one.
pub record KsharkLib : Type 1 where
  pub World : Type 0
  pub DataStream : Type 0
  pub Doc : Type 0
  pub instance_of : World → Bool × World
  pub open_stream : Str → World → ℤ × World
  pub close_all : World → World
  pub tep_check_data : Str → Bool
  pub tep_find_top_stream : Str → World → ℤ
  pub tep_open_buffer : ℤ → Str → World → ℤ × World
  pub get_data_stream : ℤ → World → Option DataStream
  pub find_event_id : DataStream → Str → ℤ
  pub get_event_name : KsharkEntry → World → Option Str
  pub read_event_field_int : KsharkEntry → Str → World → ℤ × ℤ
  pub is_generic : DataStream → Bool
  pub load_matrix : DataStream → Option (World → ℤ × World)
  pub config_new : Str → Doc
  pub set_filter_mask : World → World
  pub export_all_dstreams : World → Doc → Doc
  pub export_new_model : Doc
  pub config_doc_add : Doc → Str → Doc → Doc
  pub save_config_file : Str → Doc → World → ℤ × World

module _ (lib : KsharkLib) where
  open lib use {
    World, DataStream, Doc, instance_of, open_stream, close_all, tep_check_data,
    tep_find_top_stream, tep_open_buffer, get_data_stream, find_event_id, get_event_name,
    read_event_field_int, is_generic, load_matrix, config_new, set_filter_mask, export_all_dstreams,
    export_new_model, config_doc_add, save_config_file,
  }

  unfoldable pub id_or_error : ℤ × World → Option ℤ × World
  id_or_error (sd, w) = (if is_neg sd then none else some sd, w)

  -- `PyKShark_open`: `none` is an error, here and below.
  unfoldable pub kshark_open : Str → World → Option ℤ × World
  kshark_open fname w =
      let (ok, w') = instance_of w in if ok then id_or_error (open_stream fname w') else (none, w')

  -- `PyKShark_close`
  unfoldable pub kshark_close : World → Bool × World
  kshark_close w = let (ok, w') = instance_of w in if ok then (true, close_all w') else (false, w')

  -- "The top steam has to be initialized first."
  unfoldable pub top_stream : Str → World → ℤ × World
  top_stream file_name w =
      let sd_top = tep_find_top_stream file_name w in
      if is_neg sd_top then open_stream file_name w else (sd_top, w)

  -- What follows the top stream.
  unfoldable pub open_buffer_of : Str → ℤ × World → Option ℤ × World
  open_buffer_of buffer_name (sd_top, w) =
      if is_neg sd_top then (none, w) else id_or_error (tep_open_buffer sd_top buffer_name w)

  unfoldable pub open_tep_buffer : Str → Str → World → Option ℤ × World
  open_tep_buffer file_name buffer_name w =
      let (ok, w') = instance_of w in
      if ok && tep_check_data file_name
      then open_buffer_of buffer_name (top_stream file_name w')
      else (none, w')

  unfoldable pub get_stream : ℤ → World → Option DataStream × World
  get_stream stream_id w =
      let (ok, w') = instance_of w in (if ok then get_data_stream stream_id w' else none, w')

  -- `PyKShark_event_id`
  unfoldable pub event_id : ℤ → Str → World → Option ℤ × World
  event_id stream_id name w =
      let (stream, w') = get_stream stream_id w in
      elim stream [ none ↦ (none, w') | some s ↦ id_or_error (find_event_id s name, w') ]

  -- `PyKShark_event_name`
  unfoldable pub event_name : ℤ → ℤ → World → Option Str × World
  event_name stream_id event_id w =
      let (stream, w') = get_stream stream_id w in
      elim stream [
        | none ↦ (none, w')
        | some s ↦ (
          get_event_name
              (record {
                event_id = event_id;
                stream_id = stream_id;
                offset = none;
                visible = some 0xff;
              })
              w',
          w',
        )
      ]

  -- `PyKShark_read_event_field`
  unfoldable pub read_event_field : ℤ → ℤ → ℤ → Str → World → Option ℤ × World
  read_event_field sd offset event_id field w =
      let (ok, w') = instance_of w in
      let (ret, val) =
        read_event_field_int
          (record { event_id = event_id; stream_id = sd; offset = some offset; visible = none })
          field w' in
      (if ok && is_zero ret then some val else none, w')

  -- The document that `PyKShark_new_session_file` saves.
  unfoldable pub session_doc : World → Doc
  session_doc w =
      let session = export_all_dstreams w (config_new (codes "kshark.config.session")) in
      let with_model = config_doc_add session (codes "Model") export_new_model in
      let with_markers =
        config_doc_add with_model (codes "Markers") (config_new (codes "kshark.config.markers")) in
      config_doc_add with_markers (codes "User Plugins")
        (config_new (codes "kshark.config.plugins"))

  -- The result of saving the file is not looked at.
  unfoldable pub new_session_file : Str → World → Bool × World
  new_session_file session_file w =
      let (ok, w') = instance_of w in
      let masked = set_filter_mask w' in
      if ok
      then (true, (save_config_file session_file (session_doc masked) masked).1)
      else (false, w')

  -- `trace2matrix`
  unfoldable pub trace2matrix : ℤ → World → ℤ × World
  trace2matrix sd w =
      let (stream, w') = get_stream sd w in
      elim stream [
        | none ↦ (negsuc 0, w')
        | some s ↦ elim (load_matrix s) [
          | none ↦ (pos 0, w')
          | some load ↦ if is_generic s then load w' else (pos 0, w')
        ]
      ]
