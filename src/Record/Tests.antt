-- ===== src/Record/Tests.antt =====
-- A record with a text of two characters behind four bytes.
use trace_cruncher.Base.{◌≡◌, refl, true, false, [], ◌∷◌, ◌++◌, some, none, ◌*◌, ◌+◌, ◌^◌, arith}
use trace_cruncher.Record.{Field, parse_record_field, TepEvent, text}
use trace_cruncher.Text.{codes}
use trace_cruncher.Alloc.{done}
use trace_cruncher.Record.Laws.{parse_record_field_dynamic}

abbrev dynamic_text : Field
dynamic_text = record {
  offset = 0;
  size = 4;
  flags = record {
    is_dynamic = true;
    is_string = true;
    is_signed = false;
    is_long = false;
    is_flag = false;
    is_pointer = false;
    others = false;
  };
}

-- The size, with the NUL, and the offset of the text.
abbrev event : TepEvent
event = record {
  find_field = λ name. none;
  find_common_field = λ name. some dynamic_text;
  read_number = λ bytes size. 3 * 2 ^ 16 + 4;
  read_number_field = λ field bytes. 17;
  print_pointer = λ p. codes "0x0";
  decode = λ s. some s;
}

parse_record_field_dynamic_example :
    parse_record_field event
      (record { raw_data = (4 ∷ 0 ∷ 3 ∷ 0 ∷ []) ++ (codes "ls" ++ 0 ∷ []); address = 4096 })
      (codes "comm")
    ≡ done (some (text (codes "ls")))
unfolding trace_cruncher.Record.find_any_field
parse_record_field_dynamic_example =
    parse_record_field_dynamic event (codes "comm") dynamic_text (4 ∷ 0 ∷ 3 ∷ 0 ∷ []) (codes "ls")
      [] 4096 3 refl refl refl refl (ground arith) (ground arith) (ground arith) (refl, (refl, tt))
