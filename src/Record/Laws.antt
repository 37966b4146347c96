-- ===== src/Record/Laws.antt =====
-- Texts that are read back from the data of a record.
use trace_cruncher.Base.{
  ℕ, ◌+◌, ◌*◌, ◌<◌, ◌≡◌, refl, ap, ◌∙◌, true, false, [], ◌∷◌, ◌++◌, some, none, arith, length, All,
  ◌==◌, ◌^◌, ◌%◌, ◌/◌,
}
use trace_cruncher.Alloc.{done}
use trace_cruncher.Record.{
  skip, c_string, parse_record_field, record_pid, parse_field, get_pid, field_place, TepEvent,
  to_long, Field, find_any_field, TepRecord, text, decoded,
}
use trace_cruncher.Text.{Str, codes}
use trace_cruncher.Base.Int.{to_int, low_bits, pos}

abbrev pub NotNul : ℕ → Type 0
NotNul c = (c == 0) ≡ false

skip-length : (before after : Str) → skip (length before) (before ++ after) ≡ after
unfolding skip
skip-length [] after = refl
skip-length (c ∷ before) after = skip-length before after

c_string-append : (s after : Str) → All NotNul s → c_string (s ++ 0 ∷ after) ≡ done s
unfolding c_string
c_string-append [] after h = refl
c_string-append (c ∷ s) after h = rw (h.0, c_string-append s after h.1) refl

low_part : (n len : ℕ) → n < 2 ^ 16 → (len * 2 ^ 16 + n) % 2 ^ 16 ≡ n
low_part n len h = omega arith

high_part : (n len : ℕ) → n < 2 ^ 16 → len < 2 ^ 32 → ((len * 2 ^ 16 + n) / 2 ^ 16) % 2 ^ 32 ≡ len
high_part n len h l = omega arith

place_dynamic :
    (event : TepEvent) (record' : TepRecord) (field : Field) (n len : ℕ)
    → field.flags.is_dynamic ≡ true
    → event.read_number (skip field.offset record'.raw_data) field.size ≡ len * 2 ^ 16 + n
    → n < 2 ^ 16
    → len < 2 ^ 32
    → field_place event record' field ≡ (n, len)
unfolding field_place
place_dynamic event record' field n len d r b l =
    rw (d, r, low_part n len b, high_part n len b l) refl

parse_string :
    (event : TepEvent) (record' : TepRecord) (field : Field) (offset size : ℕ) (s : Str)
    → field_place event record' field ≡ (offset, size)
    → (size == 0) ≡ false
    → field.flags.is_string ≡ true
    → c_string (skip offset record'.raw_data) ≡ done s
    → parse_field event record' field ≡ done (decoded event s)
unfolding parse_field
parse_string event record' field offset size s place z t found = rw (place, z, t, found) refl

-- A text that stands in the data of a record at an offset below 2 ^ 16, with its NUL, and whose place
-- is given by the number of a dynamic field, is what parsing this field gives, as Python decodes it;
-- bytes that it cannot decode are an error.
pub parse_record_field_dynamic :
    (event : TepEvent) (name : Str) (field : Field) (before s after : Str) (address len : ℕ)
    → find_any_field event name ≡ some field
    → field.flags.is_dynamic ≡ true
    → field.flags.is_string ≡ true
    → event.read_number (skip field.offset (before ++ (s ++ 0 ∷ after))) field.size
      ≡ len * 2 ^ 16 + length before
    → length before < 2 ^ 16
    → 0 < len
    → len < 2 ^ 32
    → All NotNul s
    → parse_record_field event
        (record { raw_data = before ++ (s ++ 0 ∷ after); address = address })
        name
      ≡ done (elim (event.decode s) [ none ↦ none | some u ↦ some (text u) ])
unfolding parse_record_field
parse_record_field_dynamic event name field before s after address len found d t r b p l n =
    let record' : TepRecord = record { raw_data = before ++ (s ++ 0 ∷ after); address = address } in
    let found_text : c_string (skip (length before) (before ++ (s ++ 0 ∷ after))) ≡ done s =
      ap c_string (skip-length before (s ++ 0 ∷ after)) ∙ c_string-append s after n in
    rw (found, parse_record_field)
      (parse_string event record' field (length before) len s
        (place_dynamic event record' field (length before) len d r b l) (ground arith) t found_text)

int_small : (n : ℕ) → n < 2 ^ 31 → to_int (to_long n) ≡ pos n
unfolding to_int to_long low_bits
int_small n h = ground arith

-- The PID of a record, where the event has the field and its number is an `int`.
pub record_pid_lem :
    (event : TepEvent) (record' : TepRecord) (field : Field)
    → event.find_common_field (codes "common_pid") ≡ some field
    → event.read_number_field field record'.raw_data < 2 ^ 31
    → record_pid event record' ≡ some (pos (event.read_number_field field record'.raw_data))
unfolding record_pid get_pid
record_pid_lem event record' field found small =
    let pid : get_pid event record' ≡ pos (event.read_number_field field record'.raw_data) =
      rw (found, get_pid) (int_small (event.read_number_field field record'.raw_data) small) in
    rw (pid, record_pid) refl
