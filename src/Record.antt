-- ===== src/Record.antt =====
-- The fields of a trace record: `is_number`, `PyTepEvent_parse_record_field`, `get_pid` and
-- `PyTepEvent_get_pid` of src/ftracepy-utils.c, after their arguments were parsed.
pub mod Laws
mod Tests
use trace_cruncher.Base.{
  ℕ, zero, suc, ◌+◌, ◌*◌, ◌-◌, ◌%◌, ◌^◌, Bool, true, false, not, ◌&&◌, ◌||◌, List, [], ◌∷◌, Option,
  none, some, if◌then◌else◌, ◌==◌, length, ltb, ◌/◌,
}
use trace_cruncher.Base.Int.{ℤ, pos, negsuc, to_int, is_neg}
use trace_cruncher.Text.{Str, codes}
use trace_cruncher.Alloc.{Run, done, fault, ◌>>=◌}

-- `field->flags`: the flags that the code names, and whether any other is set.
pub record FieldFlags : Type 0 where
  pub is_dynamic : Bool
  pub is_string : Bool
  pub is_signed : Bool
  pub is_long : Bool
  pub is_flag : Bool
  pub is_pointer : Bool
  pub others : Bool

-- `struct tep_format_field`
pub record Field : Type 0 where
  pub offset : ℕ
  pub size : ℕ
  pub flags : FieldFlags

-- An event of libtraceevent: its fields, and what reads a number at the front of some data, and the
-- number of a field, as an `unsigned long long`. `print_pointer` is the format `%p`.
-- `decode` is `PyUnicode_FromString`, with the text again in UTF-8: none where the bytes are no UTF-8.
pub record TepEvent : Type 0 where
  pub find_field : Str → Option Field
  pub find_common_field : Str → Option Field
  pub read_number : Str → ℕ → ℕ
  pub read_number_field : Field → Str → ℕ
  pub print_pointer : ℕ → Str
  pub decode : Str → Option Str

-- `struct tep_record`: its data, which stands at an address.
pub record TepRecord : Type 0 where
  pub raw_data : Str
  pub address : ℕ

unfoldable pub no_flags : FieldFlags → Bool
no_flags f = not (
    f.is_dynamic
    || (f.is_string || (f.is_signed || (f.is_long || (f.is_flag || (f.is_pointer || f.others))))))

unfoldable pub is_number : FieldFlags → Bool
is_number f = no_flags f || (f.is_signed || (f.is_long || f.is_flag))

-- An `unsigned long long` as a `long`.
unfoldable pub to_long : ℕ → ℤ
to_long n = if ltb n (2 ^ 63) then pos n else negsuc (2 ^ 64 - 1 - n)

unfoldable pub skip : ℕ → Str → Str
skip zero s = s
skip (suc n) [] = []
skip (suc n) (c ∷ s) = skip n s

-- The text up to its NUL, which has to be inside the data.
unfoldable pub c_string : Str → Run Str
c_string [] = fault
c_string (c ∷ s) =
    let rest = c_string s in if c == 0 then done [] else (rest >>= (λ t. done (c ∷ t)))

pub data Parsed : Type 0 where
  text : Str → Parsed
  number : ℤ → Parsed

-- `field_offset` and `field_size`, the latter as an `int`.
unfoldable pub field_place : TepEvent → TepRecord → Field → ℕ × ℕ
field_place event record' field =
    let val = event.read_number (skip field.offset record'.raw_data) field.size in
    if field.flags.is_dynamic
    then (val % 2 ^ 16, (val / 2 ^ 16) % 2 ^ 32)
    else (field.offset, field.size)

-- `char ptr_string[11]`
unfoldable pub pointer_text : Str → Run (Option Parsed)
pointer_text s = if ltb (length s) 11 then done (some (text s)) else fault

-- What `PyUnicode_FromString` returns: an error where the bytes cannot be decoded.
abbrev pub decoded : TepEvent → Str → Option Parsed
decoded event s = elim (event.decode s) [ none ↦ none | some u ↦ some (text u) ]

-- The rest of the function, for a field that was found. `none` is an error.
unfoldable pub parse_field : TepEvent → TepRecord → Field → Run (Option Parsed)
parse_field event record' field =
    let (field_offset, field_size) = field_place event record' field in
    if field_size == 0
    then done (some (text (codes "(nil)")))
    else (if field.flags.is_string
        then (c_string (skip field_offset record'.raw_data) >>= (λ s. done (decoded event s)))
        else (if is_number field.flags
            then done (some (number (to_long (event.read_number_field field record'.raw_data))))
            else (if field.flags.is_pointer
                then pointer_text (event.print_pointer (record'.address + field_offset))
                else done none)))

unfoldable pub find_any_field : TepEvent → Str → Option Field
find_any_field event field_name = elim (event.find_field field_name) [
  | some field ↦ some field
  | none ↦ event.find_common_field field_name
]

unfoldable pub parse_record_field : TepEvent → TepRecord → Str → Run (Option Parsed)
parse_record_field event record' field_name = elim (find_any_field event field_name) [
  | none ↦ done none
  | some field ↦ parse_field event record' field
]

-- The `int` that `get_pid` returns; its error is -1.
unfoldable pub get_pid : TepEvent → TepRecord → ℤ
get_pid event record' = elim (event.find_common_field (codes "common_pid")) [
  | none ↦ negsuc 0
  | some field ↦ to_int (to_long (event.read_number_field field record'.raw_data))
]

-- `PyTepEvent_get_pid`
unfoldable pub record_pid : TepEvent → TepRecord → Option ℤ
record_pid event record' =
    if is_neg (get_pid event record') then none else some (get_pid event record')
