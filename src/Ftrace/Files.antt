-- ===== src/Ftrace/Files.antt =====
-- `write_to_file`, `append_to_file`, `read_from_file` and `write_to_file_and_check` of
-- src/ftracepy-utils.c. They return the C result; the message of an error is left out.
pub mod Laws
use trace_cruncher.Base.{
  ℕ, Bool, true, false, not, List, [], ◌∷◌, Option, none, some, if◌then◌else◌, length,
}
use trace_cruncher.Base.Int.{ℤ, pos, negsuc, is_pos, is_zero}
use trace_cruncher.Text.{Str, str_eq, trim_new_line}
use trace_cruncher.Ftrace.{Tracefs}

module _ (fs : Tracefs) where
  open fs use {World, Instance, file_exists, file_write, file_append, file_read}

  unfoldable pub write_to_file : Instance → Str → Str → World → ℤ × World
  write_to_file inst file val w =
      if file_exists w inst file then file_write inst file val w else (negsuc 0, w)

  unfoldable pub append_to_file : Instance → Str → Str → World → ℤ × World
  append_to_file inst file val w =
      if file_exists w inst file then file_append inst file val w else (negsuc 0, w)

  -- The size and the content: what is read is of that size.
  unfoldable pub read_from_file : Instance → Str → World → ℤ × Str × World
  read_from_file inst file w =
      let (content, w') = file_read inst file w in
      if file_exists w inst file
      then (elim content [ none ↦ (negsuc 0, [], w') | some s ↦ (pos (length s), s, w') ])
      else (negsuc 0, [], w)

  unfoldable pub write_to_file_and_check : Instance → Str → Str → World → Bool × World
  write_to_file_and_check inst file val w =
      let (written, w₁) = write_to_file inst file val w in
      let (size, read_val, w₂) = read_from_file inst file w₁ in
      if is_pos written
      then (if is_pos size then (str_eq (trim_new_line read_val) val, w₂) else (false, w₂))
      else (false, w₁)
