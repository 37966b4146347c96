-- ===== src/Ftrace/Files/Laws.antt =====
-- Writing a file and reading it back.
use trace_cruncher.Base.{ℕ, suc, ◌≡◌, true, [], ◌∷◌, ◌++◌, some, arith}
use trace_cruncher.Base.Int.{pos}
use trace_cruncher.Base.{length-append}
use trace_cruncher.Text.{Str, str_eq}
use trace_cruncher.Text.Laws.{trim_new_line-append}
use trace_cruncher.Ftrace.{Tracefs}
use trace_cruncher.Ftrace.Files.{write_to_file, read_from_file, write_to_file_and_check}

module _ (fs : Tracefs) where
  open fs use {World, Instance, file_exists, file_write, file_read}

  -- Where the file exists before and after the write, the write succeeds, and the kernel gives the
  -- value `kept` back with a newline, `write_to_file_and_check` returns whether that is the value
  -- that was to be written.
  pub write_to_file_and_check-readback :
      (inst : Instance) (file val kept : Str) (w : World) (n : ℕ) (w₁ w₂ : World)
      → file_exists w inst file ≡ true
      → file_write inst file val w ≡ (pos (suc n), w₁)
      → file_exists w₁ inst file ≡ true
      → file_read inst file w₁ ≡ (some (kept ++ 10 ∷ []), w₂)
      → write_to_file_and_check fs inst file val w ≡ (str_eq kept val, w₂)
  unfolding write_to_file_and_check write_to_file read_from_file
  write_to_file_and_check-readback inst file val kept w n w₁ w₂ here wrote there read =
      ground
        (arith, here, wrote, there, read, length-append kept (10 ∷ []), trim_new_line-append kept)
