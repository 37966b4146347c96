-- ===== src/Ftrace/ErrorLog.antt =====
-- Errors of src/ftracepy-utils.c: `tfs_error_log`, `tfs_clear_error_log`, `TfsError_fmt`,
-- `TfsError_setstr`, `PyFtrace_error_log` and `PyFtrace_clear_error_log`.
pub mod Laws
use trace_cruncher.Base.{Bool, true, false, not, ◌&&◌, Option, none, some, if◌then◌else◌}
use trace_cruncher.Base.Int.{ℤ, is_neg}
use trace_cruncher.Text.{Str, codes}
use trace_cruncher.Ftrace.{Tracefs}

-- `tracefs_error_all` (its text, and whether it sets `errno`), `tracefs_error_clear` and
-- `tracefs_instance_get_name`, which is NULL for the top instance.
pub record LogLib (fs : Tracefs) : Type 0 where
  pub error_all : fs.Instance → fs.World → Option Str × Bool
  pub error_clear : fs.Instance → fs.World → ℤ × fs.World
  pub get_name : fs.Instance → Option Str

-- The error that Python is left with: that of the log of an instance, or a message, alone or with the
-- text of the log behind it.
pub data PyError : Type 0 where
  cannot_get cannot_clear : Str → PyError
  message : Str → PyError
  with_log : Str → Str → PyError

module _ (fs : Tracefs) (lib : LogLib fs) where
  open fs use {World, Instance}
  open lib use {error_all, error_clear, get_name}

  unfoldable pub get_instance_name : Instance → Str
  get_instance_name inst = elim (get_name inst) [ none ↦ codes "top" | some name ↦ name ]

  -- The text of the log, `*ok`, and the Python error.
  unfoldable pub tfs_error_log :
      Instance → World → Option PyError → Option Str × Bool × Option PyError
  tfs_error_log inst w err =
      let (err_log, errno) = error_all inst w in
      (
        err_log,
        not errno,
        elim err_log [
          | none ↦ if errno then some (cannot_get (get_instance_name inst)) else err
          | some text ↦ err
        ],
      )

  unfoldable pub tfs_clear_error_log :
      Instance → World → Option PyError → Bool × Option PyError × World
  tfs_clear_error_log inst w err =
      let (ret, w') = error_clear inst w in
      if is_neg ret
      then (false, some (cannot_clear (get_instance_name inst)), w')
      else (true, err, w')

  -- The Python error, and the system.
  unfoldable pub tfs_error_setstr : Instance → Str → World → Option PyError → Option PyError × World
  tfs_error_setstr inst msg w err =
      let (err_log, ok, err₁) = tfs_error_log inst w err in
      elim err_log [
        | none ↦ (some (message msg), w)
        | some text ↦
            let (cleared, err₂, w') = tfs_clear_error_log inst w (some (with_log msg text)) in
            (err₂, w')
      ]

  -- `printed` is what `vasprintf` makes, or none where its result is not positive; `msg` is what
  -- `PyErr_FormatV` makes.
  unfoldable pub tfs_error_fmt :
      Instance → Option Str → Str → World → Option PyError → Option PyError × World
  tfs_error_fmt inst printed msg w err =
      let (err_log, ok, err₁) = tfs_error_log inst w err in
      elim err_log [
        | none ↦ (some (message msg), w)
        | some text ↦ elim printed [
          | none ↦ (err₁, w)
          | some tc_err_log ↦
              let (cleared, err₂, w') =
                tfs_clear_error_log inst w (some (with_log tc_err_log text)) in
              (err₂, w')
        ]
      ]

  -- `PyFtrace_error_log`: the text that it returns, or NULL, and the Python error.
  unfoldable pub error_log : Instance → World → Option PyError → Option Str × Option PyError
  error_log inst w err =
      let (err_log, ok, err₁) = tfs_error_log inst w err in
      elim err_log [
        | none ↦ (if ok then some (codes "(nil)") else none, err₁)
        | some text ↦ (some text, err₁)
      ]

  -- `PyFtrace_clear_error_log`
  unfoldable pub clear_error_log : Instance → World → Option PyError → Bool × Option PyError × World
  clear_error_log inst w err = tfs_clear_error_log inst w err
