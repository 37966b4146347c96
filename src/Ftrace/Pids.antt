-- ===== src/Ftrace/Pids.antt =====
-- `pid2file`, `set_pid`, `set_fork_options`, `hook2pid`, `notrace_this_pid` and `set_opt` of
-- src/ftracepy-utils.c.
pub mod Laws
use trace_cruncher.Base.{
  ltb, ◌^◌, ℕ, Bool, true, false, not, List, [], ◌∷◌, ◌++◌, Option, none, some, if◌then◌else◌,
}
use trace_cruncher.Base.Int.{ℤ, pos, negsuc, is_zero, is_neg, to_int}
use trace_cruncher.Text.{Str, codes}
use trace_cruncher.Py.{Item, unicode, long, other, Obj, item, list}
use trace_cruncher.Ftrace.{Tracefs}
use trace_cruncher.Ftrace.Files.{append_to_file, write_to_file_and_check}

-- `PyLong_AsLong`: -1 where the number does not fit; the error is not looked at.
unfoldable pub as_long : ℤ → ℤ
as_long (pos n) = if ltb n (2 ^ 63) then pos n else negsuc 0
as_long (negsuc n) = if ltb n (2 ^ 63) then negsuc n else negsuc 0

module _ (fs : Tracefs) where
  open fs use {World, Instance, decimal, event_fork, function_fork}

  -- `append_to_file` is tested as a Boolean: only a size of 0 counts as a failure.
  unfoldable pub pid2file : Instance → Str → ℤ → Bool → World → Bool × World
  pid2file inst file pid append w =
      if append
      then (let (size, w') = append_to_file fs inst file (decimal pid) w in
          (not (is_zero size), w'))
      else write_to_file_and_check fs inst file (decimal pid) w

  -- The loop of `set_pid`: false is the `goto fail`.
  unfoldable pub set_pids : Instance → Str → List Item → World → Bool × World
  set_pids inst file [] w = (true, w)
  set_pids inst file (unicode s ∷ xs) w = (false, w)
  set_pids inst file (other ∷ xs) w = (false, w)
  set_pids inst file (long v ∷ xs) w =
      let (ok, w') = pid2file inst file (to_int (as_long v)) true w in
      let rest = set_pids inst file xs w' in if ok then rest else (false, w')

  unfoldable pub set_pid : Instance → Str → Obj → World → Bool × World
  set_pid inst file (list xs) w = set_pids inst file xs w
  set_pid inst file (item (long v)) w = pid2file inst file (to_int (as_long v)) true w
  set_pid inst file (item (unicode s)) w = (false, w)
  set_pid inst file (item other) w = (false, w)

  unfoldable pub set_fork_options : Instance → Bool → World → Bool × World
  set_fork_options inst enable w =
      let (event, w₁) = event_fork inst enable w in
      let (function, w₂) = function_fork inst enable w₁ in
      if is_neg event then (false, w₁) else (not (is_neg function), w₂)

  -- `fork` is negative where the caller leaves the options alone.
  unfoldable pub hook2pid : Instance → Obj → ℤ → World → Bool × World
  hook2pid inst pid_val fork w =
      let (traced, w₁) = set_pid inst (codes "set_ftrace_pid") pid_val w in
      let (evented, w₂) = set_pid inst (codes "set_event_pid") pid_val w₁ in
      if traced
      then (if evented
          then (if is_neg fork then (true, w₂) else set_fork_options inst (not (is_zero fork)) w₂)
          else (false, w₂))
      else (false, w₁)

  -- `pid` is what `getpid` returns.
  unfoldable pub notrace_this_pid : Instance → ℤ → World → Bool × World
  notrace_this_pid inst pid w =
      let (traced, w₁) = pid2file inst (codes "set_ftrace_notrace_pid") pid true w in
      let (evented, w₂) = pid2file inst (codes "set_event_notrace_pid") pid true w₁ in
      if traced then (evented, w₂) else (false, w₁)

  -- `val` is "1" or "0".
  unfoldable pub set_opt : Instance → Str → Str → World → Bool × World
  set_opt inst opt val w = write_to_file_and_check fs inst (codes "options/" ++ opt) val w
