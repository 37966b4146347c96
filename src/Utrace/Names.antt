-- ===== src/Utrace/Names.antt =====
-- What the kernel demands of the name of an event.
use trace_cruncher.Base.{
  ◌<◌, ◌≡◌, [], ◌∷◌, ◌++◌, some, arith, All, length, length-append, take, length-take-le,
  if◌then◌else◌, subst, ap,
}
use trace_cruncher.Text.{Str, codes, fname_unify}
use trace_cruncher.Text.Laws.{IsNameChar, fname_unify-IsNameChar, length-fname_unify}
use trace_cruncher.Alloc.{Mem}
use trace_cruncher.Utrace.{
  ProbeType, ftrace_uprobe, ftrace_uretprobe, is_ret, base_name, filename_truncate,
  funcname_truncate, uprobe_event_name,
}

-- The name before `fname_unify`.
abbrev raw_name : Str → Str → ProbeType → Str
raw_name file func type =
    (if is_ret type then codes "r_" else [])
    ++ (take filename_truncate (base_name file) ++ b'_' ∷ take funcname_truncate func)

length-raw_name : (file func : Str) (type : ProbeType) → length (raw_name file func type) < 64
length-raw_name file func ftrace_uprobe = omega (
  arith,
  length-append (take filename_truncate (base_name file)) (b'_' ∷ take funcname_truncate func),
  length-take-le filename_truncate (base_name file),
  length-take-le funcname_truncate func,
)
length-raw_name file func ftrace_uretprobe = omega (
  arith,
  length-append (take filename_truncate (base_name file)) (b'_' ∷ take funcname_truncate func),
  length-take-le filename_truncate (base_name file),
  length-take-le funcname_truncate func,
)

-- Each name that `uprobe_event_name` makes, of any file and any function, has only letters, digits
-- and underscores, and fits in the 64 bytes of the kernel with its final NUL.
pub uprobe_event_name-IsNameChar :
    (file func : Str) (type : ProbeType) (m m' : Mem) (event : Str)
    → uprobe_event_name file func type m ≡ (some event, m')
    → All IsNameChar event × (length event < 64)
unfolding uprobe_event_name
uprobe_event_name-IsNameChar file func type m m' event h =
    let raw = raw_name file func type in
    let e : fname_unify raw ≡ event = ground (arith, h) in
    (
      subst (All IsNameChar) e (fname_unify-IsNameChar raw),
      omega (arith, ap length e, length-fname_unify raw, length-raw_name file func type),
    )
