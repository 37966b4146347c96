-- ===== src/Dbg/Filemap.antt =====
-- `dbg_trace_get_filemap` of src/trace-obj-debug.c: the files mapped into a process, from /proc.
pub mod Laws
pub mod Outcome
use trace_cruncher.Base.{
  ℕ, zero, suc, ◌+◌, ◌==◌, Bool, true, false, not, ◌&&◌, List, [], ◌∷◌, ◌++◌, Option, none, some,
  if◌then◌else◌,
}
use trace_cruncher.Base.Int.{ℤ, pos, negsuc}
use trace_cruncher.Text.{Str}
use trace_cruncher.Alloc.{Mem, alloc, strdup, Run, done, fault, ◌>>=◌}
use trace_cruncher.Dbg.{AddrMap, PidMaps}

-- `x == y` on `int`
unfoldable pub int_eq : ℤ → ℤ → Bool
int_eq (pos a) (pos b) = a == b
int_eq (pos a) (negsuc b) = false
int_eq (negsuc a) (pos b) = false
int_eq (negsuc a) (negsuc b) = a == b

-- What the `sscanf` of a line of /proc/PID/maps gives, if it converts three fields: the two
-- addresses and the file's name.
abbrev pub Line : Type 0
Line = Option (ℕ × ℕ × Str)

-- /proc/PID: the target of the link `exe`, if it can be read and fits; the lines of `maps`, if it
-- can be opened.
pub record Proc : Type 0 where
  pub exe : Option Str
  pub maps : Option (List Line)

-- The loop over the lines either reads them all, or an allocation fails in it. `strdup` fails after
-- `realloc` has moved the array: the cleanup then reads the entries through the old pointer.
pub data Scanned : Type 0 where
  complete : List AddrMap → Mem → Scanned
  no_memory : Mem → Scanned
  use_after_free : Scanned

-- After a `strdup` that failed, with the entries that were there before.
unfoldable pub name_failed : List AddrMap → Mem → Scanned
name_failed [] m = no_memory m
name_failed (x ∷ xs) m = use_after_free

-- The entries read so far are carried in their order.
unfoldable pub scan_lines : List Line → List AddrMap → Mem → Scanned
scan_lines [] ms m = complete ms m
scan_lines (none ∷ lines) ms m = scan_lines lines ms m
scan_lines (some (begin, end, []) ∷ lines) ms m = scan_lines lines ms m
scan_lines (some (begin, end, c ∷ name) ∷ lines) ms m =
    let (grown, m₁) = alloc m in
    let (copied, m₂) = alloc m₁ in
    let rest =
      scan_lines lines (ms ++ record { start = begin; end = end; lib_name = c ∷ name } ∷ []) m₂ in
    if grown then (if copied then rest else name_failed ms m₂) else no_memory m₁

-- The list without the entry of the process.
unfoldable pub unlink : ℤ → List PidMaps → List PidMaps
unlink pid [] = []
unlink pid (p ∷ ps) = if int_eq pid p.pid then ps else p ∷ unlink pid ps

-- Is there an entry for the process?
unfoldable pub has_pid : ℤ → List PidMaps → Bool
has_pid pid [] = false
has_pid pid (p ∷ ps) = if int_eq pid p.pid then true else has_pid pid ps

-- The first entry of the process, with its new content.
unfoldable pub refill : ℤ → PidMaps → List PidMaps → List PidMaps
refill pid new [] = []
refill pid new (p ∷ ps) = if int_eq pid p.pid then new ∷ ps else p ∷ refill pid new ps

-- Return value, `*pid_maps`, and the allocations to come.
abbrev pub Mapped : Type 0
Mapped = ℤ × List PidMaps × Mem

-- -ENOENT and -ENOMEM
abbrev pub enoent : ℤ
enoent = negsuc 1

abbrev pub enomem : ℤ
enomem = negsuc 11

-- The entry of the process is there; `set` puts its content in place, `without` is the list that
-- the cleanup leaves.
unfoldable pub fill_entry :
    ℤ → Str → List Line → (PidMaps → List PidMaps) → List PidMaps → Mem → Run Mapped
fill_entry pid exe lines set without m =
    let (named, m₁) = alloc m in
    if named
    then (elim (scan_lines lines [] m₁) [
      | complete ms m₂ ↦
          done (pos 0, set (record { lib_maps = ms; proc_name = exe; pid = pid }), m₂)
      | no_memory m₂ ↦ done (enomem, without, m₂)
      | use_after_free ↦ fault
    ])
    else done (enomem, without, m₁)

unfoldable pub get_filemap_of : ℤ → Str → List Line → List PidMaps → Mem → Run Mapped
get_filemap_of pid exe lines ps m =
    let (created, m₁) = alloc m in
    if has_pid pid ps
    then fill_entry pid exe lines (λ new. refill pid new ps) (unlink pid ps) m
    else (if created
        then fill_entry pid exe lines (λ new. new ∷ ps) ps m₁
        else done (enomem, ps, m₁))

unfoldable pub dbg_trace_get_filemap : Proc → ℤ → List PidMaps → Mem → Run Mapped
dbg_trace_get_filemap proc pid ps m = elim proc.exe [
  | none ↦ done (enoent, ps, m)
  | some exe ↦ elim proc.maps [
    | none ↦ done (enoent, ps, m)
    | some lines ↦ get_filemap_of pid exe lines ps m
  ]
]
