-- ===== src/Dbg/Filemap/Laws.antt =====
-- The scan of /proc/PID/maps, and the list of memory maps as a map from process to entry.
use trace_cruncher.Base.{
  ◌≡◌, ◌≢◌, refl, ap, ◌∙◌, true, List, [], ◌∷◌, ◌++◌, Option, none, some, if◌then◌else◌, arith,
  append_assoc, append-nil,
}
use trace_cruncher.Base.Int.{ℤ, pos, negsuc}
use trace_cruncher.Alloc.{Mem, alloc}
use trace_cruncher.Dbg.{AddrMap, PidMaps}
use trace_cruncher.Dbg.Filemap.{
  int_eq, Line, complete, name_failed, scan_lines, unlink, has_pid, refill,
}

-- The lines that name a file, in order.
abbrev pub named_maps : List Line → List AddrMap
named_maps [] = []
named_maps (none ∷ lines) = named_maps lines
named_maps (some (begin, end, []) ∷ lines) = named_maps lines
named_maps (some (begin, end, c ∷ name) ∷ lines) =
    record { start = begin; end = end; lib_name = c ∷ name } ∷ named_maps lines

-- The entry of the process, if the list has one.
unfoldable pub lookup : ℤ → List PidMaps → Option PidMaps
lookup pid [] = none
lookup pid (p ∷ ps) = if int_eq pid p.pid then some p else lookup pid ps

pub scan_lines-nil :
    (lines : List Line) (ms : List AddrMap)
    → scan_lines lines ms [] ≡ complete (ms ++ named_maps lines) []
unfolding scan_lines alloc
scan_lines-nil [] ms = ground (arith, append-nil ms)
scan_lines-nil (none ∷ lines) ms = scan_lines-nil lines ms
scan_lines-nil (some (begin, end, []) ∷ lines) ms = scan_lines-nil lines ms
scan_lines-nil (some (begin, end, c ∷ name) ∷ lines) ms =
    let new : AddrMap = record { start = begin; end = end; lib_name = c ∷ name } in
    scan_lines-nil lines (ms ++ new ∷ []) ∙ ap (λ l. complete l []) (append_assoc ms (new ∷ []) _)

-- However the allocations turn out, a scan that ends well has read every line that names a file.
pub scan_lines-complete :
    (lines : List Line) (ms ms' : List AddrMap) (m m' : Mem)
    → scan_lines lines ms m ≡ complete ms' m'
    → ms' ≡ ms ++ named_maps lines
unfolding scan_lines name_failed
scan_lines-complete [] ms ms' m m' h = ground (arith, append-nil ms)
scan_lines-complete (none ∷ lines) ms ms' m m' h = scan_lines-complete lines ms ms' m m' h
scan_lines-complete (some (begin, end, []) ∷ lines) ms ms' m m' h =
    scan_lines-complete lines ms ms' m m' h
scan_lines-complete (some (begin, end, c ∷ name) ∷ lines) [] ms' m m' h =
    let new : AddrMap = record { start = begin; end = end; lib_name = c ∷ name } in
    ground (arith, scan_lines-complete lines (new ∷ []) ms' (alloc (alloc m).1).1 m')
scan_lines-complete (some (begin, end, c ∷ name) ∷ lines) (x ∷ ms) ms' m m' h =
    let new : AddrMap = record { start = begin; end = end; lib_name = c ∷ name } in
    ground (
      arith,
      scan_lines-complete lines (x ∷ ms ++ new ∷ []) ms' (alloc (alloc m).1).1 m',
      append_assoc (x ∷ ms) (new ∷ []) (named_maps lines),
    )

pub int_eq_self : (a : ℤ) → int_eq a a ≡ true
unfolding int_eq
int_eq_self (pos n) = ground arith
int_eq_self (negsuc n) = ground arith

pub eq_of_int_eq : (a b : ℤ) → int_eq a b ≡ true → a ≡ b
unfolding int_eq
eq_of_int_eq (pos n) (pos k) h = ground arith
eq_of_int_eq (pos n) (negsuc k) h = ground arith
eq_of_int_eq (negsuc n) (pos k) h = ground arith
eq_of_int_eq (negsuc n) (negsuc k) h = ground arith

pub lookup-refill_self :
    (pid : ℤ) (new : PidMaps) (ps : List PidMaps)
    → new.pid ≡ pid
    → has_pid pid ps ≡ true
    → lookup pid (refill pid new ps) ≡ some new
unfolding lookup refill has_pid
lookup-refill_self pid new [] e h = ground arith
lookup-refill_self pid new (p ∷ ps) e h =
    ground (arith, int_eq_self pid, lookup-refill_self pid new ps e)

pub lookup-refill_ne :
    (pid other : ℤ) (new : PidMaps) (ps : List PidMaps)
    → new.pid ≡ pid
    → other ≢ pid
    → lookup other (refill pid new ps) ≡ lookup other ps
unfolding lookup refill
lookup-refill_ne pid other new [] e h = refl
lookup-refill_ne pid other new (p ∷ ps) e h = ground (
  arith,
  eq_of_int_eq pid p.pid,
  eq_of_int_eq other pid,
  eq_of_int_eq other p.pid,
  lookup-refill_ne pid other new ps e h,
)

pub lookup-unlink_ne :
    (pid other : ℤ) (ps : List PidMaps)
    → other ≢ pid
    → lookup other (unlink pid ps) ≡ lookup other ps
unfolding lookup unlink
lookup-unlink_ne pid other [] h = refl
lookup-unlink_ne pid other (p ∷ ps) h =
    ground
      (arith, eq_of_int_eq pid p.pid, eq_of_int_eq other p.pid, lookup-unlink_ne pid other ps h)
