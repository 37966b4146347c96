-- ===== src/KShark/Tests.antt =====
-- Three tasks, two of which have the same name.
use trace_cruncher.Base.{List, if◌then◌else◌, ◌==◌}
use trace_cruncher.Base.Int.{ℤ, pos, negsuc}
use trace_cruncher.Text.{Str, codes}

abbrev name : ℤ → Str
name (pos n) = if n == 7 then codes "sh" else codes "ls"
name (negsuc n) = codes "ls"

abbrev unsorted : (ℤ → ℤ → ℤ) → List ℤ → List ℤ
unsorted compare pids = pids
