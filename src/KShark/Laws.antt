-- ===== src/KShark/Laws.antt =====
-- Which PIDs stand under which name.
use trace_cruncher.Base.{Bool, List, [], ◌∷◌, ◌++◌, if◌then◌else◌}
use trace_cruncher.Text.{Str, str_eq}
use trace_cruncher.KShark.{Tasks}
use trace_cruncher.Base.Int.{ℤ}

-- The PIDs under a name.
abbrev pub find_pids : Str → Tasks → List ℤ
find_pids comm [] = []
find_pids comm ((c, pids) ∷ tasks) =
    let rest = find_pids comm tasks in if str_eq c comm then pids else rest

-- The PIDs whose name is this one.
abbrev pub named : (ℤ → Str) → Str → List ℤ → List ℤ
named name comm [] = []
named name comm (pid ∷ pids) =
    let rest = named name comm pids in if str_eq (name pid) comm then pid ∷ rest else rest

abbrev appended : Bool → List ℤ → ℤ → List ℤ
appended b pids pid = if b then pids ++ pid ∷ [] else pids
