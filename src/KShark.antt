-- ===== src/KShark.antt =====
-- Tasks and the clock of a data stream, of src/ksharkpy-utils.c: `PyKShark_set_clock_offset`,
-- `compare` and `PyKShark_get_tasks`, after their arguments were parsed and the stream was found.
pub mod Laws
pub mod Streams
mod Tests
use trace_cruncher.Base.{
  ℕ, ltb, Bool, true, false, List, [], ◌∷◌, ◌++◌, Option, none, some, if◌then◌else◌,
}
use trace_cruncher.Base.Int.{ℤ, pos, negsuc}
use trace_cruncher.Text.{Str, str_eq}
use trace_cruncher.Alloc.{Mem, alloc, Run, done, fault, ◌>>=◌}

-- The fields of `struct kshark_data_stream` for its clock; the array is NULL where there is none.
pub record Stream : Type 0 where
  pub calib_array : Option (List ℤ)
  pub calib_array_size : ℕ
  pub calib : Bool

-- False is an error, which leaves the size of the array that was freed.
unfoldable pub set_clock_offset : Stream → ℤ → Mem → Bool × Stream
set_clock_offset stream offset m =
    if (alloc m).0
    then (true, record { calib_array = some (offset ∷ []); calib_array_size = 1; calib = true })
    else (false, record stream { calib_array = none })

unfoldable pub greater : ℤ → ℤ → Bool
greater (pos a) (pos b) = ltb b a
greater (pos a) (negsuc b) = true
greater (negsuc a) (pos b) = false
greater (negsuc a) (negsuc b) = ltb a b

unfoldable pub compare_pids : ℤ → ℤ → ℤ
compare_pids a b = if greater a b then pos 1 else (if greater b a then negsuc 0 else pos 0)

-- The dictionary from a name to its PIDs, in the order of its keys.
abbrev pub Tasks : Type 0
Tasks = List (Str × List ℤ)

unfoldable pub add_task : Str → ℤ → Tasks → Tasks
add_task comm pid [] = (comm, pid ∷ []) ∷ []
add_task comm pid ((c, pids) ∷ tasks) =
    let rest = add_task comm pid tasks in
    if str_eq c comm then (c, pids ++ pid ∷ []) ∷ tasks else (c, pids) ∷ rest

-- The loop. `comm_from_pid` is `kshark_comm_from_pid`, whose result is followed.
unfoldable pub fill_tasks : (ℤ → Option Str) → List ℤ → Tasks → Run Tasks
fill_tasks comm_from_pid [] tasks = done tasks
fill_tasks comm_from_pid (pid ∷ pids) tasks = elim (comm_from_pid pid) [
  | none ↦ fault
  | some comm ↦ fill_tasks comm_from_pid pids (add_task comm pid tasks)
]

-- `pids` is what `kshark_get_task_pids` gives.
unfoldable pub get_tasks :
    ((ℤ → ℤ → ℤ) → List ℤ → List ℤ) → (ℤ → Option Str) → Option (List ℤ) → Run (Option Tasks)
get_tasks qsort comm_from_pid none = done none
get_tasks qsort comm_from_pid (some []) = done none
get_tasks qsort comm_from_pid (some (pid ∷ pids)) =
    fill_tasks comm_from_pid (qsort compare_pids (pid ∷ pids)) [] >>= (λ tasks. done (some tasks))
