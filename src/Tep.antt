-- ===== src/Tep.antt =====
-- The handle of libtraceevent and the printing of records: `PyTepRecord_time`, `PyTepRecord_cpu`,
-- `PyTepEvent_name`, `PyTepEvent_id`, `PyTepEvent_field_names`, `get_tep`,
-- `PyTep_init_local`, `PyTep_get_event`, `init_print_seq`, `get_comm_from_pid`, the functions that print
-- and `PyTep_short_kprobe_print` of src/ftracepy-utils.c, after their arguments were parsed.
pub mod Fields
pub mod Comms
pub mod Printing
mod Tests
use trace_cruncher.Base.{
  ℕ, zero, suc, ◌+◌, ◌-◌, ◌^◌, ltb, length, Bool, true, false, not, ◌&&◌, List, [], ◌∷◌, ◌++◌,
  Option, none, some, if◌then◌else◌, modify,
}
use trace_cruncher.Base.Int.{ℤ, pos, negsuc, is_neg}
use trace_cruncher.Text.{Str, codes, trim_new_line}
use trace_cruncher.Alloc.{Mem, alloc, strdup, Run, done, fault, ◌>>=◌}
use trace_cruncher.Py.{Obj, tc_list_get_str}
use trace_cruncher.Record.{TepEvent, TepRecord, get_pid, c_string, to_long}

-- `PyTepRecord_time` and `PyTepRecord_cpu` of an object that may hold NULL. The time stamp is an
-- `unsigned long`, and is read as a `long long`.
unfoldable pub record_time : Option ℕ → ℤ
record_time none = pos 0
record_time (some ts) = to_long ts

unfoldable pub record_cpu : Option ℤ → ℤ
record_cpu none = negsuc 0
record_cpu (some cpu) = cpu

-- `PyTepEvent_name` and `PyTepEvent_id`
unfoldable pub tep_event_name : Option Str → Str
tep_event_name none = codes "(nil)"
tep_event_name (some name) = name

unfoldable pub tep_event_id : Option ℤ → ℤ
tep_event_id none = negsuc 0
tep_event_id (some id) = id

-- `event->format`, with the names that `tep_event_common_fields` and `tep_event_fields` list, if there
-- is memory for them.
pub record Format : Type 0 where
  pub nr_fields : ℕ
  pub nr_common : ℕ
  pub common_fields : Option (List Str)
  pub fields : Option (List Str)

-- `PyList_New`: each place is NULL.
unfoldable pub new_list : ℕ → List (Option Str)
new_list zero = []
new_list (suc n) = none ∷ new_list n

-- A loop over the fields, from place `i` on: `PyList_SET_ITEM` does not look at the size of the list.
unfoldable pub set_items : ℕ → List Str → List (Option Str) → Run (List (Option Str))
set_items i [] list = done list
set_items i (name ∷ names) list =
    let rest = set_items (i + 1) names (modify list i (λ _. some name)) in
    if ltb i (length list) then rest else fault

-- `PyTepEvent_field_names`: `none` is an error.
unfoldable pub field_names : Format → Run (Option (List (Option Str)))
field_names format = elim format.common_fields [
  | none ↦ done none
  | some common ↦ set_items 0 common (new_list (format.nr_fields + format.nr_common)) >>= λ list.
      elim format.fields [
        | none ↦ done none
        | some fields ↦ set_items (length common) fields list >>= λ list'. done (some list')
      ]
]

abbrev pub path_max : ℕ
path_max = 4096

-- What `read` gave of the file `comm`, as a text without its newline. The buffer has room for
-- `path_max` bytes, and is followed up to its first NUL.
unfoldable pub comm_text : Str → Run Str
comm_text content =
    if ltb (length content) path_max
    then (c_string (content ++ 0 ∷ [])
        >>= (λ s. elim s [ [] ↦ fault | c ∷ t ↦ done (trim_new_line (c ∷ t)) ]))
    else fault

-- libtraceevent and libtracefs, and `/proc/PID/comm`: what a read of it gives, where it can be opened
-- and is not empty. Of `tep_print_event` there is the text that it writes for each format.
pub record TepLib : Type 1 where
  pub World : Type 0
  pub Tep : Type 0
  pub local_events_system : Str → Option (List Str) → World → Option Tep × World
  pub find_event_by_name : Tep → Str → Str → Option TepEvent
  pub is_pid_registered : Tep → ℤ → Bool
  pub register_comm : Tep → Str → ℤ → Tep
  pub register_event_handler : Tep → ℤ → Str → Str → ℤ × Tep
  pub event_name : TepEvent → Str
  pub print_time : Tep → TepRecord → Str
  pub print_comm : Tep → TepRecord → Str
  pub print_cpu : Tep → TepRecord → Str
  pub print_info : Tep → TepRecord → Str
  pub proc_comm : ℤ → Option Str

module _ (lib : TepLib) where
  open lib use {
    World, Tep, local_events_system, find_event_by_name, is_pid_registered, register_comm,
    register_event_handler, event_name, print_time, print_comm, print_cpu, print_info, proc_comm,
  }

  unfoldable pub get_tep : Str → Option (List Str) → World → Option Tep × World
  get_tep dir sys_names w = local_events_system dir sys_names w

  -- The handle for the argument `systems`, if it is one: an empty list is refused.
  unfoldable pub tep_of : Str → Option Obj → Mem → World → Option Tep × World
  tep_of dir none m w = get_tep dir none w
  tep_of dir (some system_list) m w = elim (tc_list_get_str system_list m) [
    | none ↦ (none, w)
    | some (none, size) ↦ (none, w)
    | some (some sys_names, size) ↦ get_tep dir (some sys_names) w
  ]

  -- `PyTep_init_local`: false is an error. Then `ptrObj`, and what `tep_free` was called on.
  unfoldable pub init_local :
      Option Tep → Str → Option Obj → Mem → World → Bool × Option Tep × List Tep × World
  init_local ptr dir systems m w =
      let (tep, w') = tep_of dir systems m w in
      elim tep [
        | none ↦ (false, ptr, [], w')
        | some new ↦ (true, some new, elim ptr [ none ↦ [] | some old ↦ old ∷ [] ], w')
      ]

  -- `PyTep_get_event`: where there is no such event, the object has a NULL in it.
  unfoldable pub tep_get_event : Tep → Str → Str → Option TepEvent
  tep_get_event tep system name = find_event_by_name tep system name

  -- The buffer of `seq`, which is NULL before the first call; `got` says whether `trace_seq_init` finds
  -- memory. False is an error.
  unfoldable pub init_print_seq : Bool → Option Str → Bool × Option Str
  init_print_seq got (some s) = (true, some [])
  init_print_seq got none = if got then (true, some []) else (false, none)

  -- The two arguments, where each is of its type.
  unfoldable pub print_init :
      Bool
      → Option Str
      → Option TepEvent
      → Option TepRecord
      → Option (TepEvent × TepRecord) × Option Str
  print_init got buffer obj_evt obj_rec =
      let (ok, buffer') = init_print_seq got buffer in
      (
        if ok
            then (elim obj_evt [
              | none ↦ none
              | some event ↦ elim obj_rec [ none ↦ none | some rec ↦ some (event, rec) ]
            ])
            else none,
        buffer',
      )

  unfoldable pub get_comm_from_pid : ℤ → Mem → Run (Option Str × Mem)
  get_comm_from_pid pid m =
      let (printed, m') = alloc m in
      if printed
      then (elim (proc_comm pid) [
        | none ↦ done (none, m')
        | some content ↦ comm_text content >>= (λ comm. done (strdup comm m'))
      ])
      else done (none, m')

  unfoldable pub register_if : Option Str → ℤ → Tep → Tep
  register_if none pid tep = tep
  register_if (some comm) pid tep = register_comm tep comm pid

  -- What follows `get_comm_from_pid`: the handle, and what the buffer holds.
  abbrev pub comm_found : TepRecord → ℤ → Tep → Str → Option Str × Mem → Run (Tep × Str × Mem)
  comm_found rec pid tep s (comm, m) =
      let tep' = register_if comm pid tep in done (tep', s ++ print_comm tep' rec, m)

  unfoldable pub print_comm_pid : TepRecord → TepEvent → Tep × Str × Mem → Run (Tep × Str × Mem)
  print_comm_pid rec event (tep, s, m) =
      let pid = get_pid event rec in
      if is_pid_registered tep pid
      then done (tep, s ++ print_comm tep rec, m)
      else (get_comm_from_pid pid m >>= comm_found rec pid tep s)

  unfoldable pub print_name_info : TepRecord → TepEvent → Tep × Str × Mem → Tep × Str × Mem
  print_name_info rec event (tep, s, m) =
      (tep, s ++ (b' ' ∷ event_name event ++ (codes ": " ++ print_info tep rec)), m)

  -- What follows `print_comm_pid` in `print_event`.
  abbrev pub print_rest : TepRecord → TepEvent → Tep × Str × Mem → Run (Tep × Str × Mem)
  print_rest rec event (tep, s, m) =
      done (print_name_info rec event (tep, s ++ print_cpu tep rec, m))

  unfoldable pub print_event : TepRecord → TepEvent → Tep × Str × Mem → Run (Tep × Str × Mem)
  print_event rec event (tep, s, m) =
      print_comm_pid rec event (tep, s ++ print_time tep rec, m) >>= print_rest rec event

  abbrev pub text_of : Tep × Str × Mem → Run (Option Str × Tep × Option Str)
  text_of (tep, s, m) = done (some s, tep, some s)

  -- A method that prints: the text, or an error, with the handle and the buffer that it leaves.
  unfoldable pub printed :
      (TepRecord → TepEvent → Tep × Str × Mem → Run (Tep × Str × Mem))
      → Bool
      → Tep
      → Option Str
      → Option TepEvent
      → Option TepRecord
      → Mem
      → Run (Option Str × Tep × Option Str)
  printed print got tep buffer obj_evt obj_rec m =
      let (args, buffer') = print_init got buffer obj_evt obj_rec in
      elim args [
        | none ↦ done (none, tep, buffer')
        | some (event, rec) ↦ print rec event (tep, [], m) >>= text_of
      ]

  -- `PyTep_event_record`, `PyTep_info`, `PyTep_process`
  unfoldable pub event_record :
      Bool
      → Tep
      → Option Str
      → Option TepEvent
      → Option TepRecord
      → Mem
      → Run (Option Str × Tep × Option Str)
  event_record = printed print_event

  unfoldable pub tep_info :
      Bool
      → Tep
      → Option Str
      → Option TepEvent
      → Option TepRecord
      → Mem
      → Run (Option Str × Tep × Option Str)
  tep_info = printed (λ rec event r. done (print_name_info rec event r))

  unfoldable pub tep_process :
      Bool
      → Tep
      → Option Str
      → Option TepEvent
      → Option TepRecord
      → Mem
      → Run (Option Str × Tep × Option Str)
  tep_process = printed print_comm_pid

  -- `PyTep_short_kprobe_print`, with the default of `id`; false is an error.
  unfoldable pub short_kprobe_print : Tep → Str → Str → Option ℤ → Bool × Tep
  short_kprobe_print tep system event id =
      let (ret, tep') =
        register_event_handler tep (elim id [ none ↦ negsuc 0 | some i ↦ i ]) system event in
      (not (is_neg ret), tep')
