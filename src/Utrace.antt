-- ===== src/Utrace.antt =====
-- The user-space tracer of src/ftracepy-utils.c: the list of traced functions, the names of uprobe
-- events, and the callback that creates the probes.
pub mod Functions
pub mod Names
pub mod Probes
pub mod Generate
pub mod Session
pub mod Enable
pub mod Create
pub mod Destroy
mod Tests
use trace_cruncher.Base.{
  ℕ, zero, suc, ◌+◌, ◌*◌, ◌^◌, bit_or, Bool, true, false, not, ◌&&◌, ◌||◌, List, [], ◌∷◌, ◌++◌,
  Option, none, some, arith, ◌==◌, leb, if◌then◌else◌, length, get_elem?, modify, take,
}
use trace_cruncher.Base.Int.{ℤ, pos, negsuc, is_zero}
use trace_cruncher.Text.{Str, codes, str_eq, fname_unify, strchr}
use trace_cruncher.Alloc.{Mem, alloc, Run, done, fault}
use trace_cruncher.Dbg.{TraceSymbol}
use trace_cruncher.Dbg.Context.{Context}
use trace_cruncher.Dbg.Requests.{dbg_trace_add_resolve_symbol}

-- `struct fprobes_list`: `data[0 .. count)` is `entries`.
pub record ProbesList {ℓ} (A : Type ℓ) : Type ℓ where
  pub size : ℕ
  pub entries : List A

abbrev pub utrace_list_init_size : ℕ
utrace_list_init_size = 100

-- The index of the new entry, or -1. The capacity is an `int` that the source does not check.
unfoldable pub utrace_list_add {ℓ} :
    {A : Type ℓ} → ProbesList A → A → Mem → Option ℕ × ProbesList A × Mem
utrace_list_add list x m =
    let count = length list.entries in
    let size = (if list.size == 0 then utrace_list_init_size else 2 * list.size) in
    let (got, m') = alloc m in
    let added = list.entries ++ x ∷ [] in
    if leb list.size count
    then (if got
        then (some count, record { size = size; entries = added }, m')
        else (none, list, m'))
    else (some count, record list { entries = added }, m)

-- `struct utrace_func`: `type` is a pair of flags, and `func_args` stays NULL. An entry of the list
-- may point to a function that was freed.
pub record UtraceFunc : Type 0 where
  pub uprobe : Bool
  pub uretprobe : Bool
  pub func_name : Str

pub data Entry : Type 0 where
  live : UtraceFunc → Entry
  freed : Entry

-- `FTRACE_UPROBE`, `FTRACE_URETPROBE`
pub data ProbeType : Type 0 where
  ftrace_uprobe ftrace_uretprobe : ProbeType

abbrev pub is_ret : ProbeType → Bool
is_ret ftrace_uprobe = false
is_ret ftrace_uretprobe = true

-- `p->type |= type`
unfoldable pub add_type : ProbeType → UtraceFunc → UtraceFunc
add_type type p = record p {
  uprobe = p.uprobe || not (is_ret type);
  uretprobe = p.uretprobe || is_ret type;
}

unfoldable pub new_func : Str → ProbeType → UtraceFunc
new_func func type = record {
  uprobe = not (is_ret type);
  uretprobe = is_ret type;
  func_name = func;
}

-- The loop over the functions: the list with the type added, or none where no name is equal. An
-- entry that was freed is read.
unfoldable pub add_to_known : Str → ProbeType → List Entry → Run (Option (List Entry))
add_to_known func type [] = done none
add_to_known func type (freed ∷ fs) = fault
add_to_known func type (live p ∷ fs) =
    let rest = add_to_known func type fs in
    if str_eq p.func_name func then done (some (live (add_type type p) ∷ fs)) else (elim rest [
      | fault ↦ fault
      | done none ↦ done none
      | done (some fs') ↦ done (some (live p ∷ fs'))
    ])

-- The fields of `struct py_utrace_context` that change while functions are added.
pub record UtraceContext : Type 0 where
  pub ufuncs : ProbesList Entry
  pub dbg : Context

-- From `calloc` on. Where the request cannot be added, the new function is freed and its pointer
-- stays in the list.
unfoldable pub add_new_func : UtraceContext → Str → ProbeType → Mem → Bool × UtraceContext × Mem
add_new_func utrace func type m =
    let (got, m₁) = alloc m in
    let (copied, m₂) = alloc m₁ in
    let (index, ufuncs, m₃) = utrace_list_add utrace.ufuncs (live (new_func func type)) m₂ in
    if got
    then (if copied
        then (elim index [
          | none ↦ (false, utrace, m₃)
          | some i ↦
              let (ret, dbg, m₄) =
                dbg_trace_add_resolve_symbol utrace.dbg 0 (some func) (pos i) m₃ in
              if is_zero ret then (true, record { ufuncs = ufuncs; dbg = dbg }, m₄) else (
                false,
                record {
                  ufuncs = record ufuncs { entries = modify ufuncs.entries i (λ _. freed) };
                  dbg = dbg;
                },
                m₄,
              )
        ])
        else (false, utrace, m₂))
    else (false, utrace, m₁)

-- `py_utrace_add_func`: 0 is true.
unfoldable pub py_utrace_add_func :
    UtraceContext → Str → ProbeType → Mem → Run (Bool × UtraceContext × Mem)
py_utrace_add_func utrace func type m = elim (add_to_known func type utrace.ufuncs.entries) [
  | fault ↦ fault
  | done (some fs) ↦
      done (true, record utrace { ufuncs = record utrace.ufuncs { entries = fs } }, m)
  | done none ↦ done (add_new_func utrace func type m)
]

-- `PyUserTrace_add_function` and `PyUserTrace_add_ret_function`, after their argument was parsed: false
-- is the error for memory.
unfoldable pub user_trace_add_function :
    UtraceContext → Str → Mem → Run (Bool × UtraceContext × Mem)
user_trace_add_function utrace fname m = py_utrace_add_func utrace fname ftrace_uprobe m

unfoldable pub user_trace_add_ret_function :
    UtraceContext → Str → Mem → Run (Bool × UtraceContext × Mem)
user_trace_add_ret_function utrace fname m = py_utrace_add_func utrace fname ftrace_uretprobe m

-- `strrchr(file, '/') + 1`, or the whole path where there is no slash.
unfoldable pub after_slash : Str → Str
after_slash [] = []
after_slash (c ∷ s) =
    let rest = after_slash s in
    if c == b'/'
    then (if strchr s b'/' then rest else s)
    else (if strchr s b'/' then rest else c ∷ s)

-- The name of the file without its directories, or the path itself where that is empty.
unfoldable pub base_name : Str → Str
base_name file = elim (after_slash file) [ [] ↦ file | c ∷ s ↦ c ∷ s ]

abbrev pub filename_truncate : ℕ
filename_truncate = 10

abbrev pub funcname_truncate : ℕ
funcname_truncate = 50

unfoldable pub uprobe_event_name : Str → Str → ProbeType → Mem → Option Str × Mem
uprobe_event_name file func type m =
    let (got, m') = alloc m in
    let event =
      (if is_ret type then codes "r_" else [])
      ++ (take filename_truncate (base_name file) ++ b'_' ∷ take funcname_truncate func) in
    (if got then some (fname_unify event) else none, m')
