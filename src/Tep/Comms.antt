-- ===== src/Tep/Comms.antt =====
-- The names of processes: what `get_comm_from_pid` gives, and what registering it changes.
use trace_cruncher.Base.{
  ◌≡◌, refl, ◌∙◌, ap, ◌++◌, inl, inr, Bool, true, false, [], ◌∷◌, Option, none, some, if◌then◌else◌,
  arith, Bool-cases, Option-cases, ◌≢◌, length, ◌==◌, ◌<◌,
}
use trace_cruncher.Base.Int.{ℤ}
use trace_cruncher.Text.{Str, trim_new_line}
use trace_cruncher.Alloc.{Mem, alloc, strdup, Run, done, fault}
use trace_cruncher.Dbg.Filemap.{int_eq}
use trace_cruncher.Record.{c_string}
use trace_cruncher.Tep.{TepLib, comm_text, get_comm_from_pid, register_if, path_max}

abbrev pub is_named {ℓ} : {A : Type ℓ} → Option A → Bool
is_named none = false
is_named (some a) = true

-- What libtraceevent documents of the names of processes: a PID is registered where it has a name, and
-- registering one that has none names it. (One that has a name is refused.)
pub record CommNames (lib : TepLib) : Type 0 where
  pub name_of : lib.Tep → ℤ → Option Str
  pub registered :
      (tep : lib.Tep) (pid : ℤ) → lib.is_pid_registered tep pid ≡ is_named (name_of tep pid)
  pub named :
      (tep : lib.Tep) (comm : Str) (pid q : ℤ)
      → name_of tep pid ≡ none
      → name_of (lib.register_comm tep comm pid) q
        ≡ (if int_eq pid q then some comm else name_of tep q)

pub int_eq_self : (a b : ℤ) → int_eq a b ≡ true → a ≡ b
unfolding int_eq
int_eq_self a b e = ground (arith, e)

-- What the file `comm` of a process holds: not empty, and fewer bytes than the buffer has.
abbrev pub IsComm : Str → Type 0
IsComm [] = ⊥
IsComm (c ∷ s) = (c ≢ 0) × (length (c ∷ s) < path_max)

abbrev pub CommIsText : TepLib → ℤ → Type 0
CommIsText lib pid = (content : Str) → lib.proc_comm pid ≡ some content → IsComm content

c_string-nul : (s : Str) → (t : Str) × (c_string (s ++ 0 ∷ []) ≡ done t)
unfolding c_string
c_string-nul [] = ([], refl)
c_string-nul (c ∷ s) =
    let (t, e) = c_string-nul s in
    elim (Bool-cases (c == 0)) [
      | inl z ↦ ([], ground (arith, z))
      | inr z ↦ (c ∷ t, ground (arith, z, e))
    ]

pub comm_text_total : (s : Str) → IsComm s → (t : Str) × (comm_text s ≡ done t)
unfolding comm_text c_string
comm_text_total [] h = absurd h
comm_text_total (c ∷ s) h =
    let (t, e) = c_string-nul s in (trim_new_line (c ∷ t), ground (arith, h.0, h.1, e))

module _ (lib : TepLib) (names : CommNames lib) where
  open lib use {Tep}
  open names use {name_of, registered, named}

  -- The name that `/proc` has now.
  abbrev pub comm_now : ℤ → Option Str
  comm_now pid = elim (lib.proc_comm pid) [
    | none ↦ none
    | some content ↦ elim (comm_text content) [ fault ↦ none | done comm ↦ some comm ]
  ]

  -- The name of the process `q` after a record of `pid` was printed.
  abbrev pub name_after : Tep → ℤ → ℤ → Option Str
  name_after tep pid q = elim (name_of tep q) [
    | some comm ↦ some comm
    | none ↦ if int_eq pid q then comm_now pid else none
  ]

  comm_read :
      (pid : ℤ) (content : Str) (text : Run Str) (r : Option Str × Mem)
      → lib.proc_comm pid ≡ some content
      → comm_text content ≡ text
      → get_comm_from_pid lib pid [] ≡ done r
      → r.0 ≡ comm_now pid
  unfolding get_comm_from_pid alloc strdup
  comm_read pid content fault r f t e = ground (arith, e, f, t)
  comm_read pid content (done comm) r f t e = ground (arith, e, f, t)

  pub get_comm_now :
      (pid : ℤ) (r : Option Str × Mem) → get_comm_from_pid lib pid [] ≡ done r → r.0 ≡ comm_now pid
  unfolding get_comm_from_pid alloc
  get_comm_now pid r e = elim (Option-cases (lib.proc_comm pid)) [
    | inl f ↦ ground (arith, e, f)
    | inr (content, f) ↦ comm_read pid content (comm_text content) r f refl e
  ]

  abbrev pub name_then : Option Str → Tep → ℤ → ℤ → Option Str
  name_then c tep pid q = elim (name_of tep q) [
    | some comm ↦ some comm
    | none ↦ if int_eq pid q then c else none
  ]

  pub register_if-name_of :
      (c : Option Str) (tep : Tep) (pid q : ℤ)
      → name_of tep pid ≡ none
      → name_of (register_if lib c pid tep) q ≡ name_then c tep pid q
  unfolding register_if
  register_if-name_of none tep pid q n = elim (Option-cases (name_of tep q)) [
    | inl e ↦ ground (arith, e)
    | inr (comm, e) ↦ ground (arith, e)
  ]
  register_if-name_of (some c) tep pid q n = elim (Bool-cases (int_eq pid q)) [
    | inl e ↦
        ground (arith, named tep c pid q n, e, n ∙ refl, ap (name_of tep) (int_eq_self pid q e))
    | inr e ↦ elim (Option-cases (name_of tep q)) [
      | inl f ↦ ground (arith, named tep c pid q n, e, f)
      | inr (comm, f) ↦ ground (arith, named tep c pid q n, e, f)
    ]
  ]
