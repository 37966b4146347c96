-- ===== src/Dbg/Filemap/Outcome.antt =====
-- What `dbg_trace_get_filemap` leaves in the list of memory maps on each outcome.
use trace_cruncher.Base.{
  ℕ, ◌≡◌, ◌≢◌, refl, inl, inr, true, false, List, [], ◌∷◌, none, some, if◌then◌else◌, arith,
  Bool-cases, sym,
}
use trace_cruncher.Base.Int.{ℤ, pos, negsuc}
use trace_cruncher.Text.{Str}
use trace_cruncher.Alloc.{Mem, alloc, Run, done, fault}
use trace_cruncher.Dbg.{PidMaps}
use trace_cruncher.Dbg.Filemap.{
  Line, Scanned, complete, no_memory, use_after_free, scan_lines, unlink, has_pid, refill, Mapped,
  enomem, fill_entry, get_filemap_of, dbg_trace_get_filemap, name_failed, int_eq,
}
use trace_cruncher.Dbg.Filemap.Laws.{
  named_maps, lookup, scan_lines-nil, scan_lines-complete, lookup-refill_self, lookup-refill_ne,
  int_eq_self, eq_of_int_eq,
}

-- The list without the first entry of the process, which is the only one where no PID has two.
abbrev pub without_pid : ℤ → List PidMaps → List PidMaps
without_pid pid [] = []
without_pid pid (p ∷ ps) = if int_eq pid p.pid then ps else p ∷ without_pid pid ps

unlink-without_pid : (pid : ℤ) (ps : List PidMaps) → unlink pid ps ≡ without_pid pid ps
unfolding unlink
unlink-without_pid pid [] = refl
unlink-without_pid pid (p ∷ ps) = rw (unlink-without_pid pid ps)

without_pid-new : (pid : ℤ) (ps : List PidMaps) → has_pid pid ps ≡ false → without_pid pid ps ≡ ps
unfolding has_pid
without_pid-new pid [] e = refl
without_pid-new pid (p ∷ ps) e = ground (arith, e, without_pid-new pid ps)

-- What a call leaves of a list: on success the entry of the process has the lines that name a file,
-- in order, and the path of its executable, and the entries of other processes are as they were; on a
-- failure the list has lost the entry of the process, and nothing else. Freed memory is used only
-- where an allocation fails.
abbrev pub Outcome : ℤ → Str → List Line → List PidMaps → Mem → Run Mapped → Type 0
Outcome pid exe lines ps m₀ fault = m₀ ≢ []
Outcome pid exe lines ps m₀ (done (pos n, ps', m)) =
    (lookup pid ps' ≡ some (record { lib_maps = named_maps lines; proc_name = exe; pid = pid }))
    × ((other : ℤ) → other ≢ pid → lookup other ps' ≡ lookup other ps)
Outcome pid exe lines ps m₀ (done (negsuc n, ps', m)) = ps' ≡ without_pid pid ps

never : (lines : List Line) (m : Mem) → m ≡ [] → scan_lines lines [] (alloc m).1 ≢ use_after_free
unfolding alloc
never lines m nil e = ground (arith, e, nil, scan_lines-nil lines [])

fill_entry-Outcome :
    (pid : ℤ) (exe : Str) (lines : List Line) (set : PidMaps → List PidMaps)
    (without ps : List PidMaps) (m₀ m : Mem)
    → (m₀ ≡ [] → m ≡ [])
    → ((new : PidMaps) → new.pid ≡ pid → lookup pid (set new) ≡ some new)
    → ((new : PidMaps) (other : ℤ)
        → new.pid ≡ pid
        → other ≢ pid
        → lookup other (set new) ≡ lookup other ps)
    → without ≡ without_pid pid ps
    → Outcome pid exe lines ps m₀ (fill_entry pid exe lines set without m)
unfolding fill_entry
fill_entry-Outcome pid exe lines set without ps m₀ m all here there gone =
    elim (Bool-cases (alloc m).0) [
      | inr no_name ↦ rw (no_name, fill_entry) gone
      | inl named ↦ rw (named, fill_entry) (scanned (scan_lines lines [] (alloc m).1) refl)
    ]
  where
    entry : PidMaps
    entry = record { lib_maps = named_maps lines; proc_name = exe; pid = pid }

    scanned :
        (r : Scanned)
        → scan_lines lines [] (alloc m).1 ≡ r
        → Outcome pid exe lines ps m₀ (elim r [
          | complete ms m₂ ↦
              done (pos 0, set (record { lib_maps = ms; proc_name = exe; pid = pid }), m₂)
          | no_memory m₂ ↦ done (enomem, without, m₂)
          | use_after_free ↦ fault
        ])
    scanned (complete ms m₂) e =
        rw (scan_lines-complete lines [] ms (alloc m).1 m₂ e)
          (here entry refl, λ other ne. there entry other refl ne)
    scanned (no_memory m₂) e = gone
    scanned use_after_free e = λ nil. never lines m (all nil) e

lookup-cons_self :
    (pid : ℤ) (new : PidMaps) (ps : List PidMaps) → new.pid ≡ pid → lookup pid (new ∷ ps) ≡ some new
unfolding lookup
lookup-cons_self pid new ps e = ground (arith, int_eq_self pid)

lookup-cons_ne :
    (pid other : ℤ) (new : PidMaps) (ps : List PidMaps)
    → new.pid ≡ pid
    → other ≢ pid
    → lookup other (new ∷ ps) ≡ lookup other ps
unfolding lookup
lookup-cons_ne pid other new ps e ne = ground (arith, eq_of_int_eq other pid)

get_filemap_of-Outcome :
    (pid : ℤ) (exe : Str) (lines : List Line) (ps : List PidMaps) (m : Mem)
    → Outcome pid exe lines ps m (get_filemap_of pid exe lines ps m)
unfolding get_filemap_of alloc
get_filemap_of-Outcome pid exe lines ps m = elim (Bool-cases (has_pid pid ps)) [
  | inl old ↦
      rw (old, get_filemap_of)
        (fill_entry-Outcome pid exe lines (λ new. refill pid new ps) (unlink pid ps) ps m m (λ e. e)
          (λ new e. lookup-refill_self pid new ps e old)
          (λ new other e ne. lookup-refill_ne pid other new ps e ne) (unlink-without_pid pid ps))
  | inr new ↦ elim (Bool-cases (alloc m).0) [
    | inl got ↦
        rw (new, got, get_filemap_of)
          (fill_entry-Outcome pid exe lines (λ new. new ∷ ps) ps ps m (alloc m).1
            (λ e. ground (arith, e)) (λ new e. lookup-cons_self pid new ps e)
            (λ new other e ne. lookup-cons_ne pid other new ps e ne)
            (sym (without_pid-new pid ps new)))
    | inr failed ↦ rw (new, failed, get_filemap_of) (sym (without_pid-new pid ps new))
  ]
]

-- Reading the memory map of a process whose /proc files can be read leaves, however the allocations
-- turn out: on success, an entry for the process with exactly the lines that name a file, in order, and
-- its executable, and the entries of all other processes as they were; on a failure, the list less
-- the entry that the process had, if any, and otherwise unchanged. It uses freed memory only if the
-- allocations do not all succeed.
pub get_filemap-Outcome :
    (pid : ℤ) (exe : Str) (lines : List Line) (ps : List PidMaps) (m : Mem)
    → Outcome pid exe lines ps m
        (dbg_trace_get_filemap (record { exe = some exe; maps = some lines }) pid ps m)
unfolding dbg_trace_get_filemap
get_filemap-Outcome pid exe lines ps m = get_filemap_of-Outcome pid exe lines ps m

-- With every allocation successful the call returns 0, for every process and list of maps.
pub get_filemap_total :
    (pid : ℤ) (exe : Str) (lines : List Line) (ps : List PidMaps)
    → (ps' : List PidMaps) × (dbg_trace_get_filemap
          (record { exe = some exe; maps = some lines })
          pid
          ps
          []
        ≡ done (pos 0, ps', []))
unfolding dbg_trace_get_filemap get_filemap_of fill_entry alloc
get_filemap_total pid exe lines ps =
    let entry : PidMaps = record { lib_maps = named_maps lines; proc_name = exe; pid = pid } in
    (
      if has_pid pid ps then refill pid entry ps else entry ∷ ps,
      ground (arith, scan_lines-nil lines []),
    )

-- A `strdup` that fails after at least one line was stored lets the cleanup read freed memory.
pub get_filemap-fault :
    (pid : ℤ) (exe : Str) (begin end c : ℕ) (name : Str) (first : Line) (rest : List Line)
    (ps : List PidMaps)
    → named_maps (first ∷ []) ≢ []
    → dbg_trace_get_filemap
        (record { exe = some exe; maps = some (first ∷ some (begin, end, c ∷ name) ∷ rest) })
        pid
        ps
        (if has_pid pid ps
          then true ∷ true ∷ true ∷ true ∷ false ∷ []
          else true ∷ true ∷ true ∷ true ∷ true ∷ false ∷ [])
      ≡ fault
unfolding dbg_trace_get_filemap get_filemap_of fill_entry alloc scan_lines name_failed
get_filemap-fault pid exe begin end c name none rest ps h = absurd (h refl)
get_filemap-fault pid exe begin end c name (some (b, e, [])) rest ps h = absurd (h refl)
get_filemap-fault pid exe begin end c name (some (b, e, d ∷ other)) rest ps h = ground arith
