-- ===== src/Utrace/Enable/Laws.antt =====
-- What enabling the user-space tracer does, with and without waiting for the traced process.
use trace_cruncher.Base.{
  ◌≡◌, refl, ◌⊎◌, inl, inr, Bool, true, false, List, [], some, none, arith, ◌==◌, length, All, not,
  ◌∙◌, ap, Bool-cases, sym,
}
use trace_cruncher.Alloc.{◌>>=◌}
use trace_cruncher.Utrace.Generate.Laws.{IsLive, generate_uprobes_total}
use trace_cruncher.Ftrace.{Tracefs}
use trace_cruncher.Utrace.Probes.{Dynevents}
use trace_cruncher.Utrace.Enable.{
  py_utrace_enable, user_trace_enable, generated, after_enable, start, wait_and_disable,
  uprobe_exec_cmd, Spawn, Tracing, in_python, Where, uprobe_start_trace, enabled, in_child,
  py_utrace_disable, start_if_any, conclude, returned,
}
use trace_cruncher.Dbg.Bfd.{BfdLib}
use trace_cruncher.Utrace.Session.{WaitSystem, Poll, utrace_wait_pid, Step}
use trace_cruncher.Base.Int.{ℤ, is_zero, negsuc}
use trace_cruncher.Alloc.{done}
use trace_cruncher.Text.{Str}
use trace_cruncher.Dbg.Resolve.Laws.{Readable?}
use trace_cruncher.Trace.{child}

-- The system as a successful or failing start leaves it.
module _ (fs : Tracefs) (lib : Dynevents) where
  open fs use {World, Instance}

  start_if_any-start :
      (inst : Instance) (spawn : Spawn) (w : World) (t : Tracing lib)
      → (length t.probes.uevents.entries == 0) ≡ false
      → start_if_any fs lib inst spawn w t ≡ (
          let (place, pid, w') = start fs t.usystem t.pid t.cmd_argv inst spawn w in
          done (true, place, record t { pid = pid }, w'))
  unfolding start_if_any
  start_if_any-start inst spawn w t h = rw h refl

  start_if_any_none :
      (inst : Instance) (spawn : Spawn) (w : World) (t : Tracing lib)
      → (length t.probes.uevents.entries == 0) ≡ true
      → start_if_any fs lib inst spawn w t ≡ done (false, in_python, t, w)
  unfolding start_if_any
  start_if_any_none inst spawn w t h = rw h refl

  enable_same :
      (bfd : BfdLib) (inst : Instance) (spawn : Spawn) (t : Tracing lib) (w : World)
      → (length t.probes.uevents.entries == 0) ≡ false
      → py_utrace_enable fs lib bfd inst spawn t w ≡ (
          let (place, pid, w') = start fs t.usystem t.pid t.cmd_argv inst spawn w in
          done (true, place, record t { pid = pid }, w'))
  unfolding py_utrace_enable generated
  enable_same bfd inst spawn t w h = rw h (start_if_any-start inst spawn w t h)

  -- A tracer that has its events generates none: it only starts, and the call reports success whatever
  -- the start does, also where the PID or the events are refused.
  pub py_utrace_enable-start :
      (bfd : BfdLib) (inst : Instance) (spawn : Spawn) (t : Tracing lib) (w : World)
      → (length t.probes.uevents.entries == 0) ≡ false
      → t.cmd_argv ≡ none
      → py_utrace_enable fs lib bfd inst spawn t w
        ≡ done (true, in_python, t, (uprobe_start_trace fs t.usystem t.pid inst w).1)
  unfolding start
  py_utrace_enable-start bfd inst spawn t w h e =
      enable_same bfd inst spawn t w h
      ∙ ap
          (λ argv.
            let (place, pid, w') = start fs t.usystem t.pid argv inst spawn w in
            done (true, place, record t { pid = pid }, w'))
          e

  generated_total :
      (bfd : BfdLib) (t : Tracing lib)
      → t.probes.mem ≡ []
      → All (λ f. Readable? f.dbg) t.dbg.files
      → All IsLive t.ufuncs
      → (t' : Tracing lib) × (generated fs lib bfd t ≡ done t')
        × (t'.ufuncs ≡ t.ufuncs)
        × (t'.usystem ≡ t.usystem)
        × (t'.cmd_argv ≡ t.cmd_argv)
        × (t'.pid ≡ t.pid)
  unfolding generated
  generated_total bfd t m r l = elim (Bool-cases (length t.probes.uevents.entries == 0)) [
    | inl e ↦
        let (dbg', s', made, _) =
          generate_uprobes_total lib bfd t.usystem t.ufuncs t.dbg t.probes m r l in
        (record t { dbg = dbg'; probes = s' }, rw e (rw made refl), refl, refl, refl, refl)
    | inr e ↦ (t, rw e refl, refl, refl, refl, refl)
  ]

  -- With every allocation of the resolving successful, all opened files readable and no function of
  -- the list freed, enabling a tracer ends. It is refused exactly if there are no events then, and in
  -- that case the files of tracefs that switch events and set PIDs are as they were; otherwise it has
  -- started, with the program, PID and name of the system that the tracer had, and the PID of the
  -- start is the tracer's now. Its functions, its name of the system and its program are as they were.
  pub py_utrace_enable_total :
      (bfd : BfdLib) (inst : Instance) (spawn : Spawn) (t : Tracing lib) (w : World)
      → t.probes.mem ≡ []
      → All (λ f. Readable? f.dbg) t.dbg.files
      → All IsLive t.ufuncs
      → (t' : Tracing lib) × (ok : Bool) × (place : Where) × (w' : World) × (py_utrace_enable fs lib
            bfd inst spawn t w
          ≡ done (ok, place, t', w'))
        × (ok ≡ not (length t'.probes.uevents.entries == 0))
        × (((ok ≡ true) × (start fs t.usystem t.pid t.cmd_argv inst spawn w ≡ (place, t'.pid, w')))
            ⊎ ((ok ≡ false) × (w' ≡ w)))
        × (t'.ufuncs ≡ t.ufuncs)
        × (t'.usystem ≡ t.usystem)
        × (t'.cmd_argv ≡ t.cmd_argv)
  unfolding py_utrace_enable
  py_utrace_enable_total bfd inst spawn t w m r l =
      let (t', made, k₁, k₂, k₃, k₄) = generated_total bfd t m r l in
      elim (Bool-cases (length t'.probes.uevents.entries == 0)) [
        | inl e ↦ (
          t',
          false,
          in_python,
          w,
          ap (λ m. m >>= start_if_any fs lib inst spawn w) made
              ∙ start_if_any_none inst spawn w t' e,
          ground arith,
          inr (refl, refl),
          k₁,
          k₂,
          k₃,
        )
        | inr e ↦
            let (place, pid, w') = start fs t'.usystem t'.pid t'.cmd_argv inst spawn w in
            (
              record t' { pid = pid },
              true,
              place,
              w',
              ap (λ m. m >>= start_if_any fs lib inst spawn w) made
                  ∙ start_if_any-start inst spawn w t' e,
              ground arith,
              inl (
                refl,
                ap (λ u. start fs u t.pid t.cmd_argv inst spawn w) (sym k₂)
                    ∙ (ap (λ p. start fs t'.usystem p t.cmd_argv inst spawn w) (sym k₄)
                        ∙ ap (λ a. start fs t'.usystem t'.pid a inst spawn w) (sym k₃)),
              ),
              k₁,
              k₂,
              k₃,
            )
      ]

  wait_returned :
      (sys : WaitSystem) (polls : List Poll) (inst : Instance) (place : Where) (t : Tracing lib)
      (w : World) (ret pid : ℤ) (steps : List Step)
      → utrace_wait_pid sys polls t.pid t.trace_time ≡ returned ret pid steps
      → wait_and_disable fs lib sys polls inst place t w
        ≡ enabled place (record t { pid = pid }) (py_utrace_disable fs t.usystem inst w).1 steps
  unfolding wait_and_disable
  wait_returned sys polls inst place t w ret pid steps h = rw (h, wait_and_disable) refl

  -- A child process whose program cannot be executed goes on in Python: with `wait`, it does not wait,
  -- and it disables the events that the parent has enabled.
  pub user_trace_enable-child :
      (sys : WaitSystem) (polls : List Poll) (bfd : BfdLib) (inst : Instance) (pid : ℤ)
      (t : Tracing lib) (w : World) (argv : List Str)
      → (length t.probes.uevents.entries == 0) ≡ false
      → t.cmd_argv ≡ some argv
      → is_zero t.pid ≡ true
      → user_trace_enable fs lib sys polls bfd
          (some inst)
          (record { fork = child; child_pid = pid; exec = false })
          true
          t
          w
        ≡ done (enabled in_child t (py_utrace_disable fs t.usystem inst w).1 [])
  unfolding user_trace_enable conclude after_enable wait_and_disable start uprobe_exec_cmd
      utrace_wait_pid
  user_trace_enable-child sys polls bfd inst pid t w argv h e p =
      let spawn : Spawn = record { fork = child; child_pid = pid; exec = false } in
      ap (λ m. m >>= conclude fs lib sys polls inst true)
        (enable_same bfd inst spawn t w h
          ∙ ap
              (λ argv.
                let (place, pid, w') = start fs t.usystem t.pid argv inst spawn w in
                done (true, place, record t { pid = pid }, w'))
              e)
      ∙ ap done (
          wait_returned sys polls inst in_child t w (negsuc 0) t.pid []
            (rw (p, utrace_wait_pid) refl))
