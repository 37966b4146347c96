-- ===== src/Trace/Loop.antt =====
-- The loops that pass the events of a trace to Python.
use trace_cruncher.Base.{
  ◌≡◌, refl, Bool, true, false, List, [], ◌∷◌, ◌++◌, arith, ◌||◌, not, if◌then◌else◌, All, map, ap,
  ◌∙◌, Bool-cases, inl, inr, sym,
}
use trace_cruncher.Trace.{
  Called, Ran, exited, ran, Ctx, callback, Round, iterate_rounds, ◌>>=◌, gives, wants_stop,
  system_exit, exit_code, raises, iterate_raw_events_waitpid,
}
use trace_cruncher.Base.Int.{ℤ, is_neg, is_zero}

module _ {Event P : Type 0} (py_callback : Event → P → Called × P) where
  -- The loop is over: it has returned, or Python has ended the process.
  abbrev pub IsOver : Ran (Bool × Ctx P) → Type 0
  IsOver (exited code) = Unit
  IsOver (ran (over, ctx)) = over ≡ true

  bind-IsOver :
      (m : Ran (ℤ × Ctx P)) (f : ℤ × Ctx P → Ran (Bool × Ctx P))
      → ((s : ℤ × Ctx P) → IsOver (f s))
      → IsOver (m >>= f)
  bind-IsOver (exited code) f h = tt
  bind-IsOver (ran s) f h = h s

  branch-IsOver :
      (b : Bool) (ctx : Ctx P) (rest : Ran (Bool × Ctx P))
      → IsOver rest
      → IsOver (if b then ran (true, ctx) else rest)
  branch-IsOver true ctx rest h = refl
  branch-IsOver false ctx rest h = h

  -- However the library reads and whatever the callback does, the loop is over at the latest behind
  -- the first round that is told to end.
  pub iterate_rounds-ends :
      (before after : List (Round py_callback)) (r : Round py_callback) (ctx : Ctx P)
      → r.ends ≡ true
      → IsOver (iterate_rounds py_callback (before ++ r ∷ after) ctx)
  unfolding iterate_rounds
  iterate_rounds-ends [] after r ctx h =
      bind-IsOver (r.iterate (callback py_callback) ctx) _
        (λ s. branch-IsOver (not (s.1.status) || is_neg s.0) s.1 _ (rw h refl))
  iterate_rounds-ends (b ∷ before) after r ctx h =
      bind-IsOver (b.iterate (callback py_callback) ctx) _ (λ s.
        branch-IsOver (not (s.1.status) || is_neg s.0) s.1 _
          (branch-IsOver (b.ends) s.1 _ (iterate_rounds-ends before after r s.1 h)))

  -- What a round of the library reads: its events, what it returns at their end, and what it returns
  -- where the callback stops it.
  pub record Batch : Type 0 where
    pub events : List Event
    pub ret : ℤ
    pub stop_ret : ℤ

  -- Passing events to a function until it returns what is not 0.
  abbrev pub visit_events :
      (Event → Ctx P → Ran (ℤ × Ctx P)) → ℤ → ℤ → List Event → Ctx P → Ran (ℤ × Ctx P)
  visit_events f ret stop_ret [] ctx = ran (ret, ctx)
  visit_events f ret stop_ret (e ∷ es) ctx =
      f e ctx
      >>= (λ s. if is_zero s.0 then visit_events f ret stop_ret es s.1 else ran (stop_ret, s.1))

  abbrev pub Reads : Round py_callback × Batch → Type 0
  Reads (r, b) =
      (f : Event → Ctx P → Ran (ℤ × Ctx P)) (ctx : Ctx P)
      → r.iterate f ctx ≡ visit_events f b.ret b.stop_ret b.events ctx

  -- The events of all rounds up to the first that ends the loop by itself, and whether there is one.
  abbrev pub stream : List (Round py_callback × Batch) → List Event × Bool
  stream [] = ([], false)
  stream ((r, b) ∷ rs) =
      let (events, over) = stream rs in
      if is_neg b.ret || r.ends then (b.events, true) else (b.events ++ events, over)

  -- The one loop that is meant: until the callback stops, and whether it did.
  abbrev pub until_stop : List Event → P → Ran (Bool × P)
  until_stop [] py = ran (false, py)
  until_stop (e ∷ es) py =
      let (called, py') = py_callback e py in
      elim called [
        | gives o ↦ if wants_stop o then ran (true, py') else until_stop es py'
        | raises ↦ ran (true, py')
        | system_exit v ↦ exited (exit_code v)
      ]

  abbrev pub finish : Bool → Bool × P → Ran (Bool × Ctx P)
  finish over (stopped, py) = ran (stopped || over, record { status = not stopped; py = py })

  abbrev read : ℤ → ℤ → Bool × P → Ran (ℤ × Ctx P)
  read ret stop_ret (stopped, py) =
      ran (if stopped then stop_ret else ret, record { status = not stopped; py = py })

  visit_events-callback :
      (ret stop_ret : ℤ) (es : List Event) (py : P)
      → visit_events (callback py_callback) ret stop_ret es (record { status = true; py = py })
        ≡ until_stop es py >>= read ret stop_ret
  unfolding callback
  visit_events-callback ret stop_ret [] py = refl
  visit_events-callback ret stop_ret (e ∷ es) py =
      ground (arith, visit_events-callback ret stop_ret es (py_callback e py).1)

  abbrev then_rest : (P → Ran (Bool × Ctx P)) → Bool × P → Ran (Bool × Ctx P)
  then_rest rest (stopped, py) =
      if stopped then ran (true, record { status = false; py = py }) else rest py

  until_stop-append :
      (xs ys : List Event) (py : P) (over : Bool)
      → until_stop (xs ++ ys) py >>= finish over
        ≡ until_stop xs py >>= then_rest (λ py'. until_stop ys py' >>= finish over)
  until_stop-append [] ys py over = refl
  until_stop-append (x ∷ xs) ys py over =
      ground (arith, until_stop-append xs ys (py_callback x py).1 over)

  after_read : Bool → (Ctx P → Ran (Bool × Ctx P)) → ℤ × Ctx P → Ran (Bool × Ctx P)
  after_read ends rest s =
      if not (s.1.status) || is_neg s.0
      then ran (true, s.1)
      else (if ends then ran (true, s.1) else rest s.1)

  read-after_read :
      (m : Ran (Bool × P)) (ret stop_ret : ℤ) (ends : Bool) (rest : Ctx P → Ran (Bool × Ctx P))
      → (m >>= read ret stop_ret) >>= after_read ends rest ≡ (
          if is_neg ret || ends
          then m >>= finish true
          else m >>= then_rest (λ py. rest (record { status = true; py = py })))
  unfolding after_read
  read-after_read (exited code) ret stop_ret ends rest = ground arith
  read-after_read (ran (true, py)) ret stop_ret ends rest = ground arith
  read-after_read (ran (false, py)) ret stop_ret ends rest = ground arith

  rest_same :
      (m : Ran (Bool × P)) (f g : P → Ran (Bool × Ctx P))
      → ((py : P) → f py ≡ g py)
      → m >>= then_rest f ≡ m >>= then_rest g
  rest_same (exited code) f g h = refl
  rest_same (ran (true, py)) f g h = refl
  rest_same (ran (false, py)) f g h = h py

  -- The two nested loops with their flag do what the one loop means: the callback is called on the
  -- events of the rounds, in order, up to the first call that wants to stop, that raises an error or
  -- that ends the process, and no further than the first round that fails or is told to end. It holds
  -- for a library whose rounds read their events in order until the callback returns what is not 0.
  pub iterate-until_stop :
      (rs : List (Round py_callback × Batch)) (py : P)
      → All Reads rs
      → iterate_raw_events_waitpid py_callback (map (λ r. r.0) rs) py
        ≡ until_stop (stream rs).0 py >>= finish (stream rs).1
  unfolding iterate_raw_events_waitpid iterate_rounds after_read
  iterate-until_stop [] py h = refl
  iterate-until_stop ((r, b) ∷ rs) py h =
      let rest : Ctx P → Ran (Bool × Ctx P) = iterate_rounds py_callback (map (λ r. r.0) rs) in
      ap (λ m. m >>= after_read r.ends rest)
        (h.0 (callback py_callback) (record { status = true; py = py })
          ∙ visit_events-callback b.ret b.stop_ret b.events py)
      ∙ (read-after_read (until_stop b.events py) b.ret b.stop_ret r.ends rest
          ∙ elim (Bool-cases (is_neg b.ret || r.ends)) [
            | inl e ↦ rw e refl
            | inr e ↦ rw e (
                rest_same (until_stop b.events py) _ _ (λ py'. iterate-until_stop rs py' h.1)
                ∙ sym (until_stop-append b.events (stream rs).0 py (stream rs).1))
          ])
