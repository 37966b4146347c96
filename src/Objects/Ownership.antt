-- ===== src/Objects/Ownership.antt =====
-- Who removes an event from the system: the object that added it, unless Python code says otherwise.
use trace_cruncher.Base.{
  ◌≡◌, refl, Bool, true, false, List, [], ◌∷◌, arith, if◌then◌else◌, ◌∙◌, ap, ap₂, sym, All, ◌&&◌,
  not,
}
use trace_cruncher.Base.Int.{is_neg}
use trace_cruncher.Objects.{
  Handles, Object, set_destroy_flag, dealloc, register, unregister, unowned, object_new,
}

-- What Python code does with an object that it holds.
pub data Call : Type 0 where
  do_register do_unregister do_attach do_detach : Call

-- The calls that take part in the protocol of an object: attaching and detaching by hand is not one.
abbrev pub IsProtocol : Call → Type 0
IsProtocol do_register = Unit
IsProtocol do_unregister = Unit
IsProtocol do_attach = ⊥
IsProtocol do_detach = ⊥

-- The abstract machine: whether the object owns its event, from the outcomes of the calls alone.
abbrev pub owner : Bool → List (Call × Bool) → Bool
owner b [] = b
owner b ((do_register, ok) ∷ cs) = owner (if ok then true else b) cs
owner b ((do_unregister, ok) ∷ cs) = owner (if ok then false else b) cs
owner b ((do_attach, ok) ∷ cs) = owner true cs
owner b ((do_detach, ok) ∷ cs) = owner false cs

owner-cons :
    (b : Bool) (c : Call) (ok : Bool) (cs : List (Call × Bool))
    → owner b ((c, ok) ∷ cs) ≡ owner (owner b ((c, ok) ∷ [])) cs
owner-cons b do_register ok cs = refl
owner-cons b do_unregister ok cs = refl
owner-cons b do_attach ok cs = refl
owner-cons b do_detach ok cs = refl

-- What the library does to its own event: an event is there after a `create` that succeeds, and is
-- not there after a `destroy` that succeeds; a call that fails changes neither.
pub record Lawful (lib : Handles) : Type 0 where
  pub registered : lib.World → lib.Ptr → Bool
  pub create_lem :
      (p : lib.Ptr) (w : lib.World)
      → registered (lib.create p w).1 p
        ≡ (if is_neg (lib.create p w).0 then registered w p else true)
  pub destroy_lem :
      (p : lib.Ptr) (w : lib.World)
      → registered (lib.destroy p w).1 p
        ≡ (if is_neg (lib.destroy p w).0 then registered w p else false)

module _ (lib : Handles) where
  open lib use {World, Ptr, destroy}

  abbrev pub call : Call → Object Ptr → World → Bool × Object Ptr × World
  call do_register o w = register lib o w
  call do_unregister o w = unregister lib o w
  call do_attach o w = (true, set_destroy_flag o true, w)
  call do_detach o w = (true, set_destroy_flag o false, w)

  -- A session of calls, with their outcomes.
  abbrev pub session : List Call → Object Ptr → World → List (Call × Bool) × Object Ptr × World
  session [] o w = ([], o, w)
  session (c ∷ cs) o w =
      let (ok, o', w') = call c o w in
      let (outcomes, o'', w'') = session cs o' w' in ((c, ok) ∷ outcomes, o'', w'')

  call-owner :
      (c : Call) (o : Object Ptr) (w : World)
      → ((call c o w).1.owned ≡ owner o.owned ((c, (call c o w).0) ∷ []))
        × ((call c o w).1.ptr ≡ o.ptr)
  unfolding register unregister set_destroy_flag
  call-owner do_register o w = (ground arith, ground arith)
  call-owner do_unregister o w = (ground arith, ground arith)
  call-owner do_attach o w = (refl, refl)
  call-owner do_detach o w = (refl, refl)

  session-flag :
      (cs : List Call) (o : Object Ptr) (w : World)
      → ((session cs o w).1.owned ≡ owner o.owned (session cs o w).0)
        × ((session cs o w).1.ptr ≡ o.ptr)
  session-flag [] o w = (refl, refl)
  session-flag (c ∷ cs) o w =
      let (ok, o', w') = call c o w in
      let (flag, ptr) = call-owner c o w in
      let (flags, ptrs) = session-flag cs o' w' in
      (
        flags
            ∙ (ap (λ b. owner b (session cs o' w').0) flag
                ∙ sym (owner-cons o.owned c ok (session cs o' w').0)),
        ptrs ∙ ptr,
      )

  -- The object refines the abstract machine: after any session its flag is what the outcomes of the
  -- calls say, its pointer is the same, and deleting it calls `destroy` exactly if the machine says
  -- that it owns the event.
  pub session-owner :
      (cs : List Call) (o : Object Ptr) (w : World)
      → ((session cs o w).1.owned ≡ owner o.owned (session cs o w).0)
        × ((session cs o w).1.ptr ≡ o.ptr)
        × (dealloc destroy (session cs o w).1 (session cs o w).2 ≡ (
            if owner o.owned (session cs o w).0
            then (destroy o.ptr (session cs o w).2).1
            else (session cs o w).2))
  unfolding dealloc
  session-owner cs o w =
      let (flag, ptr) = session-flag cs o w in
      let w' = (session cs o w).2 in
      (flag, ptr, ap₂ (λ b p. if b then (destroy p w').1 else w') flag ptr)

  module _ (laws : Lawful lib) where
    open laws use {registered, create_lem, destroy_lem}

    -- The object owns its event exactly while the event is in the system.
    abbrev pub Owned : Object Ptr → World → Type 0
    Owned o w = o.owned ≡ registered w o.ptr

    call-Owned :
        (c : Call) (o : Object Ptr) (w : World)
        → IsProtocol c
        → Owned o w
        → Owned (call c o w).1 (call c o w).2
    unfolding register unregister set_destroy_flag
    call-Owned do_register o w h v = ground (arith, create_lem o.ptr w)
    call-Owned do_unregister o w h v = ground (arith, destroy_lem o.ptr w)
    call-Owned do_attach o w h v = absurd h
    call-Owned do_detach o w h v = absurd h

    -- The invariant is kept by a session without attaching and detaching.
    pub session_keeps-Owned :
        (cs : List Call) (o : Object Ptr) (w : World)
        → All IsProtocol cs
        → Owned o w
        → Owned (session cs o w).1 (session cs o w).2
    session_keeps-Owned [] o w h v = v
    session_keeps-Owned (c ∷ cs) o w h v =
        session_keeps-Owned cs (call c o w).1 (call c o w).2 h.1 (call-Owned c o w h.0 v)

    -- An object is made for an event that is not in the system, with its flag cleared, and nobody
    -- attaches or detaches it by hand. After any session of registering and unregistering it, with
    -- whatever outcomes, its flag says whether the event is in the system; so deleting the object
    -- leaves the event there only if the library refuses to destroy it.
    pub session-Owned :
        (cs : List Call) (ptr : Ptr) (w : World)
        → All IsProtocol cs
        → registered w ptr ≡ false
        → Owned (session cs (unowned ptr) w).1 (session cs (unowned ptr) w).2
          × ((registered
                  (dealloc destroy (session cs (unowned ptr) w).1 (session cs (unowned ptr) w).2)
                  (session cs (unowned ptr) w).1.ptr
                && not (
                    is_neg
                      (destroy
                        (session cs (unowned ptr) w).1.ptr
                        (session cs (unowned ptr) w).2).0))
              ≡ false)
    unfolding dealloc unowned object_new set_destroy_flag
    session-Owned cs ptr w h new =
        let v = session_keeps-Owned cs (unowned ptr) w h (sym new) in
        let o = (session cs (unowned ptr) w).1 in
        let w' = (session cs (unowned ptr) w).2 in (v, ground (arith, v, destroy_lem o.ptr w'))
