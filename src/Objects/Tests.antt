-- ===== src/Objects/Tests.antt =====
-- Objects and instances at a concrete system.
use trace_cruncher.Base.{
  ◌≡◌, refl, List, [], ◌∷◌, true, false, some, none, if◌then◌else◌, Bool, ◌&&◌, not,
}
use trace_cruncher.Objects.{Handles, Object, dealloc, unowned}
use trace_cruncher.Base.Int.{is_neg, negsuc, pos}
use trace_cruncher.Objects.Ownership.{
  Call, session, Owned, Lawful, do_register, owner, do_unregister, session-owner, session-Owned,
}
use trace_cruncher.Text.{Str, codes}
use trace_cruncher.Ftrace.{Tracefs}
use trace_cruncher.Objects.Instances.{InstanceLib}

-- One event, which can be added once.
abbrev one_event : Handles
one_event = record {
  World = Bool;
  Ptr = Unit;
  create = λ p w. (if w then negsuc 0 else pos 0, true);
  destroy = λ p w. (if w then pos 0 else negsuc 0, false);
}

one_event_lawful : Lawful one_event
unfolding is_neg
one_event_lawful = record {
  registered = λ w p. w;
  create_lem = λ p w. if_same w;
  destroy_lem = λ p w. if_gone w;
}
  where
    if_same : (w : Bool) → true ≡ (if is_neg (if w then negsuc 0 else pos 0) then w else true)
    if_same true = refl
    if_same false = refl

    if_gone : (w : Bool) → false ≡ (if is_neg (if w then pos 0 else negsuc 0) then w else false)
    if_gone true = refl
    if_gone false = refl

abbrev calls : List Call
calls = do_register ∷ do_register ∷ do_unregister ∷ do_register ∷ []

abbrev event : Object Unit
event = record { ptr = tt; owned = false }

session-owner_example :
    ((session one_event calls event false).1.owned
      ≡ owner false (session one_event calls event false).0)
    × ((session one_event calls event false).1.ptr ≡ tt)
    × (dealloc
          (one_event.destroy)
          (session one_event calls event false).1
          (session one_event calls event false).2
        ≡ (if owner false (session one_event calls event false).0
            then (one_event.destroy tt (session one_event calls event false).2).1
            else (session one_event calls event false).2))
session-owner_example = session-owner one_event calls event false

session-Owned_example :
    Owned one_event one_event_lawful
      (session one_event calls (unowned tt) false).1
      (session one_event calls (unowned tt) false).2
    × ((one_event_lawful.registered
            (dealloc
              (one_event.destroy)
              (session one_event calls (unowned tt) false).1
              (session one_event calls (unowned tt) false).2)
            (session one_event calls (unowned tt) false).1.ptr
          && not (
              is_neg
                (one_event.destroy
                  (session one_event calls (unowned tt) false).1.ptr
                  (session one_event calls (unowned tt) false).2).0))
        ≡ false)
unfolding one_event_lawful
session-Owned_example =
    session-Owned one_event one_event_lawful calls tt false (tt, (tt, (tt, (tt, tt)))) refl

-- The instances of the system are the world; destroying one removes them all.
abbrev named_instances : Tracefs
named_instances = record {
  World = List Str;
  Instance = Str;
  file_exists = λ w inst file. false;
  dir_exists = λ w inst dir. false;
  file_write = λ inst file val w. (pos 0, w);
  file_append = λ inst file val w. (pos 0, w);
  file_read = λ inst file w. (none, w);
  event_enable = λ inst system event w. (pos 0, w);
  event_disable = λ inst system event w. (pos 0, w);
  tracers = λ w inst. none;
  trace_on = λ inst w. (pos 0, w);
  trace_off = λ inst w. (pos 0, w);
  trace_is_on = λ w inst. pos 1;
  event_fork = λ inst on w. (pos 0, w);
  function_fork = λ inst on w. (pos 0, w);
  decimal = λ v. codes "7";
}

abbrev instance_lib : InstanceLib named_instances
instance_lib = record {
  instance_create = λ name w. (some name, name ∷ w);
  instance_exists = λ w name. true;
  is_new = λ w inst. true;
  instance_alloc = λ name. some name;
  reset = λ inst w. w;
  destroy = λ inst w. (pos 0, []);
  instances = λ w. some w;
}

abbrev two_names : List Str
two_names = codes "a" ∷ codes "b" ∷ []
