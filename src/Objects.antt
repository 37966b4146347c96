-- ===== src/Objects.antt =====
-- The Python objects that own something in the tracing system: the macro `C_OBJECT_WRAPPER` of
-- src/common.h, and `set_destroy_flag`, `PyFtrace_attach`, `PyFtrace_detach`, `PyFtrace_is_attached`
-- and the two pairs of register and unregister of src/ftracepy-utils.c.
pub mod Ownership
pub mod Instances
mod Tests
use trace_cruncher.Base.{ℕ, Bool, true, false, List, [], ◌∷◌, if◌then◌else◌}
use trace_cruncher.Base.Int.{ℤ, is_neg}

-- The C structure behind an object, with what adds it to the system and what removes it:
-- `tracefs_dynevent_create` and `tracefs_dynevent_destroy(_, true)`, or `tracefs_synth_create` and
-- `tracefs_synth_destroy`. Each returns what is negative on an error.
pub record Handles : Type 1 where
  pub World : Type 0
  pub Ptr : Type 0
  pub create : Ptr → World → ℤ × World
  pub destroy : Ptr → World → ℤ × World

-- `ptrObj`, and the flag `destroy` of `PyFtrace_Object_HEAD`.
pub record Object (P : Type 0) : Type 0 where
  pub ptr : P
  pub owned : Bool

-- `py_type##_New`
unfoldable pub object_new : {P : Type 0} → P → Object P
object_new ptr = record { ptr = ptr; owned = true }

-- Also `PyFtrace_attach` (true) and `PyFtrace_detach` (false).
unfoldable pub set_destroy_flag : {P : Type 0} → Object P → Bool → Object P
set_destroy_flag obj val = record obj { owned = val }

-- Also `PyFtrace_is_attached`.
unfoldable pub get_destroy_flag : {P : Type 0} → Object P → Bool
get_destroy_flag obj = obj.owned

-- `py_type##_dealloc` for an `obj_destroy`: a failure is printed.
unfoldable pub dealloc : {P W : Type 0} → (P → W → ℤ × W) → Object P → W → W
dealloc destroy self w = let (ret, w') = destroy self.ptr w in if self.owned then w' else w

-- An object for something that the module did not add to the system.
unfoldable pub unowned : {P : Type 0} → P → Object P
unowned ptr = set_destroy_flag (object_new ptr) false

module _ (lib : Handles) where
  open lib use {World, Ptr, create, destroy}

  -- `PyDynevent_register`, `PySynthEvent_register`
  unfoldable pub register : Object Ptr → World → Bool × Object Ptr × World
  register self w =
      let (ret, w') = create self.ptr w in
      if is_neg ret then (false, self, w') else (true, set_destroy_flag self true, w')

  -- `PyDynevent_unregister`, `PySynthEvent_unregister`
  unfoldable pub unregister : Object Ptr → World → Bool × Object Ptr × World
  unregister self w =
      let (ret, w') = destroy self.ptr w in
      if is_neg ret then (false, self, w') else (true, set_destroy_flag self false, w')
