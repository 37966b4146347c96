-- ===== src/Objects/Instances.antt =====
-- Trace instances as objects: `autoname`, `PyFtrace_create_instance`, `PyFtrace_find_instance`,
-- `save_instace`, `PyFtrace_available_instances`, `py_instance_destroy`, `PyTfsInstance_reset` and
-- `PyTfsInstance_delete` of src/ftracepy-utils.c, after their arguments were parsed.
pub mod Laws
use trace_cruncher.Base.{
  ℕ, zero, suc, ◌-◌, ◌%◌, Bool, true, false, not, ◌&&◌, ◌||◌, List, [], ◌∷◌, Option, none, some,
  if◌then◌else◌, get_elem?, length, ◌==◌,
}
use trace_cruncher.Base.Int.{ℤ, pos}
use trace_cruncher.Text.{Str, codes, Arg, bytes, is_set}
use trace_cruncher.Ftrace.{Tracefs}
use trace_cruncher.Ftrace.Tracer.{tracing_off}
use trace_cruncher.Objects.{Object, object_new, unowned, dealloc}

abbrev pub aname_pool : Str
aname_pool = codes "0123456789ABCDEFGHIJKLMNOPQRSTUVWXYZabcdefghijklmnopqrstuvwxyz"

-- `sizeof(aname_pool)`, with the final NUL.
abbrev pub pool_size : ℕ
pool_size = suc (length aname_pool)

-- `aname_pool[n]`: the NUL at its end, and nothing behind it.
unfoldable pub pool_char : ℕ → Option ℕ
pool_char n = elim (get_elem? aname_pool n) [
  | some c ↦ some c
  | none ↦ if n == length aname_pool then some 0 else none
]

-- The loop of `autoname`, over what `rand` returns in its rounds; `none` is a read behind the pool.
unfoldable pub autoname : List ℕ → Option Str
autoname [] = some []
autoname (r ∷ rands) = elim (pool_char (r % (pool_size - 1))) [
  | none ↦ none
  | some c ↦ elim (autoname rands) [ none ↦ none | some s ↦ some (c ∷ s) ]
]

-- What the functions call: `tracefs_instance_create` (NULL on an error), `..._exists`, `..._is_new`,
-- `tracefs_instance_alloc(NULL, _)`, `..._reset`, `..._destroy`, and the names that
-- `tracefs_instances_walk` passes to its callback, or its error.
pub record InstanceLib (fs : Tracefs) : Type 0 where
  pub instance_create : Str → fs.World → Option fs.Instance × fs.World
  pub instance_exists : fs.World → Str → Bool
  pub is_new : fs.World → fs.Instance → Bool
  pub instance_alloc : Str → Option fs.Instance
  pub reset : fs.Instance → fs.World → fs.World
  pub destroy : fs.Instance → fs.World → ℤ × fs.World
  pub instances : fs.World → Option (List Str)

module _ (fs : Tracefs) (lib : InstanceLib fs) where
  open fs use {World, Instance}
  open lib use {instance_create, instance_exists, is_new, instance_alloc, reset, destroy, instances}

  -- The object, or an error. What `tracing_OFF` returns is not looked at.
  unfoldable pub create_named : Str → Bool → World → Option (Object Instance) × World
  create_named name on w =
      let (created, w₁) = instance_create name w in
      elim created [
        | none ↦ (none, w₁)
        | some inst ↦
            if instance_exists w₁ name && is_new w₁ inst
            then (some (object_new inst), if on then w₁ else (tracing_off fs inst w₁).1)
            else (none, w₁)
      ]

  -- `rands` is what `rand` gives, if it is asked.
  unfoldable pub create_instance :
      Arg → Bool → List ℕ → World → Option (Option (Object Instance) × World)
  create_instance arg on rands w =
      if is_set arg
      then some (create_named (bytes arg) on w)
      else (elim (autoname rands) [ none ↦ none | some name ↦ some (create_named name on w) ])

  unfoldable pub find_instance : Str → Option (Object Instance)
  find_instance name = elim (instance_alloc name) [ none ↦ none | some inst ↦ some (unowned inst) ]

  -- `save_instace`, called for each name; the list is in the order of the walk.
  unfoldable pub save_instances : List Str → List (Object Instance)
  save_instances [] = []
  save_instances (name ∷ names) = elim (instance_alloc name) [
    | none ↦ save_instances names
    | some inst ↦ unowned inst ∷ save_instances names
  ]

  unfoldable pub available_instances : World → Option (List (Object Instance))
  available_instances w = elim (instances w) [
    | none ↦ none
    | some names ↦ some (save_instances names)
  ]

  unfoldable pub instance_reset : Object Instance → World → World
  instance_reset self w = reset self.ptr w

  unfoldable pub py_instance_destroy : Instance → World → ℤ × World
  py_instance_destroy inst w = let (ret, w') = destroy inst (reset inst w) in (pos 0, w')

  unfoldable pub instance_delete : Object Instance → World → World
  instance_delete self w = (py_instance_destroy self.ptr w).1

  unfoldable pub instance_dealloc : Object Instance → World → World
  instance_dealloc self w = dealloc py_instance_destroy self w
