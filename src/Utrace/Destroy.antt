-- ===== src/Utrace/Destroy.antt =====
-- The end of a user-space tracer: `py_utrace_destroy`, which removes its events, and `py_utrace_free`
-- of src/ftracepy-utils.c, as its Python object calls them.
pub mod Laws
pub mod Frees
mod Tests
use trace_cruncher.Base.{
  ℕ, ◌+◌, ◌==◌, Bool, true, false, List, [], ◌∷◌, ◌++◌, Option, none, some, if◌then◌else◌,
}
use trace_cruncher.Text.{Str}
use trace_cruncher.Alloc.{Run, done, fault, ◌>>=◌}
use trace_cruncher.Blocks.{
  BlockPath, at, block, to_dbg, to_ufuncs, to_func_name, to_cmd_argv, to_uevents, to_usystem,
  behind, free_given, free_each,
}
use trace_cruncher.Dbg.Context.{Context}
use trace_cruncher.Dbg.Destroy.{dbg_trace_context_destroy}
use trace_cruncher.Utrace.{ProbesList, Entry, live, freed}
use trace_cruncher.Utrace.Probes.{Dynevents, Probes}

-- What `struct py_utrace_context` points to; NULL is `none`.
pub record Pointers (lib : Dynevents) : Type 0 where
  pub dbg : Option Context
  pub ufuncs : ProbesList Entry
  pub cmd_argv : Option (List (Option Str))
  pub uevents : ProbesList lib.Dynevent
  pub usystem : Option Str

-- The loop over the functions: the name is read through a pointer that may lead to freed memory.
unfoldable pub free_funcs : ℕ → List Entry → Run (List BlockPath)
free_funcs i [] = done []
free_funcs i (freed ∷ fs) = fault
free_funcs i (live f ∷ fs) =
    free_funcs (i + 1) fs >>= λ rest. done ((at i ∷ to_func_name ∷ []) ∷ (at i ∷ block ∷ []) ∷ rest)

-- The loop over the arguments: it ends at the first NULL.
unfoldable pub free_args : ℕ → List (Option Str) → List BlockPath
free_args i [] = []
free_args i (none ∷ args) = []
free_args i (some arg ∷ args) = (at i ∷ []) ∷ free_args (i + 1) args

unfoldable pub free_argv : Option (List (Option Str)) → List BlockPath
free_argv none = []
free_argv (some args) = free_args 0 args ++ (block ∷ []) ∷ []

unfoldable pub free_dbg : Option Context → List BlockPath
free_dbg none = []
free_dbg (some dbg) = dbg_trace_context_destroy dbg

-- `data` of a list, which is NULL where nothing was added.
unfoldable pub free_data {ℓ} : {A : Type ℓ} → ProbesList A → List BlockPath
free_data list = if list.size == 0 then [] else (block ∷ []) ∷ []

module _ (lib : Dynevents) where
  open lib use {Dynevent, World}

  -- What follows the loop over the functions.
  unfoldable pub free_rest : Pointers lib → List BlockPath
  free_rest u =
      behind to_ufuncs (free_data u.ufuncs)
      ++ (behind to_cmd_argv (free_argv u.cmd_argv)
          ++ (behind to_uevents (free_each (λ e. (block ∷ []) ∷ []) 0 u.uevents.entries)
              ++ (behind to_uevents (free_data u.uevents)
                  ++ (free_given u.usystem (to_usystem ∷ []) ++ (block ∷ []) ∷ []))))

  unfoldable pub py_utrace_free : Option (Pointers lib) → Run (List BlockPath)
  py_utrace_free none = done []
  py_utrace_free (some u) = free_funcs 0 u.ufuncs.entries >>= λ funcs.
      done (behind to_dbg (free_dbg u.dbg) ++ (behind to_ufuncs funcs ++ free_rest u))

  -- `tracefs_dynevent_destroy(_, true)`, whose result is not looked at.
  module _ (destroy : Dynevent → World → World) where
    unfoldable pub destroy_events : List Dynevent → World → World
    destroy_events [] w = w
    destroy_events (e ∷ es) w = destroy_events es (destroy e w)

    unfoldable pub py_utrace_destroy : Probes lib → Probes lib
    py_utrace_destroy s = record s { world = destroy_events s.uevents.entries s.world }
