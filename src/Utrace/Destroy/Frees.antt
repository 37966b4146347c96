-- ===== src/Utrace/Destroy/Frees.antt =====
-- `py_utrace_free` frees every block of a tracer once, if none of its functions was freed before.
use trace_cruncher.Base.{
  ℕ, ◌+◌, ◌==◌, ◌≡◌, refl, ap, Bool, true, false, not, ◌&&◌, List, [], ◌∷◌, ◌++◌, Option, none,
  some, arith, All,
}
use trace_cruncher.Text.{Str}
use trace_cruncher.Alloc.{done, ◌>>=◌}
use trace_cruncher.Blocks.{
  BlockPath, at, block, to_dbg, to_ufuncs, to_func_name, to_cmd_argv, to_uevents, to_usystem,
  behind, free_given, free_each, count,
}
use trace_cruncher.Blocks.Laws.{
  bit, owns_each, count-append, count-behind, count-behind_empty, count-each,
}
use trace_cruncher.Dbg.Context.{Context}
use trace_cruncher.Dbg.Destroy.Laws.{context_destroy-owned}
use trace_cruncher.Dbg.Destroy.Parts.{not_null, owns_context, is_file_name}
use trace_cruncher.Utrace.{ProbesList, Entry, live, freed}
use trace_cruncher.Utrace.Probes.{Dynevents}
use trace_cruncher.Utrace.Generate.Laws.{IsLive}
use trace_cruncher.Utrace.Destroy.{
  Pointers, free_funcs, free_args, free_argv, free_dbg, free_data, free_rest, py_utrace_free,
}

abbrev free_func : Entry → List BlockPath
free_func f = (to_func_name ∷ []) ∷ (block ∷ []) ∷ []

abbrev owns_func : Entry → BlockPath → Bool
owns_func f (to_func_name ∷ []) = true
owns_func f (block ∷ []) = true
owns_func f p = false

count-free_func : (f : Entry) (p : BlockPath) → count p (free_func f) ≡ bit (owns_func f p)
count-free_func f [] = refl
count-free_func f (to_func_name ∷ []) = refl
count-free_func f (block ∷ []) = refl
count-free_func f p = ground arith

-- Where no function was freed before, the loop frees the name and the block of each.
free_funcs_live :
    (i : ℕ) (fs : List Entry) → All IsLive fs → free_funcs i fs ≡ done (free_each free_func i fs)
unfolding free_funcs
free_funcs_live i [] h = refl
free_funcs_live i (freed ∷ fs) h = absurd h.0
free_funcs_live i (live f ∷ fs) h = rw (free_funcs_live (i + 1) fs h.1) refl

-- The arguments in front of the first NULL.
abbrev pub front : List (Option Str) → List Str
front [] = []
front (none ∷ args) = []
front (some arg ∷ args) = arg ∷ front args

abbrev owns_block : {A : Type 0} → A → BlockPath → Bool
owns_block a [] = true
owns_block a p = false

free_args-front :
    (i : ℕ) (args : List (Option Str)) → free_args i args ≡ free_each (λ a. [] ∷ []) i (front args)
unfolding free_args
free_args-front i [] = refl
free_args-front i (none ∷ args) = refl
free_args-front i (some arg ∷ args) = ap (λ rest. (at i ∷ []) ∷ rest) (free_args-front (i + 1) args)

abbrev pub owns_argv : Option (List (Option Str)) → BlockPath → Bool
owns_argv none p = false
owns_argv (some args) (block ∷ []) = true
owns_argv (some args) p = owns_each owns_block (front args) p

count-block : {A : Type 0} (a : A) (p : BlockPath) → count p ([] ∷ []) ≡ bit (owns_block a p)
count-block a [] = refl
count-block a (s ∷ p) = refl

count-free_argv :
    (argv : Option (List (Option Str))) (p : BlockPath)
    → count p (free_argv argv) ≡ bit (owns_argv argv p)
unfolding free_argv
count-free_argv none p = refl
count-free_argv (some args) [] = ground (
  arith,
  free_args-front 0 args,
  count-append [] (free_args 0 args) ((block ∷ []) ∷ []),
  count-each (λ a. [] ∷ []) owns_block (λ a q. count-block a q) (front args) [],
)
count-free_argv (some args) (s ∷ p) = ground (
  arith,
  free_args-front 0 args,
  count-append (s ∷ p) (free_args 0 args) ((block ∷ []) ∷ []),
  count-each (λ a. [] ∷ []) owns_block (λ a q. count-block a q) (front args) (s ∷ p),
)

abbrev pub owns_dbg : Option Context → BlockPath → Bool
owns_dbg none p = false
owns_dbg (some dbg) p = owns_context dbg p

count-free_dbg :
    (dbg : Option Context) (p : BlockPath)
    → count p (free_dbg dbg) ≡ bit (owns_dbg dbg p && not (is_file_name p))
unfolding free_dbg
count-free_dbg none p = refl
count-free_dbg (some dbg) p = context_destroy-owned dbg p

-- A list: its array, and what its elements own.
abbrev pub owns_list {ℓ} : {A : Type ℓ} → (A → BlockPath → Bool) → ProbesList A → BlockPath → Bool
owns_list h list (block ∷ []) = not (list.size == 0)
owns_list h list p = owns_each h list.entries p

count-list {ℓ} :
    {A : Type ℓ} (f : A → List BlockPath) (h : A → BlockPath → Bool)
    → ((x : A) (p : BlockPath) → count p (f x) ≡ bit (h x p))
    → (list : ProbesList A) (p : BlockPath)
    → count p (free_each f 0 list.entries) + count p (free_data list) ≡ bit (owns_list h list p)
unfolding free_data
count-list f h e list [] = ground (arith, count-each f h e list.entries [])
count-list f h e list (block ∷ []) = ground (arith, count-each f h e list.entries (block ∷ []))
count-list f h e list p = ground (arith, count-each f h e list.entries p)

abbrev owns_event : {A : Type 0} → A → BlockPath → Bool
owns_event e (block ∷ []) = true
owns_event e p = false

count-event :
    {A : Type 0} (e : A) (p : BlockPath) → count p ((block ∷ []) ∷ []) ≡ bit (owns_event e p)
count-event e [] = refl
count-event e (block ∷ []) = refl
count-event e p = refl

-- The name of a file of the context.
abbrev pub is_name_in_dbg : BlockPath → Bool
is_name_in_dbg (to_dbg ∷ p) = is_file_name p
is_name_in_dbg p = false

module _ (lib : Dynevents) where
  -- The blocks of a tracer. Of its arguments there are those in front of the first NULL.
  abbrev pub owns_utrace : Pointers lib → BlockPath → Bool
  owns_utrace u (to_dbg ∷ p) = owns_dbg u.dbg p
  owns_utrace u (to_ufuncs ∷ p) = owns_list owns_func u.ufuncs p
  owns_utrace u (to_cmd_argv ∷ p) = owns_argv u.cmd_argv p
  owns_utrace u (to_uevents ∷ p) = owns_list owns_event u.uevents p
  owns_utrace u (to_usystem ∷ []) = not_null u.usystem
  owns_utrace u (block ∷ []) = true
  owns_utrace u p = false

  module _ (u : Pointers lib) where
    abbrev dbgs : List BlockPath
    dbgs = behind to_dbg (free_dbg u.dbg)

    abbrev funcs : List BlockPath
    funcs = behind to_ufuncs (free_each free_func 0 u.ufuncs.entries)

    abbrev func_array : List BlockPath
    func_array = behind to_ufuncs (free_data u.ufuncs)

    abbrev args : List BlockPath
    args = behind to_cmd_argv (free_argv u.cmd_argv)

    abbrev events : List BlockPath
    events = behind to_uevents (free_each (λ e. (block ∷ []) ∷ []) 0 u.uevents.entries)

    abbrev event_array : List BlockPath
    event_array = behind to_uevents (free_data u.uevents)

    abbrev system : List BlockPath
    system = free_given u.usystem (to_usystem ∷ [])

    abbrev all_freed : List BlockPath
    all_freed = dbgs ++ (funcs ++ free_rest lib u)

    count-free_rest :
        (p : BlockPath)
        → count p (free_rest lib u)
          ≡ count p func_array
            + (count p args
                + (count p events
                    + (count p event_array + (count p system + count p ((block ∷ []) ∷ [])))))
    unfolding free_rest
    count-free_rest p = ground (
      arith,
      count-append p func_array
          (args ++ (events ++ (event_array ++ (system ++ (block ∷ []) ∷ [])))),
      count-append p args (events ++ (event_array ++ (system ++ (block ∷ []) ∷ []))),
      count-append p events (event_array ++ (system ++ (block ∷ []) ∷ [])),
      count-append p event_array (system ++ (block ∷ []) ∷ []),
      count-append p system ((block ∷ []) ∷ []),
    )

    count-all_freed :
        (p : BlockPath)
        → count p all_freed ≡ count p dbgs + (count p funcs + count p (free_rest lib u))
    count-all_freed p = ground (
      arith,
      count-append p dbgs (funcs ++ free_rest lib u),
      count-append p funcs (free_rest lib u),
    )

    all_freed-owned :
        (p : BlockPath) → count p all_freed ≡ bit (owns_utrace u p && not (is_name_in_dbg p))
    all_freed-owned [] = ground (
      arith,
      count-all_freed [],
      count-free_rest [],
      count-behind_empty to_dbg (free_dbg u.dbg),
      count-behind_empty to_ufuncs (free_each free_func 0 u.ufuncs.entries),
      count-behind_empty to_ufuncs (free_data u.ufuncs),
      count-behind_empty to_cmd_argv (free_argv u.cmd_argv),
      count-behind_empty to_uevents (free_each (λ e. (block ∷ []) ∷ []) 0 u.uevents.entries),
      count-behind_empty to_uevents (free_data u.uevents),
    )
    all_freed-owned (s ∷ p) = ground (
      arith,
      count-all_freed (s ∷ p),
      count-free_rest (s ∷ p),
      count-behind s to_dbg p (free_dbg u.dbg),
      count-behind s to_ufuncs p (free_each free_func 0 u.ufuncs.entries),
      count-behind s to_ufuncs p (free_data u.ufuncs),
      count-behind s to_cmd_argv p (free_argv u.cmd_argv),
      count-behind s to_uevents p (free_each (λ e. (block ∷ []) ∷ []) 0 u.uevents.entries),
      count-behind s to_uevents p (free_data u.uevents),
      count-free_dbg u.dbg p,
      count-list free_func owns_func count-free_func u.ufuncs p,
      count-list (λ e. (block ∷ []) ∷ []) owns_event (λ e q. count-event e q) u.uevents p,
      count-free_argv u.cmd_argv p,
    )

    -- If no function of the list was freed before, `py_utrace_free` ends and frees every block of the
    -- tracer exactly once and no other, but for the names of the files in its context and the arguments
    -- behind a NULL in its array.
    pub utrace_free-owned :
        All IsLive u.ufuncs.entries
        → (blocks : List BlockPath) × (py_utrace_free lib (some u) ≡ done blocks)
          × ((p : BlockPath) → count p blocks ≡ bit (owns_utrace u p && not (is_name_in_dbg p)))
    unfolding py_utrace_free
    utrace_free-owned h = (
      all_freed,
      ap (λ r. r >>= λ fs. done (dbgs ++ (behind to_ufuncs fs ++ free_rest lib u)))
          (free_funcs_live 0 u.ufuncs.entries h),
      all_freed-owned,
    )
