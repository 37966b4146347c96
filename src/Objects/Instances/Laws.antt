-- ===== src/Objects/Instances/Laws.antt =====
-- The names that are made up, and who destroys an instance.
use trace_cruncher.Base.{
  ℕ, zero, suc, ◌%◌, ◌<◌, ◌≡◌, refl, Bool, true, false, ◌&&◌, ◌||◌, List, [], ◌∷◌, some, arith, All,
  length, get_elem?, Option-cases, inl, inr, subst, ◌==◌, ap,
}
use trace_cruncher.Text.{Str, is_alnum}
use trace_cruncher.Text.Laws.{IsNameChar}
use trace_cruncher.Ftrace.{Tracefs}
use trace_cruncher.Objects.{Object, object_new, unowned, dealloc, set_destroy_flag}
use trace_cruncher.Objects.Instances.{
  aname_pool, pool_char, autoname, InstanceLib, save_instances, available_instances,
  instance_dealloc,
}

get_elem?-All :
    (P : ℕ → Type 0) (xs : List ℕ) (i : ℕ)
    → All P xs
    → i < length xs
    → (x : ℕ) × (get_elem? xs i ≡ some x) × P x
get_elem?-All P [] i h l = absurd (omega arith)
get_elem?-All P (x ∷ xs) zero h l = (x, refl, h.0)
get_elem?-All P (x ∷ xs) (suc i) h l = get_elem?-All P xs i h.1 (omega arith)

abbrev all_name_chars : List ℕ → Bool
all_name_chars [] = true
all_name_chars (c ∷ s) = (is_alnum c || (c == b'_')) && all_name_chars s

All-IsNameChar : (s : List ℕ) → all_name_chars s ≡ true → All IsNameChar s
All-IsNameChar [] h = tt
All-IsNameChar (c ∷ s) h = (ground arith, All-IsNameChar s (ground arith))

aname_pool-IsNameChar : All IsNameChar aname_pool
unfolding is_alnum
aname_pool-IsNameChar = All-IsNameChar aname_pool refl

-- Whatever `rand` returns, `autoname` reads only inside its pool, and never its final NUL: the name has
-- one character for each round of its loop, and all are letters and digits, or underscores.
pub autoname-IsNameChar :
    (rands : List ℕ)
    → (name : Str) × (autoname rands ≡ some name)
      × (length name ≡ length rands)
      × All IsNameChar name
unfolding autoname pool_char
autoname-IsNameChar [] = ([], refl, refl, tt)
autoname-IsNameChar (r ∷ rands) =
    let (c, e, char) =
      get_elem?-All IsNameChar aname_pool (r % 62) aname_pool-IsNameChar (omega arith) in
    let (name, f, l, chars) = autoname-IsNameChar rands in
    (c ∷ name, ground (arith, e, f), ap suc l, (char, chars))

module _ (fs : Tracefs) (lib : InstanceLib fs) where
  open fs use {World, Instance}
  open lib use {instance_alloc, instances}

  save_instances-unowned :
      (names : List Str) → All (λ o. o.owned ≡ false) (save_instances fs lib names)
  unfolding save_instances unowned set_destroy_flag object_new
  save_instances-unowned [] = tt
  save_instances-unowned (name ∷ names) = elim (Option-cases (instance_alloc name)) [
    | inl e ↦ simp (e, save_instances) (save_instances-unowned names)
    | inr (inst, e) ↦ simp (e, save_instances) (refl, save_instances-unowned names)
  ]

  -- Deleting the objects of a list one after the other.
  abbrev pub delete_all : List (Object Instance) → World → World
  delete_all [] w = w
  delete_all (o ∷ os) w = delete_all os (instance_dealloc fs lib o w)

  delete_unowned :
      (os : List (Object Instance)) (w : World)
      → All (λ o. o.owned ≡ false) os
      → delete_all os w ≡ w
  unfolding instance_dealloc dealloc
  delete_unowned [] w h = refl
  delete_unowned (o ∷ os) w h = simp (h.0, instance_dealloc, dealloc) (delete_unowned os w h.1)

  -- The objects that `available_instances` makes are for instances that the module did not create:
  -- Python may delete all of them, and the system is as it was.
  pub available_instances-delete :
      (w : World) (os : List (Object Instance))
      → available_instances fs lib w ≡ some os
      → delete_all os w ≡ w
  unfolding available_instances
  available_instances-delete w os h = elim (Option-cases (instances w)) [
    | inl e ↦ absurd (ground arith)
    | inr (names, e) ↦
        let q : save_instances fs lib names ≡ os = ground (arith, h) in
        delete_unowned os w (subst (All (λ o. o.owned ≡ false)) q (save_instances-unowned names))
  ]
