-- ===== src/Utrace/Functions.antt =====
-- Which functions are traced after functions were added.
use trace_cruncher.Base.{
  ◌≡◌, refl, sym, ap, Bool, true, false, not, ◌&&◌, ◌||◌, List, [], ◌∷◌, ◌++◌, ◌⊎◌, inl, inr, subst,
  Option, none, some, arith, leb, length, Bool-cases, modify, ◌∙◌,
}
use trace_cruncher.Text.{Str, str_eq}
use trace_cruncher.Text.Laws.{eq_of_str_eq}
use trace_cruncher.Alloc.{Mem, alloc, Run, done, fault, ◌>>=◌}
use trace_cruncher.Dbg.Requests.{has_name, add_resolve_name2vma, dbg_trace_add_resolve_symbol}
use trace_cruncher.Utrace.{
  utrace_list_add, UtraceFunc, Entry, live, freed, ProbeType, ftrace_uprobe, ftrace_uretprobe,
  is_ret, add_type, new_func, add_to_known, UtraceContext, add_new_func, py_utrace_add_func,
}

abbrev pub has_type : ProbeType → UtraceFunc → Bool
has_type ftrace_uprobe p = p.uprobe
has_type ftrace_uretprobe p = p.uretprobe

-- Whether a probe of the type is wanted for the function.
abbrev pub traces : ProbeType → Str → List Entry → Bool
traces type func [] = false
traces type func (freed ∷ fs) = traces type func fs
traces type func (live p ∷ fs) = (str_eq p.func_name func && has_type type p) || traces type func fs

abbrev pub same_type : ProbeType → ProbeType → Bool
same_type ftrace_uprobe t = not (is_ret t)
same_type ftrace_uretprobe t = is_ret t

has_type-add_type :
    (t type : ProbeType) (p : UtraceFunc)
    → has_type t (add_type type p) ≡ (has_type t p || same_type t type)
unfolding add_type
has_type-add_type ftrace_uprobe type p = refl
has_type-add_type ftrace_uretprobe type p = refl

has_type-new_func :
    (t type : ProbeType) (func : Str) → has_type t (new_func func type) ≡ same_type t type
unfolding new_func
has_type-new_func ftrace_uprobe type func = refl
has_type-new_func ftrace_uretprobe type func = refl

traces-append_new :
    (t type : ProbeType) (f func : Str) (fs : List Entry)
    → traces t f (fs ++ live (new_func func type) ∷ [])
      ≡ (traces t f fs || (str_eq func f && same_type t type))
unfolding new_func
traces-append_new t type f func [] = ground (arith, has_type-new_func t type func)
traces-append_new t type f func (freed ∷ fs) = traces-append_new t type f func fs
traces-append_new t type f func (live p ∷ fs) = ground (arith, traces-append_new t type f func fs)

Found-cases :
    (r : Run (Option (List Entry)))
    → (r ≡ fault) ⊎ ((r ≡ done none) ⊎ ((fs : List Entry) × (r ≡ done (some fs))))
Found-cases fault = inl refl
Found-cases (done none) = inr (inl refl)
Found-cases (done (some fs)) = inr (inr (fs, refl))

traces-add_to_known :
    (t type : ProbeType) (f func : Str) (fs fs' : List Entry)
    → add_to_known func type fs ≡ done (some fs')
    → traces t f fs' ≡ (traces t f fs || (str_eq func f && same_type t type))
unfolding add_to_known add_type
traces-add_to_known t type f func [] fs' h = ground arith
traces-add_to_known t type f func (freed ∷ fs) fs' h = ground arith
traces-add_to_known t type f func (live p ∷ fs) fs' h =
    elim (Bool-cases (str_eq p.func_name func)) [
      | inl e ↦
          let q : live (add_type type p) ∷ fs ≡ fs' = ground (arith, h) in
          let name = ap (λ n. str_eq n f) (eq_of_str_eq p.func_name func e) in
          subst
            (λ x. traces t f x ≡ (traces t f (live p ∷ fs) || (str_eq func f && same_type t type)))
            q (ground (arith, has_type-add_type t type p, name))
      | inr e ↦ elim (Found-cases (add_to_known func type fs)) [
        | inl r ↦ absurd (ground arith)
        | inr (inl r) ↦ absurd (ground arith)
        | inr (inr (gs, r)) ↦
            let q : live p ∷ gs ≡ fs' = ground (arith, h) in
            subst
              (λ x.
                traces t f x ≡ (traces t f (live p ∷ fs) || (str_eq func f && same_type t type)))
              q (ground (arith, traces-add_to_known t type f func fs gs r))
      ]
    ]

add_new_func-entries :
    (u u' : UtraceContext) (func : Str) (type : ProbeType) (m m' : Mem)
    → add_new_func u func type m ≡ (true, u', m')
    → u'.ufuncs.entries ≡ u.ufuncs.entries ++ live (new_func func type) ∷ []
unfolding add_new_func utrace_list_add
add_new_func-entries u u' func type m m' h = ground arith

-- Where `py_utrace_add_func` returns 0, the probes that are wanted are those wanted before and the
-- added one: a type is added to a known function and none is taken from it, and no other function
-- changes.
pub add_func-traces :
    (u u' : UtraceContext) (func : Str) (type : ProbeType) (m m' : Mem)
    → py_utrace_add_func u func type m ≡ done (true, u', m')
    → (t : ProbeType) (f : Str)
    → traces t f u'.ufuncs.entries
      ≡ (traces t f u.ufuncs.entries || (str_eq func f && same_type t type))
unfolding py_utrace_add_func
add_func-traces u u' func type m m' h t f =
    elim (Found-cases (add_to_known func type u.ufuncs.entries)) [
      | inl r ↦ absurd (ground arith)
      | inr (inl r) ↦
          let q = add_new_func-entries u u' func type m m' (ground arith) in
          ap (traces t f) q ∙ traces-append_new t type f func u.ufuncs.entries
      | inr (inr (gs, r)) ↦
          let q : gs ≡ u'.ufuncs.entries = ground (arith, h) in
          ap (traces t f) (sym q) ∙ traces-add_to_known t type f func u.ufuncs.entries gs r
    ]

add_to_known-freed :
    (f : Str) (t : ProbeType) (fs : List Entry) (p : UtraceFunc)
    → add_to_known f t fs ≡ done none
    → add_to_known f t (modify (fs ++ live p ∷ []) (length fs) (λ _. freed)) ≡ fault
unfolding add_to_known
add_to_known-freed f t [] p h = refl
add_to_known-freed f t (freed ∷ fs) p h = refl
add_to_known-freed f t (live q ∷ fs) p h = elim (Bool-cases (str_eq q.func_name f)) [
  | inl e ↦ absurd (ground arith)
  | inr e ↦ elim (Found-cases (add_to_known f t fs)) [
    | inl r ↦ absurd (ground arith)
    | inr (inl r) ↦ ground (arith, add_to_known-freed f t fs p r)
    | inr (inr (gs, r)) ↦ absurd (ground arith)
  ]
]

abbrev with_freed : UtraceContext → Str → ProbeType → UtraceContext
with_freed u func type =
    let es = u.ufuncs.entries in
    record u {
      ufuncs = record u.ufuncs {
        entries = modify (es ++ live (new_func func type) ∷ []) (length es) (λ _. freed);
      };
    }

add_func-with_freed :
    (u : UtraceContext) (func : Str) (type : ProbeType) (m : Mem)
    → leb u.ufuncs.size (length u.ufuncs.entries) ≡ false
    → add_to_known func type u.ufuncs.entries ≡ done none
    → has_name func u.dbg.sym ≡ false
    → py_utrace_add_func u func type (true ∷ true ∷ false ∷ m)
      ≡ done (false, with_freed u func type, m)
unfolding py_utrace_add_func add_new_func utrace_list_add dbg_trace_add_resolve_symbol
    add_resolve_name2vma alloc
add_func-with_freed u func type m room unknown name = ground arith

-- Where the list has room and the allocation of the request for the name fails, `py_utrace_add_func`
-- frees the new function and leaves its pointer in the list: the next call for any function that is
-- not known reads freed memory.
pub add_func-freed :
    (u : UtraceContext) (func g : Str) (type t : ProbeType) (m : Mem)
    → leb u.ufuncs.size (length u.ufuncs.entries) ≡ false
    → add_to_known func type u.ufuncs.entries ≡ done none
    → add_to_known g t u.ufuncs.entries ≡ done none
    → has_name func u.dbg.sym ≡ false
    → (py_utrace_add_func u func type (true ∷ true ∷ false ∷ m)
        >>= (λ r. py_utrace_add_func r.1 g t r.2))
      ≡ fault
unfolding py_utrace_add_func
add_func-freed u func g type t m room unknown other name =
    let read = add_to_known-freed g t u.ufuncs.entries (new_func func type) other in
    let again : py_utrace_add_func (with_freed u func type) g t m ≡ fault = ground (arith, read) in
    ap (λ r. r >>= (λ r'. py_utrace_add_func r'.1 g t r'.2))
      (add_func-with_freed u func type m room unknown name)
    ∙ again
