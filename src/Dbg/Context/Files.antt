-- ===== src/Dbg/Context/Files.antt =====
-- The well-formedness of a context, and that adding a file keeps it.
use trace_cruncher.Base.{
  ℕ, ◌≤◌, ◌≡◌, false, List, [], ◌∷◌, Option, none, some, ◌==◌, All, arith, length, All-modify,
  Option-cases, Bool-cases, inl, inr,
}
use trace_cruncher.Text.{Str}
use trace_cruncher.Alloc.{Mem}
use trace_cruncher.Dbg.{DebugSymbol}
use trace_cruncher.Dbg.Bfd.{BfdLib}
use trace_cruncher.Dbg.Requests.{has_near, has_name}
use trace_cruncher.Dbg.Context.{
  DebugFile, Context, add_new_file, get_mapped_file, map_region, dbg_trace_context_add_file,
}

-- No address is requested twice.
abbrev pub DistinctNear : List DebugSymbol → Type 0
DistinctNear [] = Unit
DistinctNear (s ∷ ss) = (has_near s.symbol.vma_near ss ≡ false) × DistinctNear ss

abbrev pub NewName : Option Str → List DebugSymbol → Type 0
NewName none ss = ⊥
NewName (some name) ss = has_name name ss ≡ false

-- Every request has a name, and no name is requested twice.
abbrev pub DistinctNames : List DebugSymbol → Type 0
DistinctNames [] = Unit
DistinctNames (s ∷ ss) = NewName s.symbol.name ss × DistinctNames ss

pub record FileIsValid (f : DebugFile) : Type 0 where
  pub interval : f.vmem_start ≤ f.vmem_end
  pub counted : f.sym_count ≡ length f.sym
  pub distinct : DistinctNear f.sym

-- A context to which requests can be added.
pub record IsValid (c : Context) : Type 0 where
  pub files_valid : All FileIsValid c.files
  pub counted : c.sym_count ≡ length c.sym
  pub distinct : DistinctNames c.sym

map_region-FileIsValid :
    (from to pgoff : ℕ) (f : DebugFile)
    → from ≤ to
    → FileIsValid f
    → FileIsValid (map_region from to pgoff f)
unfolding map_region
map_region-FileIsValid from to pgoff f h v = elim (Bool-cases (f.vmem_end == from)) [
  | inl e ↦ rw (e, map_region) (ground arith)
  | inr e ↦ rw (e, map_region) (ground arith)
]

get_mapped_file-IsValid :
    (lib : BfdLib) (c : Context) (fname : Str) (start : ℕ) (m : Mem)
    → IsValid c
    → IsValid (get_mapped_file lib c fname start m).1
unfolding get_mapped_file add_new_file
get_mapped_file-IsValid lib c fname start m v = ground arith

-- Adding a region whose start is not above its end keeps a context well formed, whichever
-- allocations fail.
pub add_file-IsValid :
    (lib : BfdLib) (c : Context) (fname : Str) (from to pgoff : ℕ) (m : Mem)
    → from ≤ to
    → IsValid c
    → IsValid (dbg_trace_context_add_file lib c fname from to pgoff m).1
unfolding dbg_trace_context_add_file
add_file-IsValid lib c fname from to pgoff m h v =
    let v' = get_mapped_file-IsValid lib c fname from m v in
    elim (Option-cases (get_mapped_file lib c fname from m).0) [
      | inl e ↦ rw (e, dbg_trace_context_add_file) v'
      | inr (i, e) ↦
          rw (e, dbg_trace_context_add_file)
            (record {
              files_valid =
                  All-modify FileIsValid _ i (map_region from to pgoff)
                    (λ f. map_region-FileIsValid from to pgoff f h) v'.files_valid;
              counted = v'.counted;
              distinct = v'.distinct;
            })
    ]
