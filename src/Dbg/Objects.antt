-- ===== src/Dbg/Objects.antt =====
-- `get_sym_table`, `process_bfd_object`, `read_all_bfd`, `resolve_symbol_vma` and
-- `resolve_symbol_name` of src/trace-obj-debug.c.
pub mod Laws
pub mod Total
pub mod Readable
use trace_cruncher.Base.{
  ℕ, zero, suc, ◌+◌, Bool, true, false, ◌||◌, List, [], ◌∷◌, ◌++◌, Option, none, some, ◌==◌,
  if◌then◌else◌, length, ◌&&◌,
}
use trace_cruncher.Base.Int.{ℤ, pos, negsuc}
use trace_cruncher.Text.{Str}
use trace_cruncher.Alloc.{Mem, alloc, Run, done, fault, ◌>>=◌}
use trace_cruncher.Dbg.{DebugSymbol, Job, Flags}
use trace_cruncher.Dbg.Bfd.{
  Asymbol, Canonical, stored, failed, Object, Bfd, Members, object, archive, no_more_files,
  other_error, member, BfdLib,
}
use trace_cruncher.Dbg.Sections.{map_over_sections, pass_demangles_null}
use trace_cruncher.Dbg.Lookup.{lookup_bfd_sym}

-- `x > 0 ? x : 0`
unfoldable pub positive : ℤ → ℕ
positive (pos n) = n
positive (negsuc n) = 0

-- The table that the two `canonicalize` calls fill, NULL where their sum is not positive. A failed
-- first call returns -1, and the second one then writes in front of the table.
unfoldable pub canonical_table : Canonical → Canonical → Run (Option (List Asymbol))
canonical_table (stored []) (stored []) = done none
canonical_table (stored []) (stored (d ∷ ds)) = done (some (d ∷ ds))
canonical_table (stored (s ∷ ss)) (stored ds) = done (some (s ∷ ss ++ ds))
canonical_table (stored []) failed = done none
canonical_table (stored (s ∷ [])) failed = done none
canonical_table (stored (s ∷ t ∷ ss)) failed = done (some (s ∷ t ∷ ss))
canonical_table failed (stored ds) = fault
canonical_table failed failed = done none

unfoldable pub get_sym_table : Object → Mem → Run (Option (List Asymbol) × Mem)
get_sym_table o m =
    let size = positive o.dynamic_symtab_bound + positive o.symtab_bound in
    let (got, m') = alloc m in
    if o.has_syms
    then (if size == 0
        then done (none, m)
        else (if got
            then (canonical_table o.symtab o.dynamic_symtab >>= λ table. done (table, m'))
            else done (none, m')))
    else done (none, m)

-- What a pass over a file leaves: its return value, the symbols, the allocations to come.
abbrev pub Pass : Type 0
Pass = ℤ × List DebugSymbol × Mem

-- The two passes over an object that has a symbol table.
unfoldable pub resolve_object :
    BfdLib → Object → Job → List Asymbol → List DebugSymbol → Mem → List DebugSymbol × Mem
resolve_object lib o job table symbols m =
    let (res, found, m₁) = lookup_bfd_sym lib job table symbols m in
    let (symbols₁, m₂) = (if job.flags.resolve_vma then (found, m₁) else (symbols, m)) in
    if job.flags.resolve_name || job.flags.resolve_foffset
    then map_over_sections lib o job o.sections symbols₁ m₂
    else (symbols₁, m₂)

-- Does the pass read NULL, as `pass_demangles_null` says, on the symbols that it is given?
unfoldable pub object_demangles_null :
    BfdLib → Object → Job → List Asymbol → List DebugSymbol → Mem → Bool
object_demangles_null lib o job table symbols m =
    let (res, found, m₁) = lookup_bfd_sym lib job table symbols m in
    let (symbols₁, m₂) = (if job.flags.resolve_vma then (found, m₁) else (symbols, m)) in
    (job.flags.resolve_name || job.flags.resolve_foffset)
    && pass_demangles_null lib o job o.sections symbols₁ m₂

unfoldable pub process_bfd_object : BfdLib → Object → Job → List DebugSymbol → Mem → Run Pass
process_bfd_object lib o job symbols m =
    if o.format_matches
    then (get_sym_table o m >>= λ (table, m'). elim table [
      | none ↦ done (negsuc 0, symbols, m')
      | some t ↦
          let (symbols', m'') = resolve_object lib o job t symbols m' in
          if object_demangles_null lib o job t symbols m'
          then fault
          else done (pos 0, symbols', m'')
    ])
    else done (negsuc 0, symbols, m)

-- `read_all_bfd`, and its loop over an archive, which carries the last return value. At the end of
-- the archive `arfile` is NULL: the loop breaks only if the error is another than "no more files",
-- and else it calls itself on the NULL pointer, which bfd follows.
mutual
  pub read_all_bfd : BfdLib → Job → Bfd → List DebugSymbol → Mem → Run Pass
  read_all_bfd lib job (object o) symbols m = process_bfd_object lib o job symbols m
  read_all_bfd lib job (archive members) symbols m = read_members lib job members (pos 0) symbols m

  pub read_members : BfdLib → Job → Members → ℤ → List DebugSymbol → Mem → Run Pass
  read_members lib job no_more_files ret symbols m = fault
  read_members lib job other_error ret symbols m = done (ret, symbols, m)
  read_members lib job (member file rest) ret symbols m =
      read_all_bfd lib job file symbols m >>= λ (ret', symbols', m').
      read_members lib job rest ret' symbols' m'

-- `struct debug_bfd_handle`
pub record BfdHandle : Type 0 where
  pub bfd : Bfd
  pub addr_offset : ℕ

-- name -> (vma, file offset)
unfoldable pub resolve_symbol_vma : BfdLib → BfdHandle → List DebugSymbol → Mem → Run Pass
resolve_symbol_vma lib obj symbols m = read_all_bfd lib job obj.bfd symbols m
  where
    job : Job
    job = record {
      flags = record { resolve_name = false; resolve_vma = true; resolve_foffset = true };
      addr_offset = obj.addr_offset;
    }

-- vma -> name; the handles of the model always hold an open bfd.
unfoldable pub resolve_symbol_name : BfdLib → BfdHandle → List DebugSymbol → Mem → Run Pass
resolve_symbol_name lib obj symbols m = read_all_bfd lib job obj.bfd symbols m
  where
    job : Job
    job = record {
      flags = record { resolve_name = true; resolve_vma = false; resolve_foffset = false };
      addr_offset = obj.addr_offset;
    }
