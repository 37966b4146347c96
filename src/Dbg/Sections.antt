-- ===== src/Dbg/Sections.antt =====
-- `process_bfd_section` of src/trace-obj-debug.c: the requests that carry an address get the file,
-- the file offset and the function's name of the section that covers it.
pub mod Laws
pub mod Offset
pub mod Memory
pub mod Nameless
use trace_cruncher.Base.{
  ℕ, ◌+◌, ◌-◌, ◌%◌, Bool, true, false, not, ◌&&◌, ◌||◌, List, [], ◌∷◌, Option, none, some, ltb, leb,
  ◌==◌, if◌then◌else◌,
}
use trace_cruncher.Text.{Str}
use trace_cruncher.Alloc.{Mem, strdup}
use trace_cruncher.Dbg.{TraceSymbol, DebugSymbol, Job, u64_mod}
use trace_cruncher.Dbg.Bfd.{Section, Object, BfdLib}

-- The address of a request, if it has one: `vma_near`, else `vma_start`.
unfoldable pub requested_vma : TraceSymbol → Option ℕ
requested_vma s =
    if s.vma_near == 0
    then (if s.vma_start == 0 then none else some s.vma_start)
    else some s.vma_near

-- `vma -= addr_offset` in a dynamic object.
unfoldable pub object_vma : Object → Job → ℕ → ℕ
object_vma o job vma = if o.dynamic then (vma + u64_mod - job.addr_offset) % u64_mod else vma

-- The address lies in the section.
unfoldable pub covers : Section → ℕ → Bool
covers section vma =
    not (vma == 0) && (leb section.vma vma && ltb vma ((section.vma + section.size) % u64_mod))

-- The demangled name, or a copy of the name as it is.
unfoldable pub function_name : BfdLib → Str → Mem → Option Str × Mem
function_name lib functionname m = elim (lib.demangle functionname) [
  | some n ↦ (some n, m)
  | none ↦ strdup functionname m
]

-- "Found the file, where the symbol is defined."
unfoldable pub set_fname : Object → TraceSymbol → Mem → TraceSymbol × Mem
set_fname o s m = elim s.fname [
  | some f ↦ (s, m)
  | none ↦ let (copy, m') = strdup o.filename m in (record s { fname = copy }, m')
]

-- "Found the offset of the symbol within the file."
unfoldable pub set_foffset : Section → Job → ℕ → TraceSymbol → TraceSymbol
set_foffset section job vma s =
    if job.flags.resolve_foffset
    then record s { foffset = (section.filepos + (vma - section.vma)) % u64_mod }
    else s

abbrev pub lacks_name : Option Str → Bool
lacks_name none = true
lacks_name (some n) = false

-- "Look for the nearest function." A hit with no function is left to `pass_demangles_null`.
unfoldable pub set_name :
    BfdLib → Object → Section → Job → ℕ → TraceSymbol → Mem → TraceSymbol × Mem
set_name lib o section job vma s m = elim s.name [
  | some n ↦ (s, m)
  | none ↦
      if job.flags.resolve_name
      then (elim (lib.nearest_function o section (vma - section.vma)) [
        | none ↦ (s, m)
        | some f ↦ let (n, m') = function_name lib f m in (record s { name = n }, m')
      ])
      else (s, m)
]

-- The body of the loop once the section covers the address.
unfoldable pub resolve_covered :
    BfdLib → Object → Section → Job → ℕ → TraceSymbol → Mem → TraceSymbol × Mem
resolve_covered lib o section job vma s m =
    let (s₁, m₁) = set_fname o s m in
    set_name lib o section job vma (set_foffset section job vma s₁) m₁

-- One round of the loop, where it does not read NULL.
unfoldable pub resolve_in_section :
    BfdLib → Object → Section → Job → TraceSymbol → Mem → TraceSymbol × Mem
resolve_in_section lib o section job s m = elim (requested_vma s) [
  | none ↦ (s, m)
  | some requested ↦
      let vma = object_vma o job requested in
      if covers section vma then resolve_covered lib o section job vma s m else (s, m)
]

unfoldable pub process_symbols :
    BfdLib → Object → Section → Job → List DebugSymbol → Mem → List DebugSymbol × Mem
process_symbols lib o section job [] m = ([], m)
process_symbols lib o section job (s ∷ ss) m =
    let (symbol, m₁) = resolve_in_section lib o section job s.symbol m in
    let (rest, m₂) = process_symbols lib o section job ss m₁ in
    (record s { symbol = symbol } ∷ rest, m₂)

unfoldable pub process_bfd_section :
    BfdLib → Object → Job → Section → List DebugSymbol → Mem → List DebugSymbol × Mem
process_bfd_section lib o job section symbols m =
    if section.code then process_symbols lib o section job symbols m else (symbols, m)

-- Does a round find a line with no function for its symbol? `bfd_demangle` is then called on NULL.
unfoldable pub demangles_null : Object → Section → Job → TraceSymbol → Bool
demangles_null o section job s = elim (requested_vma s) [
  | none ↦ false
  | some requested ↦
      let vma = object_vma o job requested in
      covers section vma
      && (lacks_name s.name && (job.flags.resolve_name && o.nameless section (vma - section.vma)))
]

unfoldable pub some_demangles_null : Object → Section → Job → List DebugSymbol → Bool
some_demangles_null o section job [] = false
some_demangles_null o section job (s ∷ ss) =
    demangles_null o section job s.symbol || some_demangles_null o section job ss

-- Does the pass over the sections read NULL? The symbols of a section do not depend on one another.
unfoldable pub pass_demangles_null :
    BfdLib → Object → Job → List Section → List DebugSymbol → Mem → Bool
pass_demangles_null lib o job [] symbols m = false
pass_demangles_null lib o job (section ∷ rest) symbols m =
    let (symbols', m') = process_bfd_section lib o job section symbols m in
    (section.code && some_demangles_null o section job symbols)
    || pass_demangles_null lib o job rest symbols' m'

-- `bfd_map_over_sections(abfd, process_bfd_section, &context)`
unfoldable pub map_over_sections :
    BfdLib → Object → Job → List Section → List DebugSymbol → Mem → List DebugSymbol × Mem
map_over_sections lib o job [] symbols m = (symbols, m)
map_over_sections lib o job (section ∷ rest) symbols m =
    let (symbols', m') = process_bfd_section lib o job section symbols m in
    map_over_sections lib o job rest symbols' m'
