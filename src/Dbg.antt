-- ===== src/Dbg.antt =====
-- The data of src/trace-obj-debug.c and src/trace-obj-debug.h. A list through `next` pointers is a
-- `List`; a `char *` that may be NULL is an `Option Str`; an address is a number below 2 ^ 64.
pub mod Bfd
pub mod Sections
pub mod Lookup
pub mod Objects
pub mod Filemap
pub mod Context
pub mod Requests
pub mod Resolve
pub mod Walk
pub mod Destroy
mod Tests
use trace_cruncher.Base.{ℕ, ◌^◌, Bool, List, Option}
use trace_cruncher.Base.Int.{ℤ}
use trace_cruncher.Text.{Str}

-- `unsigned long long`
abbrev pub u64_mod : ℕ
u64_mod = 2 ^ 64

-- `struct dbg_trace_symbols`
pub record TraceSymbol : Type 0 where
  pub name : Option Str
  pub fname : Option Str
  pub cookie : ℤ
  pub vma_start : ℕ
  pub vma_near : ℕ
  pub foffset : ℕ

-- `enum match_type`
pub data MatchType : Type 0 where
  match_exact match_wildcard : MatchType

-- `struct debug_symbols`
pub record DebugSymbol : Type 0 where
  pub symbol : TraceSymbol
  pub match_type : MatchType

-- `RESOLVE_NAME`, `RESOLVE_VMA`, `RESOLVE_FOFFSET` of `struct debug_obj_job`, a bit each.
pub record Flags : Type 0 where
  pub resolve_name : Bool
  pub resolve_vma : Bool
  pub resolve_foffset : Bool

-- `struct debug_obj_job`, without its list of symbols, which is passed beside it.
pub record Job : Type 0 where
  pub flags : Flags
  pub addr_offset : ℕ

-- `struct dbg_trace_proc_addr_map`
pub record AddrMap : Type 0 where
  pub start : ℕ
  pub end : ℕ
  pub lib_name : Str

-- `struct dbg_trace_pid_maps`, with `lib_maps[0 .. nr_lib_maps)` as a list.
pub record PidMaps : Type 0 where
  pub lib_maps : List AddrMap
  pub proc_name : Str
  pub pid : ℤ
