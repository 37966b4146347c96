-- ===== src/Dbg/Bfd.antt =====
-- What src/trace-obj-debug.c reads of the bfd library: the fields of its structures that the code
-- names, and the functions that it calls, which are parameters of the model.
use trace_cruncher.Base.{ℕ, Bool, List, Option}
use trace_cruncher.Base.Int.{ℤ}
use trace_cruncher.Text.{Str}

-- `asection`: `flags & SEC_CODE`, `vma`, `size`, `filepos`.
pub record Section : Type 0 where
  pub code : Bool
  pub vma : ℕ
  pub size : ℕ
  pub filepos : ℕ

-- `asymbol`: `flags & BSF_FUNCTION`, `name`, `value`, `section->vma`, `the_bfd->flags & DYNAMIC`.
pub record Asymbol : Type 0 where
  pub function : Bool
  pub name : Str
  pub value : ℕ
  pub section_vma : ℕ
  pub dynamic : Bool

-- The symbols that `bfd_canonicalize_symtab` stores, or its -1.
pub data Canonical : Type 0 where
  stored : List Asymbol → Canonical
  failed : Canonical

-- A bfd that is no archive, with what the library answers about it.
pub record Object : Type 0 where
  pub filename : Str
  pub dynamic : Bool
  -- `bfd_check_format_matches` as an object or as a core file.
  pub format_matches : Bool
  pub has_syms : Bool
  -- The two `..._upper_bound` calls, and the two `bfd_canonicalize_...` calls.
  pub dynamic_symtab_bound : ℤ
  pub symtab_bound : ℤ
  pub symtab : Canonical
  pub dynamic_symtab : Canonical
  pub sections : List Section
  -- The offsets into a section at which `bfd_find_nearest_line_discriminator` finds a line, but no
  -- function: `functionname` is then NULL.
  pub nameless : Section → ℕ → Bool

-- A bfd: an object, or an archive with what `bfd_openr_next_archived_file` gives in order. It ends
-- with NULL, where `bfd_get_error` says that there are no more files, or names another error.
mutual
  pub data Bfd : Type 0 where
    object : Object → Bfd
    archive : Members → Bfd

  pub data Members : Type 0 where
    no_more_files : Members
    other_error : Members
    member : Bfd → Members → Members

-- `bfd_openr`, the name that `bfd_find_nearest_line_discriminator` finds at an offset into a section, where
-- it is not `nameless`, `bfd_demangle`, and `fnmatch(pattern, name, 0) == 0`.
pub record BfdLib : Type 0 where
  pub openr : Str → Option Bfd
  pub nearest_function : Object → Section → ℕ → Option Str
  pub demangle : Str → Option Str
  pub fnmatch : Str → Str → Bool
