-- ===== src/Utrace/Create/Tests.antt =====
-- Making a tracer at a concrete system.
use trace_cruncher.Base.{◌≡◌, refl, false, List, [], ◌∷◌, some, none, ◌⊎◌, Option, ◌+◌, ◌*◌, All}
use trace_cruncher.Utrace.Create.{
  Os, str_hash, get_full_name, NewTrace, user_trace, split_colon, full_path,
}
use trace_cruncher.Dbg.Bfd.{BfdLib}
use trace_cruncher.Dbg.Context.Libs.{Linker}
use trace_cruncher.Dbg.Filemap.{Proc}
use trace_cruncher.Utrace.Create.Laws.{IsFirst, get_full_name-IsFirst}
use trace_cruncher.Text.{codes, Str, str_eq, fname_unify}
use trace_cruncher.Base.Int.{pos}
use trace_cruncher.Alloc.{done}
use trace_cruncher.Dbg.Context.{get_mapped_file}

abbrev os : Os
os = record {
  path = some (codes "/a:/bin");
  can_exec = λ s. str_eq s (codes "/bin/ls");
  realpath = λ s. some s;
  hex = λ n. codes "1-F";
  decimal = λ n. codes "-7";
}

abbrev no_bfd : BfdLib
no_bfd = record {
  openr = λ _. none;
  nearest_function = λ _ _ _. none;
  demangle = λ _. none;
  fnmatch = λ _ _. false;
}

abbrev no_linker : Linker
no_linker = record { loaded_objects = λ _. none; origin = λ _. none }

abbrev init_proc : Proc
init_proc = record { exe = some (codes "/bin/a"); maps = some [] }

short_hash : str_hash (codes "/bin") [] ≡ done (47 + 98 + 105 + 110)
unfolding str_hash trace_cruncher.Utrace.Create.sum_words trace_cruncher.Utrace.Create.word_at
    trace_cruncher.Utrace.Create.sign_extend
short_hash = refl

long_hash :
    str_hash (codes "/bin/") (0 ∷ 0 ∷ [])
    ≡ done (47 + 256 * (98 + 256 * (105 + 256 * (110 + 256 * 47))) + 98 + 105 + 110 + 47)
unfolding str_hash trace_cruncher.Utrace.Create.sum_words trace_cruncher.Utrace.Create.word_at
    trace_cruncher.Utrace.Create.little_endian trace_cruncher.Utrace.Create.sign_extend
long_hash = refl

get_full_name-IsFirst_example :
    ((get_full_name os (codes "ls") [] ≡ done (none, []))
      × All
          (λ d. os.can_exec (full_path d (codes "ls")) ≡ false)
          ((split_colon (codes "/a:/bin")).0 ∷ (split_colon (codes "/a:/bin")).1))
    ⊎ ((found : Str) × (get_full_name os (codes "ls") [] ≡ done (os.realpath found, []))
        × IsFirst os.can_exec
            (codes "ls")
            ((split_colon (codes "/a:/bin")).0 ∷ (split_colon (codes "/a:/bin")).1)
            found)
unfolding trace_cruncher.Text.strchr
get_full_name-IsFirst_example = get_full_name-IsFirst os (codes "ls") (codes "/a:/bin") refl refl

abbrev program : List (Option Str)
program = some (codes "/bin") ∷ []

abbrev made : NewTrace
made = record {
  pid = pos 0;
  cmd_argv = some program;
  usystem = fname_unify (codes "tc_uprobes_1-F");
  dbg =
      (get_mapped_file no_bfd
        (record {
          pid = pos 0;
          fname = some (codes "/bin");
          fmaps = [];
          sym_count = 0;
          sym = [];
          files = [];
        })
        (codes "/bin") 0 []).1;
}
