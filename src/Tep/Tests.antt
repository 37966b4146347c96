-- ===== src/Tep/Tests.antt =====
-- The theorems on the handle of libtraceevent at concrete inputs.
use trace_cruncher.Base.{◌≡◌, refl, [], ◌∷◌, Option, none, some, if◌then◌else◌}
use trace_cruncher.Base.Int.{ℤ, pos, negsuc}
use trace_cruncher.Text.{Str, codes}
use trace_cruncher.Alloc.{done}
use trace_cruncher.Dbg.Filemap.{int_eq}
use trace_cruncher.Record.{TepEvent, TepRecord}
use trace_cruncher.Tep.{Format, field_names, TepLib}
use trace_cruncher.Tep.Fields.{field_names-append}
use trace_cruncher.Tep.Comms.{CommNames, is_named}

abbrev two_fields : Format
two_fields = record {
  nr_fields = 1;
  nr_common = 1;
  common_fields = some (codes "common_pid" ∷ []);
  fields = some (codes "prev_comm" ∷ []);
}

field_names-append_example :
    field_names two_fields ≡ done (some (some (codes "common_pid") ∷ some (codes "prev_comm") ∷ []))
field_names-append_example =
    field_names-append two_fields (codes "common_pid" ∷ []) (codes "prev_comm" ∷ []) refl refl refl
      refl

-- A handle that is the map from a PID to a name; one process has a name in `/proc`.
abbrev names_lib : TepLib
names_lib = record {
  World = Unit;
  Tep = ℤ → Option Str;
  local_events_system = λ dir systems w. (some (λ pid. none), w);
  find_event_by_name = λ tep system name. none;
  is_pid_registered = λ tep pid. is_named (tep pid);
  register_comm = λ tep comm pid q. if int_eq pid q then some comm else tep q;
  register_event_handler = λ tep id system event. (pos 0, tep);
  event_name = λ event. codes "sched_switch";
  print_time = λ tep rec. codes "1.0 ";
  print_comm = λ tep rec. codes "sh-7";
  print_cpu = λ tep rec. codes " cpu=0 ";
  print_info = λ tep rec. codes "info";
  proc_comm = λ pid. if int_eq pid (negsuc 0) then some (codes "sh\n") else none;
}

tep_names : CommNames names_lib
tep_names = record {
  name_of = λ tep pid. tep pid;
  registered = λ tep pid. refl;
  named = λ tep comm pid q n. refl;
}

-- An event without a PID, so that it is -1.
abbrev no_fields : TepEvent
no_fields = record {
  find_field = λ name. none;
  find_common_field = λ name. none;
  read_number = λ s n. 0;
  read_number_field = λ field s. 0;
  decode = λ s. some s;
  print_pointer = λ n. [];
}

abbrev empty_record : TepRecord
empty_record = record { raw_data = []; address = 0 }
