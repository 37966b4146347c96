-- ===== src/Hist/Commands.antt =====
-- The commands of a histogram in src/ftracepy-utils.c: `PyTraceHist_add_value`,
-- `hist_cmd` with the five methods that call it, `hist_read` and `PyTraceHist_read`.
use trace_cruncher.Base.{Bool, false, not, Option, none, some}
use trace_cruncher.Base.Int.{ℤ, is_neg}
use trace_cruncher.Text.{Str, codes}
use trace_cruncher.Ftrace.{Tracefs}
use trace_cruncher.Ftrace.Methods.{InstanceArg, get_optional_instance}

-- The constants of `enum tracefs_hist_command` that the code names.
pub data Command : Type 0 where
  cmd_start cmd_pause cmd_cont cmd_clear cmd_destroy : Command

-- libtracefs: a histogram with its event, what adds a value, runs a command, and reads a file of an
-- event.
pub record HistCommands (fs : Tracefs) : Type 1 where
  pub Hist : Type 0
  pub system : Hist → Str
  pub event : Hist → Str
  pub add_value : Hist → Str → ℤ × Hist
  pub command : fs.Instance → Hist → Command → fs.World → ℤ × fs.World
  pub event_file_read : fs.Instance → Str → Str → Str → fs.World → Option Str

-- What a method of an object asks for.
pub data Method : Type 0 where
  start_hist stop_hist resume_hist clear_hist close_hist : Method

-- The methods `start`, `stop`, `resume`, `clear` and `close`.
unfoldable pub command_of : Method → Command
command_of start_hist = cmd_start
command_of stop_hist = cmd_pause
command_of resume_hist = cmd_cont
command_of clear_hist = cmd_clear
command_of close_hist = cmd_destroy

module _ (fs : Tracefs) (top : fs.Instance) (lib : HistCommands fs) where
  open fs use {World, Instance}
  open lib use {Hist, system, event, add_value, command, event_file_read}

  unfoldable pub add_hist_value : Hist → Str → Bool × Hist
  add_hist_value hist value = let (ret, hist') = add_value hist value in (not (is_neg ret), hist')

  unfoldable pub hist_cmd : Hist → InstanceArg Instance → Command → World → Bool × World
  hist_cmd hist py_inst cmd w = elim (get_optional_instance top py_inst) [
    | none ↦ (false, w)
    | some inst ↦ let (ret, w') = command inst hist cmd w in (not (is_neg ret), w')
  ]

  unfoldable pub hist_method : Hist → InstanceArg Instance → Method → World → Bool × World
  hist_method hist py_inst method w = hist_cmd hist py_inst (command_of method) w

  -- Also `PyTraceHist_read`.
  unfoldable pub hist_read : Hist → InstanceArg Instance → World → Option Str
  hist_read hist py_inst w = elim (get_optional_instance top py_inst) [
    | none ↦ none
    | some inst ↦ event_file_read inst (system hist) (event hist) (codes "hist") w
  ]
