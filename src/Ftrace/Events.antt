-- ===== src/Ftrace/Events.antt =====
-- `get_event_enable_file`, `event_enable_disable`, `set_enable_events`, `event_is_enabled` and the
-- event filters of src/ftracepy-utils.c.
pub mod Laws
pub mod Paths
use trace_cruncher.Base.{
  ℕ, Bool, true, false, not, ◌&&◌, ◌||◌, List, [], ◌∷◌, ◌++◌, Option, none, some, if◌then◌else◌,
}
use trace_cruncher.Base.Int.{ℤ, pos, negsuc, is_zero, is_pos}
use trace_cruncher.Text.{
  Str, codes, lax_cmp, Arg, no_arg, given, bytes, is_all, is_no_arg, is_set, trim_new_line,
}
use trace_cruncher.Py.{Item, unicode, long, other, Obj, item, list, str_of_item}
use trace_cruncher.Ftrace.{Tracefs}
use trace_cruncher.Ftrace.Files.{write_to_file, read_from_file, write_to_file_and_check}

-- The values of a dictionary with the keys, in the order of `PyDict_Next`; an argument that is no
-- dictionary is `none`.
abbrev pub Dict : Type 0
Dict = Option (List (Item × Obj))

-- How `set_enable_events` ends: true, false, the label `fail_with_err`, or by following a NULL
-- pointer.
pub data Done : Type 0 where
  enabled failed inconsistent null_pointer : Done

module _ (fs : Tracefs) where
  open fs use {World, Instance, dir_exists, event_enable, event_disable}

  -- The three ways to name all events.
  unfoldable pub names_all : Arg → Arg → Bool
  names_all system event =
      (is_all system && is_all event)
      || ((is_all system && is_no_arg event) || (is_no_arg system && is_all event))

  -- The path of the file, if the directories on it exist. (Its buffer is always allocated here.)
  unfoldable pub get_event_enable_file : World → Instance → Arg → Arg → Option Str
  get_event_enable_file w inst system event =
      let dir = codes "events/" ++ bytes system in
      let event_dir = dir ++ b'/' ∷ bytes event in
      if names_all system event
      then some (codes "events/enable")
      else (if is_set system
          then (if dir_exists w inst dir
              then (if is_set event
                  then (if dir_exists w inst event_dir
                      then some (event_dir ++ codes "/enable")
                      else none)
                  else some (dir ++ codes "/enable"))
              else none)
          else none)

  -- `if (arg && !is_set(arg)) arg = NULL;`
  unfoldable pub set_or_null : Option Arg → Option Str
  set_or_null none = none
  set_or_null (some arg) = if is_set arg then some (bytes arg) else none

  unfoldable pub event_enable_disable :
      Instance → Option Arg → Option Arg → Bool → World → Bool × World
  event_enable_disable inst system event enable w =
      let s = set_or_null system in
      let e = set_or_null event in
      let (ret, w') = (if enable then event_enable inst s e w else event_disable inst s e w) in
      (is_zero ret, w')

  -- The loop over the events of a system.
  unfoldable pub enable_each : Instance → Str → Bool → List Item → World → Done × World
  enable_each inst system enable [] w = (enabled, w)
  enable_each inst system enable (x ∷ xs) w = elim (str_of_item x) [
    | none ↦ (inconsistent, w)
    | some event ↦
        let (ok, w') =
          event_enable_disable inst (some (given system)) (some (given event)) enable w in
        let rest = enable_each inst system enable xs w' in if ok then rest else (failed, w')
  ]

  unfoldable pub whole_system : Instance → Str → Bool → World → Done × World
  whole_system inst system enable w =
      let (ok, w') = event_enable_disable inst (some (given system)) none enable w in
      (if ok then enabled else failed, w')

  -- The events of one system: an empty list, or one entry "all", is the whole system. For one entry
  -- that is no string, `is_all` gets NULL.
  unfoldable pub enable_system : Instance → Str → Bool → List Item → World → Done × World
  enable_system inst system enable [] w = whole_system inst system enable w
  enable_system inst system enable (unicode event ∷ []) w =
      if lax_cmp event (codes "all")
      then whole_system inst system enable w
      else enable_each inst system enable (unicode event ∷ []) w
  enable_system inst system enable (x ∷ []) w = (null_pointer, w)
  enable_system inst system enable (x ∷ y ∷ xs) w = enable_each inst system enable (x ∷ y ∷ xs) w

  -- The loop over the dictionary.
  unfoldable pub enable_systems : Instance → Bool → List (Item × Obj) → World → Done × World
  enable_systems inst enable [] w = (enabled, w)
  enable_systems inst enable ((unicode system, list events) ∷ rest) w =
      let (one, w') = enable_system inst system enable events w in
      elim one [
        | enabled ↦ enable_systems inst enable rest w'
        | failed ↦ (failed, w')
        | inconsistent ↦ (inconsistent, w')
        | null_pointer ↦ (null_pointer, w')
      ]
  enable_systems inst enable ((_, _) ∷ rest) w = (inconsistent, w)

  unfoldable pub set_enable_events : Instance → Bool → Dict → World → Done × World
  set_enable_events inst enable none w = (inconsistent, w)
  set_enable_events inst enable (some entries) w = enable_systems inst enable entries w

  -- The text that `event_is_enabled` returns, or an error.
  unfoldable pub event_is_enabled : Instance → Arg → Arg → World → Option Str × World
  event_is_enabled inst system event w = elim (get_event_enable_file w inst system event) [
    | none ↦ (none, w)
    | some file ↦
        let (size, val, w') = read_from_file fs inst file w in
        (if is_pos size then some (trim_new_line val) else none, w')
  ]

  -- The file of an event's filter, or of a system's.
  unfoldable pub filter_file : Str → Option Str → Str
  filter_file system none = codes "events/" ++ (system ++ codes "/filter")
  filter_file system (some event) = codes "events/" ++ (system ++ (b'/' ∷ event ++ codes "/filter"))

  unfoldable pub set_event_filter : Instance → Str → Option Str → Str → World → Bool × World
  set_event_filter inst system (some event) filter w =
      write_to_file_and_check fs inst (filter_file system (some event)) filter w
  set_event_filter inst system none filter w =
      let (size, w') = write_to_file fs inst (filter_file system none) filter w in (is_pos size, w')

  -- The result of `write_to_file` is tested as a Boolean.
  unfoldable pub clear_event_filter : Instance → Str → Option Str → World → Bool × World
  clear_event_filter inst system event w =
      let (size, w') = write_to_file fs inst (filter_file system event) (codes "0") w in
      (not (is_zero size), w')
