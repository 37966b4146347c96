-- ===== src/Synth.antt =====
-- The fields of synthetic events of src/ftracepy-utils.c: `synth_add_fields`, `add_synth_field`,
-- `PySynthEvent_add_delta_T` and `PySynthEvent_repr`, after their arguments were parsed.
pub mod Laws
mod Tests
use trace_cruncher.Base.{
  Bool, true, false, not, List, [], ◌∷◌, ◌++◌, Option, none, some, if◌then◌else◌, length, ltb,
}
use trace_cruncher.Base.Int.{ℤ, is_neg}
use trace_cruncher.Text.{Str, codes}
use trace_cruncher.Alloc.{Run, done, fault, ◌>>=◌}
use trace_cruncher.Py.{Item, unicode, long, other}

-- How a field is computed: `TRACEFS_SYNTH_DELTA_START`, `..._DELTA_END` and `..._ADD`.
pub data Calc : Type 0 where
  delta_start delta_end add : Calc

-- libtracefs: what adds a field to the start (true) or the end event, with a name or NULL, what adds a
-- computed field, the two clocks, and the texts that show an event (NULL on an error).
pub record SynthLib : Type 1 where
  pub Synth : Type 0
  pub add_field : Bool → Str → Option Str → Synth → ℤ × Synth
  pub add_compare_field : Str → Str → Calc → Str → Synth → ℤ × Synth
  pub timestamp : Str
  pub timestamp_usecs : Str
  pub show_event : Synth → Option Str
  pub show_start_hist : Synth → Option Str
  pub show_end_hist : Synth → Option Str

-- The entry of the list of names at the place of a field: an item, or None. A list that is too short
-- gives no item and sets a Python error, which the code does not look at.
unfoldable pub name_of : Option (List (Option Item)) → Run (Option Str)
name_of none = done none
name_of (some []) = done none
name_of (some (none ∷ names)) = done none
name_of (some (some (unicode s) ∷ names)) = done (some s)
name_of (some (some (long v) ∷ names)) = fault
name_of (some (some other ∷ names)) = fault

unfoldable pub next_names : Option (List (Option Item)) → Option (List (Option Item))
next_names none = none
next_names (some []) = some []
next_names (some (x ∷ names)) = some names

unfoldable pub name_or_default : Option Str → Str
name_or_default none = codes "delta_T"
name_or_default (some name) = name

unfoldable pub shown : Option Str → Str
shown none = []
shown (some s) = s

module _ (lib : SynthLib) where
  open lib use {
    Synth, add_field, add_compare_field, timestamp, timestamp_usecs, show_event, show_start_hist,
    show_end_hist,
  }

  -- The loop over the fields, whose items are taken for texts.
  unfoldable pub synth_add_fields :
      Bool → List Item → Option (List (Option Item)) → Synth → Run (Bool × Synth)
  synth_add_fields to_start [] names self = done (true, self)
  synth_add_fields to_start (unicode field ∷ fields) names self = name_of names >>= (λ name.
      let (ret, self') = add_field to_start field name self in
      let rest = synth_add_fields to_start fields (next_names names) self' in
      if is_neg ret then done (false, self') else rest)
  synth_add_fields to_start (long v ∷ fields) names self = fault
  synth_add_fields to_start (other ∷ fields) names self = fault

  unfoldable pub add_synth_field : Calc → Str → Str → Str → Synth → Bool × Synth
  add_synth_field calc name start_field end_field self =
      let (ret, self') = add_compare_field start_field end_field calc name self in
      (not (is_neg ret), self')

  unfoldable pub add_delta_t : Option Str → Bool → Synth → Bool × Synth
  add_delta_t name hd self =
      let time_rez = if hd then timestamp else timestamp_usecs in
      add_synth_field delta_end (name_or_default name) time_rez time_rez self

  -- The texts that are appended, in order.
  unfoldable pub repr_parts : Bool → Bool → Bool → Synth → List Str
  repr_parts event hist_start hist_end self =
      (if event then codes "synth. event: " ∷ shown (show_event self) ∷ [] else [])
      ++ ((if hist_start
            then (if event then (10 ∷ []) ∷ [] else [])
              ++ (codes "hist. start: " ∷ shown (show_start_hist self) ∷ [])
            else [])
          ++ (if hist_end
              then (if event then (10 ∷ []) ∷ [] else (if hist_start then (10 ∷ []) ∷ [] else []))
                ++ (codes "hist. end: " ∷ shown (show_end_hist self) ∷ [])
              else []))

-- `strcat(buff, str)`, for a `char buff[2048]`: the text with its NUL has to fit.
unfoldable pub strcat : Str → Str → Run Str
strcat buff str = if ltb (length (buff ++ str)) 2048 then done (buff ++ str) else fault

unfoldable pub strcat_all : Str → List Str → Run Str
strcat_all buff [] = done buff
strcat_all buff (str ∷ strs) = strcat buff str >>= (λ buff'. strcat_all buff' strs)

-- `PySynthEvent_repr`
unfoldable pub synth_repr : (lib : SynthLib) → Bool → Bool → Bool → lib.Synth → Run Str
synth_repr lib event hist_start hist_end self =
    strcat_all [] (repr_parts lib event hist_start hist_end self)
