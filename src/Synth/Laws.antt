-- ===== src/Synth/Laws.antt =====
-- How much a synthetic event may show, and which fields are added.
use trace_cruncher.Base.{
  ◌≡◌, refl, ap, ◌∙◌, Bool, true, false, List, [], ◌∷◌, ◌++◌, map, some, none, arith, length, ltb,
  if◌then◌else◌, length-append, append_assoc, Option, Bool-cases, inl, inr,
}
use trace_cruncher.Text.{Str, codes}
use trace_cruncher.Alloc.{Run, done, fault}
use trace_cruncher.Synth.{
  strcat_all, synth_repr, SynthLib, strcat, repr_parts, synth_add_fields, name_of, next_names,
  shown,
}
use trace_cruncher.Py.{Item, unicode}
use trace_cruncher.Base.Int.{is_neg}

abbrev pub concat : List Str → Str
concat [] = []
concat (s ∷ ss) = s ++ concat ss

append_nil : (s : Str) → s ++ [] ≡ s
append_nil [] = refl
append_nil (c ∷ s) = ap (◌∷◌ c) (append_nil s)

abbrev bounded : Str → Run Str
bounded s = if ltb (length s) 2048 then done s else fault

strcat_all-concat :
    (buff : Str) (strs : List Str)
    → ltb (length buff) 2048 ≡ true
    → strcat_all buff strs ≡ bounded (buff ++ concat strs)
unfolding strcat_all strcat
strcat_all-concat buff [] h = rw (append_nil buff, h) refl
strcat_all-concat buff (str ∷ strs) h = elim (Bool-cases (ltb (length (buff ++ str)) 2048)) [
  | inl e ↦
      rw e
        (strcat_all-concat (buff ++ str) strs e ∙ ap bounded (append_assoc buff str (concat strs)))
  | inr e ↦
      let long' : ltb (length (buff ++ (str ++ concat strs))) 2048 ≡ false = ground (
        arith,
        length-append buff str,
        length-append buff (str ++ concat strs),
        length-append str (concat strs),
      ) in
      rw (e, long') refl
]

-- What is shown: a line for each of the three parts that is asked for.
abbrev pub event_line : (lib : SynthLib) → lib.Synth → Str
event_line lib self = codes "synth. event: " ++ shown (lib.show_event self)

abbrev pub start_line : (lib : SynthLib) → lib.Synth → Str
start_line lib self = codes "hist. start: " ++ shown (lib.show_start_hist self)

abbrev pub end_line : (lib : SynthLib) → lib.Synth → Str
end_line lib self = codes "hist. end: " ++ shown (lib.show_end_hist self)

abbrev pub lines_of : (lib : SynthLib) → Bool → Bool → Bool → lib.Synth → Str
lines_of lib false false false self = []
lines_of lib true false false self = event_line lib self
lines_of lib false true false self = start_line lib self
lines_of lib false false true self = end_line lib self
lines_of lib true true false self = event_line lib self ++ 10 ∷ start_line lib self
lines_of lib true false true self = event_line lib self ++ 10 ∷ end_line lib self
lines_of lib false true true self = start_line lib self ++ 10 ∷ end_line lib self
lines_of lib true true true self =
    event_line lib self ++ 10 ∷ (start_line lib self ++ 10 ∷ end_line lib self)

repr_parts-lines_of :
    (lib : SynthLib) (event hist_start hist_end : Bool) (self : lib.Synth)
    → concat (repr_parts lib event hist_start hist_end self)
      ≡ lines_of lib event hist_start hist_end self
unfolding repr_parts
repr_parts-lines_of lib false false false self = refl
repr_parts-lines_of lib true false false self = rw (append_nil (shown (lib.show_event self))) refl
repr_parts-lines_of lib false true false self =
    rw (append_nil (shown (lib.show_start_hist self))) refl
repr_parts-lines_of lib false false true self =
    rw (append_nil (shown (lib.show_end_hist self))) refl
repr_parts-lines_of lib true true false self =
    rw (append_nil (shown (lib.show_start_hist self))) refl
repr_parts-lines_of lib true false true self = rw (append_nil (shown (lib.show_end_hist self))) refl
repr_parts-lines_of lib false true true self = rw (append_nil (shown (lib.show_end_hist self))) refl
repr_parts-lines_of lib true true true self = rw (append_nil (shown (lib.show_end_hist self))) refl

-- Showing a synthetic event gives a line for each part that is asked for, with its title: the event,
-- the start and the end histogram, in this order and with a new line between two; if these have more
-- than 2047 characters together, it writes behind the buffer.
pub synth_repr-concat :
    (lib : SynthLib) (event hist_start hist_end : Bool) (self : lib.Synth)
    → synth_repr lib event hist_start hist_end self ≡ (
        if ltb (length (lines_of lib event hist_start hist_end self)) 2048
        then done (lines_of lib event hist_start hist_end self)
        else fault)
unfolding synth_repr
synth_repr-concat lib event hist_start hist_end self =
    strcat_all-concat [] (repr_parts lib event hist_start hist_end self) refl
    ∙ ap bounded (repr_parts-lines_of lib event hist_start hist_end self)

-- A name of a field as an entry of the list.
abbrev pub name_item : Option Str → Option Item
name_item none = none
name_item (some s) = some (unicode s)

module _ (lib : SynthLib) where
  open lib use {Synth, add_field}

  -- Fields with their names, up to the first that is refused.
  abbrev pub add_pairs : Bool → List (Str × Option Str) → Synth → Bool × Synth
  add_pairs to_start [] self = (true, self)
  add_pairs to_start ((field, name) ∷ ps) self =
      let (ret, self') = add_field to_start field name self in
      let rest = add_pairs to_start ps self' in if is_neg ret then (false, self') else rest

  -- A list of texts, with a list of as many names, or None, adds each field with its own name, in
  -- order, and ends at the first that the library refuses.
  pub synth_add_fields-add_pairs :
      (to_start : Bool) (ps : List (Str × Option Str)) (self : Synth)
      → synth_add_fields lib to_start
          (map (λ p. unicode p.0) ps)
          (some (map (λ p. name_item p.1) ps))
          self
        ≡ done (add_pairs to_start ps self)
  unfolding synth_add_fields name_of next_names
  synth_add_fields-add_pairs to_start [] self = refl
  synth_add_fields-add_pairs to_start ((field, none) ∷ ps) self =
      ground (arith, synth_add_fields-add_pairs to_start ps (add_field to_start field none self).1)
  synth_add_fields-add_pairs to_start ((field, some name) ∷ ps) self =
      ground (
        arith,
        synth_add_fields-add_pairs to_start ps (add_field to_start field (some name) self).1,
      )
