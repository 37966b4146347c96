-- ===== src/Hist/Tests.antt =====
-- Histograms at concrete inputs, with a library that keeps what it is given.
use trace_cruncher.Base.{◌≡◌, refl, List, [], ◌∷◌, true, some, map, All}
use trace_cruncher.Hist.{HistLib, hist_from_axis, Axis, named, execname, log}
use trace_cruncher.Hist.Axes.{Typed, HasType, entries_from, axis_of, hist_from_axis-entries_from}
use trace_cruncher.Text.{Str, codes, to_lower}
use trace_cruncher.Ftrace.Pids.{as_long}
use trace_cruncher.Py.{item, unicode}
use trace_cruncher.Base.Int.{ℤ, to_int, pos, is_neg, low_bits}
use trace_cruncher.Hist.Names.{hist_key_type-key_names}
use trace_cruncher.Alloc.{done}
use trace_cruncher.Hist.Keys.{AllNumbered}

abbrev lib : HistLib
lib = record {
  Hist = List Axis;
  get_tep = true;
  hist_alloc = λ system event key type. some (record { key = key; type = type } ∷ []);
  hist_alloc_nd = λ system event axes. some axes;
  add_name = λ h name. (pos 0, h);
  add_sort_key = λ h key. (pos 0, h);
  sort_key_direction = λ h key dir. (pos 0, h);
}

abbrev typed : List Typed
typed =
    (codes "pid", item (unicode (codes "execname")), named execname)
    ∷ (codes "size", item (unicode (codes "log")), named log)
    ∷ []

typed-HasType : All HasType typed
unfolding to_lower
typed-HasType = (
  hist_key_type-key_names (codes "execname") 9 (codes "execname") execname refl refl,
  (hist_key_type-key_names (codes "log") 11 (codes "log") log refl refl, tt),
)

hist_from_axis-entries_from_example :
    hist_from_axis lib (codes "kmem") (codes "kmalloc") (some (entries_from 0 typed)) []
    ≡ done (some (map axis_of typed))
hist_from_axis-entries_from_example =
    hist_from_axis-entries_from lib (codes "kmem") (codes "kmalloc") typed typed-HasType

abbrev with_numbers : List (Str × ℤ)
with_numbers = (codes "pid", pos 0) ∷ (codes "size", pos 7) ∷ []

with_numbers-AllNumbered : AllNumbered with_numbers
unfolding as_long to_int is_neg low_bits
with_numbers-AllNumbered = (refl, (refl, tt))
