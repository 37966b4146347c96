-- ===== src/Hist/Sort.antt =====
-- The sort keys of histograms in src/ftracepy-utils.c: `add_sort_key`, `PyTraceHist_sort_keys`,
-- `sort_direction` and `PyTraceHist_sort_key_direction`, after their arguments were parsed.
use trace_cruncher.Base.{Bool, true, false, not, List, [], ◌∷◌, none, some, if◌then◌else◌}
use trace_cruncher.Base.Int.{ℤ, pos, negsuc, is_neg, to_int}
use trace_cruncher.Text.{Str, codes}
use trace_cruncher.Py.{Item, unicode, long, other, Obj, item, list, str_of_item}
use trace_cruncher.Ftrace.Pids.{as_long}
use trace_cruncher.Hist.{HistLib, find_name}

module _ (lib : HistLib) where
  open lib use {Hist, add_sort_key}

  -- The loop of `PyTraceHist_sort_keys`: true where it reaches the end of the list.
  unfoldable pub add_sort_keys : List Item → Hist → Bool × Hist
  add_sort_keys [] hist = (true, hist)
  add_sort_keys (x ∷ xs) hist = elim (str_of_item x) [
    | none ↦ (false, hist)
    | some key ↦
        let (ret, hist') = add_sort_key hist key in
        let rest = add_sort_keys xs hist' in if is_neg ret then (false, hist') else rest
  ]

  -- An object that is neither a text nor a list is passed over in silence.
  unfoldable pub sort_keys : Obj → Hist → Bool × Hist
  sort_keys (list xs) hist = add_sort_keys xs hist
  sort_keys (item (unicode key)) hist =
      let (ret, hist') = add_sort_key hist key in (not (is_neg ret), hist')
  sort_keys (item (long v)) hist = (true, hist)
  sort_keys (item other) hist = (true, hist)

-- The names in the order of the tests, and their directions.
abbrev pub direction_names : List (Str × ℤ)
direction_names =
    (codes "descending", pos 1)
    ∷ (codes "desc", pos 1)
    ∷ (codes "d", pos 1)
    ∷ (codes "ascending", pos 0)
    ∷ (codes "asc", pos 0)
    ∷ (codes "a", pos 0)
    ∷ []

unfoldable pub sort_direction : Obj → ℤ
sort_direction (list xs) = negsuc 0
sort_direction (item other) = negsuc 0
sort_direction (item (long v)) = to_int (as_long v)
sort_direction (item (unicode s)) = elim (find_name s direction_names) [
  | none ↦ negsuc 0
  | some dir ↦ dir
]

unfoldable pub set_sort_direction : (lib : HistLib) → Str → Obj → lib.Hist → Bool × lib.Hist
set_sort_direction lib sort_key py_dir hist =
    let dir = sort_direction py_dir in
    let (ret, hist') = lib.sort_key_direction hist sort_key dir in
    if is_neg dir then (false, hist) else (not (is_neg ret), hist')
