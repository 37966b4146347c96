-- ===== src/Py/Tests.antt =====
-- The theorems on reading lists at concrete inputs.
use trace_cruncher.Base.{◌≡◌, ◌≢◌, ◌↔◌, map, [], ◌∷◌, List, some, length, arith}
use trace_cruncher.Base.Int.{pos}
use trace_cruncher.Text.{codes}
use trace_cruncher.Py.{ulong_max, as_unsigned_long, Item, unicode, list, tc_list_get_str}
use trace_cruncher.Py.Lists.{tc_list_get_str_iff}
use trace_cruncher.Py.Uints.{entry}

second_fits : entry (pos 6) ≢ ulong_max
unfolding as_unsigned_long
second_fits e = ground arith

abbrev one_signal : List Item
one_signal = unicode (codes "SIGINT") ∷ []

tc_list_get_str_iff_example :
    (tc_list_get_str (list one_signal) [] ≡ some (some (codes "SIGINT" ∷ []), 1))
    ↔ ((one_signal ≡ map unicode (codes "SIGINT" ∷ [])) × (1 ≡ length one_signal))
tc_list_get_str_iff_example =
    tc_list_get_str_iff (unicode (codes "SIGINT")) [] (codes "SIGINT" ∷ []) 1
