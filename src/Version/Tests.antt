-- ===== src/Version/Tests.antt =====
-- The version check at concrete releases.
use trace_cruncher.Base.{◌≡◌, refl, true, false, some, ◌++◌, ◌∷◌, ltb, ◌||◌, ◌==◌, ◌&&◌, leb, arith}
use trace_cruncher.Version.Laws.{decimal, check_kernel_support-decimal}
use trace_cruncher.Text.{codes}
use trace_cruncher.Version.{
  check_kernel_support, strtok, skip_dots, cut_at_dot, atoi, signed_value, digits_value, is_digit,
}
use trace_cruncher.Dbg.Context.Libs.{skip_space}
use trace_cruncher.Alloc.{done, fault}
use trace_cruncher.Base.Int.{to_int, low_bits}

major_only : check_kernel_support (some (codes "6")) 5 15 ≡ done true
unfolding check_kernel_support strtok skip_dots cut_at_dot atoi skip_space signed_value digits_value
    is_digit to_int low_bits
major_only = refl

-- A release without a second number, where it is looked at.
no_minor : check_kernel_support (some (codes "5")) 5 15 ≡ fault
unfolding check_kernel_support strtok skip_dots cut_at_dot atoi skip_space signed_value digits_value
    is_digit to_int low_bits
no_minor = refl

old : check_kernel_support (some (codes "5.4.0-100-generic")) 5 15 ≡ done false
unfolding check_kernel_support strtok skip_dots cut_at_dot atoi skip_space signed_value digits_value
    is_digit to_int low_bits
old = refl

check_kernel_support-decimal_example :
    check_kernel_support (some (decimal 6 ++ (b'.' ∷ (decimal 11 ++ codes "-rc3")))) 5 15
    ≡ done (ltb 5 6 || ((6 == 5) && leb 15 11))
unfolding is_digit
check_kernel_support-decimal_example =
    check_kernel_support-decimal 6 11 5 15 (codes "-rc3") (omega arith) (omega arith) refl
