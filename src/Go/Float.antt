-- ===== src/Go/Float.antt =====
-- float64, as its IEEE 754 bit pattern, with the order that `<` decides.
use failure_detector.Prelude.{
  ℕ, ◌-◌, ◌%◌, ◌≡◌, refl, Bool, true, false, not, ◌&&◌, ltb, if◌then◌else◌,
}
use failure_detector.Prelude.Int.{ℤ, pos, sub_ℕ, ltb_ℤ, i64_end}

abbrev pub Float64 : Type 0
Float64 = ℕ

abbrev pub zero_float : Float64
zero_float = 0

abbrev pub one_float : Float64
one_float = 0x3FF0000000000000

-- The exponent is all ones and the fraction is not zero.
abbrev pub is_nan : Float64 → Bool
is_nan x = ltb 0x7FF0000000000000 (x % i64_end)

-- Patterns of numbers are ordered as sign and magnitude; the two zeros are equal.
abbrev pub order_key : Float64 → ℤ
order_key x = if ltb x i64_end then pos x else sub_ℕ 0 (x - i64_end)

-- `x < y`; it is false if either is NaN.
unfoldable pub float_lt : Float64 → Float64 → Bool
float_lt x y = not (is_nan x) && not (is_nan y) && ltb_ℤ (order_key x) (order_key y)

abbrev pub half_float : Float64
half_float = 0x3FE0000000000000

half_below_one : float_lt half_float one_float ≡ true
unfolding float_lt
half_below_one = refl

zeros_equal : float_lt i64_end zero_float ≡ false
unfolding float_lt
zeros_equal = refl
