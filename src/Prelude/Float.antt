-- ===== src/Prelude/Float.antt =====
-- A float64 as what comparisons read of it: a fraction, an infinity, or not a number.
use Prim.Native.Nat.{ℕ, suc, ◌+◌, ◌*◌}
use mathlib.Core.Bool.{Bool, true, false}
use ai_engineering_productiv.Prelude.Tests.{ltb}
use ai_engineering_productiv.Prelude.Int.{ℤ, pos, pos_part, neg_part}

pub data Float64 : Type 0 where
  -- the numerator over the denominator, which is one more than its argument
  fraction : ℤ → ℕ → Float64
  positive_infinity negative_infinity not_a_number : Float64

abbrev pub float : ℕ → Float64
float n = fraction (pos n) 0

-- `a < b`. It is false where a side is not a number.
unfoldable pub float_lt : Float64 → Float64 → Bool
float_lt (fraction a c) (fraction b d) =
    ltb (pos_part a * suc d + neg_part b * suc c) (pos_part b * suc c + neg_part a * suc d)
float_lt (fraction a c) positive_infinity = true
float_lt negative_infinity (fraction b d) = true
float_lt negative_infinity positive_infinity = true
float_lt _ _ = false

pub is_number : Float64 → Bool
is_number not_a_number = false
is_number _ = true
