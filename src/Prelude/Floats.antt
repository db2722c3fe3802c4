-- ===== src/Prelude/Floats.antt =====
-- Go's float64 as its 64 bits (IEEE 754 binary64), with the tests that the program makes. What the
-- machine does in an addition, a product, a quotient or a conversion is a parameter.
use tokemon.Prelude.Tests.{ltb, ◌==◌, if◌then◌else◌}
use tokemon.Prelude.Int.{ℤ}
use Prim.Native.Nat.{ℕ, ◌/◌, ◌%◌}
use mathlib.Core.Bool.{Bool, false, not, ◌&&◌, ◌||◌}

abbrev pub Float64 : Type 0
Float64 = ℕ

-- The sign bit, the eleven bits of the exponent, and all bits but the sign.
abbrev sign_bit : Float64 → ℕ
sign_bit x = x / 9223372036854775808

abbrev magnitude : Float64 → ℕ
magnitude x = x % 9223372036854775808

abbrev infinity : ℕ
infinity = 0x7ff0000000000000

unfoldable pub is_nan : Float64 → Bool
is_nan x = ltb infinity (magnitude x)

-- math.IsInf(x, 0)
unfoldable pub is_inf : Float64 → Bool
is_inf x = magnitude x == infinity

abbrev pub float_zero : Float64
float_zero = 0

abbrev pub float_one : Float64
float_one = 0x3ff0000000000000

-- `x < y`: never on a NaN; the two zeros are equal.
unfoldable pub float_lt : Float64 → Float64 → Bool
unfolding is_nan
float_lt x y =
    if is_nan x || is_nan y || (magnitude x == 0 && magnitude y == 0)
    then false
    else (if sign_bit x == 0
        then sign_bit y == 0 && ltb (magnitude x) (magnitude y)
        else not (sign_bit y == 0) || ltb (magnitude y) (magnitude x))

pub record FloatOps : Type 0 where
  pub float_add : Float64 → Float64 → Float64
  pub float_mul : Float64 → Float64 → Float64
  pub float_div : Float64 → Float64 → Float64
  pub float_of_int : ℤ → Float64
