-- ===== src/Base/Float.antt =====
-- Python's `float`, as `struct.unpack` decodes it from an IEEE 754 bit pattern, and its `==`.
pub mod Equality
use Prim.Native.Nat.{ℕ, ◌+◌, ◌-◌, ◌*◌, ◌/◌, ◌%◌, ◌^◌}
use mathlib.Core.Bool.{Bool, true, false, not, ◌&&◌, ◌||◌}
use etiss_xvalid.Base.Tests.{◌==◌, if◌then◌else◌}

-- The magnitude of a finite value is counted in units of 2 ^ -1074, the least positive double.
pub data PyFloat : Type 0 where
  nan : PyFloat
  inf : (negative : Bool) → PyFloat
  finite : (negative : Bool) (magnitude : ℕ) → PyFloat

abbrev same : Bool → Bool → Bool
same true b = b
same false b = not b

-- `==`: a NaN differs from itself, and the two zeros are equal.
unfoldable pub float_eq : PyFloat → PyFloat → Bool
float_eq (inf s) (inf t) = same s t
float_eq (finite s m) (finite t n) = (m == n) && ((m == 0) || same s t)
float_eq _ _ = false

-- `exponent` and `fraction` are the fields of a pattern whose fraction has `width` bits;
-- `top` is the greatest exponent, and `shift` is what the format's units differ by from the double's.
unfoldable pub decode_fields : (width top shift : ℕ) → Bool → (exponent fraction : ℕ) → PyFloat
decode_fields width top shift negative exponent fraction =
    if exponent == top
    then (if fraction == 0 then inf negative else nan)
    else if exponent == 0
    then finite negative (fraction * 2 ^ shift)
    else finite negative ((2 ^ width + fraction) * 2 ^ (exponent - 1 + shift))

-- struct.unpack('<f', ...) of the pattern
unfoldable pub decode_float : ℕ → PyFloat
unfolding decode_fields
decode_float b = decode_fields 23 255 925 (b / 2 ^ 31 % 2 == 1) (b / 2 ^ 23 % 2 ^ 8) (b % 2 ^ 23)

-- struct.unpack('<d', ...) of the pattern
unfoldable pub decode_double : ℕ → PyFloat
unfolding decode_fields
decode_double b = decode_fields 52 2047 0 (b / 2 ^ 63 % 2 == 1) (b / 2 ^ 52 % 2 ^ 11) (b % 2 ^ 52)
