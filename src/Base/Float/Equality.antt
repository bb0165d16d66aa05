-- ===== src/Base/Float/Equality.antt =====
-- Which decoded patterns are equal to themselves.
use Prim.Native.Nat.{ℕ, ◌-◌, ◌/◌, ◌%◌, ◌^◌, ◌<◌}
use mathlib.Core.Path.{◌≡◌, refl}
use mathlib.Core.Logic.{◌↔◌, ◌⊎◌}
use mathlib.Core.Bool.{Bool, true, false, not, ◌&&◌}
use native.Mathlib.Omega.{arith}
use etiss_xvalid.Base.Tests.{◌==◌, ==_refl, if◌then◌else◌}
use etiss_xvalid.Base.Float.{nan, inf, finite, float_eq, decode_fields, decode_double}

float_eq_refl_finite : (s : Bool) (m : ℕ) → float_eq (finite s m) (finite s m) ≡ true
unfolding float_eq
float_eq_refl_finite true m = ground (arith, ==_refl m)
float_eq_refl_finite false m = ground (arith, ==_refl m)

float_eq_refl_inf : (s : Bool) → float_eq (inf s) (inf s) ≡ true
unfolding float_eq
float_eq_refl_inf true = refl
float_eq_refl_inf false = refl

-- the patterns of NaNs, by the numbers that they are
abbrev pub IsNanPattern : ℕ → Type 0
IsNanPattern n = (2 ^ 63 - 2 ^ 52 < n × n < 2 ^ 63) ⊎ (2 ^ 64 - 2 ^ 52 < n)

float_eq_refl_fields :
    (s : Bool) (m n : ℕ) (is_top no_fraction is_zero : Bool)
    → let f =
        if is_top
        then (if no_fraction then inf s else nan)
        else if is_zero
        then finite s m
        else finite s n in
      float_eq f f ≡ not (is_top && not no_fraction)
float_eq_refl_fields s m n true true z = float_eq_refl_inf s
float_eq_refl_fields s m n true false z = unfold float_eq in refl
float_eq_refl_fields s m n false f true = float_eq_refl_finite s m
float_eq_refl_fields s m n false f false = float_eq_refl_finite s n

float_eq-decode_fields :
    (width top shift : ℕ) (s : Bool) (exponent fraction : ℕ)
    → float_eq
        (decode_fields width top shift s exponent fraction)
        (decode_fields width top shift s exponent fraction)
      ≡ not ((exponent == top) && not (fraction == 0))
unfolding decode_fields
float_eq-decode_fields width top shift s exponent fraction =
    float_eq_refl_fields s _ _ (exponent == top) (fraction == 0) (exponent == 0)

top_exponent_iff :
    (n : ℕ)
    → n < 2 ^ 64
    → ((not ((n / 2 ^ 52 % 2 ^ 11 == 2047) && not (n % 2 ^ 52 == 0))) ≡ false) ↔ IsNanPattern n
top_exponent_iff n h = (λ e. ground arith, λ r. ground arith)

-- A double differs from itself exactly where its pattern is that of a NaN.
pub float_eq-decode_double :
    (n : ℕ) → n < 2 ^ 64 → (float_eq (decode_double n) (decode_double n) ≡ false) ↔ IsNanPattern n
unfolding decode_double
float_eq-decode_double n h =
    let e =
      float_eq-decode_fields 52 2047 0 (n / 2 ^ 63 % 2 == 1) (n / 2 ^ 52 % 2 ^ 11) (n % 2 ^ 52) in
    rw e (top_exponent_iff n h)
