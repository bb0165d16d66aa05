-- ===== src/Base/Division.antt =====
-- Division by a variable: alignment boundaries and rounding up.
use Prim.Native.Nat.{ℕ, ◌+◌, ◌-◌, ◌*◌, ◌/◌, ◌%◌, ◌≤◌, ◌<◌}
use mathlib.Core.Path.{◌≡◌}
use native.Mathlib.Omega.{arith}
use native.Mathlib.Nat.{div-add-mod', mod-lt, div-eq_of_lt-le, mul-le-mul_right}
use native.Mathlib.Decide.{dec_lt}

-- `ceil(a / b)`, for a `b` that is not 0
abbrev pub ceil_div : ℕ → ℕ → ℕ
ceil_div a b = (a + b - 1) / b

pub le-ceil_div : (n d : ℕ) → 1 ≤ d → n ≤ ceil_div n d * d
le-ceil_div n d h = omega (arith, div-add-mod' (n + d - 1) d, mod-lt (n + d - 1) {m = d} h)

-- The quotient, from its bounds.
pub div_unique : (q n d : ℕ) → q * d ≤ n → n < q * d + d → n / d ≡ q
div_unique q n d lo hi = div-eq_of_lt-le d lo (omega arith)

-- A field of `bits` bits at `o` stays within one unit of `d` bits.
pub div_same : (o bits d : ℕ) → 1 ≤ d → 1 ≤ bits → o % d + bits ≤ d → (o + bits - 1) / d ≡ o / d
div_same o bits d hd hb h =
    div_unique (o / d) (o + bits - 1) d (omega (arith, div-add-mod' o d))
      (omega (arith, div-add-mod' o d))

pub div_next : (o bits d : ℕ) → 1 ≤ d → bits ≤ d → d < o % d + bits → (o + bits - 1) / d ≡ o / d + 1
div_next o bits d hd hb h =
    div_unique (o / d + 1) (o + bits - 1) d (omega (arith, div-add-mod' o d))
      (omega (arith, div-add-mod' o d, mod-lt o {m = d} hd))

-- Rounding up a number that is not a multiple.
pub ceil_div-next : (o d : ℕ) → 1 ≤ d → 1 ≤ o % d → ceil_div o d ≡ o / d + 1
ceil_div-next o d hd h =
    div_unique (o / d + 1) (o + d - 1) d (omega (arith, div-add-mod' o d))
      (omega (arith, div-add-mod' o d, mod-lt o {m = d} hd))

-- Every later place for the field lies beyond the next boundary.
pub next_boundary-le :
    (o p bits d : ℕ) → 1 ≤ d → o ≤ p → d < o % d + bits → p % d + bits ≤ d → (o / d + 1) * d ≤ p
next_boundary-le o p bits d hd ho hc hp = elim (dec_lt (o / d) (p / d)) [
  | yes h ↦ omega (arith, mul-le-mul_right d h, div-add-mod' p d)
  | no h ↦ absurd (omega (arith, mul-le-mul_right d (same h), div-add-mod' p d, div-add-mod' o d))
]
  where
    same : ¬ (o / d < p / d) → p / d ≤ o / d
    same h = omega arith
