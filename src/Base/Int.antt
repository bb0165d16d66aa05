-- ===== src/Base/Int.antt =====
-- Signed integers: an offset from the frame base can be negative.
use mathlib.Core.Bool.{Bool, true, false}
use mathlib.Core.Option.{Option, none, some}
use Prim.Native.Nat.{ℕ, zero, suc, ◌+◌, ◌-◌}
use mathlib.Core.List.{◌∷◌}
use etiss_xvalid.Base.Decimal.{str_of}
use etiss_xvalid.Base.Tests.{leb, ◌==◌, if◌then◌else◌}
use etiss_xvalid.Base.Text.{Text}
use etiss_xvalid.Base.Hex.{hex}

-- `negsuc n` is -(n + 1).
pub data ℤ : Type 0 where
  pos : ℕ → ℤ
  negsuc : ℕ → ℤ

-- n + i
unfoldable pub add_offset : ℕ → ℤ → ℤ
add_offset n (pos m) = pos (n + m)
add_offset n (negsuc m) = if leb (m + 1) n then pos (n - (m + 1)) else negsuc (m - n)

-- - n
abbrev pub negate : ℕ → ℤ
negate zero = pos 0
negate (suc n) = negsuc n

-- `hex(i)[2:]`: of a negative number, whose text begins with "-0x", the "x" stays.
unfoldable pub hex_of_ℤ : ℤ → Text
hex_of_ℤ (pos n) = hex n
hex_of_ℤ (negsuc n) = b'x' ∷ hex (n + 1)

-- `str(i)`
unfoldable pub str_of_ℤ : ℤ → Text
unfolding str_of
str_of_ℤ (pos n) = str_of n
str_of_ℤ (negsuc n) = b'-' ∷ str_of (n + 1)

abbrev pub eq_ℤ : ℤ → ℤ → Bool
eq_ℤ (pos n) (pos m) = n == m
eq_ℤ (negsuc n) (negsuc m) = n == m
eq_ℤ _ _ = false

-- `==` of two values that may be `None`
abbrev pub option_eq {ℓ} : {A : Type ℓ} → (A → A → Bool) → Option A → Option A → Bool
option_eq eq none none = true
option_eq eq (some a) (some b) = eq a b
option_eq eq _ _ = false
