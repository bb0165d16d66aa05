-- ===== src/Base/Decimal.antt =====
-- `str(n)` of a number: its decimal digits.
pub mod Injective
use Prim.Native.Nat.{ℕ, zero, suc, ◌+◌, ◌/◌, ◌%◌}
use mathlib.Core.List.{[], ◌∷◌, ◌++◌}
use etiss_xvalid.Base.Tests.{ltb, if◌then◌else◌}
use etiss_xvalid.Base.Text.{Text}

-- The fuel `n` is enough for `n`, which falls to `n / 10`.
unfoldable pub digits_loop : (fuel n : ℕ) → Text
digits_loop zero n = (48 + n) ∷ []
digits_loop (suc fuel) n =
    let rest = digits_loop fuel (n / 10) in
    if ltb 9 n then rest ++ (48 + n % 10) ∷ [] else (48 + n) ∷ []

unfoldable pub str_of : ℕ → Text
unfolding digits_loop
str_of n = digits_loop n n
