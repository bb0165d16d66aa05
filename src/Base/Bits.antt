-- ===== src/Base/Bits.antt =====
-- Python's `|` on numbers, bit by bit.
use Prim.Native.Nat.{ℕ, zero, suc, ◌+◌, ◌*◌, ◌/◌, ◌%◌}
use mathlib.Core.Bool.{◌&&◌}
use etiss_xvalid.Base.Tests.{◌==◌, if◌then◌else◌}

abbrev or_bit : ℕ → ℕ → ℕ
or_bit zero zero = 0
or_bit _ _ = 1

-- Each round takes a bit of both; the sum of both is fuel enough, since it falls until it is 0.
or_loop : (fuel a b : ℕ) → ℕ
or_loop zero a b = 0
or_loop (suc fuel) a b =
    let rest = or_loop fuel (a / 2) (b / 2) in
    if (a == 0) && (b == 0) then 0 else or_bit (a % 2) (b % 2) + 2 * rest

-- a | b
unfoldable pub bit_or : ℕ → ℕ → ℕ
unfolding or_loop
bit_or a b = or_loop (a + b) a b
