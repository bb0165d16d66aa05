-- ===== src/Base/Hex.antt =====
-- Hexadecimal text: `hex(n)[2:]`, `f"{n:08x}"` and `int(s, 16)`.
pub mod RoundTrip
use Prim.Native.Nat.{ℕ, zero, suc, ◌+◌, ◌-◌, ◌*◌, ◌/◌, ◌%◌, ◌<◌}
use mathlib.Core.Bool.{Bool, true, false, ◌&&◌}
use mathlib.Core.List.{List, [], ◌∷◌, ◌++◌}
use mathlib.Core.Option.{Option, none, some}
use etiss_xvalid.Base.Tests.{ltb, leb, if◌then◌else◌}
use etiss_xvalid.Base.Lists.{length, replicate}
use etiss_xvalid.Base.Text.{Text}
use etiss_xvalid.Base.Result.{Result, ok, err, ◌>>=◌, value_error}

-- the lower-case digit of a number below 16
unfoldable pub hex_digit : ℕ → ℕ
hex_digit d = if ltb d 10 then 48 + d else 87 + d

-- One digit for each round; the fuel `n` is enough for `n`, which falls to `n / 16`.
hex_loop : (fuel n : ℕ) → Text
hex_loop zero n = hex_digit n ∷ []
hex_loop (suc fuel) n =
    let rest = hex_loop fuel (n / 16) in
    if ltb 15 n then rest ++ hex_digit (n % 16) ∷ [] else hex_digit n ∷ []

-- `hex(n)[2:]`, which is also `format(n, 'x')`
unfoldable pub hex : ℕ → Text
unfolding hex_loop hex_digit
hex n = hex_loop n n

-- `f"{n:08x}"`
unfoldable pub hex_08 : ℕ → Text
hex_08 n = let t = hex n in replicate (8 - length t) 48 ++ t

-- The value of a digit, of either case. `int(s, 16)` also allows a sign, spaces, a prefix `0x` and
-- underscores, which none of the program's texts has.
unfoldable pub digit_value : ℕ → Option ℕ
digit_value c =
    if leb 48 c && leb c 57
    then some (c - 48)
    else if leb 97 c && leb c 102
    then some (c - 87)
    else if leb 65 c && leb c 70
    then some (c - 55)
    else none

abbrev pub int_step : ℕ → Option ℕ → Result ℕ
int_step acc none = err value_error
int_step acc (some d) = ok (acc * 16 + d)

unfoldable pub int_loop : ℕ → Text → Result ℕ
unfolding digit_value
int_loop acc [] = ok acc
int_loop acc (c ∷ s) = int_step acc (digit_value c) >>= λ acc'. int_loop acc' s

-- `int(s, 16)`
unfoldable pub int_16 : Text → Result ℕ
unfolding int_loop
int_16 [] = err value_error
int_16 (c ∷ s) = int_loop 0 (c ∷ s)
