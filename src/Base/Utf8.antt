-- ===== src/Base/Utf8.antt =====
-- Python's `bytes.decode('utf-8')`: the code points of a sequence of bytes.
use etiss_xvalid.Base.{
  ℕ, zero, suc, ◌+◌, ◌-◌, ◌*◌, Bool, ◌&&◌, List, [], ◌∷◌, leb, ltb, ◌==◌, if◌then◌else◌,
}
use etiss_xvalid.Base.Text.{Text}
use etiss_xvalid.Base.Result.{Result, ok, err, ◌>>=◌, value_error}

-- what the first byte of a code point announces: the bits that it holds, how many bytes follow, and
-- the range of the next one, which keeps out overlong forms and surrogates
pub data Lead : Type 0 where
  ascii : Lead
  lead : (bits following low high : ℕ) → Lead
  invalid : Lead

abbrev within : ℕ → ℕ → ℕ → Bool
within low high b = leb low b && leb b high

unfoldable pub read_lead : ℕ → Lead
read_lead b =
    if ltb b 128
    then ascii
    else if within 194 223 b
    then lead (b - 192) 1 128 191
    else if b == 224
    then lead 0 2 160 191
    else if b == 237
    then lead 13 2 128 159
    else if within 225 239 b
    then lead (b - 224) 2 128 191
    else if b == 240
    then lead 0 3 144 191
    else if within 241 243 b
    then lead (b - 240) 3 128 191
    else if b == 244
    then lead 4 3 128 143
    else invalid

abbrev push : ℕ → Result Text → Result Text
push c rest = do t ← rest; ok (c ∷ t)

-- `following` bytes of a code point are still to come, of which the next is from `low` to `high`.
unfoldable pub decode_from : (bits following low high : ℕ) → List ℕ → Result Text
unfolding read_lead
decode_from bits zero low high [] = ok []
decode_from bits (suc following) low high [] = err value_error
decode_from bits zero low high (b ∷ bytes) = elim (read_lead b) [
  | ascii ↦ push b (decode_from 0 0 0 0 bytes)
  | lead first following next_low next_high ↦ decode_from first following next_low next_high bytes
  | invalid ↦ err value_error
]
decode_from bits (suc zero) low high (b ∷ bytes) =
    let rest = decode_from 0 0 0 0 bytes in
    if within low high b then push (bits * 64 + (b - 128)) rest else err value_error
decode_from bits (suc (suc following)) low high (b ∷ bytes) =
    let rest = decode_from (bits * 64 + (b - 128)) (suc following) 128 191 bytes in
    if within low high b then rest else err value_error

unfoldable pub decode_utf_8 : List ℕ → Result Text
unfolding decode_from
decode_utf_8 bytes = decode_from 0 0 0 0 bytes
