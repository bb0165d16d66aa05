-- ===== src/March/MemoryValue.antt =====
-- `resolve_struct_memory_values` of py_etiss_xvalid/entity/march/rv32.py: a struct that is returned in
-- memory.
use etiss_xvalid.Base.{
  ℕ, ◌+◌, ◌*◌, ◌/◌, Option, some, List, [], ◌∷◌, ◌++◌, ◌==◌, if◌then◌else◌, length, take, drop,
}
use etiss_xvalid.Base.Text.{Text}
use etiss_xvalid.Base.Hex.{digit_value}
use etiss_xvalid.Base.Bytes.{le}
use etiss_xvalid.Base.Float.{decode_float, decode_double}
use etiss_xvalid.Base.Result.{Result, ok, err, ◌>>=◌, value_error, struct_error}
use etiss_xvalid.Layout.{ReturnRegisterLayout, get_float_size}
use etiss_xvalid.March.Value.{Scalar, int_value, float_value}

abbrev hex_byte : Option ℕ → Option ℕ → Result ℕ
hex_byte (some a) (some b) = ok (a * 16 + b)
hex_byte _ _ = err value_error

-- `bytes.fromhex`
unfoldable pub bytes_of_hex : Text → Result (List ℕ)
unfolding digit_value
bytes_of_hex [] = ok []
bytes_of_hex (c ∷ []) = err value_error
bytes_of_hex (c ∷ d ∷ t) = do
  b ← hex_byte (digit_value c) (digit_value d)
  rest ← bytes_of_hex t
  ok (b ∷ rest)

abbrev join : List Text → Text
join [] = []
join (t ∷ ts) = t ++ join ts

abbrev byte_length : ReturnRegisterLayout → Result ℕ
unfolding get_float_size
byte_length r = if r.is_float then get_float_size r else ok (r.xlen / 8)

-- `struct.unpack` wants exactly the bytes of its format.
abbrev unpack : ReturnRegisterLayout → ℕ → List ℕ → Result Scalar
unfolding le decode_float decode_double
unpack r byte_len bs =
    if r.is_float
    then (if byte_len == 4
        then (if length bs == 4 then ok (float_value (decode_float (le bs))) else err struct_error)
        else if byte_len == 8
        then (if length bs == 8 then ok (float_value (decode_double (le bs))) else err struct_error)
        else err value_error)
    else ok (int_value (le bs))

unfoldable pub resolve_values : List ReturnRegisterLayout → Text → Result (List Scalar)
unfolding bytes_of_hex get_float_size le decode_float decode_double
resolve_values [] rv_bytes = ok []
resolve_values (r ∷ rs) rv_bytes = do
  byte_len ← byte_length r
  bs ← bytes_of_hex (take (byte_len * 2) rv_bytes)
  v ← unpack r byte_len bs
  rest ← resolve_values rs (drop (byte_len * 2) rv_bytes)
  ok (v ∷ rest)

-- The comment on the source's `reversed_bytes` promises a reversal, but the slices stay in order.
unfoldable pub resolve_struct_memory_values :
    List ReturnRegisterLayout → List Text → Result (List Scalar)
unfolding resolve_values
resolve_struct_memory_values regs mem_vals = resolve_values regs (join mem_vals)
