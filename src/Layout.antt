-- ===== src/Layout.antt =====
-- py_etiss_xvalid/entity/verification/rv32_return_register_layout.py and struct_reg_data_types.py:
-- how the members of a returned struct are laid out in one return register.
--
-- A register holds bit ranges (first bit, last bit), both ends included, in the order in which they
-- were reserved. The sizes of elements are those that `analyze_struct` produces, which are at least
-- one; for a size of zero the source's `start_bit + bit_size - 1` can be -1, where `-` on ℕ stops.
-- The source's `ceil(a / b)` divides floats; at the positions of a register the quotient is exact
-- enough for `ceil`, so it is the integer `ceil_div`.
pub mod Order
pub mod Bitfields
pub mod Integers
use etiss_xvalid.Base.{
  ℕ, ◌+◌, ◌-◌, ◌*◌, ◌/◌, Bool, true, false, not, ◌&&◌, ◌||◌, Option, none, some, List, [], ◌∷◌,
  ◌++◌, ltb, leb, ◌==◌, if◌then◌else◌, last?,
}
use etiss_xvalid.Base.Division.{ceil_div}
use etiss_xvalid.Base.Result.{
  Result, ok, err, ◌>>=◌, zero_division_error, index_error, verification_process_exception,
}

pub data Element : Type 0 where
  bitfield : (bit_size alignment : ℕ) → Element
  float : (byte_size : ℕ) → Element
  integer : (byte_size : ℕ) → Element

pub record ReturnRegisterLayout : Type 0 where
  pub xlen : ℕ
  pub is_float : Bool
  pub ranges : List (ℕ × ℕ)

abbrev pub empty_layout : ℕ → ReturnRegisterLayout
empty_layout xlen = record { xlen = xlen; is_float = false; ranges = [] }

abbrev pub float_layout : ℕ → ReturnRegisterLayout
float_layout xlen = record { xlen = xlen; is_float = true; ranges = [] }

abbrev pub after_last : Option (ℕ × ℕ) → ℕ
after_last none = 0
after_last (some r) = r.1 + 1

-- the first bit after the last reserved one
unfoldable pub current_bit_offset : ReturnRegisterLayout → ℕ
current_bit_offset r = after_last (last? r.ranges)

-- padding can cross an alignment boundary
unfoldable pub bits_to_consider : ReturnRegisterLayout → ℕ → ℕ → ℕ
unfolding current_bit_offset
bits_to_consider r bits alignment_bits =
    if ltb alignment_bits bits && ltb (current_bit_offset r + bits) r.xlen
    then alignment_bits
    else bits

-- `//` by an alignment of 0 raises.
unfoldable pub has_room_for_bitfield : ReturnRegisterLayout → ℕ → ℕ → Result Bool
unfolding bits_to_consider
has_room_for_bitfield r bits alignment_bytes =
    let alignment_bits = alignment_bytes * 8 in
    let offset = current_bit_offset r in
    let considered = bits_to_consider r bits alignment_bits in
    let end_of_field = offset + considered - 1 in
    let aligned = offset / alignment_bits * alignment_bits + alignment_bits in
    if alignment_bits == 0
    then err zero_division_error
    else if end_of_field / alignment_bits == offset / alignment_bits
    then ok (ltb end_of_field r.xlen)
    else ok (ltb (aligned + considered - 1) r.xlen)

unfoldable pub crosses_alignment_boundary : ReturnRegisterLayout → ℕ → ℕ → Result Bool
unfolding bits_to_consider
crosses_alignment_boundary r bits alignment_bytes =
    let alignment_bits = alignment_bytes * 8 in
    let offset = current_bit_offset r in
    let end_of_field = offset + bits_to_consider r bits alignment_bits - 1 in
    if alignment_bits == 0
    then err zero_division_error
    else ok (not (end_of_field / alignment_bits == offset / alignment_bits))

abbrev pub room_after : ReturnRegisterLayout → ℕ → Option (ℕ × ℕ) → Result Bool
room_after r byte_size none = ok true
room_after r byte_size (some (low, high)) =
    let alignment_bits = byte_size * 8 in
    let aligned_start_bit = ceil_div high alignment_bits * alignment_bits in
    if alignment_bits == 0
    then err zero_division_error
    else if leb r.xlen aligned_start_bit || leb r.xlen (aligned_start_bit + byte_size)
    then ok false
    else ok true

unfoldable pub has_room_for_int : ReturnRegisterLayout → ℕ → Result Bool
has_room_for_int r byte_size = room_after r byte_size (last? r.ranges)

abbrev pub aligned_after : ℕ → Option (ℕ × ℕ) → Result ℕ
aligned_after alignment_bits none = ok 0
aligned_after alignment_bits (some (low, high)) =
    if alignment_bits == 0
    then err zero_division_error
    else ok (ceil_div (high + 1) alignment_bits * alignment_bits)

unfoldable pub get_aligned_start_bit : ReturnRegisterLayout → ℕ → Result ℕ
get_aligned_start_bit r alignment_bytes = aligned_after (alignment_bytes * 8) (last? r.ranges)

abbrev pub append_range : ReturnRegisterLayout → ℕ → ℕ → ReturnRegisterLayout
append_range r start bits = record r { ranges = r.ranges ++ (start, start + bits - 1) ∷ [] }

abbrev pub start_bit : ReturnRegisterLayout → ℕ → Bool → Result ℕ
start_bit r alignment_bytes true = get_aligned_start_bit r alignment_bytes
start_bit r alignment_bytes false = ok (current_bit_offset r)

-- The arguments are the fields of the `Bitfield`. The source also binds `res_bits`, which nothing
-- reads.
unfoldable pub add_bitfield : ReturnRegisterLayout → ℕ → ℕ → Result ReturnRegisterLayout
unfolding has_room_for_bitfield crosses_alignment_boundary get_aligned_start_bit
add_bitfield r bit_size alignment = do
  has_room ← has_room_for_bitfield r bit_size alignment
  if has_room
      then (do
        crosses ← crosses_alignment_boundary r bit_size alignment
        start ← start_bit r alignment crosses
        ok (append_range r start bit_size))
      else err verification_process_exception

-- The test for a crossing is given the size in bytes as its number of bits.
unfoldable pub add_int : ReturnRegisterLayout → ℕ → Result ReturnRegisterLayout
unfolding has_room_for_int crosses_alignment_boundary get_aligned_start_bit
add_int r byte_size = do
  has_room ← has_room_for_int r byte_size
  if has_room
      then (do
        crosses ← crosses_alignment_boundary r byte_size byte_size
        start ← start_bit r byte_size crosses
        ok (append_range r start (byte_size * 8)))
      else err verification_process_exception

unfoldable pub add_float : ReturnRegisterLayout → ℕ → ReturnRegisterLayout
add_float r byte_size = append_range r 0 (byte_size * 8)

abbrev float_size : Option (ℕ × ℕ) → Result ℕ
float_size none = err index_error
float_size (some r) = ok ((r.1 + 1) / 8)

-- On an empty register the source sets `size` to 0 and then reads `data[-1]` all the same.
unfoldable pub get_float_size : ReturnRegisterLayout → Result ℕ
get_float_size r = float_size (last? r.ranges)

unfoldable pub is_empty : ReturnRegisterLayout → Bool
is_empty r = elim r.ranges [ [] ↦ true | _ ↦ false ]
