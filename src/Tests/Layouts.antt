-- ===== src/Tests/Layouts.antt =====
-- py_etiss_xvalid/entity/verification/rv32_return_register_layout.py on concrete registers.
use etiss_xvalid.Base.{ℕ, ◌+◌, ◌*◌, ◌≡◌, refl, true, false, [], ◌∷◌, arith, leb, if◌then◌else◌}
use etiss_xvalid.Base.Result.{ok, err, verification_process_exception}
use etiss_xvalid.Layout.{
  ReturnRegisterLayout, append_range, add_bitfield, add_int, current_bit_offset, has_room_for_int,
}
use etiss_xvalid.Layout.Bitfields.{IsFirstFit, add_bitfield-IsFirstFit}
use etiss_xvalid.Layout.Integers.{add_int_behind_bytes, add_int_behind_multiple}

-- a `char` in a 32-bit register
abbrev char_layout : ReturnRegisterLayout
char_layout = record { xlen = 32; is_float = false; ranges = (0, 7) ∷ [] }

-- a bit field of one bit
abbrev bit_layout : ReturnRegisterLayout
bit_layout = record { xlen = 32; is_float = false; ranges = (0, 0) ∷ [] }

add_bitfield-IsFirstFit_example :
    (start : ℕ) × IsFirstFit (current_bit_offset char_layout) 27 (4 * 8) start
    × (add_bitfield char_layout 27 4 ≡ (
        if leb (start + 27) 32
        then ok (append_range char_layout start 27)
        else err verification_process_exception))
add_bitfield-IsFirstFit_example =
    add_bitfield-IsFirstFit char_layout 27 4 (omega arith) (omega arith) (omega arith)

add_int_behind_bytes_example : add_int char_layout 2 ≡ ok (append_range char_layout 8 16)
unfolding has_room_for_int current_bit_offset
add_int_behind_bytes_example =
    add_int_behind_bytes char_layout 2 (omega arith) (omega arith) true refl refl

-- Bits 1 to 32 are reserved, of a register whose last bit is 31.
add_int_behind_multiple_example : add_int bit_layout 4 ≡ ok (append_range bit_layout 1 32)
add_int_behind_multiple_example = add_int_behind_multiple 0 4 (omega arith) bit_layout 0 refl
