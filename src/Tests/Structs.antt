-- ===== src/Tests/Structs.antt =====
-- `compute_struct_values` of py_etiss_xvalid/entity/march/rv32.py on a concrete struct.
use etiss_xvalid.Base.{◌≡◌, refl, List, [], ◌∷◌, map, arith, All, true, false}
use etiss_xvalid.Base.Result.{ok}
use etiss_xvalid.Layout.{
  Element, bitfield, float, integer, ReturnRegisterLayout, add_bitfield, add_int, add_float,
  is_empty, has_room_for_bitfield, crosses_alignment_boundary, get_aligned_start_bit,
  current_bit_offset, bits_to_consider, has_room_for_int,
}
use etiss_xvalid.March.StructLayout.{compute_struct_values, place_elements, place_element}
use etiss_xvalid.March.StructLayout.Widths.{all_widths, bits_of, compute_struct_values-widths}
use etiss_xvalid.March.StructLayout.Registers.{IsRegister, compute_struct_values-IsRegister}
use etiss_xvalid.March.StructLayout.Totality.{compute_struct_values_total}

-- struct { int a : 3; int b : 30; float c; short d; }
abbrev fields : List Element
fields = bitfield 3 4 ∷ bitfield 30 4 ∷ float 4 ∷ integer 2 ∷ []

abbrev field_registers : List ReturnRegisterLayout
field_registers =
    record { xlen = 32; is_float = false; ranges = (0, 2) ∷ [] }
    ∷ record { xlen = 32; is_float = false; ranges = (0, 29) ∷ [] }
    ∷ record { xlen = 32; is_float = true; ranges = (0, 31) ∷ [] }
    ∷ record { xlen = 32; is_float = false; ranges = (0, 15) ∷ [] }
    ∷ []

fields_laid_out : compute_struct_values 32 fields ≡ ok field_registers
unfolding compute_struct_values place_elements place_element add_bitfield add_int add_float is_empty
    has_room_for_bitfield crosses_alignment_boundary get_aligned_start_bit current_bit_offset
    bits_to_consider has_room_for_int
fields_laid_out = refl

compute_struct_values-widths_example : all_widths field_registers ≡ map bits_of fields
compute_struct_values-widths_example =
    compute_struct_values-widths 32 fields field_registers (omega arith) fields_laid_out

compute_struct_values-IsRegister_example : All (IsRegister 32) field_registers
compute_struct_values-IsRegister_example =
    compute_struct_values-IsRegister 32 fields field_registers (omega arith) fields_laid_out

compute_struct_values_total_example :
    (regs : List ReturnRegisterLayout) × (compute_struct_values 32 fields ≡ ok regs)
compute_struct_values_total_example = compute_struct_values_total 32 fields (omega arith)
