-- ===== src/March/StructLayout.antt =====
-- `analyze_struct` and `compute_struct_values` of py_etiss_xvalid/entity/march/rv32.py: the
-- elements of a struct, and the registers that they take.
pub mod Widths
pub mod Registers
pub mod Totality
use etiss_xvalid.Base.{
  ℕ, suc, Bool, true, false, Option, none, some, List, [], ◌∷◌, ◌++◌, ◌||◌, if◌then◌else◌,
}
use etiss_xvalid.Base.Text.{Text, codes, text_eq}
use etiss_xvalid.Base.Result.{Result, ok, err, ◌>>=◌, verification_process_exception}
use etiss_xvalid.Dwarf.Types.{base, struct, Members, no_member, member}
use etiss_xvalid.Dwarf.Mapper.{get_mapping_for_dwarf_base_type, get_byte_size_for_base_type}
use etiss_xvalid.Layout.{
  Element, bitfield, float, integer, ReturnRegisterLayout, empty_layout, float_layout,
  has_room_for_bitfield, has_room_for_int, add_bitfield, add_int, add_float, is_empty,
}

-- `base_type in ['float', 'double']`
abbrev is_float_type : Text → Bool
is_float_type t = text_eq t (codes "float") || text_eq t (codes "double")

-- A bit size of `None` or 0 is no bit field.
unfoldable pub base_element : Text → ℕ → Option ℕ → Element
unfolding text_eq get_mapping_for_dwarf_base_type get_byte_size_for_base_type
base_element name byte_size (some (suc n)) = bitfield (suc n) (get_byte_size_for_base_type name)
base_element name byte_size _ =
    if is_float_type (get_mapping_for_dwarf_base_type name)
    then float byte_size
    else integer byte_size

unfoldable pub analyze_struct : Members → Result (List Element)
unfolding base_element
analyze_struct no_member = ok []
analyze_struct (member (base name byte_size) _ bit_size _ rest) = do
  elements ← analyze_struct rest
  ok (base_element name byte_size bit_size ∷ elements)
analyze_struct (member (struct _ _ members) _ _ _ rest) = do
  nested ← analyze_struct members
  elements ← analyze_struct rest
  ok (nested ++ elements)
analyze_struct (member _ _ _ _ rest) = err verification_process_exception

-- The loop's state: the closed registers and the active one, which is `None` after a float.
abbrev pub LoopState : Type 0
LoopState = List ReturnRegisterLayout × Option ReturnRegisterLayout

abbrev pub or_new : ℕ → Option ReturnRegisterLayout → ReturnRegisterLayout
or_new xlen none = empty_layout xlen
or_new xlen (some r) = r

-- Where the active register has no room it is closed, and a new one takes its place.
abbrev pub close_unless :
    ℕ
    → Bool
    → List ReturnRegisterLayout
    → ReturnRegisterLayout
    → List ReturnRegisterLayout × ReturnRegisterLayout
close_unless xlen true regs active = (regs, active)
close_unless xlen false regs active = (regs ++ active ∷ [], empty_layout xlen)

unfoldable pub place_element : ℕ → LoopState → Element → Result LoopState
unfolding add_bitfield add_int add_float is_empty
place_element xlen (regs, maybe_active) (bitfield bit_size alignment) =
    let active = or_new xlen maybe_active in
    do
      room ← has_room_for_bitfield active bit_size alignment
      let (regs', active') = close_unless xlen room regs active
      filled ← add_bitfield active' bit_size alignment
      ok (regs', some filled)
place_element xlen (regs, maybe_active) (float byte_size) =
    let active = or_new xlen maybe_active in
    let closed = if is_empty active then regs else regs ++ active ∷ [] in
    ok (closed ++ add_float (float_layout xlen) byte_size ∷ [], none)
place_element xlen (regs, maybe_active) (integer byte_size) =
    let active = or_new xlen maybe_active in
    do
      room ← has_room_for_int active byte_size
      let (regs', active') = close_unless xlen room regs active
      filled ← add_int active' byte_size
      ok (regs', some filled)

unfoldable pub place_elements : ℕ → LoopState → List Element → Result LoopState
place_elements xlen s [] = ok s
place_elements xlen s (e ∷ es) = place_element xlen s e >>= λ s'. place_elements xlen s' es

abbrev pub close_last : LoopState → List ReturnRegisterLayout
close_last (regs, none) = regs
close_last (regs, some r) = if is_empty r then regs else regs ++ r ∷ []

unfoldable pub compute_struct_values : ℕ → List Element → Result (List ReturnRegisterLayout)
unfolding place_elements place_element
compute_struct_values xlen elements = do
  s ← place_elements xlen ([], some (empty_layout xlen)) elements
  ok (close_last s)
