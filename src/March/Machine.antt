-- ===== src/March/Machine.antt =====
-- py_etiss_xvalid/entity/march/: rv32im_zicsr_zifencei.py, rv32imac_zicsr.py,
-- rv32imafdc_zicsr_zifencei.py and what they inherit from rv32.py, for return values that are no
-- struct; and py_etiss_xvalid/entity/dwarf/march_manager.py.
--
-- A snapshot's integer registers are 32 bits wide, so `(a1 << 32) | a0` is their sum here. A file's
-- register that a text names is a constructor, and the text '' has none.
use etiss_xvalid.Base.{
  ℕ, ◌+◌, ◌*◌, ◌%◌, ◌^◌, Bool, true, false, Option, none, some, List, [], ◌∷◌, ltb, leb,
  if◌then◌else◌,
}
use etiss_xvalid.Base.Text.{Text, codes, text_eq}
use etiss_xvalid.Base.Dict.{Dict, lookup}
use etiss_xvalid.Base.Hex.{hex, int_16}
use etiss_xvalid.Base.Bits.{bit_or}
use etiss_xvalid.Base.Float.{decode_float, decode_double}
use etiss_xvalid.Base.Result.{Result, ok, err, ◌>>=◌, attribute_error, key_error, overflow_error}
use etiss_xvalid.Dwarf.Types.{DwarfType, union}
use etiss_xvalid.Dwarf.Info.{get_subprogram_by_name}
use etiss_xvalid.Simulation.Entry.{EpilogueState, AccessState, SimulationDataEntry}
use etiss_xvalid.Simulation.Readings.{last_of, get_last_writes_to_mem_range}
use etiss_xvalid.March.Value.{
  Scalar, none_value, int_value, float_value, ReturnValue, scalar, texts,
}

pub data March : Type 0 where
  rv32imac rv32imafdc rv32im : March

pub data Register : Type 0 where
  reg_a0 reg_a1 reg_fa0 reg_fa1 : Register

abbrev pub register : EpilogueState → Register → ℕ
register s reg_a0 = s.a0
register s reg_a1 = s.a1
register s reg_fa0 = s.fa0
register s reg_fa1 = s.fa1

abbrev pub get_march_name : March → Text
get_march_name rv32imac = codes "rv32imac_zicsr"
get_march_name rv32imafdc = codes "rv32imafdc_zicsr_zifencei"
get_march_name rv32im = codes "rv32im_zicsr_zifencei"

abbrev supported_marchs : List March
supported_marchs = rv32imac ∷ rv32imafdc ∷ rv32im ∷ []

unfoldable pub find_march : Text → List March → Option March
unfolding text_eq
find_march name [] = none
find_march name (m ∷ ms) = if text_eq name (get_march_name m) then some m else find_march name ms

unfoldable pub get_march_with_name : Option Text → Option March
unfolding find_march
get_march_with_name none = none
get_march_with_name (some name) = find_march name supported_marchs

abbrev is_found : Option March → Bool
is_found none = false
is_found (some m) = true

unfoldable pub march_is_supported : Option Text → Bool
unfolding get_march_with_name
march_is_supported name = is_found (get_march_with_name name)

-- the instruction that `fetch_epilogue_state` looks for
abbrev pub return_instruction : March → Text
return_instruction rv32im = codes "jalr"
return_instruction _ = codes "cjr"

unfoldable pub find_epilogue_state : Text → List EpilogueState → Option EpilogueState
unfolding text_eq
find_epilogue_state instruction [] = none
find_epilogue_state instruction (i ∷ is) =
    if text_eq i.instruction instruction then some i else find_epilogue_state instruction is

unfoldable pub fetch_epilogue_state : March → List EpilogueState → Option EpilogueState
unfolding find_epilogue_state
fetch_epilogue_state m epilogue = find_epilogue_state (return_instruction m) epilogue

-- A missing epilogue instruction gives `None`.
abbrev pub with_state : Option EpilogueState → (EpilogueState → Result Scalar) → Result Scalar
with_state none k = ok none_value
with_state (some s) k = k s

unfoldable pub fetch_int_return_value : March → SimulationDataEntry → Register → Result Scalar
unfolding fetch_epilogue_state
fetch_int_return_value m e reg =
    with_state (fetch_epilogue_state m e.epilogue) (λ s. ok (int_value (register s reg)))

unfoldable pub form_64_bit_value_from_regs_a0_and_a1 : March → SimulationDataEntry → Result Scalar
unfolding fetch_epilogue_state decode_double
form_64_bit_value_from_regs_a0_and_a1 m e = with_state (fetch_epilogue_state m e.epilogue) (λ s.
    let combined_val = s.a1 * 2 ^ 32 + s.a0 in
    if ltb combined_val (2 ^ 64)
    then ok (float_value (decode_double combined_val))
    else err overflow_error)

unfoldable pub fetch_long_long_return_value : March → SimulationDataEntry → Result Scalar
unfolding form_64_bit_value_from_regs_a0_and_a1
fetch_long_long_return_value m e = form_64_bit_value_from_regs_a0_and_a1 m e

-- The register file of rv32imafdc holds a float in the lower half of a register, NaN-boxed.
unfoldable pub fetch_float_return_value : March → SimulationDataEntry → Register → Result Scalar
unfolding fetch_epilogue_state decode_float
fetch_float_return_value rv32imafdc e reg =
    with_state (fetch_epilogue_state rv32imafdc e.epilogue)
      (λ s. ok (float_value (decode_float (register s reg % 2 ^ 32))))
fetch_float_return_value m e reg = with_state (fetch_epilogue_state m e.epilogue) (λ s.
    if ltb (register s reg) (2 ^ 32)
    then ok (float_value (decode_float (register s reg)))
    else err overflow_error)

-- Without floating-point registers the register is not read.
unfoldable pub fetch_double_return_value : March → SimulationDataEntry → Register → Result Scalar
unfolding fetch_epilogue_state decode_double form_64_bit_value_from_regs_a0_and_a1
fetch_double_return_value rv32imafdc e reg =
    with_state (fetch_epilogue_state rv32imafdc e.epilogue) (λ s.
      if ltb (register s reg) (2 ^ 64)
      then ok (float_value (decode_double (register s reg)))
      else err overflow_error)
fetch_double_return_value m e reg = form_64_bit_value_from_regs_a0_and_a1 m e

-- the default of the argument `reg` of the float and double methods
abbrev pub default_float_register : March → Register
default_float_register rv32imafdc = reg_fa0
default_float_register _ = reg_a0

-- the data of the last write to an address, whose key must be there with a write
abbrev written : Option (Result AccessState) → Result Text
written none = err key_error
written (some (err e)) = err key_error
written (some (ok a)) = ok a.data_hex

-- `int(data_hex, 16) << shift` of the word at an address
unfoldable pub data_word : Dict (List AccessState) → (addr shift : ℕ) → Result ℕ
unfolding lookup int_16 hex
data_word dwrites addr shift = do
  data_hex ← written (last_of (lookup (hex addr) dwrites))
  word ← int_16 data_hex
  ok (word * 2 ^ shift)

unfoldable pub combined_words : Dict (List AccessState) → ℕ → Result ℕ
unfolding data_word bit_or
combined_words dwrites base_addr = do
  w0 ← data_word dwrites base_addr 0
  w1 ← data_word dwrites (base_addr + 4) 32
  w2 ← data_word dwrites (base_addr + 8) 64
  w3 ← data_word dwrites (base_addr + 12) 96
  let combined_val = bit_or (bit_or (bit_or w0 w1) w2) w3
  if ltb combined_val (2 ^ 128) then ok combined_val else err overflow_error

-- `except Exception` logs the exception, and the result stays `None`.
abbrev int_or_none : Result ℕ → Scalar
int_or_none (ok n) = int_value n
int_or_none (err e) = none_value

unfoldable pub fetch_long_double_return_value : March → SimulationDataEntry → Result Scalar
unfolding fetch_epilogue_state combined_words
fetch_long_double_return_value m e =
    with_state (fetch_epilogue_state m e.epilogue)
      (λ s. ok (int_or_none (combined_words e.dwrites s.a0)))

abbrev union_size : DwarfType → Result ℕ
union_size (union byte_size members) = ok byte_size
union_size _ = err attribute_error

-- `entry.dwarf_info.get_subprogram_by_name(entry.function_name).type_info`
unfoldable pub return_type : SimulationDataEntry → Result DwarfType
unfolding get_subprogram_by_name
return_type e = elim e.dwarf_info [
  | none ↦ err attribute_error
  | some d ↦ elim (get_subprogram_by_name d e.function_name) [
    | none ↦ err attribute_error
    | some s ↦ ok s.type_info
  ]
]

-- Up to 4 bytes, up to 8 bytes, and more of them, which are in memory.
unfoldable pub fetch_union_by_size : March → SimulationDataEntry → ℕ → Result ReturnValue
unfolding fetch_epilogue_state fetch_int_return_value form_64_bit_value_from_regs_a0_and_a1
fetch_union_by_size m e byte_size = elim (fetch_epilogue_state m e.epilogue) [
  | none ↦ ok (scalar none_value)
  | some s ↦
      if leb byte_size 4
      then (fetch_int_return_value m e reg_a0 >>= λ v. ok (scalar v))
      else if leb byte_size 8
      then (form_64_bit_value_from_regs_a0_and_a1 m e >>= λ v. ok (scalar v))
      else (get_last_writes_to_mem_range s.a0 byte_size e >>= λ ws. ok (texts ws))
]

unfoldable pub fetch_union_return_value : March → SimulationDataEntry → Result ReturnValue
unfolding return_type fetch_union_by_size
fetch_union_return_value m e = do
  t ← return_type e
  byte_size ← union_size t
  fetch_union_by_size m e byte_size
