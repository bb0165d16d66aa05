-- ===== src/March/BaseClass.antt =====
-- What py_etiss_xvalid/entity/march/ declares beside the methods that are called: the method
-- `fetch_struct_return_value` of rv32.py, which every architecture overrides, the look-ups of
-- prologue and return instructions, and `from_rv32_words_le_bytes`.
pub mod Overridden
use etiss_xvalid.Base.{ℕ, Option, none, some, List, [], ◌∷◌, ◌++◌, ◌==◌, if◌then◌else◌, length}
use etiss_xvalid.Base.Text.{Text, codes, text_eq}
use etiss_xvalid.Base.Bytes.{le}
use etiss_xvalid.Base.Float.{decode_double}
use etiss_xvalid.Base.Result.{Result, ok, err, ◌>>=◌, key_error, struct_error}
use etiss_xvalid.Layout.{ReturnRegisterLayout, get_float_size}
use etiss_xvalid.Simulation.Entry.{PrologueState, EpilogueState, SimulationDataEntry}
use etiss_xvalid.Simulation.Readings.{get_last_writes_to_mem_range}
use etiss_xvalid.March.StructLayout.{analyze_struct, compute_struct_values}
use etiss_xvalid.March.Value.{Scalar, float_value, ReturnValue, scalars}
use etiss_xvalid.March.Machine.{
  March, rv32im, rv32imafdc, Register, reg_a0, fetch_epilogue_state, find_epilogue_state,
  fetch_float_return_value, fetch_double_return_value, return_type,
}
use etiss_xvalid.March.MemoryValue.{bytes_of_hex}
use etiss_xvalid.March.StructValue.{FreeRegisters, all_registers, mem_range, struct_parts}

-- the instruction that `fetch_prologue_state` looks for
abbrev pub store_instruction : March → Text
store_instruction rv32im = codes "sw"
store_instruction _ = codes "cswsp"

unfoldable pub find_prologue_state : Text → List PrologueState → Option PrologueState
unfolding text_eq
find_prologue_state instruction [] = none
find_prologue_state instruction (i ∷ is) =
    if text_eq i.instruction instruction then some i else find_prologue_state instruction is

unfoldable pub fetch_prologue_state : March → List PrologueState → Option PrologueState
unfolding find_prologue_state
fetch_prologue_state m prologue = find_prologue_state (store_instruction m) prologue

unfoldable pub fetch_cswsp_instruction : List PrologueState → Option PrologueState
unfolding find_prologue_state
fetch_cswsp_instruction prologue = find_prologue_state (codes "cswsp") prologue

unfoldable pub fetch_cjr_instruction : List EpilogueState → Option EpilogueState
unfolding find_epilogue_state
fetch_cjr_instruction epilogue = find_epilogue_state (codes "cjr") epilogue

-- The double of eight bytes, low word first: each word is reversed, the high one is put in front, and
-- all is read as big-endian.
unfoldable pub from_rv32_words_le_bytes : (low_hex high_hex : Text) → Result Scalar
unfolding bytes_of_hex le decode_double
from_rv32_words_le_bytes low_hex high_hex = do
  low_bytes ← bytes_of_hex low_hex
  high_bytes ← bytes_of_hex high_hex
  if length (low_bytes ++ high_bytes) == 8
      then ok (float_value (decode_double (le (low_bytes ++ high_bytes))))
      else err struct_error

-- the next register of a list; '' where there is none
abbrev pub take_register : List Register → Option Register × List Register
take_register [] = (none, [])
take_register (r ∷ rs) = (some r, rs)

-- `get_register` for a float: a floating-point register where the architecture has them
unfoldable pub get_register : March → FreeRegisters → Option Register × FreeRegisters
get_register rv32imafdc free =
    let (reg, rest) = take_register free.farg_regs in (reg, record free { farg_regs = rest })
get_register m free =
    let (reg, rest) = take_register free.arg_regs in (reg, record free { arg_regs = rest })

-- There is no register '' to read.
abbrev pub float_at : March → SimulationDataEntry → Option Register → Result Scalar
unfolding fetch_float_return_value
float_at m e none = err key_error
float_at m e (some reg) = fetch_float_return_value m e reg

-- Without floating-point registers the register is not read.
abbrev pub double_at : March → SimulationDataEntry → Option Register → Result Scalar
unfolding fetch_double_return_value
double_at rv32imafdc e none = err key_error
double_at m e none = fetch_double_return_value m e reg_a0
double_at m e (some reg) = fetch_double_return_value m e reg

abbrev pub float_values :
    March → SimulationDataEntry → Option Register → (size : ℕ) → Result (List Scalar)
float_values m e reg size =
    if size == 4
    then (float_at m e reg >>= λ v. ok (v ∷ []))
    else if size == 8
    then (double_at m e reg >>= λ v. ok (v ∷ []))
    else ok []

-- The loop over the registers: those with integers give no value.
unfoldable pub base_layouts :
    March → SimulationDataEntry → List ReturnRegisterLayout → FreeRegisters → Result (List Scalar)
unfolding get_register get_float_size
base_layouts m e [] free = ok []
base_layouts m e (r ∷ rs) free =
    if r.is_float
    then (do
      let (reg, free') = get_register m free
      size ← get_float_size r
      values ← float_values m e reg size
      rest ← base_layouts m e rs free'
      ok (values ++ rest))
    else base_layouts m e rs free

-- Where no register is needed, the memory is read, and the result is left.
unfoldable pub base_by_layout :
    March → SimulationDataEntry → Option ℕ → List ReturnRegisterLayout → Result (List Scalar)
unfolding fetch_epilogue_state base_layouts get_last_writes_to_mem_range
base_by_layout m e byte_size regs = elim (fetch_epilogue_state m e.epilogue) [
  | none ↦ ok []
  | some s ↦ elim regs [
    | [] ↦ (mem_range s.a0 byte_size e >>= λ _. ok [])
    | r ∷ rs ↦ base_layouts m e (r ∷ rs) all_registers
  ]
]

-- `RV32.fetch_struct_return_value`
unfoldable pub base_fetch_struct_return_value : March → SimulationDataEntry → Result ReturnValue
unfolding return_type analyze_struct compute_struct_values base_by_layout
base_fetch_struct_return_value m e = do
  t ← return_type e
  (byte_size, members) ← struct_parts t
  elements ← analyze_struct members
  regs ← compute_struct_values 32 elements
  values ← base_by_layout m e byte_size regs
  ok (scalars values)
