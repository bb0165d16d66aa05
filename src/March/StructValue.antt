-- ===== src/March/StructValue.antt =====
-- py_etiss_xvalid/entity/march/: `fetch_struct_return_value` of the three architectures. Both
-- binaries are built from one source, so the type of an entry's own subprogram is a struct where
-- this is called.
pub mod Packed
use etiss_xvalid.Base.{
  ℕ, ◌+◌, ◌-◌, ◌*◌, ◌/◌, ◌%◌, ◌^◌, Option, none, some, List, [], ◌∷◌, ◌++◌, ◌==◌, if◌then◌else◌,
  length, take, drop,
}
use etiss_xvalid.Base.Text.{Text}
use etiss_xvalid.Base.Hex.{digit_value}
use etiss_xvalid.Base.Bytes.{le}
use etiss_xvalid.Base.Float.{decode_float, decode_double}
use etiss_xvalid.Base.Result.{
  Result, ok, err, ◌>>=◌, attribute_error, type_error, value_error, struct_error,
  out_of_registers_exception,
}
use etiss_xvalid.Dwarf.Types.{DwarfType, struct, Members}
use etiss_xvalid.Layout.{ReturnRegisterLayout, get_float_size}
use etiss_xvalid.Simulation.Entry.{EpilogueState, SimulationDataEntry}
use etiss_xvalid.Simulation.Readings.{get_last_writes_to_mem_range}
use etiss_xvalid.March.StructLayout.{analyze_struct, compute_struct_values}
use etiss_xvalid.March.Value.{Scalar, int_value, float_value, ReturnValue, scalars}
use etiss_xvalid.March.Machine.{
  March, rv32imafdc, Register, reg_a0, reg_a1, reg_fa0, reg_fa1, register, fetch_epilogue_state,
  fetch_float_return_value, fetch_double_return_value, return_type,
}
use etiss_xvalid.March.MemoryValue.{resolve_struct_memory_values}

-- The bits from `low` to `high` of a register, both included.
unfoldable pub fetch_aligned_int_value : ℕ → ℕ × ℕ → ℕ
fetch_aligned_int_value reg_val (low, high) = reg_val / 2 ^ low % 2 ^ (high - low + 1)

unfoldable pub fetch_ranges : ℕ → List (ℕ × ℕ) → List Scalar
unfolding fetch_aligned_int_value
fetch_ranges reg_val [] = []
fetch_ranges reg_val (loc ∷ locs) =
    int_value (fetch_aligned_int_value reg_val loc) ∷ fetch_ranges reg_val locs

-- The registers that are left: `arg_regs` and `farg_regs`, from which the lowest is taken.
pub record FreeRegisters : Type 0 where
  pub arg_regs : List Register
  pub farg_regs : List Register

abbrev pub all_registers : FreeRegisters
all_registers = record { arg_regs = reg_a0 ∷ reg_a1 ∷ []; farg_regs = reg_fa0 ∷ reg_fa1 ∷ [] }

-- the values of one layout, and the registers that are left after it
abbrev pub Fetched : Type 0
Fetched = List Scalar × FreeRegisters

abbrev get_next_reg : List Register → Result (Register × List Register)
get_next_reg [] = err out_of_registers_exception
get_next_reg (r ∷ rs) = ok (r, rs)

-- an integer register, for the members packed into it
unfoldable pub fetch_integers :
    EpilogueState → ReturnRegisterLayout → FreeRegisters → Result Fetched
unfolding fetch_ranges
fetch_integers s r free = do
  (reg, rest) ← get_next_reg free.arg_regs
  ok (fetch_ranges (register s reg) r.ranges, record free { arg_regs = rest })

-- Without floating-point registers a double takes both integer registers, which must be free.
unfoldable pub fetch_soft_double : March → SimulationDataEntry → FreeRegisters → Result Fetched
unfolding fetch_double_return_value
fetch_soft_double m e free = elim free.arg_regs [
  | r ∷ q ∷ rest ↦ (do
    v ← fetch_double_return_value m e reg_a0
    ok (v ∷ [], record free { arg_regs = [] }))
  | _ ↦ err out_of_registers_exception
]

abbrev fetch_soft_float : March → SimulationDataEntry → FreeRegisters → Result Fetched
fetch_soft_float m e free = do
  (reg, rest) ← get_next_reg free.arg_regs
  v ← fetch_float_return_value m e reg
  ok (v ∷ [], record free { arg_regs = rest })

unfoldable pub fetch_soft :
    March → SimulationDataEntry → ReturnRegisterLayout → FreeRegisters → Result Fetched
unfolding fetch_soft_double fetch_float_return_value get_float_size
fetch_soft m e r free = elim free.arg_regs [
  | [] ↦ err out_of_registers_exception
  | reg ∷ rest ↦ (do
    size ← get_float_size r
    if size == 4
        then fetch_soft_float m e free
        else if size == 8
        then fetch_soft_double m e free
        else ok ([], free))
]

-- With them, a float of either size takes the next one.
unfoldable pub fetch_hard :
    SimulationDataEntry → ReturnRegisterLayout → FreeRegisters → Result Fetched
unfolding fetch_float_return_value fetch_double_return_value get_float_size
fetch_hard e r free = do
  (reg, rest) ← get_next_reg free.farg_regs
  let free' = record free { farg_regs = rest }
  size ← get_float_size r
  if size == 4
      then (fetch_float_return_value rv32imafdc e reg >>= λ v. ok (v ∷ [], free'))
      else if size == 8
      then (fetch_double_return_value rv32imafdc e reg >>= λ v. ok (v ∷ [], free'))
      else ok ([], free')

unfoldable pub fetch_layout :
    March
    → SimulationDataEntry
    → EpilogueState
    → ReturnRegisterLayout
    → FreeRegisters
    → Result Fetched
unfolding fetch_integers fetch_soft fetch_hard
fetch_layout rv32imafdc e s r free =
    if r.is_float then fetch_hard e r free else fetch_integers s r free
fetch_layout m e s r free = if r.is_float then fetch_soft m e r free else fetch_integers s r free

unfoldable pub fetch_layouts :
    March
    → SimulationDataEntry
    → EpilogueState
    → List ReturnRegisterLayout
    → FreeRegisters
    → Result (List Scalar)
unfolding fetch_layout
fetch_layouts m e s [] free = ok []
fetch_layouts m e s (r ∷ rs) free = do
  (values, free') ← fetch_layout m e s r free
  rest ← fetch_layouts m e s rs free'
  ok (values ++ rest)

abbrev pub mem_range : ℕ → Option ℕ → SimulationDataEntry → Result (List Text)
unfolding get_last_writes_to_mem_range
mem_range addr none e = err type_error
mem_range addr (some n) e = get_last_writes_to_mem_range addr n e

-- `except OutOfRegistersException`
unfoldable pub or_from_memory :
    SimulationDataEntry
    → EpilogueState
    → Option ℕ
    → List ReturnRegisterLayout
    → Result (List Scalar)
    → Result (List Scalar)
unfolding resolve_struct_memory_values get_last_writes_to_mem_range
or_from_memory e s byte_size regs (err out_of_registers_exception) = do
  mem_vals ← mem_range s.a0 byte_size e
  resolve_struct_memory_values regs mem_vals
or_from_memory e s byte_size regs result = result

unfoldable pub fetch_struct_by_layout :
    March → SimulationDataEntry → Option ℕ → List ReturnRegisterLayout → Result (List Scalar)
unfolding fetch_epilogue_state or_from_memory fetch_layouts
fetch_struct_by_layout m e byte_size [] = ok []
fetch_struct_by_layout m e byte_size (r ∷ rs) = elim (fetch_epilogue_state m e.epilogue) [
  | none ↦ ok []
  | some s ↦ or_from_memory e s byte_size (r ∷ rs) (fetch_layouts m e s (r ∷ rs) all_registers)
]

abbrev pub struct_parts : DwarfType → Result (Option ℕ × Members)
struct_parts (struct name byte_size members) = ok (byte_size, members)
struct_parts _ = err attribute_error

unfoldable pub fetch_struct_return_value : March → SimulationDataEntry → Result ReturnValue
unfolding return_type analyze_struct compute_struct_values fetch_struct_by_layout
fetch_struct_return_value m e = do
  t ← return_type e
  (byte_size, members) ← struct_parts t
  elements ← analyze_struct members
  regs ← compute_struct_values 32 elements
  values ← fetch_struct_by_layout m e byte_size regs
  ok (scalars values)
