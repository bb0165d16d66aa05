-- ===== src/Verification/ReturnValue.antt =====
-- `fetch_return_value` and `compare_return_values` of py_etiss_xvalid/verification_stage.py.
pub mod LongLong
use etiss_xvalid.Base.{Bool, true, false, ◌||◌, Option, none, some, [], ◌∷◌, if◌then◌else◌}
use etiss_xvalid.Base.Text.{Text, codes, text_eq}
use etiss_xvalid.Base.Result.{
  Result, ok, err, ◌>>=◌, attribute_error, verification_process_exception,
}
use etiss_xvalid.Dwarf.Types.{DwarfType, missing, base, struct, union}
use etiss_xvalid.Dwarf.Mapper.{get_mapping_for_dwarf_base_type}
use etiss_xvalid.Dwarf.Info.{DwarfInfo}
use etiss_xvalid.Simulation.Entry.{SimulationDataEntry}
use etiss_xvalid.March.Value.{none_value, Scalar, ReturnValue, scalar, return_value_eq, is_none}
use etiss_xvalid.March.Machine.{
  March, reg_a0, default_float_register, get_march_with_name, fetch_int_return_value,
  fetch_long_long_return_value, fetch_float_return_value, fetch_double_return_value,
  fetch_long_double_return_value, fetch_union_return_value, return_type,
}
use etiss_xvalid.March.StructValue.{fetch_struct_return_value}
use etiss_xvalid.Verification.Report.{
  passed, failed_verdict, not_applicable, section, no_dwarf_info, void_function, inconclusive,
  return_value_mismatch,
}
use etiss_xvalid.Verification.Compare.{Comparison}

-- `match base_type`
unfoldable pub fetch_base_value : Text → March → SimulationDataEntry → Result Scalar
unfolding text_eq fetch_int_return_value fetch_long_long_return_value fetch_float_return_value
    fetch_double_return_value fetch_long_double_return_value
fetch_base_value base_type m e =
    if text_eq base_type (codes "int")
    then fetch_int_return_value m e reg_a0
    else if text_eq base_type (codes "long long")
    then fetch_long_long_return_value m e
    else if text_eq base_type (codes "float")
    then fetch_float_return_value m e (default_float_register m)
    else if text_eq base_type (codes "double")
    then fetch_double_return_value m e (default_float_register m)
    else if text_eq base_type (codes "long double")
    then fetch_long_double_return_value m e
    else err verification_process_exception

-- `match sp_return_type`: of any other type the value stays `None`.
unfoldable pub fetch_typed_value : DwarfType → March → SimulationDataEntry → Result ReturnValue
unfolding fetch_base_value get_mapping_for_dwarf_base_type fetch_struct_return_value
    fetch_union_return_value
fetch_typed_value (base name byte_size) m e =
    fetch_base_value (get_mapping_for_dwarf_base_type name) m e >>= λ v. ok (scalar v)
fetch_typed_value (struct name byte_size members) m e = fetch_struct_return_value m e
fetch_typed_value (union byte_size members) m e = fetch_union_return_value m e
fetch_typed_value _ m e = ok (scalar none_value)

-- An unsupported architecture's `get_march_name` is asked for in a log message.
unfoldable pub fetch_return_value : SimulationDataEntry → DwarfType → Result ReturnValue
unfolding fetch_typed_value get_march_with_name
fetch_return_value e t = elim e.dwarf_info [
  | none ↦ err attribute_error
  | some d ↦ elim (get_march_with_name d.compilation_unit.march) [
    | none ↦ err attribute_error
    | some m ↦ fetch_typed_value t m e
  ]
]

unfoldable pub compare_values : ReturnValue → ReturnValue → DwarfType → Comparison
unfolding return_value_eq
compare_values gr ci t =
    if is_none gr || is_none ci
    then (section not_applicable ∷ inconclusive gr ci t ∷ [], false)
    else if return_value_eq gr ci
    then (section passed ∷ [], false)
    else (section failed_verdict ∷ return_value_mismatch gr ci ∷ [], true)

abbrev pub is_missing : Option DwarfInfo → Bool
is_missing none = true
is_missing (some d) = false

unfoldable pub compare_of_type :
    DwarfType → SimulationDataEntry → SimulationDataEntry → Result Comparison
unfolding fetch_return_value compare_values
compare_of_type missing gr ci = ok (section not_applicable ∷ void_function ∷ [], false)
compare_of_type t gr ci = do
  gr_rv ← fetch_return_value gr t
  ci_rv ← fetch_return_value ci t
  ok (compare_values gr_rv ci_rv t)

-- The golden reference's return type is read even where its debug information is missing.
unfoldable pub compare_return_values : SimulationDataEntry → SimulationDataEntry → Result Comparison
unfolding return_type compare_of_type
compare_return_values gr ci = do
  fun_return_type ← return_type gr
  if is_missing gr.dwarf_info || is_missing ci.dwarf_info
      then ok (section failed_verdict ∷ no_dwarf_info ∷ [], true)
      else compare_of_type fun_return_type gr ci
