-- ===== src/Verification/Report.antt =====
-- py_etiss_xvalid/entity/verification/verification_entry.py. A report is the list of its lines: a
-- constructor for each message of verification_stage.py, with the values that it prints.
use etiss_xvalid.Base.{ℕ, Bool, true, false, List, [], if◌then◌else◌}
use etiss_xvalid.Base.Text.{Text}
use etiss_xvalid.Dwarf.Types.{DwarfType}
use etiss_xvalid.March.Value.{ReturnValue}

pub data Verdict : Type 0 where
  passed failed_verdict not_applicable : Verdict

pub data Line : Type 0 where
  section : Verdict → Line
  no_snapshots number_of_instructions_differs : Line
  value_mismatch : Line
  mismatch_at_index : (idx gr uv : ℕ) → Line
  no_parameter_writes number_of_parameters_differs : Line
  no_variable_writes : Line
  data_mismatch : (variable gr uv : Text) → Line
  only_in_golden_reference : (variable : Text) → Line
  bytes_mismatch : (variable : Text) (gr uv : List ℕ) → Line
  no_dwarf_info void_function : Line
  inconclusive : (gr uv : ReturnValue) → DwarfType → Line
  return_value_mismatch : (gr uv : ReturnValue) → Line

abbrev pub Report : Type 0
Report = List Line

pub record VerificationEntry : Type 0 where
  pub function_name : Text
  pub invoke_chain : Text
  pub prologue : Report
  pub formal_params : Report
  pub local_vars : Report
  pub global_vars : Report
  pub epilogue : Report
  pub return_value : Report
  pub contains_failures : Bool

abbrev pub new_verification_entry : Text → Text → VerificationEntry
new_verification_entry function_name invoke_chain = record {
  function_name = function_name;
  invoke_chain = invoke_chain;
  prologue = [];
  formal_params = [];
  local_vars = [];
  global_vars = [];
  epilogue = [];
  return_value = [];
  contains_failures = false;
}

-- The first two ignore `failed`.
unfoldable pub add_prologue_verification_result :
    Report → Bool → VerificationEntry → VerificationEntry
add_prologue_verification_result result failed v = record v { prologue = result }

unfoldable pub add_formal_param_verification_result :
    Report → Bool → VerificationEntry → VerificationEntry
add_formal_param_verification_result result failed v = record v { formal_params = result }

abbrev note_failure : Bool → Bool → Bool
note_failure failed before = if failed then true else before

unfoldable pub add_local_vars_verification_result :
    Report → Bool → VerificationEntry → VerificationEntry
add_local_vars_verification_result result failed v = record v {
  contains_failures = note_failure failed v.contains_failures;
  local_vars = result;
}

unfoldable pub add_global_vars_verification_result :
    Report → Bool → VerificationEntry → VerificationEntry
add_global_vars_verification_result result failed v = record v {
  contains_failures = note_failure failed v.contains_failures;
  global_vars = result;
}

unfoldable pub add_epilogue_verification_result :
    Report → Bool → VerificationEntry → VerificationEntry
add_epilogue_verification_result result failed v = record v {
  contains_failures = note_failure failed v.contains_failures;
  epilogue = result;
}

unfoldable pub add_return_value_verification_result :
    Report → Bool → VerificationEntry → VerificationEntry
add_return_value_verification_result result failed v = record v {
  contains_failures = note_failure failed v.contains_failures;
  return_value = result;
}
