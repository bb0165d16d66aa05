-- ===== src/Verification/Stage.antt =====
-- The state of `VerificationStage`, of py_etiss_xvalid/verification_stage.py, with
-- `compare_entries`, and `verify_entries` of py_etiss_xvalid/__main__.py.
pub mod Counters
use etiss_xvalid.Base.{ℕ, ◌+◌, ◌-◌, Bool, ◌||◌, List, [], ◌∷◌, ◌++◌, ◌==◌, if◌then◌else◌, length}
use etiss_xvalid.Base.Result.{Result, ok, err, ◌>>=◌, verification_process_exception}
use etiss_xvalid.Simulation.Entry.{SimulationDataEntry}
use etiss_xvalid.Simulation.Readings.{get_invoke_chain, get_last_writes_to_global_var_locations}
use etiss_xvalid.Verification.Report.{
  VerificationEntry, new_verification_entry, add_global_vars_verification_result,
  add_return_value_verification_result,
}
use etiss_xvalid.Verification.Compare.{Comparison, compare_global_variable_values}
use etiss_xvalid.Verification.ReturnValue.{compare_return_values}

pub record VerificationStage : Type 0 where
  pub verbose : Bool
  pub entries_compared_counter : ℕ
  pub entries_with_failures_counter : ℕ
  pub verification_entries : List VerificationEntry

abbrev pub new_stage : Bool → VerificationStage
new_stage verbose = record {
  verbose = verbose;
  entries_compared_counter = 0;
  entries_with_failures_counter = 0;
  verification_entries = [];
}

unfoldable pub with_results : SimulationDataEntry → Comparison → Comparison → VerificationEntry
unfolding get_invoke_chain add_global_vars_verification_result add_return_value_verification_result
with_results gr (globals, globals_failed) (value, value_failed) =
    add_return_value_verification_result value value_failed (
      add_global_vars_verification_result globals globals_failed
        (new_verification_entry gr.function_name (get_invoke_chain gr)))

-- `expanded_pipeline` is `False`.
unfoldable pub verification_entry :
    SimulationDataEntry → SimulationDataEntry → Result VerificationEntry
unfolding get_last_writes_to_global_var_locations compare_global_variable_values
    compare_return_values with_results
verification_entry gr uv = do
  gr_writes ← get_last_writes_to_global_var_locations gr
  uv_writes ← get_last_writes_to_global_var_locations uv
  globals ← compare_global_variable_values gr_writes uv_writes
  value ← compare_return_values gr uv
  ok (with_results gr globals value)

unfoldable pub record_entry : VerificationStage → VerificationEntry → VerificationStage
record_entry s v = record s {
  entries_compared_counter = s.entries_compared_counter + 1;
  entries_with_failures_counter =
      if v.contains_failures
      then s.entries_with_failures_counter + 1
      else s.entries_with_failures_counter;
  verification_entries = s.verification_entries ++ v ∷ [];
}

unfoldable pub compare_entries :
    VerificationStage → SimulationDataEntry → SimulationDataEntry → Result VerificationStage
unfolding verification_entry record_entry
compare_entries s gr uv = verification_entry gr uv >>= λ v. ok (record_entry s v)

unfoldable pub flush_verification_entries : VerificationStage → VerificationStage
flush_verification_entries s = record s { verification_entries = [] }

unfoldable pub reported : Bool → List VerificationEntry → List VerificationEntry
reported verbose [] = []
reported verbose (v ∷ vs) =
    let rest = reported verbose vs in if verbose || v.contains_failures then v ∷ rest else rest

-- the entries whose texts are joined
unfoldable pub output_verification_entries : VerificationStage → List VerificationEntry
unfolding reported
output_verification_entries s = reported s.verbose s.verification_entries

-- the inner loop over two lists of the same length
unfoldable pub compare_call :
    VerificationStage
    → List SimulationDataEntry
    → List SimulationDataEntry
    → Result VerificationStage
unfolding compare_entries
compare_call s (gr ∷ grs) (uv ∷ uvs) = compare_entries s gr uv >>= λ s'. compare_call s' grs uvs
compare_call s _ _ = ok s

-- The loop over two collections of the same length. A call with another number of entries raises
-- when the loop has come to it.
unfoldable pub compare_calls :
    VerificationStage
    → List (List SimulationDataEntry)
    → List (List SimulationDataEntry)
    → Result VerificationStage
unfolding compare_call
compare_calls s (gr ∷ grs) (uv ∷ uvs) =
    if length uv == length gr
    then (compare_call s gr uv >>= λ s'. compare_calls s' grs uvs)
    else err verification_process_exception
compare_calls s _ _ = ok s

unfoldable pub run_stage :
    Bool
    → List (List SimulationDataEntry)
    → List (List SimulationDataEntry)
    → Result VerificationStage
unfolding compare_calls
run_stage verbose gr uv =
    if length gr == length uv
    then compare_calls (new_stage verbose) gr uv
    else err verification_process_exception

-- the summary: how many entries passed, failed and were verified
pub record Summary : Type 0 where
  pub passed_verification : ℕ
  pub failed_verification : ℕ
  pub total : ℕ
  pub output : List VerificationEntry

unfoldable pub summary : VerificationStage → Summary
unfolding output_verification_entries
summary s = record {
  passed_verification = s.entries_compared_counter - s.entries_with_failures_counter;
  failed_verification = s.entries_with_failures_counter;
  total = s.entries_compared_counter;
  output = output_verification_entries s;
}

unfoldable pub verify_entries :
    Bool → List (List SimulationDataEntry) → List (List SimulationDataEntry) → Result Summary
unfolding run_stage summary
verify_entries verbose gr uv = run_stage verbose gr uv >>= λ s. ok (summary s)
