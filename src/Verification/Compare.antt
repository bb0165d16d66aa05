-- ===== src/Verification/Compare.antt =====
-- `_compare_prologues`, `_compare_formal_param_values`, `_compare_global_variable_values` and
-- `compare_epilogues` of py_etiss_xvalid/verification_stage.py. A comparison gives its report and
-- whether it failed.
pub mod Globals
use etiss_xvalid.Base.{
  ℕ, ◌+◌, Bool, true, false, Option, none, some, List, [], ◌∷◌, ◌++◌, ◌==◌, if◌then◌else◌, length,
}
use etiss_xvalid.Base.Text.{Text, text_eq}
use etiss_xvalid.Base.Dict.{Dict, lookup}
use etiss_xvalid.Base.Result.{Result, ok, err, ◌>>=◌, key_error}
use etiss_xvalid.Simulation.Entry.{PrologueState, EpilogueState, AccessState}
use etiss_xvalid.Verification.Report.{
  passed, failed_verdict, not_applicable, section, no_snapshots, number_of_instructions_differs,
  value_mismatch, mismatch_at_index, no_parameter_writes, number_of_parameters_differs,
  no_variable_writes, data_mismatch, only_in_golden_reference, bytes_mismatch, Report,
}
use etiss_xvalid.Verification.Normalize.{normalize_variable_data}

abbrev pub Comparison : Type 0
Comparison = Report × Bool

-- `if not result: result += section + "OK\n"`
abbrev pub or_passed : Report → Report
or_passed [] = section passed ∷ []
or_passed (l ∷ ls) = l ∷ ls

-- the keys 'pc', 'a0', 'a1', 'fa0' and 'fa1'
abbrev pub prologue_values : PrologueState → List ℕ
prologue_values s = s.pc ∷ s.a0 ∷ s.a1 ∷ s.fa0 ∷ s.fa1 ∷ []

abbrev pub epilogue_values : EpilogueState → List ℕ
epilogue_values s = s.pc ∷ s.a0 ∷ s.a1 ∷ s.fa0 ∷ s.fa1 ∷ []

unfoldable pub differences_at : ℕ → List ℕ → List ℕ → Report
differences_at idx (a ∷ as') (b ∷ bs) =
    let rest = differences_at idx as' bs in
    if a == b then rest else mismatch_at_index idx a b ∷ rest
differences_at idx _ _ = []

-- The two lists are equally long where this is called.
unfoldable pub state_differences {ℓ} : {A : Type ℓ} → (A → List ℕ) → ℕ → List A → List A → Report
unfolding differences_at
state_differences values idx (a ∷ as') (b ∷ bs) =
    differences_at idx (values a) (values b) ++ state_differences values (idx + 1) as' bs
state_differences values idx _ _ = []

abbrev mismatches : Report → Comparison
mismatches [] = (section passed ∷ [], false)
mismatches (l ∷ ls) = (section failed_verdict ∷ value_mismatch ∷ l ∷ ls, true)

unfoldable pub compare_states {ℓ} : {A : Type ℓ} → (A → List ℕ) → List A → List A → Comparison
unfolding state_differences
compare_states values [] [] = (section failed_verdict ∷ no_snapshots ∷ [], true)
compare_states values gr uv =
    if length gr == length uv
    then mismatches (state_differences values 0 gr uv)
    else (section failed_verdict ∷ number_of_instructions_differs ∷ [], true)

unfoldable pub compare_prologues : List PrologueState → List PrologueState → Comparison
unfolding compare_states
compare_prologues gr uv = compare_states prologue_values gr uv

unfoldable pub compare_epilogues : List EpilogueState → List EpilogueState → Comparison
unfolding compare_states
compare_epilogues gr uv = compare_states epilogue_values gr uv

-- the report on one variable, whose key must be there
abbrev pub data_difference : Text → Text → Option AccessState → Result Report
data_difference name gr none = err key_error
data_difference name gr (some uv) =
    if text_eq gr uv.data_hex
    then ok []
    else ok (section failed_verdict ∷ data_mismatch name gr uv.data_hex ∷ [])

unfoldable pub data_differences : Dict AccessState → Dict AccessState → Result Report
unfolding lookup text_eq
data_differences [] uv = ok []
data_differences ((name, entry) ∷ gr) uv = do
  first ← data_difference name entry.data_hex (lookup name uv)
  rest ← data_differences gr uv
  ok (first ++ rest)

abbrev pub is_failure : Report → Bool
is_failure [] = false
is_failure (l ∷ ls) = true

-- Every line of `failures` is a failure.
abbrev pub with_failures : Report → Comparison
with_failures failures = (or_passed failures, is_failure failures)

unfoldable pub compare_formal_param_values : Dict AccessState → Dict AccessState → Result Comparison
unfolding data_differences
compare_formal_param_values [] [] = ok (section not_applicable ∷ no_parameter_writes ∷ [], false)
compare_formal_param_values gr uv =
    if length gr == length uv
    then (data_differences gr uv >>= λ failures. ok (with_failures failures))
    else ok (section failed_verdict ∷ number_of_parameters_differs ∷ [], true)

unfoldable pub bytes_eq : List ℕ → List ℕ → Bool
bytes_eq [] [] = true
bytes_eq (a ∷ s) (b ∷ t) = if a == b then bytes_eq s t else false
bytes_eq _ _ = false

abbrev pub bytes_difference : Text → List ℕ → Option (List ℕ) → Report
bytes_difference name gr none = only_in_golden_reference name ∷ []
bytes_difference name gr (some uv) = if bytes_eq gr uv then [] else bytes_mismatch name gr uv ∷ []

-- A variable that only the other trace writes to is passed over.
unfoldable pub bytes_differences : Dict (List ℕ) → Dict (List ℕ) → Report
unfolding lookup bytes_eq
bytes_differences [] uv = []
bytes_differences ((name, value) ∷ gr) uv =
    bytes_difference name value (lookup name uv) ++ bytes_differences gr uv

abbrev pub normalized_failures : Report → Comparison
normalized_failures [] = (section passed ∷ [], false)
normalized_failures (l ∷ ls) = (section failed_verdict ∷ l ∷ ls, true)

unfoldable pub compare_normalized : Dict AccessState → Dict AccessState → Result Comparison
unfolding normalize_variable_data bytes_differences
compare_normalized gr uv = do
  golden_ref_data ← normalize_variable_data gr
  isuv_data ← normalize_variable_data uv
  ok (normalized_failures (bytes_differences golden_ref_data isuv_data))

unfoldable pub compare_global_variable_values :
    Dict AccessState → Dict AccessState → Result Comparison
unfolding data_differences compare_normalized
compare_global_variable_values [] [] = ok (section not_applicable ∷ no_variable_writes ∷ [], false)
compare_global_variable_values gr uv =
    if length gr == length uv
    then (data_differences gr uv >>= λ failures. ok (with_failures failures))
    else compare_normalized gr uv
