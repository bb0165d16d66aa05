-- ===== src/Tests/Comparisons.antt =====
-- py_etiss_xvalid/verification_stage.py on concrete entries.
use etiss_xvalid.Base.{◌+◌, ◌*◌, ◌^◌, ◌≡◌, ◌↔◌, refl, List, [], ◌∷◌, arith, some, none, true, false}
use etiss_xvalid.Base.Text.{Text, codes, text_eq}
use etiss_xvalid.Base.Dict.{Dict, lookup}
use etiss_xvalid.Base.Float.Equality.{IsNanPattern}
use etiss_xvalid.Base.Result.{ok}
use etiss_xvalid.Dwarf.Types.{DwarfType, missing}
use etiss_xvalid.Dwarf.Info.{DwarfInfo, get_subprogram_by_name}
use etiss_xvalid.Simulation.Entry.{AccessState, EpilogueState, SimulationDataEntry, new_entry}
use etiss_xvalid.Simulation.Readings.{
  get_invoke_chain, join_chain, get_last_writes_to_global_var_locations, collect_variables,
}
use etiss_xvalid.March.Machine.{
  rv32imac, get_march_with_name, find_march, fetch_epilogue_state, find_epilogue_state, return_type,
}
use etiss_xvalid.Verification.Report.{
  add_global_vars_verification_result, add_return_value_verification_result,
}
use etiss_xvalid.Verification.Compare.{Comparison, compare_global_variable_values}
use etiss_xvalid.Verification.Compare.Globals.{
  Passes, SameGlobals, compare_global_variable_values-Passes,
}
use etiss_xvalid.Verification.ReturnValue.{compare_return_values}
use etiss_xvalid.Verification.ReturnValue.LongLong.{long_long, compare_long_long_with_itself}
use etiss_xvalid.Verification.Agreement.Collections.{CallsAgree, verify_entries_passes}
use etiss_xvalid.Verification.Stage.{
  Summary, verify_entries, run_stage, compare_calls, compare_call, compare_entries,
  verification_entry, with_results, record_entry, summary, output_verification_entries, reported,
}
use etiss_xvalid.Verification.Stage.Counters.{
  SameShape, SummaryAddsUp, verify_entries-SummaryAddsUp,
}

abbrev word : Text → Text → AccessState
word location data' = record {
  idx = 0;
  pc = 256;
  data_hex = data';
  location = location;
  byte_size = 4;
}

abbrev one_word : Dict AccessState
one_word = (codes "counter:0", word (codes "20000000") (codes "01000000")) ∷ []

abbrev two_words : Dict AccessState
two_words =
    (codes "counter:0", word (codes "20000000") (codes "01000000"))
    ∷ (codes "other:0", word (codes "20000004") (codes "02000000"))
    ∷ []

compare_global_variable_values-Passes_example :
    Passes (compare_global_variable_values one_word two_words)
    ↔ SameGlobals false one_word two_words
compare_global_variable_values-Passes_example =
    compare_global_variable_values-Passes one_word two_words

-- The program of one function `f` that returns a value of the given type.
abbrev pub program_of : DwarfType → DwarfInfo
program_of t = record {
  binary_name = codes "a.elf";
  source_file = codes "a.c";
  function_of_interest = codes "f";
  compilation_unit = record {
    march = some (codes "rv32imac_zicsr");
    mabi = none;
    misa_spec = none;
    little_endian = true;
  };
  subprograms =
      (
        codes "f",
        record {
          name = codes "f";
          low_pc = 256;
          high_pc = 272;
          type_info = t;
          frame_base_infos = [];
          formal_parameters = [];
          local_variables = [];
        },
      )
      ∷ [];
  global_variables = [];
}

-- the registers at the return of the value -1
abbrev pub minus_one : EpilogueState
minus_one = record {
  idx = 0;
  instruction = codes "cjr";
  pc = 268;
  sp = 4096;
  fp = 4096;
  a0 = 4294967295;
  a1 = 4294967295;
  fa0 = 0;
  fa1 = 0;
}

abbrev pub call_of_f : DwarfType → SimulationDataEntry
call_of_f t = record new_entry {
  function_name = codes "f";
  invoke_chain = codes "f" ∷ [];
  epilogue = minus_one ∷ [];
  dwarf_info = some (program_of t);
}

compare_long_long_with_itself_example :
    (r : Comparison) × (compare_return_values (call_of_f long_long) (call_of_f long_long) ≡ ok r)
    × ((r.1 ≡ true) ↔ IsNanPattern (4294967295 * 2 ^ 32 + 4294967295))
unfolding get_march_with_name find_march fetch_epilogue_state find_epilogue_state return_type
    get_subprogram_by_name lookup text_eq
compare_long_long_with_itself_example =
    compare_long_long_with_itself rv32imac (call_of_f long_long) (program_of long_long) minus_one
      refl refl refl (omega arith) (omega arith) refl

abbrev summary_of_two : Summary
summary_of_two = record { passed_verification = 2; failed_verification = 0; total = 2; output = [] }

abbrev calls : List (List SimulationDataEntry)
calls = (call_of_f missing ∷ call_of_f missing ∷ []) ∷ []

calls_verified : verify_entries false calls calls ≡ ok summary_of_two
unfolding verify_entries run_stage compare_calls compare_call compare_entries verification_entry
    with_results record_entry summary output_verification_entries reported get_invoke_chain
    join_chain get_last_writes_to_global_var_locations collect_variables
    compare_global_variable_values compare_return_values return_type get_subprogram_by_name lookup
    text_eq add_global_vars_verification_result add_return_value_verification_result
calls_verified = refl

verify_entries-SummaryAddsUp_example : SameShape calls calls × SummaryAddsUp false 2 summary_of_two
verify_entries-SummaryAddsUp_example =
    verify_entries-SummaryAddsUp false calls calls summary_of_two calls_verified

-- The calls agree: they return nothing, and write nothing.
calls-CallsAgree : CallsAgree calls calls
calls-CallsAgree =
    (verify_entries_passes false calls calls).0 (summary_of_two, calls_verified, refl)
