-- ===== src/Tests/Programs.antt =====
-- py_etiss_xvalid/entity/dwarf/dwarf_info.py and py_etiss_xvalid/dwarf_simdata_merger.py on a
-- concrete program of two functions.
use etiss_xvalid.Base.{
  ℕ, ◌<◌, refl, List, [], ◌∷◌, arith, some, none, true, inl, All, length, replicate,
}
use etiss_xvalid.Base.Text.{Text, codes, text_eq}
use etiss_xvalid.Base.Dict.{insert, lookup}
use etiss_xvalid.Trace.{Snapshot, Access, TraceEntry, state_snapshot, dwrite}
use etiss_xvalid.Trace.Peekable.{peekable, upcoming}
use etiss_xvalid.Dwarf.Types.{missing}
use etiss_xvalid.Dwarf.Info.{
  Subprogram, DwarfInfo, get_enclosing_subprogram, find_subprogram, get_subprogram_by_name,
}
use etiss_xvalid.Dwarf.Info.Lookup.{EnclosingAnswer, get_enclosing_subprogram-answer}
use etiss_xvalid.Simulation.Entry.{
  SimulationDataEntry, new_entry, add_dwarf_info, append_prologue_instruction,
  append_epilogue_instruction, append_dwrite_instruction, append_access,
}
use etiss_xvalid.Merger.Calls.{
  Calls, goes_on, calls, returns, Finishes, construct_entries_recursively-Calls,
}
use etiss_xvalid.Merger.Action.{
  cswsp, cjr, action, snapshot_action, name_entry, callee_entry, append_prologue, append_epilogue,
}
use etiss_xvalid.Merger.Construct.{
  next_entry_is_cjr_for_same_subprogram, close_entry, is_valid_entry, add_param_locations,
  construct_entries_recursively, build_simulation_entries,
}
use etiss_xvalid.Merger.Termination.{Ensures, Progress, construct_entries_recursively_ends}
use etiss_xvalid.Merger.Build.{build_simulation_entries_ends}

abbrev function : Text → ℕ → ℕ → Subprogram
function name low_pc high_pc = record {
  name = name;
  low_pc = low_pc;
  high_pc = high_pc;
  type_info = missing;
  frame_base_infos = [];
  formal_parameters = [];
  local_variables = [];
}

abbrev first_function : Subprogram
first_function = function (codes "f") 256 272

-- It begins where the first one ends.
abbrev second_function : Subprogram
second_function = function (codes "g") 272 288

abbrev pub program : DwarfInfo
program = record {
  binary_name = codes "a.elf";
  source_file = codes "a.c";
  function_of_interest = codes "f";
  compilation_unit = record {
    march = some (codes "rv32imac_zicsr");
    mabi = none;
    misa_spec = none;
    little_endian = true;
  };
  subprograms = (codes "f", first_function) ∷ (codes "g", second_function) ∷ [];
  global_variables = [];
}

get_enclosing_subprogram-answer_example :
    EnclosingAnswer 272 program.subprograms (get_enclosing_subprogram program 272)
get_enclosing_subprogram-answer_example = get_enclosing_subprogram-answer program 272

abbrev entries_of_f : List TraceEntry
entries_of_f =
    state_snapshot (record {
      pc = 256;
      sp = 4096;
      x = replicate 32 0;
      f = replicate 32 0;
      instruction = codes "cswsp";
    })
    ∷ state_snapshot (record {
      pc = 268;
      sp = 4096;
      x = replicate 32 0;
      f = replicate 32 0;
      instruction = codes "cjr";
    })
    ∷ []

construct_entries_recursively_ends_example :
    Ensures
      (construct_entries_recursively program (peekable entries_of_f, []) new_entry)
      (Progress (length (upcoming (peekable entries_of_f))) [])
construct_entries_recursively_ends_example =
    construct_entries_recursively_ends program (peekable entries_of_f) [] new_entry (omega arith)
      (inl refl)

build_simulation_entries_ends_example :
    Ensures (build_simulation_entries program (1 ∷ 0 ∷ 0 ∷ [])) (All (λ g. 0 < length g))
build_simulation_entries_ends_example =
    build_simulation_entries_ends program (omega arith) (1 ∷ 0 ∷ 0 ∷ [])

abbrev pub snapshot_at : ℕ → Text → Snapshot
snapshot_at pc instruction = record {
  pc = pc;
  sp = 4096;
  x = replicate 32 0;
  f = replicate 32 0;
  instruction = instruction;
}

abbrev written : Access
written = record {
  pc = 260;
  location = codes "20000000";
  byte_size = 4;
  data_hex = codes "01000000";
}

-- `f` writes, and calls `g`, which returns before it does. Another call of `f` follows.
abbrev pub nested_trace : List TraceEntry
nested_trace =
    state_snapshot (snapshot_at 256 cswsp)
    ∷ dwrite written
    ∷ state_snapshot (snapshot_at 276 cswsp)
    ∷ state_snapshot (snapshot_at 284 cjr)
    ∷ state_snapshot (snapshot_at 268 cjr)
    ∷ state_snapshot (snapshot_at 256 cswsp)
    ∷ []

abbrev pub entry_of_f : SimulationDataEntry
unfolding append_prologue append_epilogue append_prologue_instruction append_epilogue_instruction
    append_dwrite_instruction append_access insert lookup
entry_of_f = append_epilogue (snapshot_at 268 cjr) (
    append_dwrite_instruction written (
      append_prologue (snapshot_at 256 cswsp) (record (add_dwarf_info program new_entry) {
        function_name = codes "f";
        invoke_chain = codes "f" ∷ [];
      })))

abbrev pub entry_of_g : SimulationDataEntry
unfolding append_prologue append_epilogue append_prologue_instruction append_epilogue_instruction
entry_of_g = append_epilogue (snapshot_at 284 cjr) (
    append_prologue (snapshot_at 276 cswsp) (record (add_dwarf_info program new_entry) {
      function_name = codes "g";
      invoke_chain = codes "f" ∷ codes "g" ∷ [];
    }))

pub nested_calls :
    Calls program
      (add_dwarf_info program new_entry)
      nested_trace
      (state_snapshot (snapshot_at 256 cswsp) ∷ [])
      (entry_of_g ∷ entry_of_f ∷ [])
unfolding action snapshot_action get_enclosing_subprogram find_subprogram name_entry callee_entry
    text_eq append_prologue append_epilogue append_prologue_instruction append_epilogue_instruction
    append_dwrite_instruction append_access insert lookup next_entry_is_cjr_for_same_subprogram
    close_entry is_valid_entry add_param_locations get_subprogram_by_name entry_of_f entry_of_g
nested_calls =
    goes_on refl (goes_on refl (calls refl (returns refl refl refl) (returns refl refl refl)))

construct_entries_recursively-Calls_example :
    Finishes
      (construct_entries_recursively program (peekable nested_trace, []) new_entry)
      (state_snapshot (snapshot_at 256 cswsp) ∷ [])
      (entry_of_g ∷ entry_of_f ∷ [])
unfolding upcoming
construct_entries_recursively-Calls_example =
    construct_entries_recursively-Calls program new_entry (peekable nested_trace)
      (state_snapshot (snapshot_at 256 cswsp) ∷ []) [] (entry_of_g ∷ entry_of_f ∷ []) nested_calls
