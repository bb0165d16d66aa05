-- ===== src/Simulation/Entry.antt =====
-- py_etiss_xvalid/entity/simulation/simulation_data_entry.py: the data of one function call. A
-- method that changes the entry returns the new one. The entries of a collection, of
-- simulation_data_collection.py, are lists of these.
use etiss_xvalid.Base.{ℕ, ◌+◌, Option, none, some, List, [], ◌∷◌, ◌++◌, ◌==◌, if◌then◌else◌, get_or}
use etiss_xvalid.Base.Text.{Text}
use etiss_xvalid.Base.Dict.{Dict, lookup, insert}
use etiss_xvalid.Base.Int.{ℤ, add_offset, hex_of_ℤ}
use etiss_xvalid.Trace.{Access}
use etiss_xvalid.Dwarf.Info.{Variable, DwarfInfo}

-- the dictionary of a prologue instruction: the argument registers are a0 to a7 and fa0 to fa7
pub record PrologueState : Type 0 where
  pub idx : ℕ
  pub instruction : Text
  pub pc : ℕ
  pub fp : ℕ
  pub sp : ℕ
  pub a0 : ℕ
  pub a1 : ℕ
  pub a2 : ℕ
  pub a3 : ℕ
  pub a4 : ℕ
  pub a5 : ℕ
  pub a6 : ℕ
  pub a7 : ℕ
  pub fa0 : ℕ
  pub fa1 : ℕ
  pub fa2 : ℕ
  pub fa3 : ℕ
  pub fa4 : ℕ
  pub fa5 : ℕ
  pub fa6 : ℕ
  pub fa7 : ℕ

-- the dictionary of an epilogue instruction
pub record EpilogueState : Type 0 where
  pub idx : ℕ
  pub instruction : Text
  pub pc : ℕ
  pub sp : ℕ
  pub fp : ℕ
  pub a0 : ℕ
  pub a1 : ℕ
  pub fa0 : ℕ
  pub fa1 : ℕ

-- the dictionary of a data read or write
pub record AccessState : Type 0 where
  pub idx : ℕ
  pub pc : ℕ
  pub data_hex : Text
  pub location : Text
  pub byte_size : ℕ

pub record SimulationDataEntry : Type 0 where
  pub function_name : Text
  pub invoke_chain : List Text
  pub prologue : List PrologueState
  pub epilogue : List EpilogueState
  pub dreads : Dict (List AccessState)
  pub dwrites : Dict (List AccessState)
  pub formal_param_locations : Dict Text
  pub global_variables : List Variable
  pub formal_parameters : List Variable
  pub local_variables : List Variable
  pub frame_pointer : ℕ
  pub stack_pointer : ℕ
  pub index : ℕ
  pub dwarf_info : Option DwarfInfo

-- `__init__`
abbrev pub new_entry : SimulationDataEntry
new_entry = record {
  function_name = [];
  invoke_chain = [];
  prologue = [];
  epilogue = [];
  dreads = [];
  dwrites = [];
  formal_param_locations = [];
  global_variables = [];
  formal_parameters = [];
  local_variables = [];
  frame_pointer = 0;
  stack_pointer = 0;
  index = 0;
  dwarf_info = none;
}

-- The register lists are slices of a snapshot's 32 registers, so each has the elements that are
-- read here, and the default 0 of `get_or` is never taken.
unfoldable pub append_prologue_instruction :
    (instruction : Text) (pc sp fp : ℕ) (arg_regs farg_regs : List ℕ)
    → SimulationDataEntry
    → SimulationDataEntry
append_prologue_instruction instruction pc sp fp arg_regs farg_regs e = record e {
  frame_pointer = if e.frame_pointer == 0 then fp else e.frame_pointer;
  stack_pointer = if e.stack_pointer == 0 then sp else e.stack_pointer;
  prologue =
      e.prologue
      ++ (record {
        idx = e.index;
        instruction = instruction;
        pc = pc;
        fp = fp;
        sp = sp;
        a0 = get_or arg_regs 0 0;
        a1 = get_or arg_regs 1 0;
        a2 = get_or arg_regs 2 0;
        a3 = get_or arg_regs 3 0;
        a4 = get_or arg_regs 4 0;
        a5 = get_or arg_regs 5 0;
        a6 = get_or arg_regs 6 0;
        a7 = get_or arg_regs 7 0;
        fa0 = get_or farg_regs 0 0;
        fa1 = get_or farg_regs 1 0;
        fa2 = get_or farg_regs 2 0;
        fa3 = get_or farg_regs 3 0;
        fa4 = get_or farg_regs 4 0;
        fa5 = get_or farg_regs 5 0;
        fa6 = get_or farg_regs 6 0;
        fa7 = get_or farg_regs 7 0;
      })
        ∷ [];
  index = e.index + 1;
}

unfoldable pub append_epilogue_instruction :
    (instruction : Text) (pc sp fp : ℕ) (rv_regs frv_regs : List ℕ)
    → SimulationDataEntry
    → SimulationDataEntry
append_epilogue_instruction instruction pc sp fp rv_regs frv_regs e = record e {
  epilogue =
      e.epilogue
      ++ (record {
        idx = e.index;
        instruction = instruction;
        pc = pc;
        sp = sp;
        fp = fp;
        a0 = get_or rv_regs 0 0;
        a1 = get_or rv_regs 1 0;
        fa0 = get_or frv_regs 0 0;
        fa1 = get_or frv_regs 1 0;
      })
        ∷ [];
  index = e.index + 1;
}

abbrev pub or_no_accesses : Option (List AccessState) → List AccessState
or_no_accesses none = []
or_no_accesses (some l) = l

-- A location that is not yet a key is given an empty list first.
unfoldable pub append_access : AccessState → Dict (List AccessState) → Dict (List AccessState)
unfolding lookup insert
append_access a d = insert a.location (or_no_accesses (lookup a.location d) ++ a ∷ []) d

abbrev pub access_state : ℕ → Access → AccessState
access_state index a = record {
  idx = index;
  pc = a.pc;
  data_hex = a.data_hex;
  location = a.location;
  byte_size = a.byte_size;
}

unfoldable pub append_dwrite_instruction : Access → SimulationDataEntry → SimulationDataEntry
unfolding append_access
append_dwrite_instruction a e = record e {
  dwrites = append_access (access_state e.index a) e.dwrites;
  index = e.index + 1;
}

unfoldable pub append_dread_instruction : Access → SimulationDataEntry → SimulationDataEntry
unfolding append_access
append_dread_instruction a e = record e {
  dreads = append_access (access_state e.index a) e.dreads;
  index = e.index + 1;
}

unfoldable pub add_formal_param_locations : Text → ℤ → SimulationDataEntry → SimulationDataEntry
add_formal_param_locations name loc e = record e {
  formal_param_locations =
      insert name (hex_of_ℤ (add_offset e.frame_pointer loc)) e.formal_param_locations;
}

abbrev pub add_global_variables : List Variable → SimulationDataEntry → SimulationDataEntry
add_global_variables vs e = record e { global_variables = vs }

abbrev pub add_formal_parameters : List Variable → SimulationDataEntry → SimulationDataEntry
add_formal_parameters vs e = record e { formal_parameters = vs }

abbrev pub add_local_variables : List Variable → SimulationDataEntry → SimulationDataEntry
add_local_variables vs e = record e { local_variables = vs }

abbrev pub add_dwarf_info : DwarfInfo → SimulationDataEntry → SimulationDataEntry
add_dwarf_info d e = record e { dwarf_info = some d }
