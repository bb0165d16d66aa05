-- ===== src/Simulation/Show.antt =====
-- `SimulationDataEntry.__str__` of py_etiss_xvalid/entity/simulation/simulation_data_entry.py, and
-- `log_snapshot_information` of py_etiss_xvalid/dwarf_simdata_merger.py. A newline is 10, a tab 9.
use etiss_xvalid.Base.{ℕ, suc, List, [], ◌∷◌, ◌++◌}
use etiss_xvalid.Base.Text.{Text, codes}
use etiss_xvalid.Base.Decimal.{str_of}
use etiss_xvalid.Base.Dict.{Dict}
use etiss_xvalid.Base.Result.{Result, ok, ◌>>=◌}
use etiss_xvalid.Simulation.Entry.{SimulationDataEntry, PrologueState, EpilogueState, AccessState}
use etiss_xvalid.Simulation.Readings.{
  get_invoke_chain, get_first_writes_to_formal_params, get_last_writes_to_global_var_locations,
}

-- one instruction: its name, its address and four argument registers
unfoldable pub instruction_line : Text → (pc a0 a1 fa0 fa1 : ℕ) → Text
unfolding str_of
instruction_line instruction pc a0 a1 fa0 fa1 =
    codes "    | "
    ++ (instruction
        ++ (codes " <"
            ++ (str_of pc
                ++ (codes ">: <a0: "
                    ++ (str_of a0
                        ++ (codes ", a1: "
                            ++ (str_of a1
                                ++ (codes ", fa0: "
                                    ++ (str_of fa0
                                        ++ (codes ", fa1: "
                                            ++ (str_of fa1 ++ (codes ">" ++ 10 ∷ []))))))))))))

unfoldable pub prologue_lines : List PrologueState → Text
unfolding instruction_line
prologue_lines [] = []
prologue_lines (s ∷ states) =
    instruction_line s.instruction s.pc s.a0 s.a1 s.fa0 s.fa1 ++ prologue_lines states

unfoldable pub epilogue_lines : List EpilogueState → Text
unfolding instruction_line
epilogue_lines [] = []
epilogue_lines (s ∷ states) =
    instruction_line s.instruction s.pc s.a0 s.a1 s.fa0 s.fa1 ++ epilogue_lines states

-- one write, behind the text that shows the variable
unfoldable pub write_line : Text → AccessState → Text
unfolding str_of
write_line shown a =
    codes "    | "
    ++ (shown
        ++ (codes ":"
            ++ 9
              ∷ (codes "<pc: "
                  ++ (str_of a.pc
                      ++ 9
                        ∷ (codes "data: "
                            ++ (a.data_hex
                                ++ 9
                                  ∷ (codes "address: "
                                      ++ (a.location ++ (codes ">" ++ 10 ∷ [])))))))))

unfoldable pub parameter_lines : Dict AccessState → Text
unfolding write_line
parameter_lines [] = []
parameter_lines ((name, a) ∷ writes) = write_line name a ++ parameter_lines writes

unfoldable pub global_lines : Dict AccessState → Text
unfolding write_line
global_lines [] = []
global_lines ((name, a) ∷ writes) = write_line (b'<' ∷ (name ++ b'>' ∷ [])) a ++ global_lines writes

-- lines under a title, or another line where there is nothing
abbrev titled_prologue : List PrologueState → Text
titled_prologue [] = []
titled_prologue (s ∷ states) =
    codes "  > Prologue instructions CPU state snapshots:" ++ 10 ∷ prologue_lines (s ∷ states)

abbrev titled_epilogue : List EpilogueState → Text
titled_epilogue [] = []
titled_epilogue (s ∷ states) =
    codes "  > Epilogue instructions CPU state snapshots:" ++ 10 ∷ epilogue_lines (s ∷ states)

abbrev titled_parameters : Dict AccessState → Text
titled_parameters [] = codes "  > No formal parameters written to stack" ++ 10 ∷ []
titled_parameters (w ∷ writes) =
    codes "  > First data writes to formal params stack addresses after prologue:"
    ++ 10 ∷ parameter_lines (w ∷ writes)

abbrev titled_globals : Dict AccessState → Text
titled_globals [] = codes "  > No data writes to global variables" ++ 10 ∷ []
titled_globals (w ∷ writes) =
    codes "  > Final data writes to global variable(s) before epilogue:"
    ++ 10 ∷ global_lines (w ∷ writes)

unfoldable pub str_entry : SimulationDataEntry → Result Text
unfolding get_first_writes_to_formal_params get_last_writes_to_global_var_locations prologue_lines
    epilogue_lines parameter_lines global_lines
str_entry e = do
  formal_param_writes ← get_first_writes_to_formal_params e
  global_var_dwrites ← get_last_writes_to_global_var_locations e
  ok (
      titled_prologue e.prologue
      ++ (titled_parameters formal_param_writes
          ++ (titled_globals global_var_dwrites ++ titled_epilogue e.epilogue)))

-- the entries of one call
unfoldable pub call_text : List SimulationDataEntry → Result Text
unfolding get_invoke_chain str_entry
call_text [] = ok []
call_text (e ∷ entries) = do
  shown ← str_entry e
  others ← call_text entries
  ok (
      codes "> Subprogram name: "
      ++ (e.function_name
          ++ (codes " (" ++ (get_invoke_chain e ++ (codes ")" ++ 10 ∷ (shown ++ others))))))

-- One message for each call: the text of it and of those before, which is never empty.
unfoldable pub snapshot_messages :
    (fun_of_interest : Text)
    → (times_invoked : ℕ) → (output : Text) → List (List SimulationDataEntry)
    → Result (List Text)
unfolding call_text str_of
snapshot_messages fun times_invoked output [] = ok []
snapshot_messages fun times_invoked output (entries ∷ calls) = do
  shown ← call_text entries
  let further : Text =
      output
      ++ (codes "Function of interest: "
          ++ (fun
              ++ (codes ", invoke #" ++ (str_of (suc times_invoked) ++ (codes ":" ++ 10 ∷ shown)))))
  messages ← snapshot_messages fun (suc times_invoked) further calls
  ok (further ∷ messages)

unfoldable pub log_snapshot_information :
    List (List SimulationDataEntry) → (fun_of_interest : Text) → Result (List Text)
unfolding snapshot_messages
log_snapshot_information calls fun = snapshot_messages fun 0 [] calls
