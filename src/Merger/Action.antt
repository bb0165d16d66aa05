-- ===== src/Merger/Action.antt =====
-- The body of the loop of `construct_entries_recursively` of py_etiss_xvalid/dwarf_simdata_merger.py:
-- what one entry of the trace does to the entry under construction.
use etiss_xvalid.Base.{
  ℕ, Bool, true, false, not, ◌||◌, Option, none, some, List, [], ◌∷◌, ◌++◌, if◌then◌else◌, take,
  drop, get_or,
}
use etiss_xvalid.Base.Text.{Text, codes, text_eq}
use etiss_xvalid.Trace.{Snapshot, TraceEntry, state_snapshot, dwrite, dread}
use etiss_xvalid.Dwarf.Info.{Subprogram, DwarfInfo, get_enclosing_subprogram}
use etiss_xvalid.Simulation.Entry.{
  SimulationDataEntry, new_entry, add_dwarf_info, append_prologue_instruction,
  append_epilogue_instruction, append_dwrite_instruction, append_dread_instruction,
}

abbrev pub cswsp : Text
cswsp = codes "cswsp"

abbrev pub sw : Text
sw = codes "sw"

abbrev pub cjr : Text
cjr = codes "cjr"

abbrev pub jalr : Text
jalr = codes "jalr"

-- `case 'cswsp' | 'sw'` and `case 'cjr' | 'jalr'`
abbrev pub is_prologue_instruction : Text → Bool
is_prologue_instruction i = text_eq i cswsp || text_eq i sw

abbrev pub is_epilogue_instruction : Text → Bool
is_epilogue_instruction i = text_eq i cjr || text_eq i jalr

abbrev pub is_nil : Text → Bool
is_nil [] = true
is_nil (c ∷ s) = false

abbrev pub has_name : SimulationDataEntry → Bool
has_name e = not (is_nil e.function_name)

-- e['x'][10:18] and the like
abbrev slice : (from to : ℕ) → List ℕ → List ℕ
slice from to l = drop from (take to l)

unfoldable pub append_prologue : Snapshot → SimulationDataEntry → SimulationDataEntry
append_prologue s entry =
    append_prologue_instruction s.instruction s.pc (get_or s.x 2 0) (get_or s.x 8 0)
      (slice 10 18 s.x) (slice 10 18 s.f) entry

unfoldable pub append_epilogue : Snapshot → SimulationDataEntry → SimulationDataEntry
append_epilogue s entry =
    append_epilogue_instruction s.instruction s.pc (get_or s.x 2 0) (get_or s.x 8 0)
      (slice 10 12 s.x) (slice 10 12 s.f) entry

-- A new entry takes the name of its first subprogram.
unfoldable pub name_entry : Text → SimulationDataEntry → SimulationDataEntry
name_entry name entry =
    if has_name entry
    then entry
    else record entry { function_name = name; invoke_chain = entry.invoke_chain ++ name ∷ [] }

unfoldable pub callee_entry :
    DwarfInfo → Text → Snapshot → SimulationDataEntry → SimulationDataEntry
callee_entry d name s entry = append_prologue s (record (add_dwarf_info d new_entry) {
  function_name = name;
  invoke_chain = entry.invoke_chain ++ name ∷ [];
})

-- What the body of the loop does with one entry of the trace.
pub data Action : Type 0 where
  -- go on with the entry
  continue : SimulationDataEntry → Action
  -- construct this entry first, and then go on with the one at hand
  call : SimulationDataEntry → Action
  -- the epilogue is reached
  return : SimulationDataEntry → Action

abbrev pub prologue_action : DwarfInfo → Snapshot → SimulationDataEntry → Option Subprogram → Action
prologue_action d s entry none = continue entry
prologue_action d s entry (some sub_prog) =
    if not (has_name entry) || text_eq entry.function_name sub_prog.name
    then continue (append_prologue s (name_entry sub_prog.name entry))
    else call (callee_entry d sub_prog.name s entry)

abbrev pub epilogue_action : Snapshot → SimulationDataEntry → Option Subprogram → Action
epilogue_action s entry none = continue entry
epilogue_action s entry (some sub_prog) =
    if text_eq sub_prog.name entry.function_name
    then return (append_epilogue s entry)
    else continue entry

unfoldable pub snapshot_action : DwarfInfo → Snapshot → SimulationDataEntry → Action
snapshot_action d s entry =
    if is_prologue_instruction s.instruction
    then prologue_action d s entry (get_enclosing_subprogram d s.pc)
    else if is_epilogue_instruction s.instruction
    then epilogue_action s entry (get_enclosing_subprogram d s.pc)
    else continue entry

unfoldable pub action : DwarfInfo → TraceEntry → SimulationDataEntry → Action
unfolding snapshot_action
action d (state_snapshot s) entry = snapshot_action d s entry
action d (dwrite a) entry = continue (append_dwrite_instruction a entry)
action d (dread a) entry = continue (append_dread_instruction a entry)
