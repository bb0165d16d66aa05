-- ===== src/Merger/Construct.antt =====
-- The loops of py_etiss_xvalid/dwarf_simdata_merger.py: the entries of one call and of those in it, and
-- the groups of a trace. The loops take fuel; `out_of_fuel` is no Python value.
use etiss_xvalid.Base.{
  ℕ, zero, suc, Bool, true, false, ◌&&◌, Option, none, some, List, [], ◌∷◌, ◌++◌, ltb,
  if◌then◌else◌, length,
}
use etiss_xvalid.Base.Text.{text_eq}
use etiss_xvalid.Base.Result.{Result, ok, ◌>>=◌}
use etiss_xvalid.Trace.{Snapshot, TraceEntry, state_snapshot}
use etiss_xvalid.Trace.Parser.{parse_trace_file}
use etiss_xvalid.Trace.Peekable.{Peekable, peekable, peek, next, upcoming}
use etiss_xvalid.Dwarf.Location.{frame_location_value}
use etiss_xvalid.Dwarf.Info.{
  Variable, Subprogram, DwarfInfo, get_enclosing_subprogram, get_subprogram_by_name,
}
use etiss_xvalid.Simulation.Entry.{
  SimulationDataEntry, new_entry, add_dwarf_info, add_global_variables, add_formal_param_locations,
}
use etiss_xvalid.Base.Run.{Run, done, out_of_fuel, and_then, of_result}
use etiss_xvalid.Merger.Action.{
  Action, action, append_epilogue, call, cjr, continue, has_name, return,
}

abbrev same_name : Option Subprogram → Option Subprogram → Bool
same_name (some s) (some t) = text_eq s.name t.name
same_name _ _ = false

-- Only a snapshot has an `instruction`. The first argument is the snapshot that ended the function.
unfoldable pub next_entry_is_cjr_for_same_subprogram :
    DwarfInfo → Snapshot → Option TraceEntry → Bool
next_entry_is_cjr_for_same_subprogram d s none = false
next_entry_is_cjr_for_same_subprogram d s (some (state_snapshot t)) =
    text_eq t.instruction cjr
    && same_name (get_enclosing_subprogram d s.pc) (get_enclosing_subprogram d t.pc)
next_entry_is_cjr_for_same_subprogram d s (some _) = false

abbrev pub append_if_snapshot : Option TraceEntry → SimulationDataEntry → SimulationDataEntry
append_if_snapshot (some (state_snapshot t)) entry = append_epilogue t entry
append_if_snapshot _ entry = entry

-- The while loop after an epilogue instruction. Its body tests again that the next entry has an
-- enclosing subprogram, which the loop's own test has required.
unfoldable pub drain :
    ℕ
    → DwarfInfo
    → Snapshot
    → Peekable TraceEntry
    → SimulationDataEntry
    → Peekable TraceEntry × SimulationDataEntry
drain zero d s it entry = (it, entry)
drain (suc fuel) d s it entry =
    let peeked = peek it in
    elim (next_entry_is_cjr_for_same_subprogram d s peeked.0) [
      | true ↦ drain fuel d s (next peeked.1).1 (append_if_snapshot (next peeked.1).0 entry)
      | false ↦ (peeked.1, entry)
    ]

abbrev pub drain_after :
    DwarfInfo
    → TraceEntry
    → Peekable TraceEntry
    → SimulationDataEntry
    → Peekable TraceEntry × SimulationDataEntry
drain_after d (state_snapshot s) it entry = drain (length (upcoming it)) d s it entry
drain_after d _ it entry = (it, entry)

unfoldable pub is_valid_entry : SimulationDataEntry → Bool
is_valid_entry e = ltb 0 (length e.prologue) && has_name e && ltb 0 (length e.epilogue)

unfoldable pub add_param_locations :
    List Variable → SimulationDataEntry → Result SimulationDataEntry
add_param_locations [] entry = ok entry
add_param_locations (v ∷ vs) entry = do
  loc ← frame_location_value v.location
  add_param_locations vs (add_formal_param_locations v.name loc entry)

abbrev pub params_of : Option Subprogram → List Variable
params_of none = []
params_of (some s) = s.formal_parameters

-- What is appended to the list of entries once the epilogue is reached.
unfoldable pub close_entry :
    DwarfInfo → SimulationDataEntry → List SimulationDataEntry → Result (List SimulationDataEntry)
unfolding add_param_locations
close_entry d entry entries =
    if is_valid_entry entry
    then (do
      entry' ←
          add_param_locations (params_of (get_subprogram_by_name d entry.function_name))
            (add_global_variables d.global_variables entry)
      ok (entries ++ entry' ∷ []))
    else ok entries

-- what a call leaves: the iterator and the list of entries
abbrev pub MergeState : Type 0
MergeState = Peekable TraceEntry × List SimulationDataEntry

abbrev pub finish :
    DwarfInfo
    → List SimulationDataEntry
    → Peekable TraceEntry × SimulationDataEntry
    → Run MergeState
finish d entries (it, entry) = of_result (close_entry d entry entries >>= λ es. ok (it, es))

-- One round of the loop of `construct_entries_recursively`, for what `next` returned. `again` is
-- the loop itself: a callee's entry is constructed first, from where the iterator is, and the
-- entry at hand goes on with what that leaves.
unfoldable pub perform :
    (again : MergeState → SimulationDataEntry → Run MergeState)
    → DwarfInfo
    → List SimulationDataEntry
    → SimulationDataEntry
    → Peekable TraceEntry
    → TraceEntry
    → Action
    → Run MergeState
perform again d entries entry it e (continue entry') = again (it, entries) entry'
perform again d entries entry it e (call callee) =
    and_then (again (it, entries) callee) (λ st. again st entry)
perform again d entries entry it e (return entry') = finish d entries (drain_after d e it entry')

-- Where the trace ends before the epilogue, the entry is dropped.
unfoldable pub round :
    (again : MergeState → SimulationDataEntry → Run MergeState)
    → DwarfInfo
    → List SimulationDataEntry
    → SimulationDataEntry
    → Option TraceEntry × Peekable TraceEntry
    → Run MergeState
unfolding perform
round again d entries entry (none, it) = done (it, entries)
round again d entries entry (some e, it) = perform again d entries entry it e (action d e entry)

unfoldable pub construct_loop : ℕ → DwarfInfo → MergeState → SimulationDataEntry → Run MergeState
unfolding round
construct_loop zero d st entry = out_of_fuel
construct_loop (suc fuel) d (it, entries) entry =
    round (construct_loop fuel d) d entries entry (next it)

-- Every call of the source is from `compile_entries`, with no entry, or the recursive one.
unfoldable pub construct_entries_recursively :
    DwarfInfo → MergeState → SimulationDataEntry → Run MergeState
construct_entries_recursively d (it, entries) entry =
    construct_loop (suc (length (upcoming it))) d (it, entries) (add_dwarf_info d entry)

unfoldable pub compile_entries : DwarfInfo → Peekable TraceEntry → Run MergeState
compile_entries d it = construct_entries_recursively d (it, []) new_entry

-- `while True: ... if not entry_collection: break`
unfoldable pub collect :
    (again : Peekable TraceEntry
      → List (List SimulationDataEntry)
      → Run (List (List SimulationDataEntry)))
    → List (List SimulationDataEntry)
    → MergeState
    → Run (List (List SimulationDataEntry))
collect again collected (it, []) = done collected
collect again collected (it, e ∷ es) = again it (collected ++ (e ∷ es) ∷ [])

unfoldable pub build_loop :
    ℕ
    → DwarfInfo
    → Peekable TraceEntry
    → List (List SimulationDataEntry)
    → Run (List (List SimulationDataEntry))
unfolding collect
build_loop zero d it collected = out_of_fuel
build_loop (suc fuel) d it collected =
    and_then (compile_entries d it) (collect (build_loop fuel d) collected)

unfoldable pub build_simulation_entries : DwarfInfo → List ℕ → Run (List (List SimulationDataEntry))
build_simulation_entries d bytes =
    and_then (of_result (parse_trace_file bytes))
      (λ entries. build_loop (suc (length entries)) d (peekable entries) [])
