-- ===== src/Merger/Build.antt =====
-- The end of `build_simulation_entries` of py_etiss_xvalid/dwarf_simdata_merger.py.
use etiss_xvalid.Base.{
  ℕ, zero, suc, ◌≤◌, ◌<◌, inl, inr, List, [], ◌∷◌, ◌++◌, arith, length, All, All-append,
}
use etiss_xvalid.Base.Result.{Result, ok, err}
use etiss_xvalid.Base.Run.{Run, and_then, of_result}
use etiss_xvalid.Trace.{TraceEntry}
use etiss_xvalid.Trace.Parser.{parse_trace_file}
use etiss_xvalid.Trace.Peekable.{Peekable, peekable, upcoming, upcoming-peekable}
use etiss_xvalid.Dwarf.Info.{DwarfInfo}
use etiss_xvalid.Simulation.Entry.{SimulationDataEntry}
use etiss_xvalid.Merger.Construct.{
  MergeState, compile_entries, collect, build_loop, build_simulation_entries,
}
use etiss_xvalid.Merger.Named.{AreNamed}
use etiss_xvalid.Merger.Termination.{Ensures, Ensures-and_then, Progress, compile_entries-Progress}

abbrev HaveEntries : List (List SimulationDataEntry) → Type 0
HaveEntries = All (λ g. 0 < length g)

module _ (d : DwarfInfo) (named : AreNamed d) where
  collected :
      (n m : ℕ)
      (again : Peekable TraceEntry
        → List (List SimulationDataEntry)
        → Run (List (List SimulationDataEntry)))
      (groups : List (List SimulationDataEntry))
      → HaveEntries groups
      → m ≤ n
      → ((it : Peekable TraceEntry) (gs : List (List SimulationDataEntry))
          → length (upcoming it) < n
          → HaveEntries gs
          → Ensures (again it gs) HaveEntries)
      → (st : MergeState) → Progress m [] st
      → Ensures (collect again groups st) HaveEntries
  unfolding collect
  collected n m again groups h l ih (it, []) p = h
  collected n m again groups h l ih (it, e ∷ es) (added, q, inl (x, z)) = cc
  collected n m again groups h l ih (it, e ∷ es) (added, q, inr (x, z)) =
      ih it (groups ++ (e ∷ es) ∷ []) (omega arith)
        (All-append (λ g. 0 < length g) groups ((e ∷ es) ∷ []) h (omega arith))

  build_loop_ends :
      (fuel : ℕ) (it : Peekable TraceEntry) (groups : List (List SimulationDataEntry))
      → length (upcoming it) < fuel
      → HaveEntries groups
      → Ensures (build_loop fuel d it groups) HaveEntries
  unfolding build_loop
  build_loop_ends zero it groups l h = absurd (omega arith)
  build_loop_ends (suc fuel) it groups l h =
      Ensures-and_then (Progress (length (upcoming it)) []) HaveEntries (compile_entries d it)
        (collect (build_loop fuel d) groups) (compile_entries-Progress d it named)
        (collected fuel (length (upcoming it)) (build_loop fuel d) groups h (omega arith)
          (λ it' gs l' h'. build_loop_ends fuel it' gs l' h'))

  built :
      (r : Result (List TraceEntry))
      → Ensures
          (and_then
            (of_result r)
            (λ entries. build_loop (suc (length entries)) d (peekable entries) []))
          HaveEntries
  built (ok entries) =
      build_loop_ends (suc (length entries)) (peekable entries) []
        (rw upcoming-peekable (omega arith)) tt
  built (err e) = tt

  -- Where every function has a name, the building of the entries of any file ends: it raises, or
  -- it returns groups of entries of which none is empty.
  pub build_simulation_entries_ends :
      (bytes : List ℕ) → Ensures (build_simulation_entries d bytes) (All (λ g. 0 < length g))
  unfolding build_simulation_entries
  build_simulation_entries_ends bytes = built (parse_trace_file bytes)
