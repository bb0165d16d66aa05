-- ===== src/Pipeline/Simulation.antt =====
-- `run_etiss_simulation_and_collect_activity_log` of py_etiss_xvalid/__main__.py where it returns.
use etiss_xvalid.Base.{
  ℕ, ◌≡◌, refl, sym, subst, ◌∙◌, ap, Bool, true, false, some, none, Option, List,
}
use etiss_xvalid.Base.Text.{Text}
use etiss_xvalid.Base.Result.{
  Result, ok, err, etiss_simulation_exception, activity_log_parser_exception,
}
use etiss_xvalid.Base.Run.{done, of_result}
use etiss_xvalid.Simulation.Entry.{SimulationDataEntry}
use etiss_xvalid.Dwarf.Info.{Subprogram, DwarfInfo, get_subprogram_of_interest}
use etiss_xvalid.Merger.Construct.{build_simulation_entries}
use etiss_xvalid.Pipeline.Step.{World, continue_with, sequence, lift}
use etiss_xvalid.Pipeline.Step.Laws.{sequence-done, or_raise-done}
use etiss_xvalid.Pipeline.Simulator.{System, exit, simulator_command, run_etiss_simulation}
use etiss_xvalid.Pipeline.Stages.{
  Arguments, pcs_text, remove_pcs, simulate_between, simulate, entries_of, read_entries, Entries,
  simulate_isuv, simulate_both, beside, run_etiss_simulation_and_collect_activity_log,
}

-- A process that succeeds, run while the addresses of the function of interest are in their file, and
-- the entries of the trace that it leaves; then the file is gone.
abbrev pub IsSimulated :
    System
    → Arguments
    → DwarfInfo
    → Text
    → Bool
    → World
    → List (List SimulationDataEntry)
    → World
    → Type 0
IsSimulated sys args d ini_file fault w entries w' =
    (s : Subprogram) × (trace : List ℕ) × (after : World) × (get_subprogram_of_interest d ≡ ok s)
    × (sys.run_process (simulator_command args.etiss_path args.etiss_executable ini_file fault)
          (record w { pcs_tmp = some (pcs_text s) })
        ≡ some (true, after))
    × (after.trace_bin ≡ some trace)
    × (build_simulation_entries d trace ≡ done entries)
    × (w' ≡ record after { pcs_tmp = none })

pub lift-done {ℓ} :
    {A : Type ℓ} (r : Result A) (w : World) {a : A} {w' : World}
    → lift (of_result r) w ≡ (done a, w')
    → (r ≡ ok a) × (w' ≡ w)
lift-done (ok a) w h = (cc, cc)
lift-done (err x) w h = cc

-- A run of the simulator between the writing and the removal of the addresses.
abbrev IsBetween : System → Arguments → Text → Bool → Subprogram → World → World → World → Type 0
IsBetween sys args ini_file fault s w after w' =
    (sys.run_process (simulator_command args.etiss_path args.etiss_executable ini_file fault)
        (record w { pcs_tmp = some (pcs_text s) })
      ≡ some (true, after))
    × (w' ≡ record after { pcs_tmp = none })

exit-done :
    (v : World) (b : Option (Bool × World)) {u : Unit {0}} {w' : World}
    → continue_with (exit v b) remove_pcs ≡ (done u, w')
    → (after : World) × (b ≡ some (true, after)) × (w' ≡ record after { pcs_tmp = none })
exit-done v none h = cc
exit-done v (some (true, w)) h = (w, refl, cc)
exit-done v (some (false, w)) h = cc

simulate-done :
    (sys : System) (args : Arguments) (d : DwarfInfo) (ini_file : Text) (fault : Bool) (w : World)
    {u : Unit {0}} {w' : World}
    → simulate sys args d ini_file fault w ≡ (done u, w')
    → (s : Subprogram) × (after : World) × (get_subprogram_of_interest d ≡ ok s)
      × IsBetween sys args ini_file fault s w after w'
unfolding simulate simulate_between run_etiss_simulation
simulate-done sys args d ini_file fault w h =
    let (s, w1, found, ran) =
      sequence-done (lift (of_result (get_subprogram_of_interest d)))
        (simulate_between sys args ini_file fault) w
        (or_raise-done etiss_simulation_exception
          (sequence (lift (of_result (get_subprogram_of_interest d)))
            (simulate_between sys args ini_file fault))
          w h) in
    let (is_found, same) = lift-done (get_subprogram_of_interest d) w found in
    let (after, exited, removed) = exit-done _ (sys.run_process _ _) (rw same at ran) in
    (s, after, is_found, (exited, removed))

entries_of-done :
    (d : DwarfInfo) (trace : Option (List ℕ)) {es : Entries}
    → entries_of d trace ≡ done es
    → (bytes : List ℕ) × (trace ≡ some bytes) × (build_simulation_entries d bytes ≡ done es)
entries_of-done d none h = cc
entries_of-done d (some bytes) h = (bytes, refl, h)

read_entries-done :
    (d : DwarfInfo) (w : World) {es : Entries} {w' : World}
    → read_entries d tt w ≡ (done es, w')
    → (entries_of d w.trace_bin ≡ done es) × (w' ≡ w)
read_entries-done d w h =
    let read = or_raise-done activity_log_parser_exception (lift (entries_of d w.trace_bin)) w h in
    (ap (λ p. p.0) read, sym (ap (λ p. p.1) read))

collect-done :
    (sys : System) (args : Arguments) (d : DwarfInfo) (ini_file : Text) (fault : Bool) (w : World)
    {es : Entries} {w' : World}
    → run_etiss_simulation_and_collect_activity_log sys args d ini_file fault w ≡ (done es, w')
    → IsSimulated sys args d ini_file fault w es w'
unfolding run_etiss_simulation_and_collect_activity_log
collect-done sys args d ini_file fault w h =
    let (u, w1, simulated, read) =
      sequence-done (simulate sys args d ini_file fault) (read_entries d) w h in
    let (is_read, same) = read_entries-done d w1 read in
    let (s, after, found, (ran, removed)) = simulate-done sys args d ini_file fault w simulated in
    let (bytes, there, built) = entries_of-done d w1.trace_bin is_read in
    (
      s,
      bytes,
      after,
      found,
      ran,
      sym (ap (λ v. v.trace_bin) removed) ∙ there,
      built,
      same ∙ removed,
    )

-- Both runs, the second from the files that the first one left.
abbrev pub IsSimulatedTwice :
    System → Arguments → DwarfInfo → DwarfInfo → World → Entries × Entries → World → Type 0
IsSimulatedTwice sys args d e w es w' =
    (between : World) × IsSimulated sys args d args.ini_golden_ref false w es.0 between
    × IsSimulated sys args e args.ini_isuv true between es.1 w'

pub simulate_both-done :
    (sys : System) (args : Arguments) (ds : DwarfInfo × DwarfInfo) (w : World)
    {es : Entries × Entries} {w' : World}
    → simulate_both sys args ds w ≡ (done es, w')
    → IsSimulatedTwice sys args ds.0 ds.1 w es w'
unfolding simulate_both simulate_isuv
simulate_both-done sys args (d, e) w {es = es} {w' = w'} h =
    let (gr, w1, first, rest) =
      sequence-done
        (run_etiss_simulation_and_collect_activity_log sys args d args.ini_golden_ref false)
        (simulate_isuv sys args e) w h in
    let (uv, w2, second, paired) =
      sequence-done (run_etiss_simulation_and_collect_activity_log sys args e args.ini_isuv true)
        (beside gr) w1 rest in
    let same : (gr, uv) ≡ es = cc in
    let same_files : w2 ≡ w' = cc in
    subst (λ p. IsSimulatedTwice sys args d e w p w') same
      (
        w1,
        collect-done sys args d args.ini_golden_ref false w first,
        subst (IsSimulated sys args e args.ini_isuv true w1 uv) same_files
            (collect-done sys args e args.ini_isuv true w1 second),
      )
