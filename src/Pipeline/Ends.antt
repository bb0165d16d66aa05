-- ===== src/Pipeline/Ends.antt =====
-- `main` of py_etiss_xvalid/__main__.py comes to an end.
use etiss_xvalid.Base.{
  ℕ, ◌<◌, ◌≡◌, refl, Bool, true, false, ◌⊎◌, inl, inr, Option, none, some, List, length, All,
}
use etiss_xvalid.Base.Text.{Text}
use etiss_xvalid.Base.Result.{Exn, Result, ok, err}
use etiss_xvalid.Base.Run.{Run, done, raised, out_of_fuel, of_result}
use etiss_xvalid.Dwarf.Info.{Subprogram, DwarfInfo, get_subprogram_of_interest}
use etiss_xvalid.Merger.Named.{AreNamed}
use etiss_xvalid.Merger.Termination.{Ensures}
use etiss_xvalid.Merger.Build.{build_simulation_entries_ends}
use etiss_xvalid.Merger.Construct.{build_simulation_entries}
use etiss_xvalid.Verification.Stage.{Summary}
use etiss_xvalid.Pipeline.Step.{World, Step, continue_with, lift, renamed}
use etiss_xvalid.Pipeline.Simulator.{System, exit, simulator_command, run_etiss_simulation}
use etiss_xvalid.Pipeline.Stages.{
  Arguments, pcs_text, extract_both, remove_pcs, simulate_between, simulate, entries_of,
  read_entries, run_etiss_simulation_and_collect_activity_log, beside, simulate_isuv, simulate_both,
  conclude, log_and_verify, simulate_and_conclude, run_pipeline, Ending, finished, terminated,
  endless, ending, main,
}
use etiss_xvalid.Pipeline.Extraction.{IsExtracted, extract_both-ok}
use etiss_xvalid.Pipeline.Simulation.{lift-done}

-- A run that has returned or raised, or that goes on for a reason.
abbrev IsOver {ℓ} : Type 0 → {A : Type ℓ} → Run A × World → Type 0
IsOver H (done a, w) = Unit
IsOver H (raised e, w) = Unit
IsOver H (out_of_fuel, w) = H

-- The run of a command does not end on some files, of which one has a function's addresses.
abbrev pub NeverExits : System → List Text → Type 0
NeverExits sys command =
    (v : World) × (s : Subprogram) × (v.pcs_tmp ≡ some (pcs_text s))
    × (sys.run_process command v ≡ none)

-- The run of the simulator with a binary's configuration does not end on some files.
abbrev pub Hangs : System → Arguments → (ini_file : Text) → (fault : Bool) → Type 0
Hangs sys args ini_file fault =
    NeverExits sys (simulator_command args.etiss_path args.etiss_executable ini_file fault)

-- The simulator's run of the first binary does not end on some files, or that of the second one.
abbrev pub HangsOnOne : System → Arguments → Type 0
HangsOnOne sys args = Hangs sys args args.ini_golden_ref false ⊎ Hangs sys args args.ini_isuv true

-- One reason for another.
because {ℓ} : {A : Type ℓ} {H K : Type 0} (r : Run A × World) → (H → K) → IsOver H r → IsOver K r
because (done a, w) f h = tt
because (raised e, w) f h = tt
because (out_of_fuel, w) f h = f h

module _ (H : Type 0) where
  lift-IsOver {ℓ} : {A : Type ℓ} (r : Result A) (w : World) → IsOver H (lift (of_result r) w)
  lift-IsOver (ok a) w = tt
  lift-IsOver (err x) w = tt

  continue_with-IsOver {ℓ κ} :
      {A : Type ℓ} {B : Type κ} (r : Run A × World) (f : A → Step B)
      → IsOver H r
      → ((a : A) (v : World) → r ≡ (done a, v) → IsOver H (f a v))
      → IsOver H (continue_with r f)
  continue_with-IsOver (done a, w) f h k = k a w refl
  continue_with-IsOver (raised e, w) f h k = tt
  continue_with-IsOver (out_of_fuel, w) f h k = h

  renamed-IsOver {ℓ} :
      {A : Type ℓ} (x : Exn) (r : Run A × World) → IsOver H r → IsOver H (renamed x r)
  renamed-IsOver x (done a, w) h = tt
  renamed-IsOver x (raised e, w) h = tt
  renamed-IsOver x (out_of_fuel, w) h = h

  Ensures-IsOver {ℓ} :
      {A : Type ℓ} (r : Run A) (P : A → Type 0) (w : World) → Ensures r P → IsOver H (lift r w)
  Ensures-IsOver (done a) P w h = tt
  Ensures-IsOver (raised e) P w h = tt
  Ensures-IsOver out_of_fuel P w h = absurd h

  entries_of-IsOver :
      (d : DwarfInfo) (trace : Option (List ℕ)) (w : World)
      → AreNamed d
      → IsOver H (lift (entries_of d trace) w)
  entries_of-IsOver d none w named = tt
  entries_of-IsOver d (some bytes) w named =
      Ensures-IsOver (build_simulation_entries d bytes) (All (λ g. 0 < length g)) w
        (build_simulation_entries_ends d named bytes)

exit-IsOver :
    (sys : System) (command : List Text) (v : World) (s : Subprogram) (b : Option (Bool × World))
    → v.pcs_tmp ≡ some (pcs_text s)
    → sys.run_process command v ≡ b
    → IsOver (NeverExits sys command) (continue_with (exit v b) remove_pcs)
exit-IsOver sys command v s none there h = (v, s, there, h)
exit-IsOver sys command v s (some (true, w)) there h = tt
exit-IsOver sys command v s (some (false, w)) there h = tt

simulate-IsOver :
    (sys : System) (args : Arguments) (d : DwarfInfo) (ini_file : Text) (fault : Bool) (w : World)
    → IsOver (Hangs sys args ini_file fault) (simulate sys args d ini_file fault w)
unfolding simulate simulate_between run_etiss_simulation
simulate-IsOver sys args d ini_file fault w = renamed-IsOver (Hangs sys args ini_file fault) _ _ (
    continue_with-IsOver (Hangs sys args ini_file fault)
      (lift (of_result (get_subprogram_of_interest d)) w) (simulate_between sys args ini_file fault)
      (lift-IsOver (Hangs sys args ini_file fault) (get_subprogram_of_interest d) w)
      (λ s v e. exit-IsOver sys _ _ s _ refl refl))

collect-IsOver :
    (sys : System) (args : Arguments) (d : DwarfInfo) (ini_file : Text) (fault : Bool) (w : World)
    → AreNamed d
    → IsOver
        (Hangs sys args ini_file fault)
        (run_etiss_simulation_and_collect_activity_log sys args d ini_file fault w)
unfolding run_etiss_simulation_and_collect_activity_log
collect-IsOver sys args d ini_file fault w named =
    continue_with-IsOver (Hangs sys args ini_file fault) (simulate sys args d ini_file fault w)
      (read_entries d) (simulate-IsOver sys args d ini_file fault w)
      (λ u v e.
        renamed-IsOver (Hangs sys args ini_file fault) _ (lift (entries_of d v.trace_bin) v)
          (entries_of-IsOver (Hangs sys args ini_file fault) d v.trace_bin v named))

simulate_both-IsOver :
    (sys : System) (args : Arguments) (ds : DwarfInfo × DwarfInfo) (w : World)
    → AreNamed ds.0
    → AreNamed ds.1
    → IsOver (HangsOnOne sys args) (simulate_both sys args ds w)
unfolding simulate_both simulate_isuv
simulate_both-IsOver sys args (d, e) w named_gr named_uv =
    continue_with-IsOver (HangsOnOne sys args)
      (run_etiss_simulation_and_collect_activity_log sys args d args.ini_golden_ref false w)
      (simulate_isuv sys args e)
      (because
        (run_etiss_simulation_and_collect_activity_log sys args d args.ini_golden_ref false w) inl
        (collect-IsOver sys args d args.ini_golden_ref false w named_gr))
      (λ gr v p.
        continue_with-IsOver (HangsOnOne sys args)
          (run_etiss_simulation_and_collect_activity_log sys args e args.ini_isuv true v)
          (beside gr)
          (because (run_etiss_simulation_and_collect_activity_log sys args e args.ini_isuv true v)
            inr (collect-IsOver sys args e args.ini_isuv true v named_uv))
          (λ uv u q. tt))

-- In what is extracted of any binary, every function has a name.
abbrev pub NamesFunctions : System → Arguments → Type 0
NamesFunctions sys args =
    (bin_file : Text) (d : DwarfInfo) → IsExtracted sys args bin_file d → AreNamed d

run_pipeline-IsOver :
    (sys : System) (args : Arguments) (w : World)
    → NamesFunctions sys args
    → IsOver (HangsOnOne sys args) (run_pipeline sys args w)
unfolding run_pipeline
run_pipeline-IsOver sys args w names = renamed-IsOver (HangsOnOne sys args) _ _ (
    continue_with-IsOver (HangsOnOne sys args) (lift (of_result (extract_both sys args)) w)
      (simulate_and_conclude sys args) (lift-IsOver (HangsOnOne sys args) (extract_both sys args) w)
      (λ ds v e.
        let (extracted, same) = lift-done (extract_both sys args) w e in
        let (first, second) = extract_both-ok sys args extracted in
        continue_with-IsOver (HangsOnOne sys args) (simulate_both sys args ds v) (conclude args)
          (simulate_both-IsOver sys args ds v (names args.bin_golden_ref ds.0 first)
            (names args.bin_isuv ds.1 second))
          (λ es u q. lift-IsOver (HangsOnOne sys args) (log_and_verify args es) u)))

-- The three ways in which `main` comes out: it reports an exception, or a summary, or goes on for a
-- reason.
abbrev pub EndsUnless : Type 0 → Ending → Type 0
EndsUnless H e = (e ≡ terminated) ⊎ ((s : Summary) × (e ≡ finished s)) ⊎ ((e ≡ endless) × H)

over_ends : {H : Type 0} (r : Run Summary × World) → IsOver H r → EndsUnless H (ending r.0)
over_ends (done s, w) h = inr (inl (s, refl))
over_ends (raised e, w) h = inl refl
over_ends (out_of_fuel, w) h = inr (inr (refl, h))

-- Where every function in what is extracted of a binary has a name, the program ends whatever the
-- files, unless the simulator does not: it reports a summary, or that it was terminated by an
-- exception, or it goes on, and then the run of the simulator with the configuration of one of the
-- two binaries never exits on some files, of which pcs.tmp has the addresses of a function.
pub main_ends :
    (sys : System) (args : Arguments) (w : World)
    → NamesFunctions sys args
    → EndsUnless (HangsOnOne sys args) (main sys args w)
unfolding main
main_ends sys args w names =
    over_ends (run_pipeline sys args w) (run_pipeline-IsOver sys args w names)
