-- ===== src/Pipeline/Stages.antt =====
-- The stages of the pipeline of py_etiss_xvalid/__main__.py, and their order.
use etiss_xvalid.Base.{ℕ, Bool, true, false, Option, none, some, List, ◌∷◌, ◌++◌}
use etiss_xvalid.Base.Text.{Text}
use etiss_xvalid.Base.Decimal.{str_of}
use etiss_xvalid.Base.Result.{
  Exn, Result, ok, err, ◌>>=◌, dwarf_extraction_exception, etiss_simulation_exception,
  activity_log_parser_exception, snapshot_logger_exception, other_exception,
}
use etiss_xvalid.Base.Run.{Run, done, raised, out_of_fuel, of_result}
use etiss_xvalid.Simulation.Entry.{SimulationDataEntry}
use etiss_xvalid.Simulation.Show.{log_snapshot_information}
use etiss_xvalid.Dwarf.Info.{Subprogram, DwarfInfo, get_subprogram_of_interest}
use etiss_xvalid.Dwarf.Overview.{str_dwarf_info}
use etiss_xvalid.Dwarf.Extractor.Binary.{extract_dwarf_info}
use etiss_xvalid.March.Machine.{march_is_supported}
use etiss_xvalid.Merger.Construct.{build_simulation_entries}
use etiss_xvalid.Verification.Stage.{Summary, verify_entries}
use etiss_xvalid.Pipeline.Step.{
  World, Step, continue_with, sequence, pure, lift, change, renamed, or_raise,
}
use etiss_xvalid.Pipeline.Simulator.{System, run_etiss_simulation}

-- the command line, of py_etiss_xvalid/util/arg_parser.py; nothing reads `debug`
pub record Arguments : Type 0 where
  pub bin_golden_ref : Text
  pub ini_golden_ref : Text
  pub bin_isuv : Text
  pub ini_isuv : Text
  pub src : Text
  pub fun : Text
  pub etiss_path : Text
  pub etiss_executable : Text
  pub debug : Bool
  pub verbose : Bool

-- `except Exception as e: raise X(e)`, of a stage that leaves the files alone
abbrev pub raising {ℓ} : {A : Type ℓ} → Exn → Result A → Result A
raising x (ok a) = ok a
raising x (err e) = err x

abbrev pub supported_only : DwarfInfo → Bool → Result DwarfInfo
supported_only dwarf_info true = ok dwarf_info
supported_only dwarf_info false = err other_exception

unfoldable pub extract_dwarf_information : System → Arguments → (bin_file : Text) → Result DwarfInfo
unfolding extract_dwarf_info march_is_supported
extract_dwarf_information sys args bin_file = raising dwarf_extraction_exception (do
  file ← sys.open_binary bin_file
  dwarf_info ← extract_dwarf_info sys.tools sys.limit args.src args.fun bin_file file
  supported_only dwarf_info (march_is_supported dwarf_info.compilation_unit.march))

-- `f"{lowpc};{highpc}"`
unfoldable pub pcs_text : Subprogram → Text
unfolding str_of
pcs_text s = str_of s.low_pc ++ b';' ∷ str_of s.high_pc

abbrev pub remove_pcs : Unit {0} → Step (Unit {0})
remove_pcs u = change (λ w. record w { pcs_tmp = none })

-- The addresses are in a file while the simulator runs; where it fails, the file stays.
unfoldable pub simulate_between :
    System → Arguments → (ini_file : Text) → Bool → Subprogram → Step (Unit {0})
unfolding pcs_text run_etiss_simulation
simulate_between sys args ini_file fault s w =
    continue_with
      (run_etiss_simulation sys args.etiss_path args.etiss_executable ini_file fault
        (record w { pcs_tmp = some (pcs_text s) }))
      remove_pcs

unfoldable pub simulate :
    System → Arguments → DwarfInfo → (ini_file : Text) → Bool → Step (Unit {0})
unfolding get_subprogram_of_interest simulate_between
simulate sys args dwarf_info ini_file fault = or_raise etiss_simulation_exception (
    sequence (lift (of_result (get_subprogram_of_interest dwarf_info)))
      (simulate_between sys args ini_file fault))

-- A trace that is not there raises.
abbrev pub entries_of : DwarfInfo → Option (List ℕ) → Run (List (List SimulationDataEntry))
entries_of dwarf_info none = raised other_exception
entries_of dwarf_info (some bytes) = build_simulation_entries dwarf_info bytes

abbrev pub read_entries : DwarfInfo → Unit {0} → Step (List (List SimulationDataEntry))
read_entries dwarf_info u w =
    renamed activity_log_parser_exception (entries_of dwarf_info w.trace_bin, w)

unfoldable pub run_etiss_simulation_and_collect_activity_log :
    System
    → Arguments
    → DwarfInfo
    → (ini_file : Text) → (fault : Bool) → Step (List (List SimulationDataEntry))
unfolding simulate
run_etiss_simulation_and_collect_activity_log sys args dwarf_info ini_file fault =
    sequence (simulate sys args dwarf_info ini_file fault) (read_entries dwarf_info)

unfoldable pub log_snapshot_entries :
    Arguments → List (List SimulationDataEntry) → Result (List Text)
unfolding log_snapshot_information
log_snapshot_entries args entries =
    raising snapshot_logger_exception (log_snapshot_information entries args.fun)

-- `verify_entries`, of which both handlers raise an `Exception`
unfoldable pub verify :
    Arguments → (golden_ref isuv : List (List SimulationDataEntry)) → Result Summary
unfolding verify_entries
verify args golden_ref isuv = raising other_exception (verify_entries args.verbose golden_ref isuv)

-- the first part of `run_pipeline`: both binaries are extracted, and their texts are logged
unfoldable pub extract_both : System → Arguments → Result (DwarfInfo × DwarfInfo)
unfolding extract_dwarf_information str_dwarf_info
extract_both sys args = do
  golden_ref_dwarf_info ← extract_dwarf_information sys args args.bin_golden_ref
  isuv_dwarf_info ← extract_dwarf_information sys args args.bin_isuv
  _ ← str_dwarf_info golden_ref_dwarf_info
  _ ← str_dwarf_info isuv_dwarf_info
  ok (golden_ref_dwarf_info, isuv_dwarf_info)

abbrev pub Entries : Type 0
Entries = List (List SimulationDataEntry)

abbrev pub beside : Entries → Entries → Step (Entries × Entries)
beside golden_ref_entries isuv_entries = pure (golden_ref_entries, isuv_entries)

unfoldable pub simulate_isuv : System → Arguments → DwarfInfo → Entries → Step (Entries × Entries)
unfolding run_etiss_simulation_and_collect_activity_log
simulate_isuv sys args isuv_dwarf_info golden_ref_entries =
    sequence
      (run_etiss_simulation_and_collect_activity_log sys args isuv_dwarf_info args.ini_isuv true)
      (beside golden_ref_entries)

-- the second part: the golden reference is simulated first
unfoldable pub simulate_both : System → Arguments → DwarfInfo × DwarfInfo → Step (Entries × Entries)
unfolding run_etiss_simulation_and_collect_activity_log simulate_isuv
simulate_both sys args (golden_ref_dwarf_info, isuv_dwarf_info) =
    sequence
      (run_etiss_simulation_and_collect_activity_log sys args golden_ref_dwarf_info
        args.ini_golden_ref false)
      (simulate_isuv sys args isuv_dwarf_info)

-- the last part: both are logged, and then verified
unfoldable pub log_and_verify : Arguments → Entries × Entries → Result Summary
unfolding log_snapshot_entries verify
log_and_verify args (golden_ref_entries, isuv_entries) = do
  _ ← log_snapshot_entries args golden_ref_entries
  _ ← log_snapshot_entries args isuv_entries
  verify args golden_ref_entries isuv_entries

abbrev pub conclude : Arguments → Entries × Entries → Step Summary
conclude args entries = lift (of_result (log_and_verify args entries))

abbrev pub simulate_and_conclude : System → Arguments → DwarfInfo × DwarfInfo → Step Summary
simulate_and_conclude sys args dwarf_infos =
    sequence (simulate_both sys args dwarf_infos) (conclude args)

unfoldable pub run_pipeline : System → Arguments → Step Summary
unfolding extract_both simulate_both log_and_verify
run_pipeline sys args =
    or_raise other_exception
      (sequence (lift (of_result (extract_both sys args))) (simulate_and_conclude sys args))

-- how `main` ends, which handles every exception: what it logs last
pub data Ending : Type 0 where
  finished : Summary → Ending
  terminated : Ending
  endless : Ending

abbrev pub ending : Run Summary → Ending
ending (done summary) = finished summary
ending (raised e) = terminated
ending out_of_fuel = endless

unfoldable pub main : System → Arguments → World → Ending
unfolding run_pipeline
main sys args w = let (r, w') = run_pipeline sys args w in ending r
