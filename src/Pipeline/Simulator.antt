-- ===== src/Pipeline/Simulator.antt =====
-- `run_etiss_simulation` of py_etiss_xvalid/etiss_simulation.py.
use etiss_xvalid.Base.{ℕ, Bool, true, false, Option, none, some, List, [], ◌∷◌, ◌++◌}
use etiss_xvalid.Base.Text.{Text, codes}
use etiss_xvalid.Base.Result.{Result, other_exception}
use etiss_xvalid.Base.Run.{Run, done, raised, out_of_fuel}
use etiss_xvalid.Dwarf.Extractor.Die.{Pyelftools}
use etiss_xvalid.Dwarf.Extractor.Binary.{ElfFile}
use etiss_xvalid.Pipeline.Step.{World, Step}

-- What the pipeline uses of code that is elsewhere: pyelftools, with the reading of a file's entries
-- and the number of nested calls that the interpreter allows, and the running of a process, which
-- changes the files and exits, with status zero or another; none is a process that never exits.
pub record System : Type 0 where
  pub tools : Pyelftools
  pub limit : ℕ
  pub open_binary : Text → Result ElfFile
  pub run_process : (command : List Text) → World → Option (Bool × World)

abbrev executable : (etiss_path bare_metal_etiss : Text) → Text
executable etiss_path bare_metal_etiss = etiss_path ++ b'/' ∷ bare_metal_etiss

-- The command is the same for both binaries.
unfoldable pub simulator_command :
    (etiss_path bare_metal_etiss ini_file : Text) (fault : Bool) → List Text
simulator_command etiss_path bare_metal_etiss ini_file true =
    executable etiss_path bare_metal_etiss
    ∷ (codes "-i" ++ ini_file)
    ∷ codes "-p"
    ∷ codes "ISAExtensionValidator"
    ∷ codes "--jit.gcc.cleanup"
    ∷ codes "true"
    ∷ []
simulator_command etiss_path bare_metal_etiss ini_file false =
    executable etiss_path bare_metal_etiss
    ∷ (codes "-i" ++ ini_file)
    ∷ codes "-p"
    ∷ codes "ISAExtensionValidator"
    ∷ codes "--jit.gcc.cleanup"
    ∷ codes "true"
    ∷ []

-- A process that fails, and one that is not found, raise the same. `subprocess.run` has no timeout:
-- where the process never exits, the call never returns.
abbrev pub exit : World → Option (Bool × World) → Run (Unit {0}) × World
exit w none = (out_of_fuel, w)
exit w (some (true, after)) = (done tt, after)
exit w (some (false, after)) = (raised other_exception, after)

unfoldable pub run_etiss_simulation :
    System → (etiss_path bare_metal_etiss ini_file : Text) (fault : Bool) → Step (Unit {0})
unfolding simulator_command
run_etiss_simulation sys etiss_path bare_metal_etiss ini_file fault w =
    exit w (sys.run_process (simulator_command etiss_path bare_metal_etiss ini_file fault) w)
