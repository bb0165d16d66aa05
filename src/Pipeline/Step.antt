-- ===== src/Pipeline/Step.antt =====
-- A step of the pipeline of py_etiss_xvalid/__main__.py: it changes the files that the program and the
-- simulator share, and returns or raises, or never ends. Writing and removing a file succeeds.
pub mod Laws
use etiss_xvalid.Base.{ℕ, Option, none, some, List}
use etiss_xvalid.Base.Text.{Text}
use etiss_xvalid.Base.Result.{Exn, Result, ok, err}
use etiss_xvalid.Base.Run.{Run, done, raised, out_of_fuel, of_result}

-- the files of the working directory: pcs.tmp, with the addresses of the function of interest, and
-- the trace that the simulator's plugin writes
pub record World : Type 0 where
  pub pcs_tmp : Option Text
  pub trace_bin : Option (List ℕ)

abbrev pub Step {ℓ} : Type ℓ → Type ℓ
Step A = World → Run A × World

-- what follows a run that is over
abbrev pub continue_with {ℓ κ} :
    {A : Type ℓ} {B : Type κ} → Run A × World → (A → Step B) → Run B × World
continue_with (done a, w) f = f a w
continue_with (raised e, w) f = (raised e, w)
continue_with (out_of_fuel, w) f = (out_of_fuel, w)

-- one step, and what follows it
abbrev pub sequence {ℓ κ} : {A : Type ℓ} {B : Type κ} → Step A → (A → Step B) → Step B
sequence m f w = continue_with (m w) f

abbrev pub pure {ℓ} : {A : Type ℓ} → A → Step A
pure a w = (done a, w)

-- a computation that leaves the files alone
abbrev pub lift {ℓ} : {A : Type ℓ} → Run A → Step A
lift r w = (r, w)

abbrev pub change : (World → World) → Step (Unit {0})
change f w = (done tt, f w)

-- `except Exception as e: raise X(e)`
abbrev pub renamed {ℓ} : {A : Type ℓ} → Exn → Run A × World → Run A × World
renamed x (done a, w) = (done a, w)
renamed x (raised e, w) = (raised x, w)
renamed x (out_of_fuel, w) = (out_of_fuel, w)

abbrev pub or_raise {ℓ} : {A : Type ℓ} → Exn → Step A → Step A
or_raise x m w = renamed x (m w)
