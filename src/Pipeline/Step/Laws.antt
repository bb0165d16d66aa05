-- ===== src/Pipeline/Step/Laws.antt =====
-- What a step of the pipeline of py_etiss_xvalid/__main__.py that returns has done, and where it
-- cannot go on endlessly.
use etiss_xvalid.Base.{◌≡◌, refl}
use etiss_xvalid.Base.Result.{Exn}
use etiss_xvalid.Base.Run.{Run, done, raised, out_of_fuel}
use etiss_xvalid.Pipeline.Step.{World, Step, sequence, continue_with, renamed, or_raise}

module _ {ℓ κ} {A : Type ℓ} {B : Type κ} where
  continue_with-done :
      (r : Run A × World) (f : A → Step B) {b : B} {w' : World}
      → continue_with r f ≡ (done b, w')
      → (a : A) × (w : World) × (r ≡ (done a, w)) × (f a w ≡ (done b, w'))
  continue_with-done (done a, w) f h = (a, w, refl, h)
  continue_with-done (raised e, w) f h = cc
  continue_with-done (out_of_fuel, w) f h = cc

  -- Inversion of a sequence that returns.
  pub sequence-done :
      (m : Step A) (f : A → Step B) (w : World) {b : B} {w' : World}
      → sequence m f w ≡ (done b, w')
      → (a : A) × (v : World) × (m w ≡ (done a, v)) × (f a v ≡ (done b, w'))
  sequence-done m f w h = continue_with-done (m w) f h

renamed-done {ℓ} :
    {A : Type ℓ} (x : Exn) (r : Run A × World) {a : A} {w' : World}
    → renamed x r ≡ (done a, w')
    → r ≡ (done a, w')
renamed-done x (done a, w) h = h
renamed-done x (raised e, w) h = cc
renamed-done x (out_of_fuel, w) h = cc

pub or_raise-done {ℓ} :
    {A : Type ℓ} (x : Exn) (m : Step A) (w : World) {a : A} {w' : World}
    → or_raise x m w ≡ (done a, w')
    → m w ≡ (done a, w')
or_raise-done x m w h = renamed-done x (m w) h
