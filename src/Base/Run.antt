-- ===== src/Base/Run.antt =====
-- A computation that may raise, or that may run out of the fuel that its loop was given; a call of a
-- process that never exits counts as one that runs out of it.
use etiss_xvalid.Base.Result.{Exn, Result, ok, err}

pub data Run {ℓ} (A : Type ℓ) : Type ℓ where
  done : A → Run A
  raised : Exn → Run A
  out_of_fuel : Run A

abbrev pub and_then {ℓ κ} : {A : Type ℓ} {B : Type κ} → Run A → (A → Run B) → Run B
and_then (done a) f = f a
and_then (raised e) f = raised e
and_then out_of_fuel f = out_of_fuel

abbrev pub of_result {ℓ} : {A : Type ℓ} → Result A → Run A
of_result (ok a) = done a
of_result (err e) = raised e
