-- ===== src/Verification/Agreement/Counting.antt =====
-- The counter of failures of py_etiss_xvalid/verification_stage.py: it only grows, and comparing two
-- entries leaves it exactly where they agree.
use etiss_xvalid.Base.{ℕ, ◌≤◌, ◌≡◌, ◌↔◌, refl, ap, ◌∙◌, false, inl, inr, arith, Bool-cases}
use etiss_xvalid.Base.Result.{Result, ok, err, ◌>>=◌, >>=-eq-ok, ok-injective}
use etiss_xvalid.Simulation.Entry.{SimulationDataEntry}
use etiss_xvalid.Verification.Report.{VerificationEntry}
use etiss_xvalid.Verification.Stage.{
  VerificationStage, verification_entry, record_entry, compare_entries,
}
use etiss_xvalid.Verification.Agreement.{Agrees, verification_entry-IsPassed}

abbrev failures : VerificationStage → ℕ
failures s = s.entries_with_failures_counter

-- A computation that returns a stage with as many failures, or at least as many.
abbrev pub IsClean : VerificationStage → Result VerificationStage → Type 0
IsClean s m = (t : VerificationStage) × (m ≡ ok t) × (failures t ≡ failures s)

abbrev pub Grows : VerificationStage → Result VerificationStage → Type 0
Grows s (ok t) = failures s ≤ failures t
Grows s (err x) = Unit

Grows-le :
    (s : VerificationStage) (m : Result VerificationStage) {t : VerificationStage}
    → Grows s m
    → m ≡ ok t
    → failures s ≤ failures t
Grows-le s (ok u) g h = omega (arith, g, ap failures (ok-injective h))
Grows-le s (err x) g h = cc

pub >>=-Grows :
    (s : VerificationStage) (m : Result VerificationStage)
    (next : VerificationStage → Result VerificationStage)
    → Grows s m
    → ((t : VerificationStage) → Grows t (next t))
    → Grows s (m >>= next)
>>=-Grows s (err x) next g h = tt
>>=-Grows s (ok t) next g h = go (next t) (h t)
  where
    go : (m : Result VerificationStage) → Grows t m → Grows s m
    go (ok u) k = omega arith
    go (err x) k = tt

-- Two steps are clean together where both are.
pub >>=-IsClean :
    (s : VerificationStage) (m : Result VerificationStage)
    (next : VerificationStage → Result VerificationStage) (A B : Type 0)
    → Grows s m
    → ((t : VerificationStage) → Grows t (next t))
    → IsClean s m ↔ A
    → ((t : VerificationStage) → IsClean t (next t) ↔ B)
    → IsClean s (m >>= next) ↔ (A × B)
>>=-IsClean s m next A B g h first second = (
  λ (u, p, clean).
      let (t, q, r) = >>=-eq-ok m next p in
      let below = Grows-le s m g q in
      let above = Grows-le t (next t) (h t) r in
      (first.0 (t, q, omega arith), (second t).0 (u, r, omega arith)),
  λ (a, b).
      let (t, q, clean) = first.1 a in
      let (u, r, clean2) = (second t).1 b in rw q (u, r, clean2 ∙ clean),
)

record_entry-failures :
    (s : VerificationStage) (v : VerificationEntry)
    → (failures (record_entry s v) ≡ failures s) ↔ (v.contains_failures ≡ false)
unfolding record_entry
record_entry-failures s v = elim (Bool-cases v.contains_failures) [
  | inl a ↦ (λ h. absurd (omega (arith, rw a at h)), λ h. absurd cc)
  | inr a ↦ (λ h. a, λ h. rw a refl)
]

pub compare_entries-Grows :
    (s : VerificationStage) (gr uv : SimulationDataEntry) → Grows s (compare_entries s gr uv)
unfolding compare_entries record_entry
compare_entries-Grows s gr uv = go (verification_entry gr uv)
  where
    go : (m : Result VerificationEntry) → Grows s (m >>= λ v. ok (record_entry s v))
    go (ok v) = ground arith
    go (err x) = tt

pub compare_entries-IsClean :
    (s : VerificationStage) (gr uv : SimulationDataEntry)
    → IsClean s (compare_entries s gr uv) ↔ Agrees gr uv
unfolding compare_entries
compare_entries-IsClean s gr uv = (
  λ (t, p, clean).
      let (v, q, r) = >>=-eq-ok (verification_entry gr uv) _ p in
      (verification_entry-IsPassed gr uv).0
        (v, q, (record_entry-failures s v).0 (ap failures (ok-injective r) ∙ clean)),
  λ agrees.
      let (v, q, clean) = (verification_entry-IsPassed gr uv).1 agrees in
      rw q (record_entry s v, refl, (record_entry-failures s v).1 clean),
)
