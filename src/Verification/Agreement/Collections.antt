-- ===== src/Verification/Agreement/Collections.antt =====
-- When `verify_entries` of py_etiss_xvalid/__main__.py counts no failure, over the two loops.
use etiss_xvalid.Base.{
  ◌≡◌, ◌↔◌, refl, ap, ◌∙◌, Bool, true, inl, inr, List, [], ◌∷◌, ◌==◌, ==_iff, arith, length,
  Bool-cases, if◌then◌else◌,
}
use etiss_xvalid.Base.Result.{
  Result, ok, err, ◌>>=◌, >>=-eq-ok, ok-injective, verification_process_exception,
}
use etiss_xvalid.Simulation.Entry.{SimulationDataEntry}
use etiss_xvalid.Verification.Stage.{
  VerificationStage, new_stage, compare_entries, compare_call, compare_calls, run_stage, Summary,
  summary, verify_entries,
}
use etiss_xvalid.Verification.Agreement.Counting.{
  IsClean, Grows, >>=-Grows, >>=-IsClean, compare_entries-Grows, compare_entries-IsClean,
}
use etiss_xvalid.Verification.Agreement.{Agrees}

-- The entries of two calls agree, each with the one at its place.
abbrev pub AllAgree : List SimulationDataEntry → List SimulationDataEntry → Type 0
AllAgree [] [] = Unit
AllAgree (gr ∷ grs) (uv ∷ uvs) = Agrees gr uv × AllAgree grs uvs
AllAgree _ _ = ⊥

-- So do the calls of two collections.
abbrev pub CallsAgree : List (List SimulationDataEntry) → List (List SimulationDataEntry) → Type 0
CallsAgree [] [] = Unit
CallsAgree (c ∷ cs) (d ∷ ds) = AllAgree c d × CallsAgree cs ds
CallsAgree _ _ = ⊥

AllAgree-length : (grs uvs : List SimulationDataEntry) → AllAgree grs uvs → length uvs ≡ length grs
AllAgree-length [] [] h = refl
AllAgree-length [] (uv ∷ uvs) h = absurd h
AllAgree-length (gr ∷ grs) [] h = absurd h
AllAgree-length (gr ∷ grs) (uv ∷ uvs) h = omega (arith, AllAgree-length grs uvs h.1)

CallsAgree-length :
    (gr uv : List (List SimulationDataEntry)) → CallsAgree gr uv → length gr ≡ length uv
CallsAgree-length [] [] h = refl
CallsAgree-length [] (d ∷ ds) h = absurd h
CallsAgree-length (c ∷ cs) [] h = absurd h
CallsAgree-length (c ∷ cs) (d ∷ ds) h = omega (arith, CallsAgree-length cs ds h.1)

compare_call-Grows :
    (s : VerificationStage) (grs uvs : List SimulationDataEntry) → Grows s (compare_call s grs uvs)
unfolding compare_call
compare_call-Grows s [] uvs = omega arith
compare_call-Grows s (gr ∷ grs) [] = omega arith
compare_call-Grows s (gr ∷ grs) (uv ∷ uvs) =
    >>=-Grows s (compare_entries s gr uv) _ (compare_entries-Grows s gr uv)
      (λ t. compare_call-Grows t grs uvs)

compare_call-IsClean :
    (s : VerificationStage) (grs uvs : List SimulationDataEntry)
    → length uvs ≡ length grs
    → IsClean s (compare_call s grs uvs) ↔ AllAgree grs uvs
unfolding compare_call
compare_call-IsClean s [] [] l = (λ h. tt, λ h. (s, refl, refl))
compare_call-IsClean s [] (uv ∷ uvs) l = absurd (omega arith)
compare_call-IsClean s (gr ∷ grs) [] l = absurd (omega arith)
compare_call-IsClean s (gr ∷ grs) (uv ∷ uvs) l =
    >>=-IsClean s (compare_entries s gr uv) _ (Agrees gr uv) (AllAgree grs uvs)
      (compare_entries-Grows s gr uv) (λ t. compare_call-Grows t grs uvs)
      (compare_entries-IsClean s gr uv) (λ t. compare_call-IsClean t grs uvs (omega arith))

-- A call of which both have as many entries is compared, and another one raises.
abbrev checked_call :
    VerificationStage
    → List SimulationDataEntry
    → List SimulationDataEntry
    → Result VerificationStage
checked_call s gr uv =
    if length uv == length gr then compare_call s gr uv else err verification_process_exception

checked_call-Grows :
    (s : VerificationStage) (gr uv : List SimulationDataEntry) → Grows s (checked_call s gr uv)
checked_call-Grows s gr uv = elim (Bool-cases (length uv == length gr)) [
  | inl a ↦ rw a (compare_call-Grows s gr uv)
  | inr a ↦ rw a tt
]

checked_call-IsClean :
    (s : VerificationStage) (gr uv : List SimulationDataEntry)
    → IsClean s (checked_call s gr uv) ↔ AllAgree gr uv
checked_call-IsClean s gr uv = elim (Bool-cases (length uv == length gr)) [
  | inl a ↦ rw a (compare_call-IsClean s gr uv ((==_iff (length uv) (length gr)).0 a))
  | inr a ↦ (
    λ (t, p, clean). absurd (cc (rw a at p)),
    λ h. let e = (==_iff (length uv) (length gr)).1 (AllAgree-length gr uv h) in absurd cc,
  )
]

compare_calls_step :
    (s : VerificationStage) (gr uv : List SimulationDataEntry)
    (grs uvs : List (List SimulationDataEntry))
    → compare_calls s (gr ∷ grs) (uv ∷ uvs)
      ≡ (checked_call s gr uv >>= λ t. compare_calls t grs uvs)
unfolding compare_calls
compare_calls_step s gr uv grs uvs = elim (Bool-cases (length uv == length gr)) [
  | inl a ↦ rw a refl
  | inr a ↦ rw a refl
]

compare_calls-Grows :
    (s : VerificationStage) (gr uv : List (List SimulationDataEntry))
    → Grows s (compare_calls s gr uv)
unfolding compare_calls
compare_calls-Grows s [] uv = omega arith
compare_calls-Grows s (c ∷ cs) [] = omega arith
compare_calls-Grows s (c ∷ cs) (d ∷ ds) = rw (compare_calls_step s c d cs ds) (
    >>=-Grows s (checked_call s c d) _ (checked_call-Grows s c d)
      (λ t. compare_calls-Grows t cs ds))

compare_calls-IsClean :
    (s : VerificationStage) (gr uv : List (List SimulationDataEntry))
    → length gr ≡ length uv
    → IsClean s (compare_calls s gr uv) ↔ CallsAgree gr uv
unfolding compare_calls
compare_calls-IsClean s [] [] l = (λ h. tt, λ h. (s, refl, refl))
compare_calls-IsClean s [] (d ∷ ds) l = absurd (omega arith)
compare_calls-IsClean s (c ∷ cs) [] l = absurd (omega arith)
compare_calls-IsClean s (c ∷ cs) (d ∷ ds) l = rw (compare_calls_step s c d cs ds) (
    >>=-IsClean s (checked_call s c d) _ (AllAgree c d) (CallsAgree cs ds)
      (checked_call-Grows s c d) (λ t. compare_calls-Grows t cs ds) (checked_call-IsClean s c d)
      (λ t. compare_calls-IsClean t cs ds (omega arith)))

pub verify_entries_passes :
    (verbose : Bool) (gr uv : List (List SimulationDataEntry))
    → ((r : Summary) × (verify_entries verbose gr uv ≡ ok r) × (r.failed_verification ≡ 0))
      ↔ CallsAgree gr uv
unfolding verify_entries run_stage summary
verify_entries_passes verbose gr uv = (
  λ (r, h, none_failed).
      let (s, p, q) = >>=-eq-ok (run_stage verbose gr uv) _ h in
      elim (Bool-cases (length gr == length uv)) [
        | inr a ↦ absurd (cc (rw a at p))
        | inl a ↦
            (compare_calls-IsClean (new_stage verbose) gr uv
                ((==_iff (length gr) (length uv)).0 a)).0
              (s, rw a at p, ap (λ x. x.failed_verification) (ok-injective q) ∙ none_failed)
      ],
  λ agree.
      let l = CallsAgree-length gr uv agree in
      let (t, p, clean) = (compare_calls-IsClean (new_stage verbose) gr uv l).1 agree in
      let a : (length gr == length uv) ≡ true = (==_iff (length gr) (length uv)).1 l in
      rw (a, p) (_, refl, clean),
)
