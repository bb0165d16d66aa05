-- ===== src/Verification/Stage/Counters.antt =====
-- The counters and the summary of py_etiss_xvalid/verification_stage.py and __main__.py.
use etiss_xvalid.Base.{
  ℕ, ◌+◌, ◌≡◌, refl, ap, ap₂, ◌∙◌, Bool, true, false, List, [], ◌∷◌, ◌++◌, ◌==◌, ==_iff, ◌≤◌, subst,
  arith, length, Bool-cases, inl, inr, if◌then◌else◌, sym, length-append,
}
use etiss_xvalid.Base.Result.{ok, >>=-eq-ok}
use etiss_xvalid.Simulation.Entry.{SimulationDataEntry}
use etiss_xvalid.Verification.Report.{VerificationEntry}
use etiss_xvalid.Verification.Stage.{
  VerificationStage, new_stage, verification_entry, record_entry, compare_entries, reported,
  output_verification_entries, compare_call, compare_calls, run_stage, Summary, summary,
  verify_entries,
}

-- the entries that failed
abbrev failing : List VerificationEntry → List VerificationEntry
failing vs = reported false vs

-- The counters count the entries that the stage has kept.
abbrev pub IsCounted : VerificationStage → Type 0
IsCounted s =
    (s.entries_compared_counter ≡ length s.verification_entries)
    × (s.entries_with_failures_counter ≡ length (reported false s.verification_entries))

length-reported :
    (vs : List VerificationEntry) (v : VerificationEntry)
    → length (reported false (vs ++ v ∷ []))
      ≡ length (reported false vs) + (if v.contains_failures then 1 else 0)
unfolding reported
length-reported [] v = ground arith
length-reported (w ∷ vs) v = ground (arith, length-reported vs v)

-- What comparing `n` pairs of entries does to a stage.
abbrev pub Counts : ℕ → VerificationStage → VerificationStage → Type 0
Counts n s s' =
    IsCounted s'
    × (s'.entries_compared_counter ≡ s.entries_compared_counter + n)
    × (s'.verbose ≡ s.verbose)

record_entry-Counts :
    (s : VerificationStage) (v : VerificationEntry) → IsCounted s → Counts 1 s (record_entry s v)
unfolding record_entry
record_entry-Counts s v (c, f) = (
  (
    ground (arith, length-append s.verification_entries (v ∷ [])),
    ground (arith, length-reported s.verification_entries v),
  ),
  refl,
  refl,
)

ok-stage : {s s' : VerificationStage} → ok s ≡ ok s' → s ≡ s'
ok-stage h = cc

ok-summary : {s s' : Summary} → ok s ≡ ok s' → s ≡ s'
ok-summary h = cc

compare_entries-Counts :
    (s : VerificationStage) (gr uv : SimulationDataEntry) (s' : VerificationStage)
    → IsCounted s
    → compare_entries s gr uv ≡ ok s'
    → Counts 1 s s'
unfolding compare_entries
compare_entries-Counts s gr uv s' counted h =
    let (v, p, q) = >>=-eq-ok (verification_entry gr uv) _ h in
    subst (Counts 1 s) (ok-stage q) (record_entry-Counts s v counted)

Counts-trans :
    (m n : ℕ) (s t u : VerificationStage) → Counts m s t → Counts n t u → Counts (m + n) s u
Counts-trans m n s t u (a, b, c) (a', b', c') = (a', omega arith, c' ∙ c)

compare_call-Counts :
    (s : VerificationStage) (grs uvs : List SimulationDataEntry) (s' : VerificationStage)
    → length uvs ≡ length grs
    → IsCounted s
    → compare_call s grs uvs ≡ ok s'
    → Counts (length grs) s s'
unfolding compare_call
compare_call-Counts s [] uvs s' l counted h =
    subst (Counts 0 s) (ok-stage h) (counted, omega arith, refl)
compare_call-Counts s (gr ∷ grs) [] s' l counted h = absurd (omega arith)
compare_call-Counts s (gr ∷ grs) (uv ∷ uvs) s' l counted h =
    let (t, p, q) = >>=-eq-ok (compare_entries s gr uv) _ h in
    let one = compare_entries-Counts s gr uv t counted p in
    let rest = compare_call-Counts t grs uvs s' (omega arith) one.0 q in
    subst (λ n. Counts n s s') (omega arith) (Counts-trans 1 (length grs) s t s' one rest)

-- the number of entries in all calls together
abbrev pub number_of_entries : List (List SimulationDataEntry) → ℕ
number_of_entries [] = 0
number_of_entries (c ∷ cs) = length c + number_of_entries cs

-- The calls of both traces have the same numbers of entries.
abbrev pub SameShape : List (List SimulationDataEntry) → List (List SimulationDataEntry) → Type 0
SameShape [] [] = Unit
SameShape (c ∷ cs) (d ∷ ds) = (length d ≡ length c) × SameShape cs ds
SameShape _ _ = ⊥

compare_calls-Counts :
    (s : VerificationStage) (gr uv : List (List SimulationDataEntry)) (s' : VerificationStage)
    → length gr ≡ length uv
    → IsCounted s
    → compare_calls s gr uv ≡ ok s'
    → Counts (number_of_entries gr) s s' × SameShape gr uv
unfolding compare_calls
compare_calls-Counts s [] [] s' l counted h =
    (subst (Counts 0 s) (ok-stage h) (counted, omega arith, refl), tt)
compare_calls-Counts s [] (uv ∷ uvs) s' l counted h = absurd (omega arith)
compare_calls-Counts s (gr ∷ grs) [] s' l counted h = absurd (omega arith)
compare_calls-Counts s (gr ∷ grs) (uv ∷ uvs) s' l counted h =
    elim (Bool-cases (length uv == length gr)) [
      | inr f ↦ absurd (cc (rw f at h))
      | inl e ↦
          let same = (==_iff (length uv) (length gr)).0 e in
          let (t, p, q) = >>=-eq-ok (compare_call s gr uv) _ (rw e at h) in
          let call = compare_call-Counts s gr uv t same counted p in
          let (rest, shape) = compare_calls-Counts t grs uvs s' (omega arith) call.0 q in
          (Counts-trans (length gr) (number_of_entries grs) s t s' call rest, (same, shape))
    ]

reported_all : (vs : List VerificationEntry) → reported true vs ≡ vs
unfolding reported
reported_all [] = refl
reported_all (v ∷ vs) = ap (λ l. v ∷ l) (reported_all vs)

length-reported_le : (vs : List VerificationEntry) → length (reported false vs) ≤ length vs
unfolding reported
length-reported_le [] = omega arith
length-reported_le (v ∷ vs) = ground (arith, length-reported_le vs)

length-output :
    (s : VerificationStage)
    → IsCounted s
    → length (output_verification_entries s)
      ≡ (if s.verbose then s.entries_compared_counter else s.entries_with_failures_counter)
unfolding output_verification_entries
length-output s (c, f) = go s.verbose
  where
    go :
        (b : Bool)
        → length (reported b s.verification_entries)
          ≡ (if b then s.entries_compared_counter else s.entries_with_failures_counter)
    go true = ap length (reported_all s.verification_entries) ∙ sym c
    go false = sym f

-- What the summary says of `n` verified entries.
abbrev pub SummaryAddsUp : Bool → ℕ → Summary → Type 0
SummaryAddsUp verbose n r =
    (r.total ≡ n)
    × (r.passed_verification + r.failed_verification ≡ n)
    × (length r.output ≡ (if verbose then n else r.failed_verification))

summary-SummaryAddsUp :
    (verbose : Bool) (n : ℕ) (s : VerificationStage)
    → Counts n (new_stage verbose) s
    → SummaryAddsUp verbose n (summary s)
unfolding summary
summary-SummaryAddsUp verbose n s (counted, k, b) =
    let k' : s.entries_compared_counter ≡ n = omega arith in
    (
      omega arith,
      omega (arith, counted.0, counted.1, length-reported_le s.verification_entries),
      length-output s counted ∙ ap₂ (λ c m. if c then m else s.entries_with_failures_counter) b k',
    )

-- Where the verification of two collections returns a summary, the calls in both have the same
-- numbers of entries, the summary's total is the number of entries, those that passed and those
-- that failed add up to it, and the report shows every entry, or without `--verbose` as many as
-- failed.
pub verify_entries-SummaryAddsUp :
    (verbose : Bool) (gr uv : List (List SimulationDataEntry)) (r : Summary)
    → verify_entries verbose gr uv ≡ ok r
    → SameShape gr uv × SummaryAddsUp verbose (number_of_entries gr) r
unfolding verify_entries run_stage
verify_entries-SummaryAddsUp verbose gr uv r h = elim (Bool-cases (length gr == length uv)) [
  | inr f ↦ absurd (cc (rw f at h))
  | inl e ↦
      let (s, p, q) = >>=-eq-ok (compare_calls (new_stage verbose) gr uv) _ (rw e at h) in
      let same = (==_iff (length gr) (length uv)).0 e in
      let (counts, shape) = compare_calls-Counts (new_stage verbose) gr uv s same (refl, refl) p in
      (
        shape,
        subst (SummaryAddsUp verbose (number_of_entries gr)) (ok-summary q)
            (summary-SummaryAddsUp verbose (number_of_entries gr) s counts),
      )
]
