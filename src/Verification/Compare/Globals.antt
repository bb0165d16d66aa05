-- ===== src/Verification/Compare/Globals.antt =====
-- When py_etiss_xvalid/verification_stage.py passes the last writes to global variables.
use etiss_xvalid.Base.{
  ℕ, ◌≡◌, ◌↔◌, refl, sym, ap, ◌∙◌, Bool, true, false, Option, none, some, List, [], ◌∷◌, ◌++◌, ◌==◌,
  ==_iff, arith, length, Bool-cases, inl, inr, if◌then◌else◌,
}
use etiss_xvalid.Base.Text.{Text, text_eq, text_eq_iff}
use etiss_xvalid.Base.Dict.{Dict, lookup}
use etiss_xvalid.Base.Result.{ok-injective, Result, ok, ◌>>=◌, >>=-eq-ok}
use etiss_xvalid.Simulation.Entry.{AccessState}
use etiss_xvalid.Verification.Report.{Line}
use etiss_xvalid.Verification.Normalize.{normalize_variable_data}
use etiss_xvalid.Verification.Compare.{
  Comparison, data_difference, data_differences, bytes_eq, bytes_difference, bytes_differences,
  with_failures, normalized_failures, compare_normalized, compare_global_variable_values,
}

-- Each chunk that the first trace writes has the same last data in the second.
abbrev pub SameData : Dict AccessState → Dict AccessState → Type 0
SameData [] uv = Unit
SameData ((name, entry) ∷ gr) uv =
    ((a : AccessState) × (lookup name uv ≡ some a) × (entry.data_hex ≡ a.data_hex)) × SameData gr uv

-- Each variable that the first trace writes has the same bytes in the second.
abbrev pub SameBytes : Dict (List ℕ) → Dict (List ℕ) → Type 0
SameBytes [] uv = Unit
SameBytes ((name, bytes) ∷ gr) uv = (lookup name uv ≡ some bytes) × SameBytes gr uv

abbrev pub Passes : Result Comparison → Type 0
Passes m = (r : List Line) × (m ≡ ok (r, false))

data_of : Text → Option AccessState → Text
data_of d none = d
data_of d (some a) = a.data_hex

data_difference-nil :
    (name data' : Text) (o : Option AccessState)
    → (data_difference name data' o ≡ ok [])
      ↔ ((a : AccessState) × (o ≡ some a) × (data' ≡ a.data_hex))
unfolding data_of
data_difference-nil name data' none = (λ e. cc, λ (a, e, _). cc)
data_difference-nil name data' (some a) = (
  λ h. elim (Bool-cases (text_eq data' a.data_hex)) [
    | inl t ↦ (a, refl, (text_eq_iff data' a.data_hex).0 t)
    | inr f ↦ absurd (cc (rw f at h))
  ],
  λ (x, e, q).
      let t : text_eq data' a.data_hex ≡ true =
        (text_eq_iff data' a.data_hex).1 (q ∙ ap (λ o. data_of data' o) (sym e)) in
      rw t refl,
)

append-nil_inv : (xs ys : List Line) → xs ++ ys ≡ [] → (xs ≡ []) × (ys ≡ [])
append-nil_inv [] ys h = (refl, h)
append-nil_inv (x ∷ xs) ys h = absurd (cc)

-- No difference is reported exactly where the data are the same.
data_differences-nil :
    (gr uv : Dict AccessState) → (data_differences gr uv ≡ ok []) ↔ SameData gr uv
unfolding data_differences
data_differences-nil [] uv = (λ _. tt, λ _. refl)
data_differences-nil ((name, entry) ∷ gr) uv = (
  λ h.
      let (first, p, q) =
        >>=-eq-ok (data_difference name entry.data_hex (lookup name uv))
          (λ first. data_differences gr uv >>= λ rest. ok (first ++ rest)) h in
      let (rest, p', q') = >>=-eq-ok (data_differences gr uv) (λ rest. ok (first ++ rest)) q in
      let (n, n') = append-nil_inv first rest (ok-injective q') in
      (
        (data_difference-nil name entry.data_hex (lookup name uv)).0 (p ∙ ap ok n),
        (data_differences-nil gr uv).0 (p' ∙ ap ok n'),
      ),
  λ (one, all).
      rw
        (
          (data_difference-nil name entry.data_hex (lookup name uv)).1 one,
          (data_differences-nil gr uv).1 all,
        )
        refl,
)

bytes_eq_iff : (s t : List ℕ) → (bytes_eq s t ≡ true) ↔ (s ≡ t)
unfolding bytes_eq
bytes_eq_iff [] [] = (λ _. refl, λ _. refl)
bytes_eq_iff [] (b ∷ t) = (λ h. absurd cc, λ h. absurd cc)
bytes_eq_iff (a ∷ s) [] = (λ h. absurd cc, λ h. absurd cc)
bytes_eq_iff (a ∷ s) (b ∷ t) = (
  λ h. ground (arith, ==_iff a b, bytes_eq_iff s t),
  λ h. ground (arith, ==_iff a b, bytes_eq_iff s t),
)

bytes_difference-nil :
    (name : Text) (bytes : List ℕ) (o : Option (List ℕ))
    → (bytes_difference name bytes o ≡ []) ↔ (o ≡ some bytes)
bytes_difference-nil name bytes none = (λ h. absurd cc, λ h. absurd cc)
bytes_difference-nil name bytes (some uv) = (
  λ h. elim (Bool-cases (bytes_eq bytes uv)) [
    | inl t ↦ ap some (sym ((bytes_eq_iff bytes uv).0 t))
    | inr f ↦ absurd (cc (rw f at h))
  ],
  λ h. let t : bytes_eq bytes uv ≡ true = (bytes_eq_iff bytes uv).1 cc in rw t refl,
)

bytes_differences-nil : (gr uv : Dict (List ℕ)) → (bytes_differences gr uv ≡ []) ↔ SameBytes gr uv
unfolding bytes_differences
bytes_differences-nil [] uv = (λ _. tt, λ _. refl)
bytes_differences-nil ((name, bytes) ∷ gr) uv = (
  λ h.
      let (p, q) =
        append-nil_inv (bytes_difference name bytes (lookup name uv)) (bytes_differences gr uv) h in
      ((bytes_difference-nil name bytes (lookup name uv)).0 p, (bytes_differences-nil gr uv).0 q),
  λ (one, all).
      rw
        (
          (bytes_difference-nil name bytes (lookup name uv)).1 one,
          (bytes_differences-nil gr uv).1 all,
        )
        refl,
)

-- What the comparison is to find out: with the same number of chunks their data, and otherwise the
-- variables' bytes, which must then be there to compare.
abbrev pub SameGlobals : Bool → Dict AccessState → Dict AccessState → Type 0
SameGlobals true gr uv = SameData gr uv
SameGlobals false gr uv =
    (g : Dict (List ℕ)) × (u : Dict (List ℕ)) × (normalize_variable_data gr ≡ ok g)
    × (normalize_variable_data uv ≡ ok u)
    × SameBytes g u

abbrev compared : Bool → Dict AccessState → Dict AccessState → Result Comparison
compared same_number gr uv =
    if same_number
    then (data_differences gr uv >>= λ failures. ok (with_failures failures))
    else compare_normalized gr uv

with_failures-Passes : (l : List Line) → Passes (ok (with_failures l)) → l ≡ []
with_failures-Passes [] h = refl
with_failures-Passes (x ∷ l) (r, h) = absurd cc

normalized_failures-Passes : (l : List Line) → Passes (ok (normalized_failures l)) → l ≡ []
normalized_failures-Passes [] h = refl
normalized_failures-Passes (x ∷ l) (r, h) = absurd cc

compared_same_number :
    (gr uv : Dict AccessState)
    → Passes (data_differences gr uv >>= λ failures. ok (with_failures failures)) ↔ SameData gr uv
compared_same_number gr uv = (
  λ (r, h).
      let (l, p, q) =
        >>=-eq-ok (data_differences gr uv) (λ failures. ok (with_failures failures)) h in
      (data_differences-nil gr uv).0 (p ∙ ap ok (with_failures-Passes l (r, q))),
  λ same. let e = (data_differences-nil gr uv).1 same in rw e (_, refl),
)

compare_normalized-Passes :
    (gr uv : Dict AccessState)
    → Passes (compare_normalized gr uv) ↔ (
        (g : Dict (List ℕ)) × (u : Dict (List ℕ)) × (normalize_variable_data gr ≡ ok g)
        × (normalize_variable_data uv ≡ ok u)
        × SameBytes g u)
unfolding compare_normalized
compare_normalized-Passes gr uv = (
  λ (r, h).
      let (g, p, q) = >>=-eq-ok (normalize_variable_data gr) _ h in
      let (u, p', q') = >>=-eq-ok (normalize_variable_data uv) _ q in
      (
        g,
        u,
        p,
        p',
        (bytes_differences-nil g u).0 (normalized_failures-Passes (bytes_differences g u) (r, q')),
      ),
  λ (g, u, p, p', same). let e = (bytes_differences-nil g u).1 same in rw (p, p', e) (_, refl),
)

compared-Passes :
    (b : Bool) (gr uv : Dict AccessState) → Passes (compared b gr uv) ↔ SameGlobals b gr uv
compared-Passes true gr uv = compared_same_number gr uv
compared-Passes false gr uv = compare_normalized-Passes gr uv

-- The comparison of the global variables passes exactly where each chunk that the golden reference
-- wrote has the same last data in the other trace, if both traces wrote as many chunks; and
-- otherwise exactly where both can be normalised and each variable that the golden reference wrote
-- has the same bytes in the other trace.
pub compare_global_variable_values-Passes :
    (gr uv : Dict AccessState)
    → Passes (compare_global_variable_values gr uv) ↔ SameGlobals (length gr == length uv) gr uv
unfolding compare_global_variable_values
compare_global_variable_values-Passes [] [] = (λ _. tt, λ _. (_, refl))
compare_global_variable_values-Passes [] (x ∷ uv) = compared-Passes _ [] (x ∷ uv)
compare_global_variable_values-Passes (x ∷ gr) uv = compared-Passes _ (x ∷ gr) uv
