-- ===== src/Verification/Agreement.antt =====
-- When py_etiss_xvalid/verification_stage.py passes an entry: what has to agree in two entries.
pub mod Counting
pub mod Collections
use etiss_xvalid.Base.{
  ◌≡◌, ◌↔◌, refl, sym, ap, ◌∙◌, Bool, true, false, ◌||◌, ◌⊎◌, inl, inr, some, none, Option, [], ◌∷◌,
  ◌==◌, length, Bool-cases, if◌then◌else◌,
}
use etiss_xvalid.Base.Dict.{Dict}
use etiss_xvalid.Base.Result.{Result, ok, err, ◌>>=◌, >>=-eq-ok, ok-injective}
use etiss_xvalid.Dwarf.Types.{DwarfType, missing}
use etiss_xvalid.Dwarf.Info.{DwarfInfo}
use etiss_xvalid.Simulation.Entry.{AccessState, SimulationDataEntry}
use etiss_xvalid.Simulation.Readings.{get_last_writes_to_global_var_locations}
use etiss_xvalid.March.Value.{ReturnValue, return_value_eq, is_none}
use etiss_xvalid.March.Machine.{return_type}
use etiss_xvalid.Verification.Report.{
  VerificationEntry, section, failed_verdict, no_dwarf_info, add_global_vars_verification_result,
  add_return_value_verification_result,
}
use etiss_xvalid.Verification.Compare.{Comparison, compare_global_variable_values}
use etiss_xvalid.Verification.Compare.Globals.{
  Passes, SameGlobals, compare_global_variable_values-Passes,
}
use etiss_xvalid.Verification.ReturnValue.{
  fetch_return_value, compare_values, is_missing, compare_of_type, compare_return_values,
}
use etiss_xvalid.Verification.Stage.{with_results, verification_entry}

-- Two return values that are equal, or of which one is `None`.
abbrev pub SameValue : ReturnValue → ReturnValue → Type 0
SameValue v w = (is_none v ≡ true) ⊎ (is_none w ≡ true) ⊎ (return_value_eq v w ≡ true)

-- Both entries give a return value of the type, and they are the same; of void there is none.
abbrev pub AgreesOfType : DwarfType → SimulationDataEntry → SimulationDataEntry → Type 0
AgreesOfType missing gr uv = Unit
AgreesOfType t gr uv =
    (v : ReturnValue) × (w : ReturnValue) × (fetch_return_value gr t ≡ ok v)
    × (fetch_return_value uv t ≡ ok w)
    × SameValue v w

-- Both have debug information, and the return values agree as the golden reference's type says.
abbrev pub SameReturn : SimulationDataEntry → SimulationDataEntry → Type 0
SameReturn gr uv =
    (t : DwarfType) × (return_type gr ≡ ok t)
    × (is_missing gr.dwarf_info ≡ false)
    × (is_missing uv.dwarf_info ≡ false)
    × AgreesOfType t gr uv

-- The last writes to global variables can be read of both, and agree.
abbrev pub SameWrites : SimulationDataEntry → SimulationDataEntry → Type 0
SameWrites gr uv =
    (g : Dict AccessState) × (u : Dict AccessState) × (get_last_writes_to_global_var_locations gr
      ≡ ok g)
    × (get_last_writes_to_global_var_locations uv ≡ ok u)
    × SameGlobals (length g == length u) g u

abbrev pub Agrees : SimulationDataEntry → SimulationDataEntry → Type 0
Agrees gr uv = SameWrites gr uv × SameReturn gr uv

none_same :
    (v w : ReturnValue)
    → is_none v ≡ false
    → is_none w ≡ false
    → return_value_eq v w ≡ false
    → ¬ SameValue v w
none_same v w a b c (inl p) = cc
none_same v w a b c (inr (inl p)) = cc
none_same v w a b c (inr (inr p)) = cc

compare_values-Passes :
    (v w : ReturnValue) (t : DwarfType) → Passes (ok (compare_values v w t)) ↔ SameValue v w
unfolding compare_values
compare_values-Passes v w t = elim (Bool-cases (is_none v)) [
  | inl a ↦ (λ h. inl a, λ h. rw a (_, refl))
  | inr a ↦ elim (Bool-cases (is_none w)) [
    | inl b ↦ (λ h. inr (inl b), λ h. rw (a, b) (_, refl))
    | inr b ↦ elim (Bool-cases (return_value_eq v w)) [
      | inl c ↦ (λ h. inr (inr c), λ h. rw (a, b, c) (_, refl))
      | inr c ↦ (λ (r, h). absurd (cc (rw (a, b, c) at h)), λ h. absurd (none_same v w a b c h))
    ]
  ]
]

compare_of_type-Passes :
    (t : DwarfType) (gr uv : SimulationDataEntry)
    → Passes (compare_of_type t gr uv) ↔ AgreesOfType t gr uv
unfolding compare_of_type
compare_of_type-Passes missing gr uv = (λ h. tt, λ h. (_, refl))
compare_of_type-Passes t gr uv = (
  λ (r, h).
      let (v, p, q) = >>=-eq-ok (fetch_return_value gr t) _ h in
      let (w, p', q') = >>=-eq-ok (fetch_return_value uv t) _ q in
      (v, w, p, p', (compare_values-Passes v w t).0 (r, q')),
  λ (v, w, p, p', same). rw (p, p') ((compare_values-Passes v w t).1 same),
)

compare_return_values-Passes :
    (gr uv : SimulationDataEntry) → Passes (compare_return_values gr uv) ↔ SameReturn gr uv
unfolding compare_return_values
compare_return_values-Passes gr uv = (
  λ (r, h).
      let (t, p, q) = >>=-eq-ok (return_type gr) _ h in
      elim (Bool-cases (is_missing gr.dwarf_info)) [
        | inl a ↦ absurd (cc (rw a at q))
        | inr a ↦ elim (Bool-cases (is_missing uv.dwarf_info)) [
          | inl b ↦ absurd (cc (rw (a, b) at q))
          | inr b ↦ (t, p, a, b, (compare_of_type-Passes t gr uv).0 (r, rw (a, b) at q))
        ]
      ],
  λ (t, p, a, b, same). rw (p, a, b) ((compare_of_type-Passes t gr uv).1 same),
)

with_results-failures :
    (gr : SimulationDataEntry) (globals value : Comparison)
    → ((with_results gr globals value).contains_failures ≡ false)
      ↔ ((globals.1 ≡ false) × (value.1 ≡ false))
unfolding with_results add_global_vars_verification_result add_return_value_verification_result
with_results-failures gr (g, true) (v, true) = (λ h. cc, λ h. cc)
with_results-failures gr (g, true) (v, false) = (λ h. cc, λ h. cc)
with_results-failures gr (g, false) (v, true) = (λ h. cc, λ h. cc)
with_results-failures gr (g, false) (v, false) = (λ h. (refl, refl), λ h. refl)

passes : {m : Result Comparison} (c : Comparison) → m ≡ ok c → c.1 ≡ false → Passes m
passes (r, b) h clean = (r, h ∙ ap (λ x. ok (r, x)) clean)

-- An entry that is compared and has no failures.
abbrev pub IsPassed : Result VerificationEntry → Type 0
IsPassed m = (v : VerificationEntry) × (m ≡ ok v) × (v.contains_failures ≡ false)

pub verification_entry-IsPassed :
    (gr uv : SimulationDataEntry) → IsPassed (verification_entry gr uv) ↔ Agrees gr uv
unfolding verification_entry
verification_entry-IsPassed gr uv = (
  λ (v, h, clean).
      let (g, g_read, h2) = >>=-eq-ok (get_last_writes_to_global_var_locations gr) _ h in
      let (u, u_read, h3) = >>=-eq-ok (get_last_writes_to_global_var_locations uv) _ h2 in
      let (c, c_compared, h4) = >>=-eq-ok (compare_global_variable_values g u) _ h3 in
      let (d, d_compared, h5) = >>=-eq-ok (compare_return_values gr uv) _ h4 in
      let (x, y) =
        (with_results-failures gr c d).0
          (ap (λ e. e.contains_failures) (ok-injective h5) ∙ clean) in
      (
        (
          g,
          u,
          g_read,
          u_read,
          (compare_global_variable_values-Passes g u).0 (passes c c_compared x),
        ),
        (compare_return_values-Passes gr uv).0 (passes d d_compared y),
      ),
  λ ((g, u, g_read, u_read, globals), value).
      let (c, x) = (compare_global_variable_values-Passes g u).1 globals in
      let (d, y) = (compare_return_values-Passes gr uv).1 value in
      rw (g_read, u_read, x, y)
        (_, refl, (with_results-failures gr (c, false) (d, false)).1 (refl, refl)),
)
