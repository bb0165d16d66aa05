-- ===== src/Verification/ReturnValue/LongLong.antt =====
-- The comparison of a returned `long long`, of py_etiss_xvalid/verification_stage.py.
use etiss_xvalid.Base.{
  ◌+◌, ◌*◌, ◌^◌, ◌<◌, ◌≡◌, ◌↔◌, refl, Bool, true, false, some, arith, if◌then◌else◌, ltb, [], ◌∷◌,
}
use etiss_xvalid.Base.Text.{codes, text_eq}
use etiss_xvalid.Base.Float.{PyFloat, decode_double, float_eq}
use etiss_xvalid.Base.Float.Equality.{IsNanPattern, float_eq-decode_double}
use etiss_xvalid.Base.Result.{ok}
use etiss_xvalid.Dwarf.Types.{DwarfType, base}
use etiss_xvalid.Dwarf.Mapper.{get_mapping_for_dwarf_base_type}
use etiss_xvalid.Base.Dict.{lookup}
use etiss_xvalid.Verification.Report.{passed, failed_verdict, section, return_value_mismatch}
use etiss_xvalid.Dwarf.Info.{DwarfInfo}
use etiss_xvalid.Simulation.Entry.{EpilogueState, SimulationDataEntry}
use etiss_xvalid.March.Value.{float_value, scalar, scalar_eq, return_value_eq}
use etiss_xvalid.March.Machine.{
  March, get_march_with_name, fetch_epilogue_state, return_type,
  form_64_bit_value_from_regs_a0_and_a1, fetch_long_long_return_value,
}
use etiss_xvalid.Verification.Compare.{Comparison}
use etiss_xvalid.Verification.ReturnValue.{
  fetch_base_value, fetch_typed_value, fetch_return_value, compare_values, compare_return_values,
}

abbrev pub long_long : DwarfType
long_long = base (codes "long long int") 8

compare_float-failed :
    (f : PyFloat)
    → ((compare_values (scalar (float_value f)) (scalar (float_value f)) long_long).1 ≡ true)
      ↔ (float_eq f f ≡ false)
unfolding compare_values return_value_eq scalar_eq
compare_float-failed f = go (float_eq f f)
  where
    go :
        (b : Bool)
        → ((if◌then◌else◌ {A = Comparison} b
              (section passed ∷ [], false)
              (
                section failed_verdict
                    ∷ return_value_mismatch (scalar (float_value f)) (scalar (float_value f))
                    ∷ [],
                true,
              )).1
            ≡ true)
          ↔ (b ≡ false)
    go true = (λ h. absurd cc, λ h. absurd cc)
    go false = (λ _. refl, λ _. refl)

↔-trans : {A B C : Type 0} → (A ↔ B) → (B ↔ C) → A ↔ C
↔-trans f g = (λ a. g.0 (f.0 a), λ c. f.1 (g.1 c))

module _ (m : March) (e : SimulationDataEntry) (d : DwarfInfo) (s : EpilogueState)
    (has_dwarf_info : e.dwarf_info ≡ some d)
    (is_supported : get_march_with_name d.compilation_unit.march ≡ some m)
    (returns : fetch_epilogue_state m e.epilogue ≡ some s) (a0_lt : s.a0 < 2 ^ 32)
    (a1_lt : s.a1 < 2 ^ 32) where
  form_64_bit_value :
      form_64_bit_value_from_regs_a0_and_a1 m e
      ≡ ok (float_value (decode_double (s.a1 * 2 ^ 32 + s.a0)))
  unfolding form_64_bit_value_from_regs_a0_and_a1
  form_64_bit_value =
      let fits : ltb (s.a1 * 2 ^ 32 + s.a0) (2 ^ 64) ≡ true = ground arith in
      rw (form_64_bit_value_from_regs_a0_and_a1, returns, fits) refl

  fetch_long_long :
      fetch_return_value e long_long
      ≡ ok (scalar (float_value (decode_double (s.a1 * 2 ^ 32 + s.a0))))
  unfolding fetch_return_value fetch_typed_value fetch_base_value get_mapping_for_dwarf_base_type
      text_eq lookup fetch_long_long_return_value
  fetch_long_long = simp (fetch_return_value, has_dwarf_info, is_supported, form_64_bit_value) refl

  -- Of an entry on a supported architecture with its debug information and return instruction,
  -- whose registers a0 and a1 are 32 bits wide and whose function returns a `long long`, the
  -- comparison with itself gives a result, and it fails exactly where the returned bits are those
  -- of a NaN: where they are more than 2^63 - 2^52 and less than 2^63, or more than 2^64 - 2^52,
  -- which is every value from -(2^52 - 1) to -1.
  pub compare_long_long_with_itself :
      return_type e ≡ ok long_long
      → (r : Comparison) × (compare_return_values e e ≡ ok r)
        × ((r.1 ≡ true) ↔ IsNanPattern (s.a1 * 2 ^ 32 + s.a0))
  unfolding compare_return_values
  compare_long_long_with_itself h =
      let n = s.a1 * 2 ^ 32 + s.a0 in
      let v = scalar (float_value (decode_double n)) in
      (
        compare_values v v long_long,
        simp (h, has_dwarf_info, fetch_long_long) refl,
        ↔-trans (compare_float-failed (decode_double n)) (float_eq-decode_double n (omega arith)),
      )
