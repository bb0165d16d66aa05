-- ===== src/March/BaseClass/Overridden.antt =====
-- Where `fetch_struct_return_value` of py_etiss_xvalid/entity/march/rv32.py gives what the method of
-- rv32imafdc_zicsr_zifencei.py gives, which overrides it.
use etiss_xvalid.Base.{
  ℕ, sym, ◌∙◌, ◌≤◌, ◌≡◌, refl, true, List, [], ◌∷◌, ◌++◌, ◌==◌, arith, length, All, Bool-cases, inl,
  inr, if◌then◌else◌,
}
use etiss_xvalid.Base.Result.{Result, ok, err, ◌>>=◌, >>=-congruent, >>=-assoc}
use etiss_xvalid.Layout.{ReturnRegisterLayout, get_float_size}
use etiss_xvalid.Simulation.Entry.{EpilogueState, SimulationDataEntry}
use etiss_xvalid.March.Value.{Scalar}
use etiss_xvalid.March.Machine.{
  Register, rv32imafdc, fetch_float_return_value, fetch_double_return_value,
}
use etiss_xvalid.March.StructValue.{FreeRegisters, Fetched, fetch_hard, fetch_layout, fetch_layouts}
use etiss_xvalid.March.BaseClass.{get_register, base_layouts}

abbrev AreFloats : List ReturnRegisterLayout → Type 0
AreFloats = All (λ r. r.is_float ≡ true)

abbrev nothing_with : FreeRegisters → Result Fetched
nothing_with free = ok ([], free)

abbrev one_with : FreeRegisters → Scalar → Result Fetched
one_with free x = ok (x ∷ [], free)

abbrev go_on : (FreeRegisters → Result (List Scalar)) → Fetched → Result (List Scalar)
go_on others (values, free) = others free >>= λ rest. ok (values ++ rest)

-- The rest of the loop comes after the value either way.
after_value :
    (v : Result Scalar) (free : FreeRegisters) (others : FreeRegisters → Result (List Scalar))
    → ((v >>= λ x. ok (x ∷ [])) >>= λ values. others free >>= λ rest. ok (values ++ rest))
      ≡ ((v >>= one_with free) >>= go_on others)
after_value (ok x) free others = refl
after_value (err x) free others = refl

sized :
    (size : ℕ) (float double : Result Scalar) (free : FreeRegisters)
    (others : FreeRegisters → Result (List Scalar))
    → ((if size == 4
          then (float >>= λ x. ok (x ∷ []))
          else if size == 8
          then (double >>= λ x. ok (x ∷ []))
          else ok [])
        >>= λ values. others free >>= λ rest. ok (values ++ rest))
      ≡ ((if size == 4
            then (float >>= one_with free)
            else if size == 8
            then (double >>= one_with free)
            else nothing_with free)
          >>= go_on others)
sized size float double free others = elim (Bool-cases (size == 4)) [
  | inl a ↦ rw a (after_value float free others)
  | inr a ↦ elim (Bool-cases (size == 8)) [
    | inl b ↦ rw (a, b) (after_value double free others)
    | inr b ↦ rw (a, b) refl
  ]
]

module _ (e : SimulationDataEntry) (s : EpilogueState) where
  base_layouts-floats :
      (regs : List ReturnRegisterLayout) (ints floats : List Register)
      → AreFloats regs
      → length regs ≤ length floats
      → base_layouts rv32imafdc e regs (record { arg_regs = ints; farg_regs = floats })
        ≡ fetch_layouts rv32imafdc e s regs (record { arg_regs = ints; farg_regs = floats })
  unfolding base_layouts fetch_layouts get_register fetch_layout fetch_hard
  base_layouts-floats [] ints floats f l = refl
  base_layouts-floats (r ∷ rs) ints [] f l = absurd (omega arith)
  base_layouts-floats (r ∷ rs) ints (reg ∷ floats) (is, f) l =
      let rest = base_layouts-floats rs ints floats f (omega arith) in
      rw (is, rest)
        (>>=-congruent (get_float_size r) _ _ (λ size got.
            sized size (fetch_float_return_value rv32imafdc e reg)
              (fetch_double_return_value rv32imafdc e reg)
              (record { arg_regs = ints; farg_regs = floats }) (fetch_layouts rv32imafdc e s rs))
          ∙ sym (>>=-assoc (get_float_size r) _ _))
