-- ===== src/Base/Decimal/Injective.antt =====
-- Different numbers have different decimal digits.
use Prim.Native.Nat.{ℕ, zero, suc, ◌+◌, ◌-◌, ◌*◌, ◌/◌, ◌%◌}
use mathlib.Core.Path.{◌≡◌, refl, sym, ap, ◌∙◌}
use mathlib.Core.Bool.{Bool, true, false}
use mathlib.Core.List.{[], ◌∷◌, ◌++◌}
use native.Mathlib.Omega.{arith}
use etiss_xvalid.Base.Tests.{ltb, if◌then◌else◌}
use etiss_xvalid.Base.Text.{Text}
use etiss_xvalid.Base.Decimal.{digits_loop, str_of}

-- the number that digits stand for, behind those of `m`
abbrev value_behind : (m : ℕ) → Text → ℕ
value_behind m [] = m
value_behind m (c ∷ s) = value_behind (m * 10 + (c - 48)) s

value_behind-append :
    (m : ℕ) (s : Text) (c : ℕ) → value_behind m (s ++ c ∷ []) ≡ value_behind m s * 10 + (c - 48)
value_behind-append m [] c = refl
value_behind-append m (d ∷ s) c = value_behind-append (m * 10 + (d - 48)) s c

value-digits_loop : (fuel n : ℕ) → value_behind 0 (digits_loop fuel n) ≡ n
unfolding digits_loop
value-digits_loop zero n = omega arith
value-digits_loop (suc fuel) n =
    let shorter = value-digits_loop fuel (n / 10) in
    let longer = value_behind-append 0 (digits_loop fuel (n / 10)) (48 + n % 10) in
    digit_cases (ltb 9 n) (rw shorter at longer ∙ omega arith)
  where
    digit_cases :
        (b : Bool)
        → value_behind 0 (digits_loop fuel (n / 10) ++ (48 + n % 10) ∷ []) ≡ n
        → value_behind 0
            (if b then digits_loop fuel (n / 10) ++ (48 + n % 10) ∷ [] else (48 + n) ∷ [])
          ≡ n
    digit_cases true h = h
    digit_cases false h = omega arith

pub str_of-injective : (n m : ℕ) → str_of n ≡ str_of m → n ≡ m
unfolding str_of
str_of-injective n m h = sym (value-digits_loop n n) ∙ ap (value_behind 0) h ∙ value-digits_loop m m
