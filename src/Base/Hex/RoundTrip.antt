-- ===== src/Base/Hex/RoundTrip.antt =====
-- `int(hex(n)[2:], 16)` is `n`, and the length of `hex(n)[2:]`.
use Prim.Native.Nat.{ℕ, zero, suc, ◌+◌, ◌-◌, ◌*◌, ◌/◌, ◌%◌, ◌^◌, ◌≤◌, ◌<◌}
use mathlib.Core.Path.{◌≡◌, refl, ap, ◌∙◌}
use mathlib.Core.Logic.{inl, inr, ◌≢◌}
use mathlib.Core.List.{[], ◌∷◌, ◌++◌}
use mathlib.Core.Option.{some}
use native.Mathlib.Omega.{arith}
use native.Mathlib.Nat.{pow-suc}
use etiss_xvalid.Base.Tests.{ltb, ltb→lt, Bool-cases}
use etiss_xvalid.Base.Lists.{length, length-append, replicate, length-replicate}
use etiss_xvalid.Base.Text.{Text}
use etiss_xvalid.Base.Result.{ok, >>=-eq-ok}
use etiss_xvalid.Base.Hex.{
  hex_digit, hex_loop, hex, hex_08, digit_value, int_step, int_loop, int_16,
}

value-digit : (d : ℕ) → d < 16 → digit_value (hex_digit d) ≡ some d
unfolding digit_value hex_digit
value-digit d h = ground arith

int_loop-append :
    (acc d : ℕ) (s : Text) (n : ℕ)
    → d < 16
    → int_loop acc s ≡ ok n
    → int_loop acc (s ++ hex_digit d ∷ []) ≡ ok (n * 16 + d)
unfolding int_loop
int_loop-append acc d [] n h e = rw (value-digit d h) (ground arith)
int_loop-append acc d (c ∷ s) n h e =
    let (acc', q, r) = >>=-eq-ok (int_step acc (digit_value c)) (λ acc'. int_loop acc' s) e in
    rw q (int_loop-append acc' d s n h r)

int_loop-hex_loop : (fuel n : ℕ) → n ≤ fuel → int_loop 0 (hex_loop fuel n) ≡ ok n
unfolding hex_loop
int_loop-hex_loop zero n h =
    unfold int_loop in rw (value-digit n (omega arith)) (ap ok (omega arith))
int_loop-hex_loop (suc fuel) n h = elim (Bool-cases (ltb 15 n)) [
  | inl e ↦ rw e (
      int_loop-append 0 (n % 16) (hex_loop fuel (n / 16)) (n / 16) (omega arith)
        (int_loop-hex_loop fuel (n / 16) (omega (arith, ltb→lt 15 n e)))
      ∙ ap ok (omega arith))
  | inr e ↦ rw e (unfold int_loop in rw (value-digit n (ground arith)) (ap ok (omega arith)))
]

length-hex_loop_pos : (fuel n : ℕ) → 1 ≤ length (hex_loop fuel n)
unfolding hex_loop
length-hex_loop_pos zero n = omega arith
length-hex_loop_pos (suc fuel) n =
    ground (arith, length-append (hex_loop fuel (n / 16)) (hex_digit (n % 16) ∷ []))

-- `k + 1` digits are enough exactly below 16 ^ (k + 1).
length-hex_loop_lt : (k fuel n : ℕ) → n ≤ fuel → n < 16 ^ suc k → length (hex_loop fuel n) ≤ suc k
unfolding hex_loop
length-hex_loop_lt k zero n f h = omega arith
length-hex_loop_lt zero (suc fuel) n f h = ground arith
length-hex_loop_lt (suc k) (suc fuel) n f h = ground (
  arith,
  length-append (hex_loop fuel (n / 16)) (hex_digit (n % 16) ∷ []),
  length-hex_loop_lt k fuel (n / 16),
  pow-suc 16 (suc k),
)

pow_pos : (k : ℕ) → 1 ≤ 16 ^ k
pow_pos zero = omega arith
pow_pos (suc k) = omega (arith, pow_pos k, pow-suc 16 k)

length-hex_loop_ge : (k fuel n : ℕ) → n ≤ fuel → 16 ^ k ≤ n → suc k ≤ length (hex_loop fuel n)
unfolding hex_loop
length-hex_loop_ge zero fuel n f h = length-hex_loop_pos fuel n
length-hex_loop_ge (suc k) zero n f h = absurd (omega (arith, pow_pos (suc k)))
length-hex_loop_ge (suc k) (suc fuel) n f h = ground (
  arith,
  length-append (hex_loop fuel (n / 16)) (hex_digit (n % 16) ∷ []),
  length-hex_loop_ge k fuel (n / 16),
  pow-suc 16 k,
  pow_pos k,
)

hex_loop-ne-nil : (fuel n : ℕ) → (c : ℕ) × (s : Text) × (hex_loop fuel n ≡ c ∷ s)
hex_loop-ne-nil fuel n = first (hex_loop fuel n) (length-hex_loop_pos fuel n)
  where
    first : (t : Text) → 1 ≤ length t → (c : ℕ) × (s : Text) × (t ≡ c ∷ s)
    first [] h = absurd (omega arith)
    first (c ∷ s) h = (c, s, refl)

-- Reading the digits that `hex` wrote gives the number back.
pub int_16-hex : (n : ℕ) → int_16 (hex n) ≡ ok n
unfolding int_16 hex
int_16-hex n =
    let (c, s, e) = hex_loop-ne-nil n n in rw e (rw e at (int_loop-hex_loop n n (omega arith)))

pub hex-injective : (m n : ℕ) → hex m ≡ hex n → m ≡ n
hex-injective m n e = cc (int_16-hex m, int_16-hex n)

pub length-hex_lt : (k n : ℕ) → n < 16 ^ suc k → length (hex n) ≤ suc k
unfolding hex
length-hex_lt k n h = length-hex_loop_lt k n n (omega arith) h

pub length-hex_ge : (k n : ℕ) → 16 ^ k ≤ n → suc k ≤ length (hex n)
unfolding hex
length-hex_ge k n h = length-hex_loop_ge k n n (omega arith) h

-- Padding to eight digits changes nothing from 16 ^ 7 on.
pub hex_08-eq-hex : (n : ℕ) → 16 ^ 7 ≤ n → hex_08 n ≡ hex n
unfolding hex_08
hex_08-eq-hex n h = let e : 8 - length (hex n) ≡ 0 = omega (arith, length-hex_ge 7 n h) in rw e

-- Below 16 ^ 7 the padded text is another one than the plain text of any number below 16 ^ 7.
pub hex_08-ne-hex : (m n : ℕ) → n < 16 ^ 7 → hex_08 m ≢ hex n
unfolding hex_08
hex_08-ne-hex m n h e = absurd (
    omega (
      arith,
      length-hex_lt 6 n h,
      ap length e,
      length-append (replicate (8 - length (hex m)) 48) (hex m),
      length-replicate {A = ℕ} (8 - length (hex m)) 48,
    ))
