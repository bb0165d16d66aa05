-- ===== src/March/StructValue/Packed.antt =====
-- `fetch_aligned_int_value` of py_etiss_xvalid/entity/march/rv32.py: the fields packed into a register.
use native.Mathlib.Nat.{
  pow-suc, pow-le-pow_right, one-le-pow, mul-le-mul_right, mul-add-div, div-eq_of_lt,
  add-mul-mod_self_left, mod-eq_of_lt,
}
use etiss_xvalid.Base.{
  ℕ, zero, suc, ◌+◌, ◌-◌, ◌*◌, ◌/◌, ◌%◌, ◌^◌, ◌≤◌, ◌<◌, ◌≡◌, refl, ap, ap₂, ◌∙◌, List, [], ◌∷◌, map,
  arith,
}
use etiss_xvalid.Layout.{ReturnRegisterLayout}
use etiss_xvalid.Layout.Order.{Ascending, IsOrdered}
use etiss_xvalid.March.Value.{int_value}
use etiss_xvalid.March.StructValue.{fetch_aligned_int_value, fetch_ranges}

-- The register that holds the given fields at the given bits, and zeros elsewhere.
abbrev pub pack : List (ℕ × ℕ) → List ℕ → ℕ
pack ((low, high) ∷ ranges) (v ∷ fields) = v * 2 ^ low + pack ranges fields
pack _ _ = 0

-- There is a field for each range, and it is no wider.
abbrev pub FitRanges : List (ℕ × ℕ) → List ℕ → Type 0
FitRanges [] [] = Unit
FitRanges ((low, high) ∷ ranges) (v ∷ fields) = (v < 2 ^ (high - low + 1)) × FitRanges ranges fields
FitRanges _ _ = ⊥

pow-add : (m n : ℕ) → 2 ^ (m + n) ≡ 2 ^ m * 2 ^ n
pow-add m zero = let e : m + 0 ≡ m = omega arith in rw e (omega arith)
pow-add m (suc n) =
    let e : m + suc n ≡ suc (m + n) = omega arith in
    rw (e, pow-suc 2 (m + n), pow-suc 2 n, pow-add m n) (omega arith)

factor : (p a b v q : ℕ) → v * (p * a) + p * b * q ≡ p * (v * a + b * q)
factor p a b v q = omega arith

extract : (junk v l w q : ℕ) → 1 ≤ l → junk < l → v < w → (junk + (v * l + l * w * q)) / l % w ≡ v
extract junk v l w q h j f =
    let split : junk + (v * l + l * w * q) ≡ l * (v + w * q) + junk = omega arith in
    let e : (l * (v + w * q) + junk) / l ≡ (v + w * q) + junk / l =
      mul-add-div h (v + w * q) junk in
    let z : junk / l ≡ 0 = div-eq_of_lt j in
    let k : (v + w * q) + 0 ≡ v + w * q = omega arith in
    rw (split, e, z, k) (add-mul-mod_self_left v w q ∙ mod-eq_of_lt f)

pow_pos : (n : ℕ) → 1 ≤ 2 ^ n
pow_pos n = one-le-pow n 2 (omega arith)

-- Fields from a bit on are a multiple of that bit's weight.
pack-multiple :
    (from : ℕ) (ranges : List (ℕ × ℕ)) (fields : List ℕ)
    → Ascending from ranges
    → (q : ℕ) × (pack ranges fields ≡ 2 ^ from * q)
pack-multiple from [] fields a = (0, omega arith)
pack-multiple from ((low, high) ∷ ranges) [] a = (0, omega arith)
pack-multiple from ((low, high) ∷ ranges) (v ∷ fields) a =
    let (q, e) = pack-multiple (high + 1) ranges fields a.2 in
    let b = low - from in
    let c = high + 1 - from in
    let l : 2 ^ low ≡ 2 ^ from * 2 ^ b = ap (λ n. 2 ^ n) (omega arith) ∙ pow-add from b in
    let h : 2 ^ (high + 1) ≡ 2 ^ from * 2 ^ c = ap (λ n. 2 ^ n) (omega arith) ∙ pow-add from c in
    (v * 2 ^ b + 2 ^ c * q, rw (e, l, h) (factor (2 ^ from) (2 ^ b) (2 ^ c) v q))

fetch_ranges-behind :
    (from junk : ℕ) (ranges : List (ℕ × ℕ)) (fields : List ℕ)
    → junk < 2 ^ from
    → Ascending from ranges
    → FitRanges ranges fields
    → fetch_ranges (junk + pack ranges fields) ranges ≡ map int_value fields
unfolding fetch_ranges fetch_aligned_int_value
fetch_ranges-behind from junk [] [] j a f = refl
fetch_ranges-behind from junk [] (v ∷ fields) j a f = absurd f
fetch_ranges-behind from junk ((low, high) ∷ ranges) [] j a f = absurd f
fetch_ranges-behind from junk ((low, high) ∷ ranges) (v ∷ fields) j a f =
    let w = high - low + 1 in
    let (q, e) = pack-multiple (high + 1) ranges fields a.2 in
    let h : 2 ^ (high + 1) ≡ 2 ^ low * 2 ^ w = ap (λ n. 2 ^ n) (omega arith) ∙ pow-add low w in
    let up : 2 ^ from ≤ 2 ^ low = pow-le-pow_right (omega arith) a.0 in
    let first : (junk + (v * 2 ^ low + pack ranges fields)) / 2 ^ low % 2 ^ w ≡ v =
      rw (e, h) (extract junk v (2 ^ low) (2 ^ w) q (pow_pos low) (omega arith) f.0) in
    let below : junk + v * 2 ^ low < 2 ^ (high + 1) =
      rw h (omega (arith, mul-le-mul_right (2 ^ low) f.0, up)) in
    let same : junk + (v * 2 ^ low + pack ranges fields)
        ≡ (junk + v * 2 ^ low) + pack ranges fields =
      omega arith in
    ap₂ (λ x xs. int_value x ∷ xs) first
      (ap (λ n. fetch_ranges n ranges) same
        ∙ fetch_ranges-behind (high + 1) (junk + v * 2 ^ low) ranges fields below a.2 f.1)

-- From a register whose ranges are ascending and disjoint, and which holds a field at each of
-- them, no wider than it, exactly these fields are read, in their order.
pub fetch_ranges-pack :
    (r : ReturnRegisterLayout) (fields : List ℕ)
    → IsOrdered r
    → FitRanges r.ranges fields
    → fetch_ranges (pack r.ranges fields) r.ranges ≡ map int_value fields
fetch_ranges-pack r fields o f =
    let zeros : pack r.ranges fields ≡ 0 + pack r.ranges fields = omega arith in
    ap (λ n. fetch_ranges n r.ranges) zeros
    ∙ fetch_ranges-behind 0 0 r.ranges fields (omega arith) o f
