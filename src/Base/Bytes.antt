-- ===== src/Base/Bytes.antt =====
-- Bytes: little-endian numbers, arrays of them, and `bytes.hex().upper()`.
use Prim.Native.Nat.{ℕ, zero, suc, ◌+◌, ◌*◌, ◌/◌, ◌%◌, ◌^◌, ◌<◌}
use mathlib.Core.Path.{◌≡◌, refl, ap, ap₂}
use mathlib.Core.List.{List, [], ◌∷◌, ◌++◌, append_assoc}
use native.Mathlib.Omega.{arith}
use native.Mathlib.Nat.{pow-suc, zero-add}
use etiss_xvalid.Base.Tests.{ltb, if◌then◌else◌}
use etiss_xvalid.Base.Lists.{length, length-append, take, drop, All}
use etiss_xvalid.Base.Text.{Text}

-- a little-endian number
unfoldable pub le : List ℕ → ℕ
le [] = 0
le (b ∷ bs) = b + 256 * le bs

-- `n` numbers of `k` bytes each
unfoldable pub words : (k n : ℕ) → List ℕ → List ℕ
unfolding le
words k zero bs = []
words k (suc n) bs = le (take k bs) ∷ words k n (drop k bs)

upper_digit : ℕ → ℕ
upper_digit d = if ltb d 10 then 48 + d else 55 + d

-- `b.hex().upper()`
unfoldable pub hex_upper : List ℕ → Text
unfolding upper_digit
hex_upper [] = []
hex_upper (b ∷ bs) = upper_digit (b / 16) ∷ upper_digit (b % 16) ∷ hex_upper bs

-- The `k` bytes of a number, lowest first.
unfoldable pub le_bytes : (k n : ℕ) → List ℕ
le_bytes zero n = []
le_bytes (suc k) n = n % 256 ∷ le_bytes k (n / 256)

unfoldable pub words_bytes : (k : ℕ) → List ℕ → List ℕ
unfolding le_bytes
words_bytes k [] = []
words_bytes k (n ∷ ns) = le_bytes k n ++ words_bytes k ns

pub length-le_bytes : (k n : ℕ) → length (le_bytes k n) ≡ k
unfolding le_bytes
length-le_bytes zero n = refl
length-le_bytes (suc k) n = omega (arith, length-le_bytes k (n / 256))

pub le-le_bytes : (k n : ℕ) → n < 256 ^ k → le (le_bytes k n) ≡ n
unfolding le le_bytes
le-le_bytes zero n h = omega arith
le-le_bytes (suc k) n h = omega (arith, le-le_bytes k (n / 256) (omega (arith, pow-suc 256 k)))

module _ {ℓ} {A : Type ℓ} where
  pub take-append : (k : ℕ) (xs ys : List A) → length xs ≡ k → take k (xs ++ ys) ≡ xs
  take-append zero [] ys h = refl
  take-append zero (x ∷ xs) ys h = absurd (omega arith)
  take-append (suc k) [] ys h = absurd (omega arith)
  take-append (suc k) (x ∷ xs) ys h = ap (λ l. x ∷ l) (take-append k xs ys (omega arith))

  pub take_all : (k : ℕ) (xs : List A) → length xs ≡ k → take k xs ≡ xs
  take_all zero [] h = refl
  take_all zero (x ∷ xs) h = absurd (omega arith)
  take_all (suc k) [] h = refl
  take_all (suc k) (x ∷ xs) h = ap (λ l. x ∷ l) (take_all k xs (omega arith))

  pub drop-append : (k : ℕ) (xs ys : List A) → length xs ≡ k → drop k (xs ++ ys) ≡ ys
  drop-append zero [] ys h = refl
  drop-append zero (x ∷ xs) ys h = absurd (omega arith)
  drop-append (suc k) [] ys h = absurd (omega arith)
  drop-append (suc k) (x ∷ xs) ys h = drop-append k xs ys (omega arith)

  -- Dropping more than the front goes on behind it.
  pub drop-append_more :
      (n k : ℕ) (xs ys : List A) → length xs ≡ n → drop (n + k) (xs ++ ys) ≡ drop k ys
  drop-append_more zero k [] ys h = rw zero-add
  drop-append_more zero k (x ∷ xs) ys h = absurd (omega arith)
  drop-append_more (suc n) k [] ys h = absurd (omega arith)
  drop-append_more (suc n) k (x ∷ xs) ys h =
      let e : suc n + k ≡ suc (n + k) = omega arith in
      rw e (drop-append_more n k xs ys (omega arith))

pub length-words : (k n : ℕ) (bs : List ℕ) → length (words k n bs) ≡ n
unfolding words
length-words k zero bs = refl
length-words k (suc n) bs = omega (arith, length-words k n (drop k bs))

pub length-words_bytes : (k : ℕ) (ns : List ℕ) → length (words_bytes k ns) ≡ length ns * k
unfolding words_bytes
length-words_bytes k [] = omega arith
length-words_bytes k (n ∷ ns) = omega (
  arith,
  length-append (le_bytes k n) (words_bytes k ns),
  length-le_bytes k n,
  length-words_bytes k ns,
)

pub words-words_bytes :
    (k n : ℕ) (ns rest : List ℕ)
    → length ns ≡ n
    → All (λ w. w < 256 ^ k) ns
    → words k n (words_bytes k ns ++ rest) ≡ ns
unfolding words words_bytes
words-words_bytes k zero [] rest h a = refl
words-words_bytes k zero (w ∷ ws) rest h a = absurd (omega arith)
words-words_bytes k (suc n) [] rest h a = absurd (omega arith)
words-words_bytes k (suc n) (w ∷ ws) rest h a =
    let front = le_bytes k w in
    let l : length front ≡ k = length-le_bytes k w in
    rw
      (
        append_assoc front (words_bytes k ws) rest,
        take-append k front (words_bytes k ws ++ rest) l,
        drop-append k front (words_bytes k ws ++ rest) l,
      )
      (ap₂ (λ u v. u ∷ v) (le-le_bytes k w a.0) (words-words_bytes k n ws rest (omega arith) a.1))
