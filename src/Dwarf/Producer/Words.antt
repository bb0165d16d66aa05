-- ===== src/Dwarf/Producer/Words.antt =====
-- The words of a producer's text, which py_etiss_xvalid/entity/dwarf/compilation_unit.py reads.
use etiss_xvalid.Base.{
  ℕ, zero, suc, ◌+◌, ◌-◌, ◌≤◌, ◌≡◌, refl, subst, ap, ◌∙◌, Bool, false, Option, none, some, List, [],
  ◌∷◌, ◌++◌, arith, length, All, ◌==◌, ==_iff, Bool-cases, Option-cases, inl, inr,
}
use etiss_xvalid.Base.Text.{Text, codes}
use etiss_xvalid.Dwarf.Location.{strip_prefix, is_space}
use etiss_xvalid.Dwarf.Info.{CompileUnit}
use etiss_xvalid.Dwarf.Producer.{
  CoreOption, mabi, march, misa_spec, run_of, with_value, after_prefix, or_else, match_option,
  find_options, set_options, extract_core_information,
}

-- the run ends at a space
run_of-append : (w s : Text) → run_of (w ++ b' ' ∷ s) ≡ run_of w
unfolding run_of
run_of-append [] s = refl
run_of-append (c ∷ w) s = rw (run_of-append w s) refl

-- An option with its value is found before a space as it is at the end of the text.
after_prefix-append :
    (option : Text → CoreOption) (size : ℕ) (p w s : Text)
    → All (λ c. is_space c ≡ false) p
    → after_prefix option size (strip_prefix p (w ++ b' ' ∷ s))
      ≡ after_prefix option size (strip_prefix p w)
unfolding strip_prefix after_prefix
after_prefix-append option size [] w s h = ap (with_value option size) (run_of-append w s)
after_prefix-append option size (c ∷ p) [] s h = elim (Bool-cases (c == b' ')) [
  | inl e ↦ absurd (cc (subst (λ x. is_space x ≡ false) ((==_iff c 32).0 e) h.0))
  | inr e ↦ rw e refl
]
after_prefix-append option size (c ∷ p) (d ∷ w) s h = elim (Bool-cases (c == d)) [
  | inl e ↦ rw e (after_prefix-append option size p w s h.1)
  | inr e ↦ rw e refl
]

match_option-append : (w s : Text) → match_option (w ++ b' ' ∷ s) ≡ match_option w
unfolding match_option
match_option-append w s =
    rw
      (
        after_prefix-append mabi 6 (codes "-mabi=") w s
            (refl, (refl, (refl, (refl, (refl, (refl, tt)))))),
        after_prefix-append march 7 (codes "-march=") w s
            (refl, (refl, (refl, (refl, (refl, (refl, (refl, tt))))))),
        after_prefix-append misa_spec 11 (codes "-misa-spec=") w s (
          refl,
          (refl, (refl, (refl, (refl, (refl, (refl, (refl, (refl, (refl, (refl, tt)))))))))),
        ),
      )
      refl

length-run_of : (s : Text) → length (run_of s) ≤ length s
unfolding run_of
length-run_of [] = omega arith
length-run_of (c ∷ s) = ground (arith, length-run_of s)

-- A match is no longer than the text.
Short : Option (CoreOption × ℕ) → ℕ → Type 0
Short none n = Unit
Short (some (o, size)) n = size ≤ n

with_value-Short :
    (option : Text → CoreOption) (size n : ℕ) (v : Text)
    → size + length v ≤ n
    → Short (with_value option size v) n
unfolding Short with_value
with_value-Short option size n [] h = tt
with_value-Short option size n (c ∷ v) h = h

after_prefix-Short :
    (option : Text → CoreOption) (k : ℕ) (p s : Text)
    → Short (after_prefix option (k + length p) (strip_prefix p s)) (k + length s)
unfolding Short after_prefix strip_prefix
after_prefix-Short option k [] s =
    with_value-Short option (k + 0) (k + length s) (run_of s) (omega (arith, length-run_of s))
after_prefix-Short option k (c ∷ p) [] = tt
after_prefix-Short option k (c ∷ p) (d ∷ s) = elim (Bool-cases (c == d)) [
  | inl e ↦
      let l : k + suc (length p) ≡ suc k + length p = omega arith in
      let r : k + suc (length s) ≡ suc k + length s = omega arith in
      rw (e, l, r) (after_prefix-Short option (suc k) p s)
  | inr e ↦ rw e tt
]

option-Short :
    (option : Text → CoreOption) (p s : Text)
    → Short (after_prefix option (length p) (strip_prefix p s)) (length s)
option-Short option p s =
    let l : 0 + length p ≡ length p = omega arith in
    let r : 0 + length s ≡ length s = omega arith in
    subst (λ n. Short (after_prefix option n (strip_prefix p s)) (length s)) l
      (subst (λ n. Short (after_prefix option (0 + length p) (strip_prefix p s)) n) r
        (after_prefix-Short option 0 p s))

or_else-Short :
    (n : ℕ) (a b : Option (CoreOption × ℕ)) → Short a n → Short b n → Short (or_else a b) n
or_else-Short n none b h k = k
or_else-Short n (some r) b h k = h

match_option-Short : (s : Text) → Short (match_option s) (length s)
unfolding match_option
match_option-Short s = or_else-Short (length s) _ _ (option-Short mabi (codes "-mabi=") s) (
    or_else-Short (length s) _ _ (option-Short march (codes "-march=") s)
      (option-Short misa_spec (codes "-misa-spec=") s))

find_options_space : (s : Text) → find_options zero (b' ' ∷ s) ≡ find_options zero s
unfolding find_options match_option strip_prefix after_prefix
find_options_space s = refl

find_options-append :
    (skip : ℕ) (w s : Text)
    → skip ≤ length w
    → find_options skip (w ++ b' ' ∷ s) ≡ find_options skip w ++ find_options zero s
unfolding find_options Short
find_options-append zero [] s h = find_options_space s
find_options-append (suc skip) [] s h = absurd (omega arith)
find_options-append (suc skip) (c ∷ w) s h = find_options-append skip w s (omega arith)
find_options-append zero (c ∷ w) s h = elim (Option-cases (match_option (c ∷ w))) [
  | inl e ↦
      let e' : match_option (c ∷ (w ++ b' ' ∷ s)) ≡ none = match_option-append (c ∷ w) s ∙ e in
      rw (find_options, e, e') (find_options-append zero w s (omega arith))
  | inr ((o, size), e) ↦
      let e' : match_option (c ∷ (w ++ b' ' ∷ s)) ≡ some (o, size) =
        match_option-append (c ∷ w) s ∙ e in
      let l : size ≤ suc (length w) = rw e at (match_option-Short (c ∷ w)) in
      rw (find_options, e, e')
        (ap (λ os. o ∷ os) (find_options-append (size - 1) w s (omega arith)))
]

set_options-append :
    (os ps : List CoreOption) (u : CompileUnit)
    → set_options (os ++ ps) u ≡ set_options ps (set_options os u)
unfolding set_options
set_options-append [] ps u = refl
set_options-append (mabi v ∷ os) ps u = set_options-append os ps _
set_options-append (march v ∷ os) ps u = set_options-append os ps _
set_options-append (misa_spec v ∷ os) ps u = set_options-append os ps _

-- Reading the options of a producer's text that has a space in it is reading those before the
-- space, and then those behind it: no option is found across a space, and later options take the
-- place of earlier ones.
pub extract_core_information-append :
    (first second : Text) (little_endian : Bool) (u : CompileUnit)
    → extract_core_information (first ++ b' ' ∷ second) little_endian u
      ≡ extract_core_information second little_endian
          (extract_core_information first little_endian u)
unfolding extract_core_information set_options
extract_core_information-append first second little_endian u =
    rw
      (
        find_options-append zero first second (omega arith),
        set_options-append (find_options zero first) (find_options zero second) u,
      )
      (endian (find_options zero second) (set_options (find_options zero first) u))
  where
    endian :
        (os : List CoreOption) (w : CompileUnit)
        → record (set_options os w) { little_endian = little_endian }
          ≡ record (set_options os (record w { little_endian = little_endian })) {
            little_endian = little_endian;
          }
    endian [] w = refl
    endian (mabi v ∷ os) w = endian os (record w { mabi = some v })
    endian (march v ∷ os) w = endian os (record w { march = some v })
    endian (misa_spec v ∷ os) w = endian os (record w { misa_spec = some v })

run_of-All : (v : Text) → All (λ c. is_space c ≡ false) v → run_of v ≡ v
unfolding run_of
run_of-All [] h = refl
run_of-All (c ∷ v) h = rw (h.0, run_of-All v h.1) refl

find_options_passed : (skip : ℕ) (s : Text) → length s ≤ skip → find_options skip s ≡ []
unfolding find_options
find_options_passed skip [] h = refl
find_options_passed zero (c ∷ s) h = absurd (omega arith)
find_options_passed (suc skip) (c ∷ s) h = find_options_passed skip s (omega arith)

match_option-march :
    (c : ℕ) (v : Text)
    → All (λ d. is_space d ≡ false) (c ∷ v)
    → match_option (codes "-march=" ++ c ∷ v) ≡ some (march (c ∷ v), 7 + length (c ∷ v))
unfolding match_option strip_prefix after_prefix with_value
match_option-march c v h = let r : run_of (c ∷ v) ≡ c ∷ v = run_of-All (c ∷ v) h in rw r refl

find_options-march :
    (c : ℕ) (v : Text)
    → All (λ d. is_space d ≡ false) (c ∷ v)
    → find_options zero (codes "-march=" ++ c ∷ v) ≡ march (c ∷ v) ∷ []
unfolding find_options
find_options-march c v h =
    rw (find_options, match_option-march c v h)
      (ap (λ os. march (c ∷ v) ∷ os)
        (find_options_passed (7 + suc (length v) - 1) (codes "march=" ++ c ∷ v) (omega arith)))

-- The architecture of a producer whose last word is a `-march=` option is that option's value,
-- whatever stands before it; the value is not empty and has no white space.
pub extract_core_information-march :
    (producer v : Text) (c : ℕ) (little_endian : Bool) (u : CompileUnit)
    → All (λ d. is_space d ≡ false) (c ∷ v)
    → (extract_core_information
        (producer ++ b' ' ∷ (codes "-march=" ++ c ∷ v))
        little_endian
        u).march
      ≡ some (c ∷ v)
extract_core_information-march producer v c little_endian u h =
    rw (extract_core_information-append producer (codes "-march=" ++ c ∷ v) little_endian u)
      (unfold extract_core_information set_options in rw (find_options-march c v h) refl)
