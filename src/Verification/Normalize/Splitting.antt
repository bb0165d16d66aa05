-- ===== src/Verification/Normalize/Splitting.antt =====
-- The bytes of a variable of py_etiss_xvalid/verification_stage.py, where one write of it is two.
use mathlib.Core.List.{append_assoc}
use etiss_xvalid.Base.{
  ℕ, ◌+◌, ◌<◌, ◌≡◌, ◌⊎◌, inl, inr, true, false, refl, ap, List, [], ◌∷◌, ◌++◌, ltb, arith, length,
  All, Bool-cases,
}
use etiss_xvalid.Verification.Normalize.{Chunk, insert_chunk, sort_chunks, join_chunks}

-- A chunk that begins below the first address or behind the last one.
abbrev pub IsOutside : (first last : ℕ) → Chunk → Type 0
IsOutside first last c = (c.0 < first) ⊎ (last < c.0)

insert_chunk-nil : (c : Chunk) → insert_chunk c [] ≡ c ∷ []
unfolding insert_chunk
insert_chunk-nil c = refl

insert_chunk-before :
    (c d : Chunk) (l : List Chunk) → c.0 < d.0 → insert_chunk c (d ∷ l) ≡ c ∷ d ∷ l
unfolding insert_chunk
insert_chunk-before c d l h = let b : ltb c.0 d.0 ≡ true = ground arith in rw b refl

insert_chunk-behind :
    (c d : Chunk) (l : List Chunk) → ¬ (c.0 < d.0) → insert_chunk c (d ∷ l) ≡ d ∷ insert_chunk c l
unfolding insert_chunk
insert_chunk-behind c d l h = let b : ltb c.0 d.0 ≡ false = ground arith in rw b refl

All-insert_chunk :
    (P : Chunk → Type 0) (c : Chunk) (l : List Chunk) → P c → All P l → All P (insert_chunk c l)
unfolding insert_chunk
All-insert_chunk P c [] p h = (p, tt)
All-insert_chunk P c (d ∷ l) p h = elim (Bool-cases (ltb c.0 d.0)) [
  | inl b ↦ rw b (p, h)
  | inr b ↦ rw b (h.0, All-insert_chunk P c l p h.1)
]

module _ (a : ℕ) (s t : List ℕ) where
  abbrev whole : Chunk
  whole = (a, s ++ t)

  abbrev low : Chunk
  low = (a, s)

  abbrev high : Chunk
  high = (a + length s, t)

  -- Two lists that differ in the chunk that is split.
  data Splits : List Chunk → List Chunk → Type 0 where
    here : {l : List Chunk} → Splits (whole ∷ l) (low ∷ high ∷ l)
    there : {c : Chunk} {l m : List Chunk} → Splits l m → Splits (c ∷ l) (c ∷ m)

  join_chunks-Splits : {l m : List Chunk} → Splits l m → join_chunks l ≡ join_chunks m
  unfolding join_chunks
  join_chunks-Splits (here {l = l}) = append_assoc s t (join_chunks l)
  join_chunks-Splits (there {c = c} p) = ap (λ bytes. c.1 ++ bytes) (join_chunks-Splits p)

  insert_chunk-Splits :
      (c : Chunk) {l m : List Chunk}
      → IsOutside a (a + length s) c
      → Splits l m
      → Splits (insert_chunk c l) (insert_chunk c m)
  insert_chunk-Splits c (inl below) (here {l = l}) =
      rw (insert_chunk-before c whole l below, insert_chunk-before c low (high ∷ l) below)
        (there here)
  insert_chunk-Splits c (inr above) (here {l = l}) =
      rw
        (
          insert_chunk-behind c whole l (omega arith),
          insert_chunk-behind c low (high ∷ l) (omega arith),
          insert_chunk-behind c high l (omega arith),
        )
        here
  insert_chunk-Splits c outside (there {c = d} {l = l} {m = m} p) =
      elim (Bool-cases (ltb c.0 d.0)) [
        | inl b ↦
            rw (insert_chunk-before c d l (ground arith), insert_chunk-before c d m (ground arith))
              (there (there p))
        | inr b ↦
            rw (insert_chunk-behind c d l (ground arith), insert_chunk-behind c d m (ground arith))
              (there (insert_chunk-Splits c outside p))
      ]

  split_inserted :
      (l : List Chunk)
      → All (IsOutside a (a + length s)) l
      → Splits (insert_chunk whole l) (insert_chunk high (insert_chunk low l))
  split_inserted [] h =
      rw
        (
          insert_chunk-nil whole,
          insert_chunk-nil low,
          insert_chunk-behind high low [] (omega arith),
          insert_chunk-nil high,
        )
        here
  split_inserted (x ∷ l) (inl below, h) =
      rw
        (
          insert_chunk-behind whole x l (omega arith),
          insert_chunk-behind low x l (omega arith),
          insert_chunk-behind high x (insert_chunk low l) (omega arith),
        )
        (there (split_inserted l h))
  split_inserted (x ∷ l) (inr above, h) =
      rw
        (
          insert_chunk-before whole x l (omega arith),
          insert_chunk-before low x l (omega arith),
          insert_chunk-behind high low (x ∷ l) (omega arith),
          insert_chunk-before high x l above,
        )
        here

  sort_chunks-Splits :
      (back : List Chunk) {l m : List Chunk}
      → All (IsOutside a (a + length s)) back
      → Splits l m
      → Splits (sort_chunks l back) (sort_chunks m back)
  unfolding sort_chunks
  sort_chunks-Splits [] h p = p
  sort_chunks-Splits (c ∷ back) (o, h) p = sort_chunks-Splits back h (insert_chunk-Splits c o p)

  split_sorted :
      (sorted front back : List Chunk)
      → All (IsOutside a (a + length s)) sorted
      → All (IsOutside a (a + length s)) front
      → All (IsOutside a (a + length s)) back
      → Splits
          (sort_chunks sorted (front ++ whole ∷ back))
          (sort_chunks sorted (front ++ low ∷ high ∷ back))
  unfolding sort_chunks
  split_sorted sorted [] back o f b = sort_chunks-Splits back b (split_inserted sorted o)
  split_sorted sorted (c ∷ front) back o f b =
      split_sorted (insert_chunk c sorted) front back (All-insert_chunk _ c sorted f.0 o) f.1 b

  -- The bytes that a variable's chunks are joined to stay the same when one write is split in two,
  -- the second right behind the first, wherever it stands among the others, where none of these
  -- begins at an address from the first part's to the second's.
  pub sort_chunks_split :
      (front back : List Chunk)
      → All (IsOutside a (a + length s)) front
      → All (IsOutside a (a + length s)) back
      → join_chunks (sort_chunks [] (front ++ (a, s ++ t) ∷ back))
        ≡ join_chunks (sort_chunks [] (front ++ (a, s) ∷ (a + length s, t) ∷ back))
  sort_chunks_split front back f b = join_chunks-Splits (split_sorted [] front back tt f b)
