-- ===== src/Verification/Normalize/Sorting.antt =====
-- The order of a variable's chunks in py_etiss_xvalid/verification_stage.py.
use etiss_xvalid.Base.{
  ℕ, ◌≤◌, ◌≡◌, ◌≢◌, refl, ap, ◌∙◌, List, [], ◌∷◌, ◌++◌, ltb, arith, Bool-cases, inl, inr,
}
use etiss_xvalid.Verification.Normalize.{Chunk, insert_chunk, sort_chunks, join_chunks}

-- Neighbouring chunks with different addresses are exchanged, any number of times.
pub data Reordered : List Chunk → List Chunk → Type 0 where
  same : {cs : List Chunk} → Reordered cs cs
  exchange :
      (front back : List Chunk) (c d : Chunk) {ds : List Chunk}
      → c.0 ≢ d.0
      → Reordered (front ++ d ∷ c ∷ back) ds
      → Reordered (front ++ c ∷ d ∷ back) ds

-- The addresses ascend, and are at least the given one.
abbrev pub SortedFrom : ℕ → List Chunk → Type 0
SortedFrom a [] = Unit
SortedFrom a (c ∷ cs) = (a ≤ c.0) × SortedFrom c.0 cs

insert_chunk_comm :
    (c d : Chunk) (l : List Chunk)
    → c.0 ≢ d.0
    → insert_chunk c (insert_chunk d l) ≡ insert_chunk d (insert_chunk c l)
unfolding insert_chunk
insert_chunk_comm c d [] h = ground arith
insert_chunk_comm c d (x ∷ l) h = ground (arith, insert_chunk_comm c d l h)

insert_chunk-SortedFrom :
    (a : ℕ) (c : Chunk) (l : List Chunk)
    → a ≤ c.0
    → SortedFrom a l
    → SortedFrom a (insert_chunk c l)
unfolding insert_chunk
insert_chunk-SortedFrom a c [] h s = (h, tt)
insert_chunk-SortedFrom a c (x ∷ l) h s = elim (Bool-cases (ltb c.0 x.0)) [
  | inl b ↦ rw b (h, (ground arith, s.1))
  | inr b ↦ rw b (s.0, insert_chunk-SortedFrom x.0 c l (ground arith) s.1)
]

sort_chunks-SortedFrom :
    (sorted cs : List Chunk) → SortedFrom 0 sorted → SortedFrom 0 (sort_chunks sorted cs)
unfolding sort_chunks
sort_chunks-SortedFrom sorted [] h = h
sort_chunks-SortedFrom sorted (c ∷ cs) h =
    sort_chunks-SortedFrom (insert_chunk c sorted) cs
      (insert_chunk-SortedFrom 0 c sorted (omega arith) h)

sort_chunks-exchange :
    (sorted front back : List Chunk) (c d : Chunk)
    → c.0 ≢ d.0
    → sort_chunks sorted (front ++ c ∷ d ∷ back) ≡ sort_chunks sorted (front ++ d ∷ c ∷ back)
unfolding sort_chunks
sort_chunks-exchange sorted [] back c d h =
    ap (λ s. sort_chunks s back) (insert_chunk_comm d c sorted (λ e. h (omega arith)))
sort_chunks-exchange sorted (x ∷ front) back c d h =
    sort_chunks-exchange (insert_chunk x sorted) front back c d h

-- A variable's chunks are sorted by their addresses, and the bytes that they are joined to stay
-- the same when neighbouring chunks with different addresses are exchanged, any number of times,
-- before.
pub sort_chunks-Reordered :
    {cs ds : List Chunk}
    → Reordered cs ds
    → SortedFrom 0 (sort_chunks [] cs)
      × (join_chunks (sort_chunks [] cs) ≡ join_chunks (sort_chunks [] ds))
sort_chunks-Reordered {cs} r = (sort_chunks-SortedFrom [] cs tt, ap join_chunks (sorted_same r))
  where
    sorted_same : {cs ds : List Chunk} → Reordered cs ds → sort_chunks [] cs ≡ sort_chunks [] ds
    sorted_same same = refl
    sorted_same (exchange front back c d h r) =
        sort_chunks-exchange [] front back c d h ∙ sorted_same r
