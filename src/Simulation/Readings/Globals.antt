-- ===== src/Simulation/Readings/Globals.antt =====
-- The last writes to the chunks of a global variable, of
-- py_etiss_xvalid/entity/simulation/simulation_data_entry.py.
use etiss_xvalid.Base.{
  ℕ, zero, suc, ◌+◌, ◌*◌, ◌^◌, ◌≤◌, ◌<◌, ◌≡◌, ◌≢◌, refl, sym, ap, ◌∙◌, Option, none, some, List, [],
  ◌∷◌, ◌++◌, arith, last?, last?-append, ◌⊎◌, inl, inr, Bool-cases,
}
use etiss_xvalid.Base.Text.{Text, text_eq, text_eq→eq, text_eq_refl}
use etiss_xvalid.Base.Decimal.Injective.{str_of-injective}
use etiss_xvalid.Base.Dict.{Dict, lookup, insert, lookup-insert}
use etiss_xvalid.Base.Hex.{hex}
use etiss_xvalid.Base.Result.{ok}
use etiss_xvalid.Simulation.Entry.{AccessState}
use etiss_xvalid.Simulation.Readings.{last_of, chunk_key, record_write, collect_chunks}
use etiss_xvalid.Simulation.Readings.Writes.{IsWritten, IsPadded, lookup_low, next_location-hex}

append-cancel : (p s t : Text) → p ++ s ≡ p ++ t → s ≡ t
append-cancel [] s t h = h
append-cancel (c ∷ p) s t h = append-cancel p s t cc

-- Different chunks of a variable have different keys.
chunk_key-injective : (name : Text) (i j : ℕ) → chunk_key name i ≡ chunk_key name j → i ≡ j
unfolding chunk_key
chunk_key-injective name i j h = str_of-injective i j (cc (append-cancel name _ _ h))

-- What stands under a key after the writes to a location: the last one of them, and what stood there
-- before where there are none.
abbrev pub IsLastOf : Option (List AccessState) → (before after : Option AccessState) → Type 0
IsLastOf written before after =
    ((written ≡ none) × (after ≡ before))
    ⊎ ((front : List AccessState) × (a : AccessState) × (written ≡ some (front ++ a ∷ []))
        × (after ≡ some a))

-- Of `n` chunks from an address on, the last write to each stands under the key of its index, and
-- what stands under any other key is as before.
pub record KeepsLastWrites (d : Dict (List AccessState)) (name : Text) (step n idx addr : ℕ)
    (writes after : Dict AccessState) : Type 0 where
  pub chunks :
      (i : ℕ)
      → i < n
      → IsLastOf
          (lookup (hex (addr + i * step)) d)
          (lookup (chunk_key name (idx + i)) writes)
          (lookup (chunk_key name (idx + i)) after)
  pub others :
      (k : Text)
      → ((i : ℕ) → i < n → k ≢ chunk_key name (idx + i))
      → lookup k after ≡ lookup k writes

split_last :
    (a : AccessState) (l : List AccessState)
    → (front : List AccessState) × (x : AccessState) × (a ∷ l ≡ front ++ x ∷ [])
split_last a [] = ([], a, refl)
split_last a (b ∷ l) = let (front, x, e) = split_last b l in (a ∷ front, x, ap (λ m. a ∷ m) e)

lookup-insert_same :
    (k : Text) (a : AccessState) (m : Dict AccessState) → lookup k (insert k a m) ≡ some a
lookup-insert_same k a m = lookup-insert k k a m ∙ rw (text_eq_refl k) refl

lookup-insert_other :
    (k j : Text) (a : AccessState) (m : Dict AccessState)
    → j ≢ k
    → lookup j (insert k a m) ≡ lookup j m
lookup-insert_other k j a m ne = lookup-insert k j a m ∙ elim (Bool-cases (text_eq k j)) [
  | inl t ↦ absurd (ne (sym (text_eq→eq k j t)))
  | inr f ↦ rw f refl
]

-- One round.
abbrev Records : Text → Option (List AccessState) → (writes after : Dict AccessState) → Type 0
Records key o writes after =
    IsLastOf o (lookup key writes) (lookup key after)
    × ((k : Text) → k ≢ key → lookup k after ≡ lookup k writes)

record_write-Records :
    (key : Text) (o : Option (List AccessState)) (writes : Dict AccessState)
    → o ≢ some []
    → (after : Dict AccessState) × (record_write key (last_of o) writes ≡ ok after)
      × Records key o writes after
record_write-Records key none writes h = (writes, refl, (inl (refl, refl), λ k ne. refl))
record_write-Records key (some []) writes h = absurd (h refl)
record_write-Records key (some (a ∷ l)) writes h =
    let (front, x, e) = split_last a l in
    let last_is : last? (a ∷ l) ≡ some x = ap last? e ∙ last?-append front x in
    (
      insert key x writes,
      rw last_is refl,
      (
        inr (front, x, ap some e, lookup-insert_same key x writes),
        λ k ne. lookup-insert_other key k x writes ne,
      ),
    )

module _ (d : Dict (List AccessState)) (name : Text) (step : ℕ) where
  -- The chunks from the second one on are those of the rest.
  keeps_first :
      (n idx addr : ℕ) (writes mid after : Dict AccessState)
      → Records (chunk_key name idx) (lookup (hex addr) d) writes mid
      → KeepsLastWrites d name step n (idx + 1) (addr + step) mid after
      → KeepsLastWrites d name step (suc n) idx addr writes after
  keeps_first n idx addr writes mid after (here, elsewhere) rest = record {
    chunks = chunk;
    others = λ k ne.
        rest.others k (λ i lt e. ne (suc i) (omega arith) (e ∙ ap (chunk_key name) (omega arith)))
        ∙ elsewhere k (λ e. ne 0 (omega arith) (e ∙ ap (chunk_key name) (omega arith)));
  }
    where
      differs : (i j : ℕ) → i ≢ j → chunk_key name i ≢ chunk_key name j
      differs i j ne e = ne (chunk_key-injective name i j e)

      first_kept : lookup (chunk_key name idx) after ≡ lookup (chunk_key name idx) mid
      first_kept =
          rest.others (chunk_key name idx) (λ i lt. differs idx (idx + 1 + i) (λ e. omega arith))

      chunk :
          (i : ℕ)
          → i < suc n
          → IsLastOf
              (lookup (hex (addr + i * step)) d)
              (lookup (chunk_key name (idx + i)) writes)
              (lookup (chunk_key name (idx + i)) after)
      chunk zero lt =
          let at_address : addr + 0 * step ≡ addr = omega arith in
          let at_index : idx + 0 ≡ idx = omega arith in rw (at_address, at_index, first_kept) here
      chunk (suc i) lt =
          let at_address : addr + step + i * step ≡ addr + suc i * step = omega arith in
          let at_index : idx + 1 + i ≡ idx + suc i = omega arith in
          let before : lookup (chunk_key name (idx + suc i)) mid
              ≡ lookup (chunk_key name (idx + suc i)) writes =
            elsewhere (chunk_key name (idx + suc i))
              (differs (idx + suc i) idx (λ e. omega arith)) in
          let found = rest.chunks i (omega arith) in
          rw before at (rw (at_address, at_index) at found)

-- Of a number of chunks of a global variable, from an address on, each chunk whose address has
-- writes is kept under the key of the variable's name and the chunk's index, with the last one of
-- these writes; where it has none, what stood under its key before stays, and so does what stands
-- under any other key. No exception is raised, where no location has an empty list of writes.
pub collect_chunks-last :
    (d : Dict (List AccessState)) (name : Text) (step n idx addr : ℕ) (writes : Dict AccessState)
    → IsWritten d
    → (after : Dict AccessState) × (collect_chunks d name step n idx (hex addr) writes ≡ ok after)
      × KeepsLastWrites d name step n idx addr writes after
unfolding collect_chunks
collect_chunks-last d name step zero idx addr writes h =
    (writes, refl, record { chunks = λ i lt. absurd (omega arith); others = λ k ne. refl })
collect_chunks-last d name step (suc n) idx addr writes h =
    let (mid, recorded, records) =
      record_write-Records (chunk_key name idx) (lookup (hex addr) d) writes (h (hex addr)) in
    let (after, rest_ok, keeps) = collect_chunks-last d name step n (idx + 1) (addr + step) mid h in
    (
      after,
      rw (recorded, next_location-hex addr step) rest_ok,
      keeps_first d name step n idx addr writes mid after records keeps,
    )

-- Of a global variable whose chunks, of at least one byte each, end at 16^7 or below no write is
-- kept, where all locations are padded to eight digits, as the parser writes them.
collect_chunks_low :
    (d : Dict (List AccessState)) (name : Text) (step n idx addr : ℕ) (writes : Dict AccessState)
    → addr + n * step ≤ 16 ^ 7
    → 1 ≤ step
    → IsPadded d
    → collect_chunks d name step n idx (hex addr) writes ≡ ok writes
unfolding collect_chunks
collect_chunks_low d name step zero idx addr writes l s p = refl
collect_chunks_low d name step (suc n) idx addr writes l s p =
    let none_here = lookup_low d addr (omega arith) p in
    rw (none_here, next_location-hex addr step)
      (collect_chunks_low d name step n (idx + 1) (addr + step) writes (omega arith) s p)
