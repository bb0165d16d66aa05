-- ===== src/Simulation/Readings/Writes.antt =====
-- The last writes to a range of memory, of
-- py_etiss_xvalid/entity/simulation/simulation_data_entry.py.
use etiss_xvalid.Base.{
  ℕ, zero, suc, ◌+◌, ◌*◌, ◌/◌, ◌^◌, ◌≤◌, ◌<◌, ◌≡◌, ◌≢◌, refl, sym, ap, ◌∙◌, Option, none, some,
  List, [], ◌∷◌, ◌++◌, arith, last?, last?-append, All, if◌then◌else◌, Bool-cases, inl, inr,
}
use etiss_xvalid.Base.Text.{Text, text_eq, text_eq→eq}
use etiss_xvalid.Base.Dict.{Dict, lookup, insert, lookup-insert}
use etiss_xvalid.Base.Hex.{hex, hex_08}
use etiss_xvalid.Base.Hex.RoundTrip.{int_16-hex, hex_08-ne-hex}
use etiss_xvalid.Base.Result.{ok}
use mathlib.Core.List.{append_assoc, append-nil}
use etiss_xvalid.Trace.{Access}
use etiss_xvalid.Simulation.Entry.{
  new_entry, or_no_accesses, AccessState, SimulationDataEntry, access_state, append_access,
  append_dwrite_instruction,
}
use etiss_xvalid.Simulation.Readings.{
  or_index_error, last_of, next_location, add_write, read_words, get_last_writes_to_mem_range,
}

-- the data of the last one of some writes
abbrev pub data_of_last : List AccessState → List Text
data_of_last [] = []
data_of_last (a ∷ []) = a.data_hex ∷ []
data_of_last (a ∷ b ∷ l) = data_of_last (b ∷ l)

abbrev data_if_written : Option (List AccessState) → List Text
data_if_written none = []
data_if_written (some l) = data_of_last l

-- the data of the last write to a location, if there is one
abbrev pub last_write : Dict (List AccessState) → Text → List Text
last_write d loc = data_if_written (lookup loc d)

-- the data of the last writes to `n` words from an address on
abbrev pub last_writes_from : Dict (List AccessState) → ℕ → ℕ → List Text
last_writes_from d zero addr = []
last_writes_from d (suc n) addr = last_write d (hex addr) ++ last_writes_from d n (addr + 4)

-- No location has an empty list of writes.
abbrev pub IsWritten : Dict (List AccessState) → Type 0
IsWritten d = (loc : Text) → lookup loc d ≢ some []

some-injective : {x y : List AccessState} → some x ≡ some y → x ≡ y
some-injective h = cc

-- After a data write, the last write to its location is that write, and the last write to any
-- other location is what it was.
append_dwrite_instruction-last :
    (a : Access) (e : SimulationDataEntry) (loc : Text)
    → last_of (lookup loc (append_dwrite_instruction a e).dwrites) ≡ (
        if text_eq a.location loc
        then some (ok (access_state e.index a))
        else last_of (lookup loc e.dwrites))
unfolding append_dwrite_instruction append_access
append_dwrite_instruction-last a e loc =
    let before = or_no_accesses (lookup a.location e.dwrites) in
    let i = lookup-insert a.location loc (before ++ access_state e.index a ∷ []) e.dwrites in
    rw i (elim (Bool-cases (text_eq a.location loc)) [
      | inl t ↦
          rw t (ap (λ o. some (or_index_error o)) (last?-append before (access_state e.index a)))
      | inr f ↦ rw f refl
    ])

append-ne-nil : (l : List AccessState) (a : AccessState) → l ++ a ∷ [] ≢ []
append-ne-nil [] a h = absurd cc
append-ne-nil (b ∷ l) a h = absurd cc

pub append_dwrite_instruction-IsWritten :
    (a : Access) (e : SimulationDataEntry)
    → IsWritten e.dwrites
    → IsWritten (append_dwrite_instruction a e).dwrites
unfolding append_dwrite_instruction append_access
append_dwrite_instruction-IsWritten a e h loc q =
    let before = or_no_accesses (lookup a.location e.dwrites) in
    let i = lookup-insert a.location loc (before ++ access_state e.index a ∷ []) e.dwrites in
    elim (Bool-cases (text_eq a.location loc)) [
      | inl t ↦ append-ne-nil before (access_state e.index a) (some-injective (sym (rw t at i) ∙ q))
      | inr f ↦ h loc (sym (rw f at i) ∙ q)
    ]

pub next_location-hex : (addr step : ℕ) → next_location (hex addr) step ≡ ok (hex (addr + step))
unfolding next_location
next_location-hex addr step = rw (int_16-hex addr) refl

last?-data :
    (a : AccessState) (l : List AccessState)
    → (x : AccessState) × (last? (a ∷ l) ≡ some x) × (data_of_last (a ∷ l) ≡ x.data_hex ∷ [])
last?-data a [] = (a, refl, refl)
last?-data a (b ∷ l) = last?-data b l

add_write-ok :
    (o : Option (List AccessState)) (writes : List Text)
    → o ≢ some []
    → add_write (last_of o) writes ≡ ok (writes ++ data_if_written o)
add_write-ok none writes h = ap ok (sym (append-nil writes))
add_write-ok (some []) writes h = absurd (h refl)
add_write-ok (some (a ∷ l)) writes h = let (x, e, f) = last?-data a l in rw (e, f) refl

read_words-ok :
    (d : Dict (List AccessState)) (n addr : ℕ) (writes : List Text)
    → IsWritten d
    → read_words d n (hex addr) writes ≡ ok (writes ++ last_writes_from d n addr)
unfolding read_words
read_words-ok d zero addr writes h = ap ok (sym (append-nil writes))
read_words-ok d (suc n) addr writes h =
    rw (add_write-ok (lookup (hex addr) d) writes (h (hex addr)), next_location-hex addr 4)
      (read_words-ok d n (addr + 4) (writes ++ last_write d (hex addr)) h
        ∙ ap ok (append_assoc writes (last_write d (hex addr)) (last_writes_from d n (addr + 4))))

-- The last writes to a range of memory are those to its whole words, in the order of their
-- addresses; a rest of fewer than four bytes is left out. No exception is raised, where no
-- location has an empty list of writes.
pub get_last_writes_to_mem_range-last :
    (mem_start bytes : ℕ) (e : SimulationDataEntry)
    → IsWritten e.dwrites
    → get_last_writes_to_mem_range mem_start bytes e
      ≡ ok (last_writes_from e.dwrites (bytes / 4) mem_start)
unfolding get_last_writes_to_mem_range
get_last_writes_to_mem_range-last mem_start bytes e h =
    let r = read_words-ok e.dwrites (bytes / 4) mem_start [] h in rw r refl

-- Every location is a text of eight digits or more, as the parser writes them.
abbrev pub IsPadded : Dict (List AccessState) → Type 0
IsPadded d = All (λ kv. (n : ℕ) × (kv.0 ≡ hex_08 n)) d

insert-IsPadded :
    (n : ℕ) (k : Text) (v : List AccessState) (d : Dict (List AccessState))
    → k ≡ hex_08 n
    → IsPadded d
    → IsPadded (insert k v d)
unfolding insert
insert-IsPadded n k v [] p h = ((n, p), tt)
insert-IsPadded n k v ((j, w) ∷ d) p h = elim (Bool-cases (text_eq j k)) [
  | inl t ↦ rw t h
  | inr f ↦ rw f (h.0, insert-IsPadded n k v d p h.1)
]

pub append_dwrite_instruction-IsPadded :
    (n : ℕ) (a : Access) (e : SimulationDataEntry)
    → a.location ≡ hex_08 n
    → IsPadded e.dwrites
    → IsPadded (append_dwrite_instruction a e).dwrites
unfolding append_dwrite_instruction append_access
append_dwrite_instruction-IsPadded n a e p h =
    insert-IsPadded n a.location
      (or_no_accesses (lookup a.location e.dwrites) ++ access_state e.index a ∷ []) e.dwrites p h

pub lookup_low :
    (d : Dict (List AccessState)) (addr : ℕ)
    → addr < 16 ^ 7
    → IsPadded d
    → lookup (hex addr) d ≡ none
unfolding lookup
lookup_low [] addr l h = refl
lookup_low ((k, v) ∷ d) addr l h = elim (Bool-cases (text_eq k (hex addr))) [
  | inl t ↦ absurd (hex_08-ne-hex h.0.0 addr l (sym h.0.1 ∙ text_eq→eq k (hex addr) t))
  | inr f ↦ rw f (lookup_low d addr l h.1)
]

last_writes_from_low :
    (d : Dict (List AccessState)) (n addr : ℕ)
    → addr + n * 4 ≤ 16 ^ 7
    → IsPadded d
    → last_writes_from d n addr ≡ []
last_writes_from_low d zero addr l h = refl
last_writes_from_low d (suc n) addr l h =
    let none_here = lookup_low d addr (omega arith) h in
    rw none_here (last_writes_from_low d n (addr + 4) (omega arith) h)

-- Of a range of memory that ends at 16^7 or below no write is found, in an entry whose locations
-- are all padded to eight digits, as the parser writes them, and have writes.
pub get_last_writes_to_mem_range_low :
    (mem_start bytes : ℕ) (e : SimulationDataEntry)
    → mem_start + bytes ≤ 16 ^ 7
    → IsWritten e.dwrites
    → IsPadded e.dwrites
    → get_last_writes_to_mem_range mem_start bytes e ≡ ok []
get_last_writes_to_mem_range_low mem_start bytes e l w h =
    get_last_writes_to_mem_range-last mem_start bytes e w
    ∙ ap ok (last_writes_from_low e.dwrites (bytes / 4) mem_start (omega arith) h)

-- A new entry has no writes.
pub new_entry-IsWritten : IsWritten new_entry.dwrites
unfolding lookup
new_entry-IsWritten loc h = absurd cc
