-- ===== src/Verification/Normalize.antt =====
-- `normalize_variable_data` of py_etiss_xvalid/verification_stage.py: the writes to a variable's
-- chunks, joined in the order of their addresses.
pub mod Sorting
pub mod Splitting
use etiss_xvalid.Base.{
  ℕ, ◌%◌, Bool, true, false, Option, none, some, List, [], ◌∷◌, ◌++◌, ltb, ◌==◌, if◌then◌else◌,
  length,
}
use etiss_xvalid.Base.Text.{Text}
use etiss_xvalid.Base.Dict.{Dict, lookup, insert}
use etiss_xvalid.Base.Hex.{int_16}
use etiss_xvalid.Base.Result.{Result, ok, err, ◌>>=◌, value_error}
use etiss_xvalid.Simulation.Entry.{AccessState}
use etiss_xvalid.March.MemoryValue.{bytes_of_hex}

-- whether a text has a colon
unfoldable pub has_colon : Text → Bool
has_colon [] = false
has_colon (c ∷ t) = if c == 58 then true else has_colon t

-- `name, idx = key.split(':')` raises where there is not exactly one colon.
unfoldable pub name_of_key : Text → Result Text
unfolding has_colon
name_of_key [] = err value_error
name_of_key (c ∷ t) =
    let rest = name_of_key t in
    if c == 58
    then (if has_colon t then err value_error else ok [])
    else (rest >>= λ name. ok (c ∷ name))

-- `data.zfill(len + len % 2)`
abbrev even_digits : Text → Text
even_digits t = if length t % 2 == 1 then 48 ∷ t else t

abbrev pub Chunk : Type 0
Chunk = ℕ × List ℕ

abbrev or_no_chunks : Option (List Chunk) → List Chunk
or_no_chunks none = []
or_no_chunks (some l) = l

-- `normalized[name].append((address, data))`
unfoldable pub append_chunk : Text → Chunk → Dict (List Chunk) → Dict (List Chunk)
unfolding lookup insert
append_chunk name c normalized =
    insert name (or_no_chunks (lookup name normalized) ++ c ∷ []) normalized

unfoldable pub chunks_by_name : Dict AccessState → Dict (List Chunk) → Result (Dict (List Chunk))
unfolding name_of_key int_16 bytes_of_hex append_chunk
chunks_by_name [] normalized = ok normalized
chunks_by_name ((key, value) ∷ entries) normalized = do
  name ← name_of_key key
  address ← int_16 value.location
  data' ← bytes_of_hex (even_digits value.data_hex)
  chunks_by_name entries (append_chunk name (address, data') normalized)

-- `sort(key=lambda x: x[0])` is stable: a chunk goes behind those with the same address.
unfoldable pub insert_chunk : Chunk → List Chunk → List Chunk
insert_chunk c [] = c ∷ []
insert_chunk c (d ∷ ds) = if ltb c.0 d.0 then c ∷ d ∷ ds else d ∷ insert_chunk c ds

unfoldable pub sort_chunks : List Chunk → List Chunk → List Chunk
unfolding insert_chunk
sort_chunks sorted [] = sorted
sort_chunks sorted (c ∷ cs) = sort_chunks (insert_chunk c sorted) cs

unfoldable pub join_chunks : List Chunk → List ℕ
join_chunks [] = []
join_chunks (c ∷ cs) = c.1 ++ join_chunks cs

unfoldable pub join_all : Dict (List Chunk) → Dict (List ℕ)
unfolding sort_chunks join_chunks
join_all [] = []
join_all ((name, cs) ∷ rest) = (name, join_chunks (sort_chunks [] cs)) ∷ join_all rest

unfoldable pub normalize_variable_data : Dict AccessState → Result (Dict (List ℕ))
unfolding chunks_by_name join_all
normalize_variable_data var_entries =
    chunks_by_name var_entries [] >>= λ normalized. ok (join_all normalized)
