-- ===== src/Simulation/Readings.antt =====
-- The methods of py_etiss_xvalid/entity/simulation/simulation_data_entry.py that read an entry: the
-- writes to variables, memory ranges and parameters, and the invoke chain.
pub mod Writes
pub mod Globals
use etiss_xvalid.Base.{
  ℕ, zero, suc, ◌+◌, ◌-◌, ◌/◌, Bool, true, false, Option, none, some, List, [], ◌∷◌, ◌++◌, ltb,
  ◌==◌, if◌then◌else◌, length, get_or, last?, drop,
}
use etiss_xvalid.Base.Division.{ceil_div}
use etiss_xvalid.Base.Text.{Text, codes}
use etiss_xvalid.Base.Dict.{Dict, lookup, insert}
use etiss_xvalid.Base.Hex.{hex, int_16}
use etiss_xvalid.Base.Int.{ℤ, add_offset, hex_of_ℤ}
use etiss_xvalid.Base.Decimal.{str_of}
use etiss_xvalid.Base.Result.{
  Exn, Result, ok, err, ◌>>=◌, index_error, type_error, verification_process_exception,
}
use etiss_xvalid.Trace.{Access}
use etiss_xvalid.Dwarf.Types.{DwarfType, array, get_base, get_range}
use etiss_xvalid.Dwarf.Location.{global_location_value}
use etiss_xvalid.Dwarf.Info.{Variable, DwarfInfo, get_number_of_elements}
use etiss_xvalid.Simulation.Entry.{AccessState, SimulationDataEntry}

abbrev pub or_index_error : Option AccessState → Result AccessState
or_index_error none = err index_error
or_index_error (some a) = ok a

-- `self.dwrites[loc][-1]` where `loc` is a key
abbrev pub last_of : Option (List AccessState) → Option (Result AccessState)
last_of none = none
last_of (some l) = some (or_index_error (last? l))

unfoldable pub next_location : Text → ℕ → Result Text
next_location loc step = do n ← int_16 loc; ok (hex (n + step))

-- the key f"{name}:{idx}"
unfoldable pub chunk_key : Text → ℕ → Text
chunk_key name idx = name ++ (b':' ∷ str_of idx)

abbrev pub record_write :
    Text → Option (Result AccessState) → Dict AccessState → Result (Dict AccessState)
record_write key none writes = ok writes
record_write key (some (err e)) writes = err e
record_write key (some (ok a)) writes = ok (insert key a writes)

-- One round for each of the `n` chunks left: the last write to the chunk's location is kept under
-- the chunk's key, and the location moves on by `step` bytes.
unfoldable pub collect_chunks :
    Dict (List AccessState)
    → Text
    → (step n idx : ℕ) → Text
    → Dict AccessState
    → Result (Dict AccessState)
unfolding lookup insert next_location chunk_key
collect_chunks dwrites name step zero idx loc writes = ok writes
collect_chunks dwrites name step (suc n) idx loc writes = do
  writes' ← record_write (chunk_key name idx) (last_of (lookup loc dwrites)) writes
  loc' ← next_location loc step
  collect_chunks dwrites name step n (idx + 1) loc' writes'

abbrev sized {ℓ} : {A : Type ℓ} → Option ℕ → (ℕ → Result A) → Result A
sized none k = err type_error
sized (some n) k = k n

-- An array is read by its elements, anything else in blocks of four bytes. A loop of no rounds asks
-- for no element size.
abbrev collect_array :
    Dict (List AccessState)
    → Text
    → Text
    → ℕ
    → Option ℕ
    → Dict AccessState
    → Result (Dict AccessState)
collect_array dwrites name loc zero size writes = ok writes
collect_array dwrites name loc (suc n) size writes =
    sized size (λ step. collect_chunks dwrites name step (suc n) 0 loc writes)

unfoldable pub collect_variable :
    Dict (List AccessState) → Variable → Text → Dict AccessState → Result (Dict AccessState)
unfolding collect_chunks
collect_variable dwrites v loc writes = elim v.type_info [
  | array t dimensions l ↦ (do
    n ← get_number_of_elements v
    base ← get_base v.type_info
    collect_array dwrites v.name loc n base.byte_size writes)
  | _ ↦ (do
    byte_size ← get_range v.type_info
    sized byte_size (λ size. collect_chunks dwrites v.name 4 (ceil_div size 4) 0 loc writes))
]

-- `if not loc: continue`
unfoldable pub collect_variables :
    Dict (List AccessState) → List Variable → Dict AccessState → Result (Dict AccessState)
unfolding collect_variable
collect_variables dwrites [] writes = ok writes
collect_variables dwrites (v ∷ vs) writes = elim (global_location_value v.location) [
  | none ↦ collect_variables dwrites vs writes
  | some loc ↦
      collect_variable dwrites v loc writes >>= λ writes'. collect_variables dwrites vs writes'
]

unfoldable pub get_last_writes_to_global_var_locations :
    SimulationDataEntry → Result (Dict AccessState)
unfolding collect_variables
get_last_writes_to_global_var_locations e = collect_variables e.dwrites e.global_variables []

abbrev pub add_write : Option (Result AccessState) → List Text → Result (List Text)
add_write none writes = ok writes
add_write (some (err e)) writes = err e
add_write (some (ok a)) writes = ok (writes ++ a.data_hex ∷ [])

unfoldable pub read_words : Dict (List AccessState) → ℕ → Text → List Text → Result (List Text)
unfolding lookup next_location
read_words dwrites zero addr writes = ok writes
read_words dwrites (suc n) addr writes = do
  writes' ← add_write (last_of (lookup addr dwrites)) writes
  addr' ← next_location addr 4
  read_words dwrites n addr' writes'

-- `except Exception as e: raise VerificationProcessException(...)`
abbrev pub as_verification_error {ℓ} : {A : Type ℓ} → Result A → Result A
as_verification_error (ok a) = ok a
as_verification_error (err e) = err verification_process_exception

-- The source's `ceil(bytes // xlen_bytes)` has rounded down before `ceil` sees it.
unfoldable pub get_last_writes_to_mem_range : ℕ → ℕ → SimulationDataEntry → Result (List Text)
unfolding read_words
get_last_writes_to_mem_range mem_start bytes e =
    as_verification_error (read_words e.dwrites (bytes / 4) (hex mem_start) [])

-- ' -> '.join(chain)
unfoldable pub join_chain : List Text → Text
join_chain [] = []
join_chain (t ∷ []) = t
join_chain (t ∷ u ∷ ts) = t ++ (codes " -> " ++ join_chain (u ∷ ts))

unfoldable pub get_invoke_chain : SimulationDataEntry → Text
unfolding join_chain
get_invoke_chain e =
    let chain = e.invoke_chain in
    if ltb (length chain) 4
    then join_chain chain
    else codes "… -> " ++ join_chain (drop (length chain - 3) chain)

abbrev first_write : Text → Option (List AccessState) → Dict AccessState → Result (Dict AccessState)
first_write name none writes = ok writes
first_write name (some []) writes = err index_error
first_write name (some (a ∷ l)) writes = ok (insert name a writes)

unfoldable pub first_writes :
    Dict (List AccessState) → Dict Text → Dict AccessState → Result (Dict AccessState)
unfolding lookup insert
first_writes dwrites [] writes = ok writes
first_writes dwrites ((name, loc) ∷ params) writes = do
  writes' ← first_write name (lookup loc dwrites) writes
  first_writes dwrites params writes'

unfoldable pub get_first_writes_to_formal_params : SimulationDataEntry → Result (Dict AccessState)
unfolding first_writes
get_first_writes_to_formal_params e = first_writes e.dwrites e.formal_param_locations []
