-- ===== src/Trace/Parser.antt =====
-- py_etiss_xvalid/util/trace_parser.py. A file is the list of its bytes; `f.read(n)` gives what is
-- left where that is less than `n`.
pub mod Raw
pub mod SnapshotBytes
pub mod AccessBytes
pub mod RoundTrip
use etiss_xvalid.Base.{
  ℕ, zero, suc, ◌+◌, ◌-◌, ◌*◌, ◌/◌, ◌%◌, Bool, true, false, List, [], ◌∷◌, ◌++◌, ltb, ◌==◌,
  if◌then◌else◌, length, take, drop,
}
use etiss_xvalid.Base.Text.{Text}
use etiss_xvalid.Base.Bytes.{le, words, hex_upper}
use etiss_xvalid.Base.Hex.{hex_08}
use etiss_xvalid.Base.Result.{Result, ok, err, ◌>>=◌, value_error}
use etiss_xvalid.Trace.{Snapshot, Access, TraceEntry, state_snapshot, dwrite, dread}

abbrev header_byte_size : ℕ
header_byte_size = 4

abbrev type_state_snapshot : ℕ
type_state_snapshot = 1

abbrev type_data_write : ℕ
type_data_write = 2

abbrev type_data_read : ℕ
type_data_read = 3

abbrev state_snapshot_byte_size : ℕ
state_snapshot_byte_size = 412

abbrev data_write_byte_size : ℕ
data_write_byte_size = 84

abbrev data_read_byte_size : ℕ
data_read_byte_size = 84

-- `b.split(b'\x00', 1)[0].decode('ascii', errors='ignore')`
unfoldable pub c_string : List ℕ → Text
c_string [] = []
c_string (b ∷ bs) =
    let rest = c_string bs in if b == 0 then [] else if ltb b 128 then b ∷ rest else rest

-- The format '<III32I32Q16s' has 412 bytes.
unfoldable pub parse_state_snapshot : List ℕ → Result Snapshot
unfolding c_string
parse_state_snapshot bytes =
    let expected_size : ℕ = 412 in
    if length bytes == expected_size
    then ok (record {
      pc = le (take 4 (drop 4 bytes));
      sp = le (take 4 (drop 8 bytes));
      x = words 4 32 (drop 12 bytes);
      f = words 8 32 (drop 140 bytes);
      instruction = c_string (take 16 (drop 396 bytes));
    })
    else err value_error

-- The format '<IIQI64s' has 84 bytes. The kind is the entry's constructor.
unfoldable pub parse_memory_access : List ℕ → Result Access
parse_memory_access bytes =
    let expected_size : ℕ = 84 in
    let byte_size = le (take 4 (drop 16 bytes)) in
    if length bytes == expected_size
    then ok (record {
      pc = le (take 4 (drop 4 bytes));
      location = hex_08 (le (take 8 (drop 8 bytes)));
      byte_size = byte_size;
      data_hex = hex_upper (take byte_size (take 64 (drop 20 bytes)));
    })
    else err value_error

unfoldable pub parse_dwrite : List ℕ → Result TraceEntry
parse_dwrite bytes = do a ← parse_memory_access bytes; ok (dwrite a)

unfoldable pub parse_dread : List ℕ → Result TraceEntry
parse_dread bytes = do a ← parse_memory_access bytes; ok (dread a)

abbrev pub parse_snapshot_entry : List ℕ → Result TraceEntry
parse_snapshot_entry bytes = do s ← parse_state_snapshot bytes; ok (state_snapshot s)

-- One round of the loop on the bytes that are left: what it appends and what it leaves, or the end.
pub data Round : Type 0 where
  stop : Round
  parsed : Result TraceEntry → List ℕ → Round

unfoldable pub read_round : List ℕ → Round
read_round bytes =
    let header = take header_byte_size bytes in
    let entry_type = le header in
    if ltb (length header) header_byte_size
    then stop
    else if entry_type == type_state_snapshot
    then parsed (parse_snapshot_entry (take state_snapshot_byte_size bytes))
        (drop state_snapshot_byte_size bytes)
    else if entry_type == type_data_write
    then parsed (parse_dwrite (take data_write_byte_size bytes)) (drop data_write_byte_size bytes)
    else if entry_type == type_data_read
    then parsed (parse_dread (take data_read_byte_size bytes)) (drop data_read_byte_size bytes)
    else stop

-- Each round that goes on takes bytes away, so the number of bytes is fuel enough.
unfoldable pub read_loop : ℕ → List ℕ → Result (List TraceEntry)
read_loop zero bytes = ok []
read_loop (suc fuel) bytes = elim (read_round bytes) [
  | stop ↦ ok []
  | parsed entry rest ↦ entry >>= λ e. read_loop fuel rest >>= λ entries. ok (e ∷ entries)
]

unfoldable pub parse_trace_file : List ℕ → Result (List TraceEntry)
parse_trace_file bytes = read_loop (length bytes) bytes
