-- ===== src/Tests/Entries.antt =====
-- py_etiss_xvalid/entity/simulation/simulation_data_entry.py on concrete writes.
use etiss_xvalid.Base.{◌≡◌, refl, [], ◌∷◌, arith}
use etiss_xvalid.Base.Text.{Text, codes, text_eq}
use etiss_xvalid.Base.Dict.{Dict, lookup, insert}
use etiss_xvalid.Base.Hex.{hex, int_16, hex_08}
use etiss_xvalid.Base.Result.{ok}
use etiss_xvalid.Trace.{Access}
use etiss_xvalid.Simulation.Entry.{
  SimulationDataEntry, AccessState, new_entry, append_access, append_dwrite_instruction,
}
use etiss_xvalid.Simulation.Readings.{get_last_writes_to_mem_range}
use etiss_xvalid.Base.Decimal.{str_of}
use etiss_xvalid.Simulation.Readings.{collect_chunks, chunk_key}
use etiss_xvalid.Simulation.Readings.Globals.{KeepsLastWrites, collect_chunks-last}
use etiss_xvalid.Simulation.Readings.Writes.{
  new_entry-IsWritten, append_dwrite_instruction-IsWritten, append_dwrite_instruction-IsPadded,
  get_last_writes_to_mem_range-last, get_last_writes_to_mem_range_low,
}

abbrev write_at : Text → Access
write_at location = record {
  pc = 256;
  location = location;
  byte_size = 4;
  data_hex = codes "010203FF";
}

abbrev written_at : Text → SimulationDataEntry
written_at location = append_dwrite_instruction (write_at location) new_entry

get_last_writes_to_mem_range-last_example :
    get_last_writes_to_mem_range 536870912 6 (written_at (codes "20000000"))
    ≡ ok (codes "010203FF" ∷ [])
unfolding append_dwrite_instruction append_access lookup insert text_eq hex
get_last_writes_to_mem_range-last_example =
    get_last_writes_to_mem_range-last 536870912 6 (written_at (codes "20000000")) (
      append_dwrite_instruction-IsWritten (write_at (codes "20000000")) new_entry
        new_entry-IsWritten)

get_last_writes_to_mem_range_low_example :
    get_last_writes_to_mem_range 4096 4 (written_at (hex_08 4096)) ≡ ok []
get_last_writes_to_mem_range_low_example =
    get_last_writes_to_mem_range_low 4096 4 (written_at (hex_08 4096)) (omega arith)
      (append_dwrite_instruction-IsWritten (write_at (hex_08 4096)) new_entry new_entry-IsWritten)
      (append_dwrite_instruction-IsPadded 4096 (write_at (hex_08 4096)) new_entry refl tt)

-- `counter` is written twice.
abbrev counter_writes : SimulationDataEntry
counter_writes =
    append_dwrite_instruction
      (record { pc = 260; location = codes "20000000"; byte_size = 4; data_hex = codes "00000007" })
      (written_at (codes "20000000"))

abbrev last_access : AccessState
last_access = record {
  idx = 1;
  location = codes "20000000";
  pc = 260;
  byte_size = 4;
  data_hex = codes "00000007";
}

collect_chunks-last_example :
    (after : Dict AccessState) × (collect_chunks counter_writes.dwrites
        (codes "counter")
        4
        2
        0
        (hex 536870912)
        []
      ≡ ok after)
    × KeepsLastWrites counter_writes.dwrites (codes "counter") 4 2 0 536870912 [] after
collect_chunks-last_example =
    collect_chunks-last counter_writes.dwrites (codes "counter") 4 2 0 536870912 [] (
      append_dwrite_instruction-IsWritten _ (written_at (codes "20000000")) (
        append_dwrite_instruction-IsWritten (write_at (codes "20000000")) new_entry
          new_entry-IsWritten))

-- The variable's second write is under its first key.
counter_collected :
    collect_chunks counter_writes.dwrites (codes "counter") 4 2 0 (hex 536870912) []
    ≡ ok ((codes "counter:0", last_access) ∷ [])
unfolding collect_chunks append_dwrite_instruction append_access lookup insert text_eq hex chunk_key
    str_of int_16
counter_collected = refl
