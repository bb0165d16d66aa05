-- ===== src/Tests/Files.antt =====
-- py_etiss_xvalid/dwarf_simdata_merger.py on the file of a trace.
use etiss_xvalid.Base.{
  ℕ, ◌<◌, ◌≤◌, length, ◌^◌, All, ◌≡◌, refl, subst, sym, List, [], ◌∷◌, map, arith, replicate,
}
use etiss_xvalid.Base.Text.{Text, text_eq}
use etiss_xvalid.Base.Hex.{hex_08, hex}
use etiss_xvalid.Base.Bytes.{hex_upper}
use etiss_xvalid.Dwarf.Info.{get_enclosing_subprogram, find_subprogram}
use etiss_xvalid.Base.Run.{done}
use etiss_xvalid.Trace.Parser.Raw.{
  RawEntry, raw_snapshot, raw_write, write_trace, read_entry, Fits, RawSnapshot, IsCharacter,
}
use etiss_xvalid.Merger.Action.{cswsp, cjr, action, snapshot_action}
use etiss_xvalid.Merger.Construct.{build_simulation_entries}
use etiss_xvalid.Merger.Groups.{
  Groups, group, no_group_unreturned, goes_on_unreturned, trace_ends,
  build_simulation_entries-Groups,
}
use etiss_xvalid.Tests.Programs.{program, nested_trace, nested_calls, entry_of_f, entry_of_g}

abbrev instruction_at : ℕ → Text → RawSnapshot
instruction_at pc instruction = record {
  pc = pc;
  sp = 4096;
  x = replicate 32 0;
  f = replicate 32 0;
  instruction = instruction;
}

abbrev raw_at : ℕ → Text → RawEntry
raw_at pc instruction = raw_snapshot (instruction_at pc instruction)

raw_at-Fits :
    (pc : ℕ) (instruction : Text)
    → pc < 256 ^ 4
    → All IsCharacter instruction
    → length instruction ≤ 16
    → Fits (raw_at pc instruction)
raw_at-Fits pc instruction small characters short = record {
  pc = small;
  sp = omega arith;
  x_length = refl;
  x = omega arith;
  f_length = refl;
  f = omega arith;
  characters = characters;
  short = short;
}

entry-Fits : (pc : ℕ) → pc < 256 ^ 4 → Fits (raw_at pc cswsp)
entry-Fits pc small = raw_at-Fits pc cswsp small (omega arith) (omega arith)

return-Fits : (pc : ℕ) → pc < 256 ^ 4 → Fits (raw_at pc cjr)
return-Fits pc small = raw_at-Fits pc cjr small (omega arith) (omega arith)

-- the entries of the nested calls, as they are written
abbrev raw_nested : List RawEntry
raw_nested =
    raw_at 256 cswsp
    ∷ raw_write (record { pc = 260; address = 536870912; bytes = 1 ∷ 0 ∷ 0 ∷ 0 ∷ [] })
    ∷ raw_at 276 cswsp
    ∷ raw_at 284 cjr
    ∷ raw_at 268 cjr
    ∷ raw_at 256 cswsp
    ∷ []

read_nested : map read_entry raw_nested ≡ nested_trace
unfolding hex_08 hex hex_upper
read_nested = refl

raw-Fits : All Fits raw_nested
raw-Fits = (
  entry-Fits 256 (omega arith),
  (
    record { pc = omega arith; address = omega arith; size = omega arith },
    (
      entry-Fits 276 (omega arith),
      (
        return-Fits 284 (omega arith),
        (return-Fits 268 (omega arith), (entry-Fits 256 (omega arith), tt)),
      ),
    ),
  ),
)

nested-Groups : Groups program nested_trace ((entry_of_g ∷ entry_of_f ∷ []) ∷ [])
unfolding action snapshot_action get_enclosing_subprogram find_subprogram text_eq
nested-Groups = group nested_calls (no_group_unreturned (goes_on_unreturned refl trace_ends))

build_simulation_entries-Groups_example :
    build_simulation_entries program (write_trace raw_nested)
    ≡ done ((entry_of_g ∷ entry_of_f ∷ []) ∷ [])
build_simulation_entries-Groups_example =
    build_simulation_entries-Groups program raw_nested ((entry_of_g ∷ entry_of_f ∷ []) ∷ [])
      raw-Fits
      (subst (λ ts. Groups program ts ((entry_of_g ∷ entry_of_f ∷ []) ∷ [])) (sym read_nested)
        nested-Groups)
