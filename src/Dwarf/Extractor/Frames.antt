-- ===== src/Dwarf/Extractor/Frames.antt =====
-- `extract_cfa_register_values_and_offsets` of py_etiss_xvalid/dwarf_info_extractor.py.
pub mod Outcomes
pub mod Changes
use etiss_xvalid.Base.{ℕ, Bool, Option, List, [], ◌∷◌}
use etiss_xvalid.Base.Int.{ℤ}
use etiss_xvalid.Base.Result.{Result, ok, ◌>>=◌}
use etiss_xvalid.Dwarf.Info.{
  FrameBaseInfo, DwarfInfo, has_subprogram_with_pc_as_low_pc, add_frame_base_info_at,
}

-- The rule of pyelftools for a frame address: a register and an offset, or an expression, which has
-- neither.
pub record CfaRule : Type 0 where
  pub reg : Option ℕ
  pub offset : Option ℤ

-- A row that pyelftools has decoded: what `row['pc']` and `row['cfa']` give, or raise where the row
-- has no such key.
pub record CfiRow : Type 0 where
  pub pc : Result ℕ
  pub cfa : Result CfaRule

-- An entry of the section on call frames: a frame's description, with the address in its header,
-- which pyelftools reads of every entry with its range, and what its decoding gives or raises; or
-- another.
pub data CfiEntry : Type 0 where
  fde : (initial_location : ℕ) (decoded : Result (List CfiRow)) → CfiEntry
  other_cfi : CfiEntry

abbrev pub frame_base_info_of : CfiRow → Result FrameBaseInfo
frame_base_info_of row = do
  row_pc ← row.pc
  rule ← row.cfa
  ok (record { pc = row_pc; reg = rule.reg; offset = rule.offset })

unfoldable pub add_rows : (initial_location : ℕ) → List CfiRow → DwarfInfo → Result DwarfInfo
unfolding add_frame_base_info_at
add_rows initial_location [] extracted = ok extracted
add_rows initial_location (row ∷ rows) extracted = do
  info ← frame_base_info_of row
  further ← add_frame_base_info_at info initial_location extracted
  add_rows initial_location rows further

unfoldable pub extract_frame : CfiEntry → DwarfInfo → Result DwarfInfo
unfolding has_subprogram_with_pc_as_low_pc add_rows
extract_frame other_cfi extracted = ok extracted
extract_frame (fde initial_location decoded) extracted =
    elim (has_subprogram_with_pc_as_low_pc extracted initial_location) [
      | Bool.false ↦ ok extracted
      | Bool.true ↦ decoded >>= λ table. add_rows initial_location table extracted
    ]

unfoldable pub extract_cfa_register_values_and_offsets :
    List CfiEntry → DwarfInfo → Result DwarfInfo
unfolding extract_frame
extract_cfa_register_values_and_offsets [] extracted = ok extracted
extract_cfa_register_values_and_offsets (entry ∷ entries) extracted = do
  further ← extract_frame entry extracted
  extract_cfa_register_values_and_offsets entries further
