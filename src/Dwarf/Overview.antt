-- ===== src/Dwarf/Overview.antt =====
-- The `__str__` methods of py_etiss_xvalid/entity/dwarf/: subprogram.py, frame_base_info.py,
-- compilation_unit.py and dwarf_info.py.
pub mod Shown
use etiss_xvalid.Base.{
  ℕ, Bool, true, false, Option, none, some, List, [], ◌∷◌, ◌++◌, if◌then◌else◌, is_empty,
}
use etiss_xvalid.Base.Text.{Text, codes}
use etiss_xvalid.Base.Decimal.{str_of}
use etiss_xvalid.Base.Int.{ℤ, str_of_ℤ}
use etiss_xvalid.Base.Dict.{Dict}
use etiss_xvalid.Base.Result.{Result, ok, ◌>>=◌}
use etiss_xvalid.Dwarf.Types.{DwarfType, missing, get_base, get_range}
use etiss_xvalid.Dwarf.Info.{FrameBaseInfo, Variable, Subprogram, CompileUnit, DwarfInfo}
use etiss_xvalid.Dwarf.Show.{str_type, str_number, str_text, line, range_line, str_variable}

abbrev str_offset : Option ℤ → Text
str_offset none = codes "None"
str_offset (some offset) = str_of_ℤ offset

-- `FrameBaseInfo.__str__`
unfoldable pub str_frame : FrameBaseInfo → Text
unfolding str_of str_of_ℤ
str_frame i = line 4 (
    codes "├── pc: "
    ++ (str_of i.pc
        ++ (codes ", reg value: "
            ++ (str_number i.reg ++ (codes ", offset: " ++ str_offset i.offset)))))

unfoldable pub str_frames : List FrameBaseInfo → Text
unfolding str_frame
str_frames [] = []
str_frames (i ∷ frames) = str_frame i ++ str_frames frames

abbrev frame_lines : List FrameBaseInfo → Text
frame_lines [] = []
frame_lines (i ∷ frames) =
    line 2 (codes "  ├ CFA register values and offsets:") ++ str_frames (i ∷ frames)

unfoldable pub typed_lines : DwarfType → Result Text
unfolding get_base get_range str_type
typed_lines t = do
  info ← get_base t
  range ← get_range t
  ok (
      line 2 (codes "  ├ Type composition: " ++ str_type t)
      ++ (line 2 (codes "  ├ Base type: " ++ info.type_name)
          ++ (line 2 (codes "  ├ Base type byte size: " ++ str_number info.byte_size)
              ++ range_line 2 (codes "  ├ Range: ") range info.byte_size)))

-- the lines on a subprogram's type, which is `None` for void
unfoldable pub return_lines : DwarfType → Result Text
unfolding typed_lines
return_lines missing = ok (line 2 (codes "  ├ Type composition: void"))
return_lines t = typed_lines t

-- `Subprogram.__str__`
unfoldable pub str_subprogram : Subprogram → Result Text
unfolding str_frames return_lines str_of
str_subprogram s = do
  type_text ← return_lines s.type_info
  ok (
      line 2 (codes "> Subprogram:")
      ++ (line 2 (codes "  ┌ Name: " ++ s.name)
          ++ (frame_lines s.frame_base_infos
              ++ (type_text
                  ++ (line 2 (codes "  ├ Low-PC: " ++ str_of s.low_pc)
                      ++ line 2 (codes "  └ High-PC: " ++ str_of s.high_pc))))))

abbrev str_bool : Bool → Text
str_bool true = codes "True"
str_bool false = codes "False"

-- `CompileUnit.__str__`
unfoldable pub str_compile_unit : CompileUnit → Text
str_compile_unit u =
    line 2 (codes "┌ Architecture: " ++ str_text u.march)
    ++ (line 2 (codes "├ ABI: " ++ str_text u.mabi)
        ++ (line 2 (codes "├ ISA specification: " ++ str_text u.misa_spec)
            ++ line 2 (codes "└ Little endian: " ++ str_bool u.little_endian)))

unfoldable pub str_variables : (indent : ℕ) → List Variable → Result Text
unfolding str_variable
str_variables indent [] = ok []
str_variables indent (v ∷ vs) = do
  first ← str_variable indent v
  others ← str_variables indent vs
  ok (first ++ others)

-- variables under a title, which an empty list does not have
abbrev titled : ℕ → Text → List Variable → Text → Text
titled indent title vs text = if is_empty vs then [] else line indent title ++ text

-- one round of the loop over the subprograms
unfoldable pub subprogram_overview : Subprogram → Result Text
unfolding str_subprogram str_variables
subprogram_overview s = do
  head ← str_subprogram s
  parameters ← str_variables 6 s.formal_parameters
  locals ← str_variables 6 s.local_variables
  ok (
      head
      ++ (titled 6 (codes "> Formal parameters:") s.formal_parameters parameters
          ++ titled 6 (codes "> Local variables:") s.local_variables locals))

unfoldable pub subprograms_overview : Dict Subprogram → Result Text
unfolding subprogram_overview
subprograms_overview [] = ok []
subprograms_overview ((k, s) ∷ rest) = do
  first ← subprogram_overview s
  others ← subprograms_overview rest
  ok (first ++ others)

-- `DwarfInfo.__str__`
unfoldable pub str_dwarf_info : DwarfInfo → Result Text
unfolding str_compile_unit str_variables subprograms_overview
str_dwarf_info d = do
  global_text ← str_variables 2 d.global_variables
  subprogram_text ← subprograms_overview d.subprograms
  ok (
      line 0 (codes "DWARF debug information overview")
      ++ (line 2 (codes "| Binary: " ++ d.binary_name)
          ++ (line 2 (codes "| Source File: " ++ d.source_file)
              ++ (line 2 (codes "| Function of interest: " ++ d.function_of_interest)
                  ++ (line 0 (codes "Extracted DWARF debug information:")
                      ++ (str_compile_unit d.compilation_unit
                          ++ (titled 2 (codes "> Global variables:") d.global_variables global_text
                              ++ subprogram_text)))))))
