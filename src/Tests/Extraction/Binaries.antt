-- ===== src/Tests/Extraction/Binaries.antt =====
-- py_etiss_xvalid/dwarf_info_extractor.py on a small binary.
use etiss_xvalid.Base.{◌≡◌, refl, true, false, none, some, List, [], ◌∷◌, map}
use etiss_xvalid.Base.Text.{Text, codes, text_eq}
use etiss_xvalid.Base.Utf8.{decode_utf_8}
use etiss_xvalid.Base.Int.{pos}
use etiss_xvalid.Base.Dict.{Dict, lookup, insert}
use etiss_xvalid.Base.Result.{ok, err, type_error, key_error, dwarf_extraction_exception, Returns}
use etiss_xvalid.Dwarf.Types.{base}
use etiss_xvalid.Dwarf.Info.{
  Variable, Subprogram, DwarfInfo, FrameBaseInfo, get_subprogram_of_interest,
  get_subprogram_with_pc_as_low_pc, find_subprogram,
}
use etiss_xvalid.Dwarf.Extractor.Die.{
  Attribute, number, variable_tag, subprogram_tag, formal_parameter_tag, other_tag, die, Dies,
  no_die, child, text_at, get_value, get_die_from_attribute,
}
use etiss_xvalid.Dwarf.Extractor.Place.{UnitHeader}
use etiss_xvalid.Dwarf.Extractor.Traversal.{
  variable_name, extract_variable, extract_subprogram, die_extract_recurser, extract_children,
}
use etiss_xvalid.Dwarf.Extractor.Traversal.Locals.{
  HasLocals, no_more, parameter, local, other, with_locals, die_extract_recurser-HasLocals,
}
use etiss_xvalid.Dwarf.Extractor.Traversal.Globals.{extract_children_below_subprogram}
use etiss_xvalid.Dwarf.Extractor.Traversal.Registered.{IsRegistered}
use etiss_xvalid.Dwarf.Extractor.Traversal.Raising.{extract_children_void_pointer}
use etiss_xvalid.Dwarf.Extractor.Frames.{
  CfiRow, CfiEntry, fde, other_cfi, extract_frame, extract_cfa_register_values_and_offsets,
}
use etiss_xvalid.Dwarf.Extractor.Frames.Changes.{row_of, changes_behind, extract_frame_changes}
use etiss_xvalid.Dwarf.Extractor.Frames.Outcomes.{
  Outcome, extract_cfa_register_values_and_offsets-Outcome,
}
use etiss_xvalid.Dwarf.Extractor.Binary.{
  CompilationUnit, ElfFile, new_dwarf_info, path_basename, extract_dwarf_info,
}
use etiss_xvalid.Dwarf.Extractor.Binary.Registered.{extract_dwarf_info-IsRegistered}
use etiss_xvalid.Dwarf.Extractor.Binary.OtherFiles.{extract_dwarf_info_other_files}
use etiss_xvalid.Tests.Extraction.{of_number, of_text, void_pointer, tools}

abbrev pub header : UnitHeader
header = record { version = 5; cu_offset = 0 }

abbrev location_attribute : Text × Attribute
location_attribute = of_number (codes "DW_AT_location") 0

-- `int f(int x) { int y; ... }`, from address 256 on, with 16 bytes of code
abbrev x_attributes : Dict Attribute
x_attributes =
    of_text (codes "DW_AT_name") (codes "x")
    ∷ of_number (codes "DW_AT_type") 1
    ∷ location_attribute
    ∷ []

abbrev y_attributes : Dict Attribute
y_attributes =
    of_text (codes "DW_AT_name") (codes "y")
    ∷ of_number (codes "DW_AT_type") 1
    ∷ location_attribute
    ∷ []

abbrev pub f_children : Dies
f_children =
    child (die formal_parameter_tag x_attributes no_die)
      (child (die other_tag [] no_die) (child (die variable_tag y_attributes no_die) no_die))

abbrev pub f_attributes : Dict Attribute
f_attributes =
    of_text (codes "DW_AT_name") (codes "f")
    ∷ of_number (codes "DW_AT_type") 1
    ∷ of_number (codes "DW_AT_decl_file") 1
    ∷ of_number (codes "DW_AT_low_pc") 256
    ∷ of_number (codes "DW_AT_high_pc") 16
    ∷ []

abbrev pub int_variable : Text → Variable
int_variable name = record {
  name = name;
  location = some (codes "(DW_OP_fbreg: -20)");
  type_info = base (codes "int") 4;
}

abbrev pub f_head : Subprogram
f_head = record {
  name = codes "f";
  low_pc = 256;
  high_pc = 272;
  type_info = base (codes "int") 4;
  frame_base_infos = [];
  formal_parameters = [];
  local_variables = [];
}

abbrev pub start : DwarfInfo
start = new_dwarf_info (codes "a.c") (codes "f") (codes "a.elf")

x_extracted :
    extract_variable tools 8 header x_attributes (die formal_parameter_tag x_attributes no_die)
    ≡ ok (int_variable (codes "x"))
unfolding extract_variable lookup text_eq decode_utf_8
x_extracted = refl

y_extracted :
    extract_variable tools 8 header y_attributes (die variable_tag y_attributes no_die)
    ≡ ok (int_variable (codes "y"))
unfolding extract_variable lookup text_eq decode_utf_8
y_extracted = refl

f_locals :
    HasLocals tools 8 header f_children
      (int_variable (codes "x") ∷ [])
      (int_variable (codes "y") ∷ [])
f_locals = parameter x_extracted (other (λ e. cc) (λ e. cc) (λ e. cc) (local y_extracted no_more))

f_extracted :
    extract_subprogram tools 8 header f_attributes (die subprogram_tag f_attributes f_children)
    ≡ ok f_head
unfolding extract_subprogram lookup text_eq decode_utf_8
f_extracted = refl

f_declared : get_value (codes "DW_AT_decl_file") f_attributes ≡ ok (number 1)
unfolding get_value lookup text_eq
f_declared = refl

die_extract_recurser-HasLocals_example :
    (e : DwarfInfo) × (die_extract_recurser tools 8 header none true
        (die subprogram_tag f_attributes f_children)
        start
      ≡ ok e)
    × (lookup (codes "f") e.subprograms
        ≡ some (with_locals (int_variable (codes "x") ∷ []) (int_variable (codes "y") ∷ []) f_head))
    × (e.global_variables ≡ [])
die_extract_recurser-HasLocals_example =
    die_extract_recurser-HasLocals tools 8 header none true f_attributes f_children
      (int_variable (codes "x") ∷ []) (int_variable (codes "y") ∷ []) f_head start f_declared
      f_extracted f_locals

extract_children_below_subprogram_example :
    Returns
      (λ e. e.global_variables ≡ [])
      (extract_children tools 8 header (some (codes "f")) false f_children start)
extract_children_below_subprogram_example =
    extract_children_below_subprogram tools 8 header (some (codes "f")) f_children start

-- The traversal of these children returns.
f_children_run :
    (e : DwarfInfo) × (extract_children tools 8 header (some (codes "f")) false f_children start
      ≡ ok e)
unfolding extract_children lookup text_eq decode_utf_8
f_children_run = (_, refl)

-- `void *p;` behind `int y;`
abbrev p_attributes : Dict Attribute
p_attributes = of_text (codes "DW_AT_name") (codes "p") ∷ of_number (codes "DW_AT_type") 2 ∷ []

before_p :
    extract_children tools 8 header none true
      (child (die variable_tag y_attributes no_die) no_die)
      start
    ≡ ok (record start { global_variables = int_variable (codes "y") ∷ [] })
unfolding extract_children lookup text_eq decode_utf_8
before_p = refl

extract_children_void_pointer_example :
    extract_children tools 8 header none true
      (child
        (die variable_tag y_attributes no_die)
        (child (die variable_tag p_attributes no_die) no_die))
      start
    ≡ err type_error
unfolding variable_name lookup text_eq decode_utf_8 get_die_from_attribute
extract_children_void_pointer_example =
    extract_children_void_pointer tools 7 header none true
      (child (die variable_tag y_attributes no_die) no_die) no_die variable_tag p_attributes no_die
      void_pointer 0 start before_p tt refl refl (_, _, refl, refl)

abbrev pub unit : CompilationUnit
unit = record {
  header = header;
  top =
      die other_tag (of_text (codes "DW_AT_producer") (codes "GNU C17 -march=rv32im") ∷ [])
        (child (die subprogram_tag f_attributes f_children) no_die);
  full_path = codes "./src//a.c";
}

abbrev frame : FrameBaseInfo
frame = record { pc = 256; reg = some 2; offset = some (pos 0) }

abbrev row : CfiRow
row = record { pc = ok 256; cfa = ok (record { reg = some 2; offset = some (pos 0) }) }

-- A row without a rule for the frame address.
abbrev row_without_rule : CfiRow
row_without_rule = record { pc = ok 260; cfa = err key_error }

abbrev pub binary : ElfFile
binary = record {
  has_dwarf_info = true;
  little_endian = true;
  units = unit ∷ [];
  has_cfi = true;
  cfi_entries =
      other_cfi ∷ fde 256 (ok (row ∷ row ∷ [])) ∷ fde 512 (ok (row_without_rule ∷ [])) ∷ [];
}

extract_dwarf_info-IsRegistered_example :
    Returns IsRegistered
      (extract_dwarf_info tools 8 (codes "a.c") (codes "f") (codes "a.elf") binary)
extract_dwarf_info-IsRegistered_example =
    extract_dwarf_info-IsRegistered tools 8 (codes "a.c") (codes "f") (codes "a.elf") binary

-- The subprogram is extracted, with one frame base info for the two rows that are the same.
binary_runs :
    (e : DwarfInfo) × (extract_dwarf_info tools 8 (codes "a.c") (codes "f") (codes "a.elf") binary
      ≡ ok e)
    × (get_subprogram_of_interest e
        ≡ ok
            (record (with_locals
              (int_variable (codes "x") ∷ [])
              (int_variable (codes "y") ∷ [])
              f_head) { frame_base_infos = frame ∷ [] }))
unfolding extract_dwarf_info get_subprogram_of_interest lookup insert text_eq decode_utf_8
binary_runs = (_, refl, refl)

-- The frame at 256 has a row without a rule.
abbrev bad_entries : List CfiEntry
bad_entries = other_cfi ∷ fde 256 (ok (row ∷ row_without_rule ∷ [])) ∷ []

-- The subprogram at 256 is known.
abbrev known : DwarfInfo
known = record start { subprograms = (codes "f", f_head) ∷ [] }

bad_entries_raise : extract_cfa_register_values_and_offsets bad_entries known ≡ err key_error
unfolding extract_cfa_register_values_and_offsets
bad_entries_raise = refl

extract_cfa_register_values_and_offsets-Outcome_example :
    Outcome known bad_entries (extract_cfa_register_values_and_offsets bad_entries known)
extract_cfa_register_values_and_offsets-Outcome_example =
    extract_cfa_register_values_and_offsets-Outcome bad_entries known

-- The last part of the path is that of the file.
names_agree : path_basename (codes "./src//a.c") ≡ codes "a.c"
unfolding path_basename
names_agree = refl

extract_dwarf_info_other_files_example :
    (e : DwarfInfo) × (extract_dwarf_info tools 8 (codes "b.c") (codes "f") (codes "a.elf") binary
      ≡ ok e)
    × (get_subprogram_of_interest e ≡ err dwarf_extraction_exception)
unfolding path_basename text_eq text_at lookup decode_utf_8
extract_dwarf_info_other_files_example =
    extract_dwarf_info_other_files tools 8 (codes "b.c") (codes "f") (codes "a.elf") binary refl
      ((refl, (_, refl)), tt)

abbrev later_frame : FrameBaseInfo
later_frame = record { pc = 264; reg = some 2; offset = some (pos 16) }

-- The second row repeats the rule of the first one.
extract_frame_changes_example :
    (e : DwarfInfo) × (extract_frame
        (fde 256 (ok (map row_of (frame ∷ frame ∷ later_frame ∷ []))))
        known
      ≡ ok e)
    × (get_subprogram_with_pc_as_low_pc e 256
        ≡ some (record f_head { frame_base_infos = frame ∷ later_frame ∷ [] }))
unfolding get_subprogram_with_pc_as_low_pc find_subprogram changes_behind
extract_frame_changes_example =
    extract_frame_changes known 256 (frame ∷ frame ∷ later_frame ∷ []) f_head refl refl
