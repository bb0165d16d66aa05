-- ===== src/Tests/Extraction.antt =====
-- py_etiss_xvalid/dwarf_info_extractor.py on the entries of a small program.
pub mod Types
pub mod Binaries
use etiss_xvalid.Base.{
  ℕ, ◌≤◌, ◌≡◌, refl, sym, subst, Bool, true, false, Option, none, some, List, [], ◌∷◌, ◌-◌,
  get_elem?,
}
use etiss_xvalid.Base.Text.{Text, codes, text_eq}
use etiss_xvalid.Base.Utf8.{decode_utf_8}
use etiss_xvalid.Base.Dict.{Dict, lookup}
use etiss_xvalid.Base.Result.{
  Exn, Result, ok, err, key_error, value_error, type_error, dwarf_extraction_exception, Returns,
}
use etiss_xvalid.Dwarf.Types.{DwarfType, base, const, array, pointer, struct, no_member, member}
use etiss_xvalid.Dwarf.Info.{
  Variable, Subprogram, DwarfInfo, FrameBaseInfo, get_subprogram_of_interest,
}
use etiss_xvalid.Dwarf.Extractor.Die.{
  Attribute, Value, number, string, block, Tag, base_type, array_type, pointer_type, const_type,
  structure_type, member_tag, subrange_type, subprogram_tag, variable_tag, formal_parameter_tag,
  other_tag, Die, die, Dies, no_die, child, Location, location_expr, no_location, FormClass,
  address_class, constant_class, Pyelftools, get_die_from_attribute, at_type,
}
use etiss_xvalid.Dwarf.Extractor.TypeRec.{extract_type_rec}
use etiss_xvalid.Dwarf.Extractor.TypeRec.Depth.{HasChainsBelow, extract_type_rec_deep_enough}
use etiss_xvalid.Dwarf.Extractor.TypeRec.Described.{
  Describes, is_base, is_struct, no_more, one_more, no_member_here,
}
use etiss_xvalid.Dwarf.Extractor.TypeRec.Refinement.{extract_type_rec-Describes}
use etiss_xvalid.Dwarf.Extractor.TypeRec.Raising.{MayRaise, extract_type_rec_raises}
use etiss_xvalid.Dwarf.Extractor.TypeRec.Dimensions.{compute_array_size_from_subranges_count}

-- an attribute of a number, and one of a text of ASCII characters
abbrev pub of_number : Text → ℕ → Text × Attribute
of_number name n = (name, record { name = name; form = codes "DW_FORM_data4"; value = number n })

abbrev pub of_text : Text → Text → Text × Attribute
of_text name s = (name, record { name = name; form = codes "DW_FORM_string"; value = string s })

abbrev pub int_attributes : Dict Attribute
int_attributes =
    of_text (codes "DW_AT_name") (codes "int") ∷ of_number (codes "DW_AT_byte_size") 4 ∷ []

abbrev pub int_entry : Die
int_entry = die base_type int_attributes no_die

-- `void *`
abbrev pub void_pointer : Die
void_pointer = die pointer_type (of_number (codes "DW_AT_byte_size") 4 ∷ []) no_die

abbrev pub const_int : Die
const_int = die const_type (of_number (codes "DW_AT_type") 1 ∷ []) no_die

-- `int a; int b : 3`, of which the second starts at bit 32
abbrev pub member_a : Dict Attribute
member_a = of_text (codes "DW_AT_name") (codes "a") ∷ of_number (codes "DW_AT_type") 1 ∷ []

abbrev pub member_b : Dict Attribute
member_b =
    of_text (codes "DW_AT_name") (codes "b")
    ∷ of_number (codes "DW_AT_type") 1
    ∷ of_number (codes "DW_AT_bit_size") 3
    ∷ of_number (codes "DW_AT_data_bit_offset") 32
    ∷ []

abbrev pub pair_members : Dies
pair_members =
    child (die member_tag member_a no_die)
      (child (die other_tag [] no_die) (child (die member_tag member_b no_die) no_die))

abbrev pub pair_entry : Die
pair_entry =
    die structure_type
      (of_text (codes "DW_AT_name") (codes "pair") ∷ of_number (codes "DW_AT_byte_size") 8 ∷ [])
      pair_members

-- the entry at an offset
abbrev found : Option Die → Result Die
found none = err key_error
found (some d) = ok d

abbrev pub entry_at : ℕ → Result Die
entry_at n = found (get_elem? (int_entry ∷ void_pointer ∷ const_int ∷ pair_entry ∷ []) (n - 1))

abbrev pub resolve_value : Value → Result Die
resolve_value (number n) = entry_at n
resolve_value (string s) = err value_error
resolve_value (block e) = err value_error

-- Every constant is of the constant class, and `DW_AT_location` has a location, which is described by
-- `fbreg` alone.
abbrev pub tools : Pyelftools
tools = record {
  resolve = λ a. resolve_value a.value;
  describe_form_class = λ form. constant_class;
  attribute_has_location = λ a version. text_eq a.name (codes "DW_AT_location");
  parse_from_attribute = λ a version d. ok (location_expr []);
  describe_dwarf_expr = λ e offset. codes "(DW_OP_fbreg: -20)";
}
