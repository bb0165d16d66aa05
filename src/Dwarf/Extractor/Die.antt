-- ===== src/Dwarf/Extractor/Die.antt =====
-- What dwarf_info_extractor.py of py_etiss_xvalid/ reads of pyelftools: debugging information
-- entries with their attributes, and the functions of that library, which are parameters.
use etiss_xvalid.Base.{ℕ, Bool, Option, none, some, List}
use etiss_xvalid.Base.Text.{Text, codes}
use etiss_xvalid.Base.Dict.{Dict, lookup}
use etiss_xvalid.Base.Utf8.{decode_utf_8}
use etiss_xvalid.Base.Result.{
  Result, ok, err, ◌>>=◌, attribute_error, key_error, type_error, value_error,
}

-- An attribute's value: a constant, an address or a reference is a number, a string is its bytes,
-- and an expression is a list of numbers.
pub data Value : Type 0 where
  number : ℕ → Value
  string block : List ℕ → Value

-- `AttributeValue`, a named tuple: every one is true.
pub record Attribute : Type 0 where
  pub name : Text
  pub form : Text
  pub value : Value

-- the tags that the extractor tells apart
pub data Tag : Type 0 where
  base_type array_type pointer_type const_type volatile_type typedef_tag : Tag
  structure_type union_type member_tag subrange_type : Tag
  subprogram_tag variable_tag formal_parameter_tag : Tag
  other_tag : Tag

mutual
  pub data Die : Type 0 where
    die : (tag : Tag) (attributes : Dict Attribute) (children : Dies) → Die

  pub data Dies : Type 0 where
    no_die : Dies
    child : Die → Dies → Dies

abbrev pub attributes_of : Die → Dict Attribute
attributes_of (die tag attributes children) = attributes

abbrev pub at_name : Text
at_name = codes "DW_AT_name"

abbrev pub at_type : Text
at_type = codes "DW_AT_type"

abbrev pub at_byte_size : Text
at_byte_size = codes "DW_AT_byte_size"

abbrev pub at_count : Text
at_count = codes "DW_AT_count"

abbrev pub at_upper_bound : Text
at_upper_bound = codes "DW_AT_upper_bound"

abbrev pub at_lower_bound : Text
at_lower_bound = codes "DW_AT_lower_bound"

abbrev pub at_bit_size : Text
at_bit_size = codes "DW_AT_bit_size"

abbrev pub at_data_bit_offset : Text
at_data_bit_offset = codes "DW_AT_data_bit_offset"

abbrev pub at_decl_file : Text
at_decl_file = codes "DW_AT_decl_file"

abbrev pub at_low_pc : Text
at_low_pc = codes "DW_AT_low_pc"

abbrev pub at_high_pc : Text
at_high_pc = codes "DW_AT_high_pc"

abbrev pub at_producer : Text
at_producer = codes "DW_AT_producer"

-- `attributes[k]`
abbrev or_key_error : Option Attribute → Result Attribute
or_key_error none = err key_error
or_key_error (some a) = ok a

unfoldable pub attribute : Text → Dict Attribute → Result Attribute
attribute k attributes = or_key_error (lookup k attributes)

-- `attributes.get(k).value`: `None` has no value.
abbrev or_no_value : Option Attribute → Result Value
or_no_value none = err attribute_error
or_no_value (some a) = ok a.value

unfoldable pub get_value : Text → Dict Attribute → Result Value
get_value k attributes = or_no_value (lookup k attributes)

-- A value as a number, also by `int`, which raises at a list, and at bytes that are no numeral;
-- no attribute with a numeral as its string is read as a number.
abbrev pub as_number : Value → Result ℕ
as_number (number n) = ok n
as_number (string bytes) = err value_error
as_number (block bytes) = err type_error

-- `value.decode('utf-8')`
abbrev pub decoded : Value → Result Text
decoded (number n) = err attribute_error
decoded (string bytes) = decode_utf_8 bytes
decoded (block bytes) = err attribute_error

unfoldable pub get_number : Text → Dict Attribute → Result ℕ
unfolding get_value
get_number k attributes = do value ← get_value k attributes; as_number value

unfoldable pub get_text : Text → Dict Attribute → Result Text
unfolding get_value
get_text k attributes = do value ← get_value k attributes; decoded value

unfoldable pub number_at : Text → Dict Attribute → Result ℕ
unfolding attribute
number_at k attributes = do a ← attribute k attributes; as_number a.value

unfoldable pub text_at : Text → Dict Attribute → Result Text
unfolding attribute
text_at k attributes = do a ← attribute k attributes; decoded a.value

-- what a location list holds: a `LocationEntry`, or another entity, each with its `str`
pub data LocationEntity : Type 0 where
  location_entry : (shown : Text) (loc_expr : List ℕ) → LocationEntity
  other_entity : (shown : Text) → LocationEntity

-- what the parser of locations returns: a `LocationExpr`, a list, or `None`
pub data Location : Type 0 where
  location_expr : (loc_expr : List ℕ) → Location
  location_list : List LocationEntity → Location
  no_location : Location

-- the classes of forms that the extractor tells apart
pub data FormClass : Type 0 where
  address_class constant_class other_class : FormClass

-- The functions of pyelftools. `resolve` gives the entry that an attribute refers to, and
-- `describe_dwarf_expr` has the expression and the offset of the compile unit.
pub record Pyelftools : Type 0 where
  pub resolve : Attribute → Result Die
  pub describe_form_class : Text → FormClass
  pub attribute_has_location : Attribute → (version : ℕ) → Bool
  pub parse_from_attribute : Attribute → (version : ℕ) → Die → Result Location
  pub describe_dwarf_expr : List ℕ → (cu_offset : ℕ) → Text

-- `DIE.get_DIE_from_attribute`, which looks the attribute up by `attributes[k]`
unfoldable pub get_die_from_attribute : Pyelftools → Text → Die → Result Die
unfolding attribute
get_die_from_attribute elf k d = do a ← attribute k (attributes_of d); elf.resolve a
