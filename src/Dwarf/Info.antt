-- ===== src/Dwarf/Info.antt =====
-- py_etiss_xvalid/entity/dwarf/: var_and_param_base.py, subprogram.py, frame_base_info.py,
-- compilation_unit.py (its data) and dwarf_info.py.
pub mod Lookup
use etiss_xvalid.Base.{
  ℕ, ◌/◌, ◌≢◌, Bool, true, false, not, ◌&&◌, ◌||◌, Option, none, some, List, [], ◌∷◌, ◌++◌, leb,
  ltb, ◌==◌, if◌then◌else◌, last?,
}
use etiss_xvalid.Base.Text.{Text, text_eq}
use etiss_xvalid.Base.Dict.{Dict, lookup, insert}
use etiss_xvalid.Base.Int.{ℤ, eq_ℤ, option_eq}
use etiss_xvalid.Base.Result.{
  Result, ok, err, ◌>>=◌, attribute_error, type_error, dwarf_extraction_exception,
}
use etiss_xvalid.Dwarf.Types.{DwarfType, missing, BaseInfo, get_base, get_range}
use etiss_xvalid.Dwarf.Location.{global_location_value, frame_location_value}

-- `VarAndParamBase`: a global or local variable or a formal parameter
pub record Variable : Type 0 where
  pub name : Text
  pub location : Option Text
  pub type_info : DwarfType

-- `None` as a name is the empty text.
abbrev pub new_variable : Variable
new_variable = record { name = []; location = none; type_info = missing }

abbrev pub set_name : Text → Variable → Variable
set_name name v = record v { name = name }

abbrev pub set_location : Option Text → Variable → Variable
set_location location v = record v { location = location }

abbrev pub set_type_info : DwarfType → Variable → Variable
set_type_info type_info v = record v { type_info = type_info }

abbrev less_size : Option ℕ → Option ℕ → Result Bool
less_size (some a) (some b) = ok (ltb a b)
less_size _ _ = err type_error

unfoldable pub has_more_than_one_element : Variable → Result Bool
unfolding get_base get_range
has_more_than_one_element v = do
  base ← get_base v.type_info
  total_range ← get_range v.type_info
  less_size base.byte_size total_range

-- `int(total_range / base.byte_size)`, and 0 where that divides by zero
abbrev divide_sizes : Option ℕ → Option ℕ → Result ℕ
divide_sizes (some total) (some size) = if size == 0 then ok 0 else ok (total / size)
divide_sizes _ _ = err type_error

unfoldable pub get_number_of_elements : Variable → Result ℕ
unfolding get_base get_range
get_number_of_elements v = do
  base ← get_base v.type_info
  total_range ← get_range v.type_info
  divide_sizes total_range base.byte_size

-- Where the frame address is an expression, pyelftools gives no register and no offset.
pub record FrameBaseInfo : Type 0 where
  pub pc : ℕ
  pub reg : Option ℕ
  pub offset : Option ℤ

-- The addresses are those of a subprogram whose `DW_AT_high_pc` has a class that the extractor
-- knows; `missing` as its type is `None`, for void.
pub record Subprogram : Type 0 where
  pub name : Text
  pub low_pc : ℕ
  pub high_pc : ℕ
  pub type_info : DwarfType
  pub frame_base_infos : List FrameBaseInfo
  pub formal_parameters : List Variable
  pub local_variables : List Variable

abbrev pub differs_from_last : FrameBaseInfo → Option FrameBaseInfo → Bool
differs_from_last i none = true
differs_from_last i (some j) =
    not (option_eq (λ a b. a == b) j.reg i.reg) || not (option_eq eq_ℤ j.offset i.offset)

-- A row that repeats the register and offset of the one before it is left out.
unfoldable pub add_frame_base_info : FrameBaseInfo → Subprogram → Subprogram
add_frame_base_info i s =
    if differs_from_last i (last? s.frame_base_infos)
    then record s { frame_base_infos = s.frame_base_infos ++ i ∷ [] }
    else s

unfoldable pub add_formal_parameter : Variable → Subprogram → Subprogram
add_formal_parameter v s = record s { formal_parameters = s.formal_parameters ++ v ∷ [] }

unfoldable pub add_local_variable : Variable → Subprogram → Subprogram
add_local_variable v s = record s { local_variables = s.local_variables ++ v ∷ [] }

pub record CompileUnit : Type 0 where
  pub march : Option Text
  pub mabi : Option Text
  pub misa_spec : Option Text
  pub little_endian : Bool

pub record DwarfInfo : Type 0 where
  pub binary_name : Text
  pub source_file : Text
  pub function_of_interest : Text
  pub compilation_unit : CompileUnit
  pub subprograms : Dict Subprogram
  pub global_variables : List Variable

-- `__init__`
abbrev pub empty_dwarf_info : DwarfInfo
empty_dwarf_info = record {
  binary_name = [];
  source_file = [];
  function_of_interest = [];
  compilation_unit = record { march = none; mabi = none; misa_spec = none; little_endian = false };
  subprograms = [];
  global_variables = [];
}

abbrev pub set_source_file : Text → DwarfInfo → DwarfInfo
set_source_file source_file d = record d { source_file = source_file }

abbrev pub set_binary_name : Text → DwarfInfo → DwarfInfo
set_binary_name binary_name d = record d { binary_name = binary_name }

abbrev pub set_function_of_interest : Text → DwarfInfo → DwarfInfo
set_function_of_interest function_of_interest d = record d {
  function_of_interest = function_of_interest;
}

-- The loops over `self.subprograms.values()` stop at the first subprogram that passes the test.
unfoldable pub find_subprogram : (Subprogram → Bool) → Dict Subprogram → Option Subprogram
find_subprogram p [] = none
find_subprogram p ((k, s) ∷ rest) = if p s then some s else find_subprogram p rest

abbrev pub is_some : Option Subprogram → Bool
is_some none = false
is_some (some s) = true

unfoldable pub has_subprogram_with_pc_as_low_pc : DwarfInfo → ℕ → Bool
unfolding find_subprogram
has_subprogram_with_pc_as_low_pc d pc =
    is_some (find_subprogram (λ s. pc == s.low_pc) d.subprograms)

abbrev pub encloses : ℕ → Subprogram → Bool
encloses pc s = leb s.low_pc pc && leb pc s.high_pc

unfoldable pub get_enclosing_subprogram : DwarfInfo → ℕ → Option Subprogram
get_enclosing_subprogram d pc = find_subprogram (encloses pc) d.subprograms

unfoldable pub get_subprogram_with_pc_as_low_pc : DwarfInfo → ℕ → Option Subprogram
get_subprogram_with_pc_as_low_pc d pc = find_subprogram (λ s. pc == s.low_pc) d.subprograms

unfoldable pub get_subprogram_by_name : DwarfInfo → Text → Option Subprogram
get_subprogram_by_name d name = lookup name d.subprograms

abbrev or_not_found : Option Subprogram → Result Subprogram
or_not_found none = err dwarf_extraction_exception
or_not_found (some s) = ok s

unfoldable pub get_subprogram_of_interest : DwarfInfo → Result Subprogram
get_subprogram_of_interest d = or_not_found (lookup d.function_of_interest d.subprograms)

unfoldable pub add_subprogram : Subprogram → DwarfInfo → DwarfInfo
add_subprogram s d = record d { subprograms = insert s.name s d.subprograms }

-- The subprogram that is found is changed in place: it stays where it stands in the dictionary.
unfoldable pub update_first :
    (Subprogram → Bool) → (Subprogram → Subprogram) → Dict Subprogram → Dict Subprogram
update_first p f [] = []
update_first p f ((k, s) ∷ rest) = if p s then (k, f s) ∷ rest else (k, s) ∷ update_first p f rest

unfoldable pub add_frame_base_info_at : FrameBaseInfo → ℕ → DwarfInfo → Result DwarfInfo
unfolding get_subprogram_with_pc_as_low_pc find_subprogram update_first add_frame_base_info
add_frame_base_info_at i pc d = elim (get_subprogram_with_pc_as_low_pc d pc) [
  | none ↦ err attribute_error
  | some s ↦ ok (record d {
    subprograms = update_first (λ t. pc == t.low_pc) (add_frame_base_info i) d.subprograms;
  })
]

unfoldable pub add_global_variable : Variable → DwarfInfo → DwarfInfo
add_global_variable v d = record d { global_variables = d.global_variables ++ v ∷ [] }
