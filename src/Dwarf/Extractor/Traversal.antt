-- ===== src/Dwarf/Extractor/Traversal.antt =====
-- `die_extract_recurser` and `_extract_type` of py_etiss_xvalid/dwarf_info_extractor.py. The
-- subprogram that its children are added to is the one that the dictionary has under its name: a
-- nested function with the name of the function around it is not told apart from it.
pub mod Preserving
pub mod Registered
pub mod Globals
pub mod Locals
pub mod Raising
use etiss_xvalid.Base.{ℕ, Bool, true, false, Option, none, some, [], ◌==◌}
use etiss_xvalid.Base.Text.{Text}
use etiss_xvalid.Base.Dict.{Dict, lookup, update}
use etiss_xvalid.Base.Result.{Result, ok, err, ◌>>=◌, attribute_error, type_error}
use etiss_xvalid.Dwarf.Types.{DwarfType, missing}
use etiss_xvalid.Dwarf.Info.{
  new_variable, set_name, set_location, set_type_info, Variable, Subprogram, DwarfInfo,
  add_formal_parameter, add_local_variable, add_subprogram, add_global_variable,
}
use etiss_xvalid.Dwarf.Extractor.Die.{
  Attribute, Value, number, subprogram_tag, variable_tag, formal_parameter_tag, Die, die, Dies,
  no_die, child, at_name, at_type, at_decl_file, get_value, get_text, text_at, Pyelftools,
}
use etiss_xvalid.Dwarf.Extractor.TypeRec.{extract_type_rec, referred_type}
use etiss_xvalid.Dwarf.Extractor.Place.{UnitHeader, get_low_and_high_pc, extract_locations}

-- A subprogram's addresses. Where the source stores `None` for them, and the first comparison with
-- an address raises, the model raises at once.
abbrev pub stored : Option ℕ × Option ℕ → Result (ℕ × ℕ)
stored (some low_pc, some high_pc) = ok (low_pc, high_pc)
stored _ = err type_error

-- `value == 1`: the first file is the compile unit's own
abbrev pub is_first_file : Value → Bool
is_first_file (number n) = n == 1
is_first_file _ = false

-- The name of a variable; the empty text stands for `None`.
unfoldable pub variable_name : Dict Attribute → Option Attribute → Result Text
unfolding text_at
variable_name attributes none = ok []
variable_name attributes (some a) = text_at at_name attributes

-- The type of a subprogram, `None` where it has none.
unfoldable pub return_type : Pyelftools → (limit : ℕ) → Die → Option Attribute → Result DwarfType
unfolding referred_type extract_type_rec
return_type elf limit d none = ok missing
return_type elf limit d (some a) = referred_type elf (extract_type_rec elf limit) d

-- a change of the subprogram that is passed down, which may be `None`
unfoldable pub change_subprogram :
    Option Text → (Subprogram → Subprogram) → DwarfInfo → Result DwarfInfo
unfolding update
change_subprogram none f extracted = err attribute_error
change_subprogram (some name) f extracted =
    ok (record extracted { subprograms = update name f extracted.subprograms })

-- a variable, by the level that it is found at
unfoldable pub add_variable : Option Text → Bool → Variable → DwarfInfo → Result DwarfInfo
unfolding add_global_variable change_subprogram add_local_variable
add_variable subprogram true v extracted = ok (add_global_variable v extracted)
add_variable subprogram false v extracted =
    change_subprogram subprogram (add_local_variable v) extracted

-- `limit` is the number of nested calls of `_extract_type_rec` that the interpreter allows.
module _ (elf : Pyelftools) (limit : ℕ) (cu : UnitHeader) where
  unfoldable pub extract_variable : Dict Attribute → Die → Result Variable
  unfolding lookup variable_name referred_type extract_type_rec extract_locations
  extract_variable attributes d = do
    name ← variable_name attributes (lookup at_name attributes)
    type_info ← referred_type elf (extract_type_rec elf limit) d
    location ← extract_locations elf cu d none attributes
    ok (set_location location (set_type_info type_info (set_name name new_variable)))

  unfoldable pub extract_subprogram : Dict Attribute → Die → Result Subprogram
  unfolding lookup get_text return_type get_low_and_high_pc
  extract_subprogram attributes d = do
    name ← get_text at_name attributes
    type_info ← return_type elf limit d (lookup at_type attributes)
    pcs ← get_low_and_high_pc elf attributes
    (low_pc, high_pc) ← stored pcs
    ok (record {
      name = name;
      low_pc = low_pc;
      high_pc = high_pc;
      type_info = type_info;
      frame_base_infos = [];
      formal_parameters = [];
      local_variables = [];
    })

  unfoldable mutual
    unfolding get_value extract_subprogram add_subprogram extract_variable add_variable
        change_subprogram add_formal_parameter

    -- `subprogram` is the name of the subprogram around.
    pub die_extract_recurser :
        (subprogram : Option Text) (global_level : Bool) → Die → DwarfInfo → Result DwarfInfo
    die_extract_recurser subprogram global_level (die subprogram_tag attributes children)
          extracted =
        get_value at_decl_file attributes >>= λ file. elim (is_first_file file) [
          | Bool.false ↦ ok extracted
          | Bool.true ↦
              extract_subprogram attributes (die subprogram_tag attributes children) >>= λ s.
              extract_children (some s.name) false children (add_subprogram s extracted)
        ]
    die_extract_recurser subprogram global_level (die variable_tag attributes children) extracted =
        extract_variable attributes (die variable_tag attributes children) >>= λ v.
        add_variable subprogram global_level v extracted
    die_extract_recurser subprogram global_level (die formal_parameter_tag attributes children)
          extracted =
        extract_variable attributes (die formal_parameter_tag attributes children) >>= λ v.
        change_subprogram subprogram (add_formal_parameter v) extracted
    die_extract_recurser subprogram global_level (die tag attributes children) extracted =
        ok extracted

    -- the loops over `iter_children()`
    pub extract_children :
        (subprogram : Option Text) (global_level : Bool) → Dies → DwarfInfo → Result DwarfInfo
    extract_children subprogram global_level no_die extracted = ok extracted
    extract_children subprogram global_level (child d rest) extracted =
        die_extract_recurser subprogram global_level d extracted >>= λ further.
        extract_children subprogram global_level rest further
