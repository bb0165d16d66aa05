-- ===== src/Dwarf/Extractor/Binary.antt =====
-- `extract_dwarf_info` and `extract_architecture_information` of
-- py_etiss_xvalid/dwarf_info_extractor.py.
pub mod Registered
pub mod OtherFiles
use etiss_xvalid.Base.{
  ℕ, Bool, true, false, Option, none, some, List, [], ◌∷◌, ◌==◌, if◌then◌else◌, last?,
}
use etiss_xvalid.Base.Text.{Text, text_eq}
use etiss_xvalid.Base.Result.{Result, ok, err, ◌>>=◌, other_exception}
use etiss_xvalid.Dwarf.Info.{
  empty_dwarf_info, set_source_file, set_binary_name, set_function_of_interest, DwarfInfo,
}
use etiss_xvalid.Dwarf.Producer.{extract_core_information}
use etiss_xvalid.Dwarf.Extractor.Die.{
  Die, die, Dies, at_producer, attributes_of, text_at, Pyelftools,
}
use etiss_xvalid.Dwarf.Extractor.Place.{UnitHeader}
use etiss_xvalid.Dwarf.Extractor.Traversal.{extract_children}
use etiss_xvalid.Dwarf.Extractor.Frames.{CfiEntry, extract_cfa_register_values_and_offsets}

abbrev on_first : ℕ → List Text → List Text
on_first c [] = (c ∷ []) ∷ []
on_first c (s ∷ rest) = (c ∷ s) ∷ rest

-- the parts of a path between its slashes
unfoldable pub parts : Text → List Text
parts [] = [] ∷ []
parts (c ∷ s) = let rest = parts s in if c == 47 then [] ∷ rest else on_first c rest

abbrev is_dropped : Text → Bool
is_dropped [] = true
is_dropped (c ∷ []) = c == 46
is_dropped _ = false

-- `pathlib` drops empty parts and those that are a dot.
unfoldable pub kept_parts : List Text → List Text
kept_parts [] = []
kept_parts (s ∷ rest) = let others = kept_parts rest in if is_dropped s then others else s ∷ others

-- A path without parts is a dot, or the root, which has no name.
unfoldable pub name_or_dot : Text → Option Text → Text
name_or_dot path (some s) = s
name_or_dot [] none = 46 ∷ []
name_or_dot (c ∷ path) none = if c == 47 then [] else 46 ∷ []

-- `os.path.basename(Path(path).as_posix())`
unfoldable pub path_basename : Text → Text
unfolding parts kept_parts name_or_dot
path_basename path = name_or_dot path (last? (kept_parts (parts path)))

-- a compile unit, with its top entry and that entry's path
pub record CompilationUnit : Type 0 where
  pub header : UnitHeader
  pub top : Die
  pub full_path : Text

-- what pyelftools reads of a file
pub record ElfFile : Type 0 where
  pub has_dwarf_info : Bool
  pub little_endian : Bool
  pub units : List CompilationUnit
  pub has_cfi : Bool
  pub cfi_entries : List CfiEntry

abbrev pub children_of : Die → Dies
children_of (die tag attributes children) = children

-- `attributes['DW_AT_producer']` raises where there is none, so its test always holds.
unfoldable pub extract_architecture_information : Die → Bool → DwarfInfo → Result DwarfInfo
unfolding text_at extract_core_information
extract_architecture_information top little_endian extracted = do
  producer ← text_at at_producer (attributes_of top)
  ok (record extracted {
    compilation_unit = extract_core_information producer little_endian extracted.compilation_unit;
  })

abbrev pub is_source_unit : Text → CompilationUnit → Bool
is_source_unit source_file u = text_eq (path_basename u.full_path) (path_basename source_file)

-- `DwarfInfo()` with its source file, binary and function of interest
abbrev pub new_dwarf_info : (source_file function_of_interest binary : Text) → DwarfInfo
new_dwarf_info source_file function_of_interest binary =
    set_function_of_interest function_of_interest
      (set_binary_name binary (set_source_file source_file empty_dwarf_info))

-- `extract_cfa_register_values_and_offsets`, where the file has call frame information
abbrev pub extract_cfi : ElfFile → DwarfInfo → Result DwarfInfo
extract_cfi file extracted = elim file.has_cfi [
  | Bool.false ↦ ok extracted
  | Bool.true ↦ extract_cfa_register_values_and_offsets file.cfi_entries extracted
]

module _ (elf : Pyelftools) (limit : ℕ) where
  -- one round of the loop over the compile units
  unfoldable pub extract_unit :
      (source_file : Text) → Bool → CompilationUnit → DwarfInfo → Result DwarfInfo
  unfolding extract_architecture_information extract_children path_basename text_eq
  extract_unit source_file little_endian u extracted = do
    further ← extract_architecture_information u.top little_endian extracted
    elim (is_source_unit source_file u) [
      | Bool.false ↦ ok further
      | Bool.true ↦ extract_children elf limit u.header none true (children_of u.top) further
    ]

  unfoldable pub extract_units :
      (source_file : Text) → Bool → List CompilationUnit → DwarfInfo → Result DwarfInfo
  unfolding extract_unit
  extract_units source_file little_endian [] extracted = ok extracted
  extract_units source_file little_endian (u ∷ units) extracted = do
    further ← extract_unit source_file little_endian u extracted
    extract_units source_file little_endian units further

  unfoldable pub extract_dwarf_info :
      (source_file function_of_interest binary : Text) → ElfFile → Result DwarfInfo
  unfolding extract_units extract_cfa_register_values_and_offsets
  extract_dwarf_info source_file function_of_interest binary file = elim file.has_dwarf_info [
    | Bool.false ↦ err other_exception
    | Bool.true ↦
        extract_units source_file file.little_endian file.units
          (new_dwarf_info source_file function_of_interest binary)
        >>= extract_cfi file
  ]
