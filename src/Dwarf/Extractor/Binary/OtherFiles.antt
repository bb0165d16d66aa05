-- ===== src/Dwarf/Extractor/Binary/OtherFiles.antt =====
-- `extract_dwarf_info` of py_etiss_xvalid/dwarf_info_extractor.py where no compile unit is that of the
-- source file.
use etiss_xvalid.Base.{
  ℕ, ◌≡◌, refl, ◌∙◌, ap, Bool, true, false, List, [], ◌∷◌, All, Bool-cases, inl, inr,
}
use etiss_xvalid.Base.Text.{Text}
use etiss_xvalid.Base.Dict.{lookup}
use etiss_xvalid.Base.Result.{Result, ok, err, ◌>>=◌, dwarf_extraction_exception}
use etiss_xvalid.Dwarf.Info.{
  DwarfInfo, find_subprogram, has_subprogram_with_pc_as_low_pc, get_subprogram_of_interest,
}
use etiss_xvalid.Dwarf.Producer.{extract_core_information}
use etiss_xvalid.Dwarf.Extractor.Die.{Pyelftools, at_producer, attributes_of, text_at}
use etiss_xvalid.Dwarf.Extractor.Frames.{
  CfiEntry, fde, other_cfi, extract_frame, extract_cfa_register_values_and_offsets,
}
use etiss_xvalid.Dwarf.Extractor.Binary.{
  CompilationUnit, ElfFile, extract_architecture_information, is_source_unit, extract_unit,
  extract_units, new_dwarf_info, extract_cfi, extract_dwarf_info,
}

-- A unit of another file, whose producer can be read.
abbrev pub IsOtherUnit : Text → CompilationUnit → Type 0
IsOtherUnit source_file u =
    (is_source_unit source_file u ≡ false)
    × ((producer : Text) × (text_at at_producer (attributes_of u.top) ≡ ok producer))

abbrev HasNone : DwarfInfo → Type 0
HasNone d = d.subprograms ≡ []

abbrev ReturnsNone : Result DwarfInfo → Type 0
ReturnsNone r = (e : DwarfInfo) × (r ≡ ok e) × HasNone e

module _ (elf : Pyelftools) (limit : ℕ) (source_file : Text) (little_endian : Bool) where
  unit_other :
      (u : CompilationUnit) (d : DwarfInfo)
      → IsOtherUnit source_file u
      → HasNone d
      → ReturnsNone (extract_unit elf limit source_file little_endian u d)
  unfolding extract_unit extract_architecture_information
  unit_other u d (other, (producer, read)) h = (
    record d {
      compilation_unit = extract_core_information producer little_endian d.compilation_unit;
    },
    rw (read, other) refl,
    h,
  )

  units_other :
      (units : List CompilationUnit) (d : DwarfInfo)
      → All (IsOtherUnit source_file) units
      → HasNone d
      → ReturnsNone (extract_units elf limit source_file little_endian units d)
  unfolding extract_units
  units_other [] d others h = (d, refl, h)
  units_other (u ∷ units) d others h =
      let (e, is_ok, h') = unit_other u d others.0 h in
      let (f, is_ok', h'') = units_other units e others.1 h' in (f, rw (is_ok, is_ok') refl, h'')

has_none : (d : DwarfInfo) (pc : ℕ) → HasNone d → has_subprogram_with_pc_as_low_pc d pc ≡ false
unfolding has_subprogram_with_pc_as_low_pc find_subprogram
has_none d pc h = rw h refl

-- Without subprograms no frame is read.
cfa_other :
    (entries : List CfiEntry) (d : DwarfInfo)
    → HasNone d
    → extract_cfa_register_values_and_offsets entries d ≡ ok d
unfolding extract_cfa_register_values_and_offsets extract_frame
cfa_other [] d h = refl
cfa_other (other_cfi ∷ entries) d h = cfa_other entries d h
cfa_other (fde pc decoded ∷ entries) d h =
    rw (has_none d pc h, extract_frame, extract_cfa_register_values_and_offsets)
      (cfa_other entries d h)

cfi_other : (file : ElfFile) (d : DwarfInfo) → HasNone d → ReturnsNone (extract_cfi file d)
cfi_other file d h = elim (Bool-cases file.has_cfi) [
  | inl has ↦ (d, rw (has, extract_cfi) (cfa_other file.cfi_entries d h), h)
  | inr none_there ↦ (d, rw (none_there, extract_cfi) refl, h)
]

extract_dwarf_info_of :
    (elf : Pyelftools) (limit : ℕ) (source_file function_of_interest binary : Text) (file : ElfFile)
    → file.has_dwarf_info ≡ true
    → extract_dwarf_info elf limit source_file function_of_interest binary file ≡ (
        extract_units elf limit source_file file.little_endian file.units
          (new_dwarf_info source_file function_of_interest binary)
        >>= extract_cfi file)
unfolding extract_dwarf_info
extract_dwarf_info_of elf limit source_file function_of_interest binary file has =
    rw (has, extract_dwarf_info) refl

-- Where no compile unit of the binary is of the source file by the last part of its path, and
-- every one has a producer that can be read, the extraction succeeds, and the look-up of the
-- function of interest in its result raises the exception of the extraction.
pub extract_dwarf_info_other_files :
    (elf : Pyelftools) (limit : ℕ) (source_file function_of_interest binary : Text) (file : ElfFile)
    → file.has_dwarf_info ≡ true
    → All (IsOtherUnit source_file) file.units
    → (e : DwarfInfo) × (extract_dwarf_info elf limit source_file function_of_interest binary file
        ≡ ok e)
      × (get_subprogram_of_interest e ≡ err dwarf_extraction_exception)
unfolding extract_dwarf_info get_subprogram_of_interest lookup
extract_dwarf_info_other_files elf limit source_file function_of_interest binary file has others =
    let start : DwarfInfo = new_dwarf_info source_file function_of_interest binary in
    let (d, units_ok, h) =
      units_other elf limit source_file file.little_endian file.units start others refl in
    let (e, cfi_ok, h') = cfi_other file d h in
    (
      e,
      extract_dwarf_info_of elf limit source_file function_of_interest binary file has
          ∙ ap (λ r. r >>= extract_cfi file) units_ok
          ∙ cfi_ok,
      rw h' refl,
    )
