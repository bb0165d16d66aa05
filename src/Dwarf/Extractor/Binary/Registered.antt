-- ===== src/Dwarf/Extractor/Binary/Registered.antt =====
-- The subprograms that `extract_dwarf_info` of py_etiss_xvalid/dwarf_info_extractor.py returns.
use etiss_xvalid.Base.{
  ℕ, ◌≡◌, refl, sym, subst, Bool, true, none, List, [], ◌∷◌, map, All, arith, Bool-cases, inl, inr,
}
use etiss_xvalid.Base.Text.{Text}
use etiss_xvalid.Base.Dict.{Dict, lookup}
use etiss_xvalid.Base.Dict.Changes.{HasDistinctKeys}
use etiss_xvalid.Base.Result.{Returns, >>=-Returns}
use etiss_xvalid.Dwarf.Info.{Subprogram, DwarfInfo}
use etiss_xvalid.Dwarf.Extractor.Die.{Die, Pyelftools, at_producer, attributes_of, text_at}
use etiss_xvalid.Dwarf.Extractor.Traversal.Registered.{IsRegistered, extract_children-IsRegistered}
use etiss_xvalid.Dwarf.Extractor.Frames.{CfiEntry, extract_cfa_register_values_and_offsets}
use etiss_xvalid.Dwarf.Extractor.Frames.Outcomes.{
  without_frames, DiffersInFrames, extract_cfa_register_values_and_offsets-Outcome,
}
use etiss_xvalid.Dwarf.Extractor.Binary.{
  CompilationUnit, ElfFile, children_of, extract_architecture_information, is_source_unit,
  extract_unit, extract_units, new_dwarf_info, extract_cfi, extract_dwarf_info,
}

-- Names and keys do not depend on frames.
lookup-without_frames :
    (k : Text) (m : Dict Subprogram)
    → (lookup k m ≡ none → lookup k (map without_frames m) ≡ none)
      × (lookup k (map without_frames m) ≡ none → lookup k m ≡ none)
unfolding lookup
lookup-without_frames k [] = ((λ h. refl), (λ h. refl))
lookup-without_frames k ((j, s) ∷ m) =
    let (to, from) = lookup-without_frames k m in
    ((λ h. ground (arith, to)), (λ h. ground (arith, from)))

abbrev AreNamed : Dict Subprogram → Type 0
AreNamed m = HasDistinctKeys m × All (λ e. e.0 ≡ e.1.name) m

to_without : (m : Dict Subprogram) → AreNamed m → AreNamed (map without_frames m)
to_without [] h = h
to_without ((k, s) ∷ m) h =
    let (distinct, named) = to_without m (h.0.1, h.1.1) in
    (((lookup-without_frames k m).0 h.0.0, distinct), (h.1.0, named))

from_without : (m : Dict Subprogram) → AreNamed (map without_frames m) → AreNamed m
from_without [] h = h
from_without ((k, s) ∷ m) h =
    let (distinct, named) = from_without m (h.0.1, h.1.1) in
    (((lookup-without_frames k m).1 h.0.0, distinct), (h.1.0, named))

frames-IsRegistered : (d e : DwarfInfo) → DiffersInFrames d e → IsRegistered d → IsRegistered e
frames-IsRegistered d e same h =
    from_without e.subprograms (subst AreNamed (sym same.0) (to_without d.subprograms h))

cfa-IsRegistered :
    (entries : List CfiEntry) (d : DwarfInfo)
    → IsRegistered d
    → Returns IsRegistered (extract_cfa_register_values_and_offsets entries d)
cfa-IsRegistered entries d h = elim (extract_cfa_register_values_and_offsets-Outcome entries d) [
  | inl (read, (e, is_ok, same)) ↦
      subst (Returns IsRegistered) (sym is_ok) (frames-IsRegistered d e same h)
  | inr (x, raised, why) ↦ subst (Returns IsRegistered) (sym raised) tt
]

module _ (elf : Pyelftools) (limit : ℕ) (source_file : Text) (little_endian : Bool) where
  architecture-IsRegistered :
      (top : Die) (d : DwarfInfo)
      → IsRegistered d
      → Returns IsRegistered (extract_architecture_information top little_endian d)
  unfolding extract_architecture_information
  architecture-IsRegistered top d h =
      >>=-Returns IsRegistered (text_at at_producer (attributes_of top)) _ (λ producer e. h)

  unit-IsRegistered :
      (u : CompilationUnit) (d : DwarfInfo)
      → IsRegistered d
      → Returns IsRegistered (extract_unit elf limit source_file little_endian u d)
  unfolding extract_unit
  unit-IsRegistered u d h =
      >>=-Returns IsRegistered (extract_architecture_information u.top little_endian d) _
        (λ further e.
          let known : IsRegistered further =
            subst (Returns IsRegistered) e (architecture-IsRegistered u.top d h) in
          elim (Bool-cases (is_source_unit source_file u)) [
            | inl source ↦ rw source (
                extract_children-IsRegistered elf limit u.header none true (children_of u.top)
                  further known)
            | inr other ↦ rw other known
          ])

  units-IsRegistered :
      (units : List CompilationUnit) (d : DwarfInfo)
      → IsRegistered d
      → Returns IsRegistered (extract_units elf limit source_file little_endian units d)
  unfolding extract_units
  units-IsRegistered [] d h = h
  units-IsRegistered (u ∷ units) d h =
      >>=-Returns IsRegistered (extract_unit elf limit source_file little_endian u d) _
        (λ further e.
          units-IsRegistered units further
            (subst (Returns IsRegistered) e (unit-IsRegistered u d h)))

cfi-IsRegistered :
    (file : ElfFile) (d : DwarfInfo) → IsRegistered d → Returns IsRegistered (extract_cfi file d)
cfi-IsRegistered file d h = elim (Bool-cases file.has_cfi) [
  | inl has ↦ rw (has, extract_cfi) (cfa-IsRegistered file.cfi_entries d h)
  | inr none_there ↦ rw (none_there, extract_cfi) h
]

-- In the debug information that is extracted from any binary, every subprogram stands under its
-- own name, and no name twice.
pub extract_dwarf_info-IsRegistered :
    (elf : Pyelftools) (limit : ℕ) (source_file function_of_interest binary : Text) (file : ElfFile)
    → Returns IsRegistered
        (extract_dwarf_info elf limit source_file function_of_interest binary file)
unfolding extract_dwarf_info
extract_dwarf_info-IsRegistered elf limit source_file function_of_interest binary file =
    elim (Bool-cases file.has_dwarf_info) [
      | inl has ↦
          rw (has, extract_dwarf_info)
            (>>=-Returns IsRegistered
              (extract_units elf limit source_file file.little_endian file.units start)
              (extract_cfi file)
              (λ d e. cfi-IsRegistered file d (
                subst (Returns IsRegistered) e (
                  units-IsRegistered elf limit source_file file.little_endian file.units start
                    (tt, tt)))))
      | inr none_there ↦ rw (none_there, extract_dwarf_info) tt
    ]
  where
    start : DwarfInfo
    start = new_dwarf_info source_file function_of_interest binary
