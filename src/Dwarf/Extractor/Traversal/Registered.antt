-- ===== src/Dwarf/Extractor/Traversal/Registered.antt =====
-- The dictionary of subprograms through the traversal of `die_extract_recurser` of
-- py_etiss_xvalid/dwarf_info_extractor.py.
use etiss_xvalid.Base.{ℕ, ◌≡◌, sym, ◌∙◌, Bool, Option, All}
use etiss_xvalid.Base.Text.{Text, text_eq→eq}
use etiss_xvalid.Base.Dict.{update}
use etiss_xvalid.Base.Dict.Changes.{
  HasDistinctKeys, insert-HasDistinctKeys, insert-All, update-All, update-HasDistinctKeys,
}
use etiss_xvalid.Base.Result.{Returns}
use etiss_xvalid.Dwarf.Info.{Subprogram, DwarfInfo, add_subprogram, add_global_variable}
use etiss_xvalid.Dwarf.Extractor.Die.{Dies, Pyelftools}
use etiss_xvalid.Dwarf.Extractor.Place.{UnitHeader}
use etiss_xvalid.Dwarf.Extractor.Traversal.{extract_children}
use etiss_xvalid.Dwarf.Extractor.Traversal.Preserving.{KeepsHead, extract_children_keeps}

-- Every subprogram is in the dictionary under its own name, and no name is there twice.
abbrev pub IsRegistered : DwarfInfo → Type 0
IsRegistered d = HasDistinctKeys d.subprograms × All (λ e. e.0 ≡ e.1.name) d.subprograms

add_subprogram-IsRegistered :
    (s : Subprogram) (d : DwarfInfo) → IsRegistered d → IsRegistered (add_subprogram s d)
unfolding add_subprogram
add_subprogram-IsRegistered s d h = (
  insert-HasDistinctKeys s.name s d.subprograms h.0,
  insert-All (λ e. e.0 ≡ e.1.name) s.name s d.subprograms (λ j same. text_eq→eq j s.name same) h.1,
)

update-IsRegistered :
    (name : Text) (f : Subprogram → Subprogram) (d : DwarfInfo)
    → KeepsHead f
    → IsRegistered d
    → IsRegistered (record d { subprograms = update name f d.subprograms })
update-IsRegistered name f d keeps h = (
  update-HasDistinctKeys name f d.subprograms h.0,
  update-All (λ e. e.0 ≡ e.1.name) name f d.subprograms (λ j s e. e ∙ sym (keeps s).0) h.1,
)

pub extract_children-IsRegistered :
    (elf : Pyelftools) (limit : ℕ) (cu : UnitHeader) (subprogram : Option Text) (level : Bool)
    (ts : Dies) (d : DwarfInfo)
    → IsRegistered d
    → Returns IsRegistered (extract_children elf limit cu subprogram level ts d)
unfolding add_global_variable
extract_children-IsRegistered elf limit cu subprogram level ts d h =
    extract_children_keeps IsRegistered (λ b. Unit) tt add_subprogram-IsRegistered
      update-IsRegistered (λ v e a r. r) elf limit cu subprogram level ts d tt h
