-- ===== src/Dwarf/Extractor/Traversal/Preserving.antt =====
-- What holds of the extracted information through the traversal of entries by
-- `die_extract_recurser` of py_etiss_xvalid/dwarf_info_extractor.py.
use etiss_xvalid.Base.{
  ℕ, ◌≡◌, refl, subst, Bool, true, false, Option, none, some, inl, inr, Bool-cases,
}
use etiss_xvalid.Base.Text.{Text}
use etiss_xvalid.Base.Dict.{update}
use etiss_xvalid.Base.Result.{Returns, >>=-Returns}
use etiss_xvalid.Dwarf.Info.{
  Variable, Subprogram, DwarfInfo, add_formal_parameter, add_local_variable, add_subprogram,
  add_global_variable,
}
use etiss_xvalid.Dwarf.Extractor.Die.{
  subprogram_tag, variable_tag, formal_parameter_tag, Die, die, Dies, no_die, child, at_decl_file,
  get_value, Pyelftools,
}
use etiss_xvalid.Dwarf.Extractor.Place.{UnitHeader}
use etiss_xvalid.Dwarf.Extractor.Traversal.{
  is_first_file, change_subprogram, extract_variable, extract_subprogram, add_variable,
  die_extract_recurser, extract_children,
}

-- Nothing but a subprogram's variables and frames is changed.
abbrev pub KeepsHead : (Subprogram → Subprogram) → Type 0
KeepsHead f =
    (s : Subprogram)
    → ((f s).name ≡ s.name) × ((f s).low_pc ≡ s.low_pc) × ((f s).high_pc ≡ s.high_pc)

-- `P` is to hold through the traversal at the levels that `Allowed` has, of which the local one is.
module _ (P : DwarfInfo → Type 0) (Allowed : Bool → Type 0) (nested : Allowed false)
    (keep_subprogram : (s : Subprogram) (d : DwarfInfo) → P d → P (add_subprogram s d))
    (keep_change : (name : Text) (f : Subprogram → Subprogram) (d : DwarfInfo)
      → KeepsHead f
      → P d
      → P (record d { subprograms = update name f d.subprograms }))
    (keep_global : (v : Variable) (d : DwarfInfo)
      → Allowed true
      → P d
      → P (add_global_variable v d))
    (elf : Pyelftools) (limit : ℕ) (cu : UnitHeader) where
  change_keeps :
      (subprogram : Option Text) (f : Subprogram → Subprogram) (d : DwarfInfo)
      → KeepsHead f
      → P d
      → Returns P (change_subprogram subprogram f d)
  unfolding change_subprogram
  change_keeps none f d k p = tt
  change_keeps (some name) f d k p = keep_change name f d k p

  variable_keeps :
      (subprogram : Option Text) (level : Bool) (v : Variable) (d : DwarfInfo)
      → Allowed level
      → P d
      → Returns P (add_variable subprogram level v d)
  unfolding add_variable add_local_variable
  variable_keeps subprogram true v d a p = keep_global v d a p
  variable_keeps subprogram false v d a p =
      change_keeps subprogram (add_local_variable v) d (λ s. (refl, refl, refl)) p

  mutual
    unfolding die_extract_recurser add_formal_parameter

    die_keeps :
        (subprogram : Option Text) (level : Bool) (t : Die) (d : DwarfInfo)
        → Allowed level
        → P d
        → Returns P (die_extract_recurser elf limit cu subprogram level t d)
    die_keeps subprogram level (die subprogram_tag attributes children) d a p =
        >>=-Returns P (get_value at_decl_file attributes) _ (λ file _.
          elim (Bool-cases (is_first_file file)) [
            | inl own ↦ rw own (
                >>=-Returns P
                  (extract_subprogram elf limit cu attributes
                    (die subprogram_tag attributes children))
                  _
                  (λ s _.
                    children_keep (some s.name) false children (add_subprogram s d) nested
                      (keep_subprogram s d p)))
            | inr other ↦ rw other p
          ])
    die_keeps subprogram level (die variable_tag attributes children) d a p =
        >>=-Returns P
          (extract_variable elf limit cu attributes (die variable_tag attributes children)) _
          (λ v _. variable_keeps subprogram level v d a p)
    die_keeps subprogram level (die formal_parameter_tag attributes children) d a p =
        >>=-Returns P
          (extract_variable elf limit cu attributes (die formal_parameter_tag attributes children))
          _ (λ v _. change_keeps subprogram (add_formal_parameter v) d (λ s. (refl, refl, refl)) p)
    die_keeps subprogram level (die tag attributes children) d a p = p

    children_keep :
        (subprogram : Option Text) (level : Bool) (ts : Dies) (d : DwarfInfo)
        → Allowed level
        → P d
        → Returns P (extract_children elf limit cu subprogram level ts d)
    children_keep subprogram level no_die d a p = p
    children_keep subprogram level (child t rest) d a p =
        >>=-Returns P (die_extract_recurser elf limit cu subprogram level t d) _ (λ further e.
          children_keep subprogram level rest further a
            (subst (Returns P) e (die_keeps subprogram level t d a p)))

  pub extract_children_keeps :
      (subprogram : Option Text) (level : Bool) (ts : Dies) (d : DwarfInfo)
      → Allowed level
      → P d
      → Returns P (extract_children elf limit cu subprogram level ts d)
  extract_children_keeps = children_keep
