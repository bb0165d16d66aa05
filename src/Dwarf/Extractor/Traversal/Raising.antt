-- ===== src/Dwarf/Extractor/Traversal/Raising.antt =====
-- Where `die_extract_recurser` of py_etiss_xvalid/dwarf_info_extractor.py raises.
use etiss_xvalid.Base.{ℕ, suc, ◌≡◌, refl, sym, Bool, Option, ◌∙◌}
use etiss_xvalid.Base.Text.{Text}
use etiss_xvalid.Base.Dict.{Dict, lookup}
use etiss_xvalid.Base.Result.{Exn, ok, err, ◌>>=◌, >>=-congruent, >>=-assoc, type_error}
use etiss_xvalid.Dwarf.Info.{DwarfInfo}
use etiss_xvalid.Dwarf.Extractor.Die.{
  Attribute, Tag, variable_tag, formal_parameter_tag, Die, die, Dies, no_die, child, at_name,
  at_type, Pyelftools, get_die_from_attribute,
}
use etiss_xvalid.Dwarf.Extractor.TypeRec.{extract_type_rec}
use etiss_xvalid.Dwarf.Extractor.TypeRec.Dimensions.{append_dies}
use etiss_xvalid.Dwarf.Extractor.TypeRec.Raising.{
  IsVoidPointer, extract_type_rec_void_pointer, referred_type-err,
}
use etiss_xvalid.Dwarf.Extractor.Place.{UnitHeader}
use etiss_xvalid.Dwarf.Extractor.Traversal.{
  variable_name, extract_variable, die_extract_recurser, extract_children,
}

module _ (elf : Pyelftools) (limit : ℕ) (cu : UnitHeader) where
  -- The children are traversed in their order.
  pub extract_children-append :
      (subprogram : Option Text) (level : Bool) (ts us : Dies) (d : DwarfInfo)
      → extract_children elf limit cu subprogram level (append_dies ts us) d ≡ (
          extract_children elf limit cu subprogram level ts d
          >>= extract_children elf limit cu subprogram level us)
  unfolding extract_children
  extract_children-append subprogram level no_die us d = refl
  extract_children-append subprogram level (child t rest) us d =
      >>=-congruent (die_extract_recurser elf limit cu subprogram level t d) _ _
        (λ further e. extract_children-append subprogram level rest us further)
      ∙ sym (
          >>=-assoc (die_extract_recurser elf limit cu subprogram level t d)
            (extract_children elf limit cu subprogram level rest)
            (extract_children elf limit cu subprogram level us))

-- the tags of variables and parameters
abbrev pub IsVariableTag : Tag → Type 0
IsVariableTag variable_tag = Unit
IsVariableTag formal_parameter_tag = Unit
IsVariableTag tag = ⊥

extract_variable-err :
    (elf : Pyelftools) (limit : ℕ) (cu : UnitHeader) (attributes : Dict Attribute) (d e : Die)
    {name : Text} {x : Exn}
    → variable_name attributes (lookup at_name attributes) ≡ ok name
    → get_die_from_attribute elf at_type d ≡ ok e
    → extract_type_rec elf limit e ≡ err x
    → extract_variable elf limit cu attributes d ≡ err x
unfolding extract_variable
extract_variable-err elf limit cu attributes d e p q r =
    rw (p, referred_type-err elf (extract_type_rec elf limit) d e q r) refl

variable_raises :
    (elf : Pyelftools) (limit : ℕ) (cu : UnitHeader) (subprogram : Option Text) (level : Bool)
    (tag : Tag) (attributes : Dict Attribute) (children : Dies) (d : DwarfInfo) {x : Exn}
    → IsVariableTag tag
    → extract_variable elf limit cu attributes (die tag attributes children) ≡ err x
    → die_extract_recurser elf limit cu subprogram level (die tag attributes children) d ≡ err x
unfolding die_extract_recurser
variable_raises elf limit cu subprogram level variable_tag attributes children d v h = rw h refl
variable_raises elf limit cu subprogram level formal_parameter_tag attributes children d v h =
    rw h refl
variable_raises elf limit cu subprogram level tag attributes children d v h = absurd v

-- A variable or a parameter that is a pointer to void, or to such a pointer, and so on, ends the
-- traversal of the entries among which it stands with a type error, where it is reached and its
-- name can be read.
pub extract_children_void_pointer :
    (elf : Pyelftools) (limit : ℕ) (cu : UnitHeader) (subprogram : Option Text) (level : Bool)
    (before rest : Dies) (tag : Tag) (attributes : Dict Attribute) (children : Dies) (e : Die)
    (k : ℕ) (d : DwarfInfo) {d' : DwarfInfo} {name : Text}
    → extract_children elf (suc limit) cu subprogram level before d ≡ ok d'
    → IsVariableTag tag
    → variable_name attributes (lookup at_name attributes) ≡ ok name
    → get_die_from_attribute elf at_type (die tag attributes children) ≡ ok e
    → IsVoidPointer elf k e
    → extract_children elf
        (suc limit)
        cu
        subprogram
        level
        (append_dies before (child (die tag attributes children) rest))
        d
      ≡ err type_error
unfolding extract_children
extract_children_void_pointer elf limit cu subprogram level before rest tag attributes children e k
      d {d' = d'} p v n q void =
    rw
      (
        extract_children-append elf (suc limit) cu subprogram level before
            (child (die tag attributes children) rest) d,
        p,
        variable_raises elf (suc limit) cu subprogram level tag attributes children d' v (
            extract_variable-err elf (suc limit) cu attributes (die tag attributes children) e n q
              (extract_type_rec_void_pointer elf limit k e void)),
      )
      refl
