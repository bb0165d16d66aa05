-- ===== src/Dwarf/Extractor/Traversal/Locals.antt =====
-- What `die_extract_recurser` of py_etiss_xvalid/dwarf_info_extractor.py collects of a subprogram.
use etiss_xvalid.Base.{
  ℕ, ◌≡◌, ◌≢◌, refl, ap, ◌∙◌, Bool, false, Option, some, List, [], ◌∷◌, ◌++◌, Bool-cases, inl, inr,
}
use mathlib.Core.List.{append-nil, append_assoc}
use etiss_xvalid.Base.Text.{Text, text_eq, text_eq_refl}
use etiss_xvalid.Base.Dict.{Dict, lookup, insert, update, lookup-insert}
use etiss_xvalid.Base.Dict.Changes.{update-update, update-congruent, lookup-update-some}
use etiss_xvalid.Base.Result.{ok}
use etiss_xvalid.Dwarf.Info.{
  Variable, Subprogram, DwarfInfo, add_formal_parameter, add_local_variable, add_subprogram,
}
use etiss_xvalid.Dwarf.Extractor.Die.{
  Attribute, number, Tag, subprogram_tag, variable_tag, formal_parameter_tag, die, Dies, no_die,
  child, at_decl_file, get_value, Pyelftools,
}
use etiss_xvalid.Dwarf.Extractor.Place.{UnitHeader}
use etiss_xvalid.Dwarf.Extractor.Traversal.{
  change_subprogram, add_variable, extract_variable, extract_subprogram, die_extract_recurser,
  extract_children,
}

-- The parameters and the variables among a subprogram's children, each in their order; the other
-- children are no subprograms.
pub data HasLocals (elf : Pyelftools) (limit : ℕ) (cu : UnitHeader)
    : Dies → List Variable → List Variable → Type 0 where
  no_more : HasLocals elf limit cu no_die [] []
  parameter :
      {attributes : Dict Attribute} {children rest : Dies} {v : Variable} {ps vs : List Variable}
      → extract_variable elf limit cu attributes (die formal_parameter_tag attributes children)
        ≡ ok v
      → HasLocals elf limit cu rest ps vs
      → HasLocals elf limit cu
          (child (die formal_parameter_tag attributes children) rest)
          (v ∷ ps)
          vs
  local :
      {attributes : Dict Attribute} {children rest : Dies} {v : Variable} {ps vs : List Variable}
      → extract_variable elf limit cu attributes (die variable_tag attributes children) ≡ ok v
      → HasLocals elf limit cu rest ps vs
      → HasLocals elf limit cu (child (die variable_tag attributes children) rest) ps (v ∷ vs)
  other :
      {tag : Tag} {attributes : Dict Attribute} {children rest : Dies} {ps vs : List Variable}
      → tag ≢ subprogram_tag
      → tag ≢ formal_parameter_tag
      → tag ≢ variable_tag
      → HasLocals elf limit cu rest ps vs
      → HasLocals elf limit cu (child (die tag attributes children) rest) ps vs

abbrev pub with_locals : List Variable → List Variable → Subprogram → Subprogram
with_locals ps vs s = record s {
  formal_parameters = s.formal_parameters ++ ps;
  local_variables = s.local_variables ++ vs;
}

no_locals_added : (s : Subprogram) → with_locals [] [] s ≡ s
no_locals_added s = rw (append-nil s.formal_parameters, append-nil s.local_variables) refl

with_no_locals : (name : Text) (d : Dict Subprogram) → update name (with_locals [] []) d ≡ d
unfolding update
with_no_locals name [] = refl
with_no_locals name ((k, s) ∷ d) = elim (Bool-cases (text_eq k name)) [
  | inl same ↦ rw (same, no_locals_added s) refl
  | inr other_key ↦ rw (other_key, with_no_locals name d) refl
]

with_parameter :
    (v : Variable) (ps vs : List Variable) (s : Subprogram)
    → with_locals ps vs (add_formal_parameter v s) ≡ with_locals (v ∷ ps) vs s
unfolding add_formal_parameter
with_parameter v ps vs s = rw (append_assoc s.formal_parameters (v ∷ []) ps) refl

with_local :
    (v : Variable) (ps vs : List Variable) (s : Subprogram)
    → with_locals ps vs (add_local_variable v s) ≡ with_locals ps (v ∷ vs) s
unfolding add_local_variable
with_local v ps vs s = rw (append_assoc s.local_variables (v ∷ []) vs) refl

module _ (elf : Pyelftools) (limit : ℕ) (cu : UnitHeader) where
  skip_other :
      (subprogram : Option Text) (level : Bool) (tag : Tag) (attributes : Dict Attribute)
      (children : Dies) (d : DwarfInfo)
      → tag ≢ subprogram_tag
      → tag ≢ formal_parameter_tag
      → tag ≢ variable_tag
      → die_extract_recurser elf limit cu subprogram level (die tag attributes children) d ≡ ok d
  unfolding die_extract_recurser
  skip_other subprogram level subprogram_tag attributes children d s p v = absurd (s refl)
  skip_other subprogram level formal_parameter_tag attributes children d s p v = absurd (p refl)
  skip_other subprogram level variable_tag attributes children d s p v = absurd (v refl)
  skip_other subprogram level tag attributes children d s p v = refl

  extract_children-HasLocals :
      (name : Text) {ts : Dies} {ps vs : List Variable} (d : DwarfInfo)
      → HasLocals elf limit cu ts ps vs
      → extract_children elf limit cu (some name) false ts d
        ≡ ok (record d { subprograms = update name (with_locals ps vs) d.subprograms })
  unfolding extract_children die_extract_recurser add_variable change_subprogram
  extract_children-HasLocals name d no_more = rw (with_no_locals name d.subprograms) refl
  extract_children-HasLocals name d (parameter {v = v} {ps = ps} {vs = vs} e rest) =
      rw
        (
          e,
          extract_children-HasLocals name
              (record d { subprograms = update name (add_formal_parameter v) d.subprograms }) rest,
        )
        (ap (λ m. ok (record d { subprograms = m }))
          (update-update name (with_locals ps vs) (add_formal_parameter v) d.subprograms
            ∙ update-congruent name _ _ d.subprograms (with_parameter v ps vs)))
  extract_children-HasLocals name d (local {v = v} {ps = ps} {vs = vs} e rest) =
      rw
        (
          e,
          extract_children-HasLocals name
              (record d { subprograms = update name (add_local_variable v) d.subprograms }) rest,
        )
        (ap (λ m. ok (record d { subprograms = m }))
          (update-update name (with_locals ps vs) (add_local_variable v) d.subprograms
            ∙ update-congruent name _ _ d.subprograms (with_local v ps vs)))
  extract_children-HasLocals name d
        (other {tag = tag} {attributes = attributes} {children = children} s p v rest) =
      rw
        (
          skip_other (some name) false tag attributes children d s p v,
          extract_children-HasLocals name d rest,
        )
        refl

-- A subprogram that is declared in the first file, and can be read, is added under its name, with
-- the parameters and the local variables among its children, each in their order, where they can
-- be read and no child is a subprogram; the global variables stay as they are.
pub die_extract_recurser-HasLocals :
    (elf : Pyelftools) (limit : ℕ) (cu : UnitHeader) (subprogram : Option Text) (level : Bool)
    (attributes : Dict Attribute) (children : Dies) (ps vs : List Variable) (s : Subprogram)
    (d : DwarfInfo)
    → get_value at_decl_file attributes ≡ ok (number 1)
    → extract_subprogram elf limit cu attributes (die subprogram_tag attributes children) ≡ ok s
    → HasLocals elf limit cu children ps vs
    → (e : DwarfInfo) × (die_extract_recurser elf limit cu subprogram level
          (die subprogram_tag attributes children)
          d
        ≡ ok e)
      × (lookup s.name e.subprograms ≡ some (with_locals ps vs s))
      × (e.global_variables ≡ d.global_variables)
unfolding die_extract_recurser add_subprogram
die_extract_recurser-HasLocals elf limit cu subprogram level attributes children ps vs s d is_file
      found locals =
    (
      record d { subprograms = update s.name (with_locals ps vs) (insert s.name s d.subprograms) },
      rw
          (
            is_file,
            found,
            extract_children-HasLocals elf limit cu s.name (add_subprogram s d) locals,
          )
          refl,
      lookup-update-some s.name (with_locals ps vs) s (insert s.name s d.subprograms)
          (rw (lookup-insert s.name s.name s d.subprograms, text_eq_refl s.name) refl),
      refl,
    )
