-- ===== src/Dwarf/Overview/Shown.antt =====
-- `DwarfInfo.__str__` of py_etiss_xvalid/entity/dwarf/dwarf_info.py on types that entries describe.
use etiss_xvalid.Base.{ℕ, ◌≡◌, ◌⊎◌, inl, inr, List, [], ◌∷◌, All}
use etiss_xvalid.Base.Dict.{Dict}
use etiss_xvalid.Base.Result.{Succeeds, >>=-Succeeds}
use etiss_xvalid.Dwarf.Types.{DwarfType, missing, Members, UnionMembers, get_base, get_range}
use etiss_xvalid.Dwarf.Info.{Variable, Subprogram, DwarfInfo}
use etiss_xvalid.Dwarf.Show.{str_variable}
use etiss_xvalid.Dwarf.Show.Whole.{
  IsWhole, AreWhole, AreWholeAlternatives, get_base-Succeeds, get_range-Succeeds,
  str_variable-Succeeds,
}
use etiss_xvalid.Dwarf.Extractor.Die.{Die, Dies, Pyelftools}
use etiss_xvalid.Dwarf.Extractor.TypeRec.Described.{
  Describes, is_base, is_array, is_pointer, is_const, is_volatile, is_typedef, is_struct, is_union,
  HasMembers, no_more, one_more, no_member_here, HasUnionMembers, no_more_alternatives,
  one_alternative, no_alternative_here,
}
use etiss_xvalid.Dwarf.Overview.{
  typed_lines, return_lines, str_subprogram, str_variables, subprogram_overview,
  subprograms_overview, str_dwarf_info,
}

-- What entries describe has no part that is `None`.
mutual
  described-IsWhole : {elf : Pyelftools} {d : Die} {t : DwarfType} → Describes elf d t → IsWhole t
  described-IsWhole (is_base name size) = tt
  described-IsWhole (is_array dims refers s) = described-IsWhole s
  described-IsWhole (is_pointer refers s) = described-IsWhole s
  described-IsWhole (is_const refers s) = described-IsWhole s
  described-IsWhole (is_volatile refers s) = described-IsWhole s
  described-IsWhole (is_typedef refers name s) = described-IsWhole s
  described-IsWhole (is_struct name size ms) = members-AreWhole ms
  described-IsWhole (is_union size ms) = alternatives-AreWhole ms

  members-AreWhole :
      {elf : Pyelftools} {ds : Dies} {ms : Members} → HasMembers elf ds ms → AreWhole ms
  members-AreWhole no_more = tt
  members-AreWhole (one_more name refers s bits rest) = (described-IsWhole s, members-AreWhole rest)
  members-AreWhole (no_member_here other rest) = members-AreWhole rest

  alternatives-AreWhole :
      {elf : Pyelftools} {ds : Dies} {ms : UnionMembers}
      → HasUnionMembers elf ds ms
      → AreWholeAlternatives ms
  alternatives-AreWhole no_more_alternatives = tt
  alternatives-AreWhole (one_alternative name refers s rest) =
      (described-IsWhole s, alternatives-AreWhole rest)
  alternatives-AreWhole (no_alternative_here other rest) = alternatives-AreWhole rest

-- A type that some entry describes.
abbrev pub IsDescribed : Pyelftools → DwarfType → Type 0
IsDescribed elf t = (e : Die) × Describes elf e t

abbrev pub HaveDescribedTypes : Pyelftools → List Variable → Type 0
HaveDescribedTypes elf = All (λ v. IsDescribed elf v.type_info)

-- A subprogram may have no type, for void.
abbrev pub HasDescribedTypes : Pyelftools → Subprogram → Type 0
HasDescribedTypes elf s =
    ((s.type_info ≡ missing) ⊎ IsDescribed elf s.type_info)
    × HaveDescribedTypes elf s.formal_parameters
    × HaveDescribedTypes elf s.local_variables

typed_lines-Succeeds : (t : DwarfType) → IsWhole t → Succeeds (typed_lines t)
unfolding typed_lines
typed_lines-Succeeds t h =
    >>=-Succeeds (get_base t) _ (get_base-Succeeds t h)
      (λ info. >>=-Succeeds (get_range t) _ (get_range-Succeeds t h) (λ range. tt))

return_lines-Succeeds : (t : DwarfType) → IsWhole t → Succeeds (return_lines t)
unfolding return_lines
return_lines-Succeeds missing h = tt
return_lines-Succeeds t h = typed_lines-Succeeds t h

return_lines_known :
    (elf : Pyelftools) (t : DwarfType)
    → (t ≡ missing) ⊎ IsDescribed elf t
    → Succeeds (return_lines t)
unfolding return_lines
return_lines_known elf t (inl void) = rw void tt
return_lines_known elf t (inr (e, s)) = return_lines-Succeeds t (described-IsWhole s)

module _ (elf : Pyelftools) where
  str_variables-Succeeds :
      (indent : ℕ) (vs : List Variable)
      → HaveDescribedTypes elf vs
      → Succeeds (str_variables indent vs)
  unfolding str_variables
  str_variables-Succeeds indent [] h = tt
  str_variables-Succeeds indent (v ∷ vs) ((e, s), rest) =
      >>=-Succeeds (str_variable indent v) _ (str_variable-Succeeds indent v (described-IsWhole s))
        (λ first.
          >>=-Succeeds (str_variables indent vs) _ (str_variables-Succeeds indent vs rest)
            (λ others. tt))

  subprogram_overview-Succeeds :
      (s : Subprogram) → HasDescribedTypes elf s → Succeeds (subprogram_overview s)
  unfolding subprogram_overview str_subprogram
  subprogram_overview-Succeeds s (type_known, parameters, locals) =
      >>=-Succeeds (str_subprogram s) _
        (>>=-Succeeds (return_lines s.type_info) _ (return_lines_known elf s.type_info type_known)
          (λ lines. tt))
        (λ head.
          >>=-Succeeds (str_variables 6 s.formal_parameters) _
            (str_variables-Succeeds 6 s.formal_parameters parameters)
            (λ ps.
              >>=-Succeeds (str_variables 6 s.local_variables) _
                (str_variables-Succeeds 6 s.local_variables locals) (λ ls. tt)))

  subprograms_overview-Succeeds :
      (m : Dict Subprogram)
      → All (λ e. HasDescribedTypes elf e.1) m
      → Succeeds (subprograms_overview m)
  unfolding subprograms_overview
  subprograms_overview-Succeeds [] h = tt
  subprograms_overview-Succeeds ((k, s) ∷ rest) h =
      >>=-Succeeds (subprogram_overview s) _ (subprogram_overview-Succeeds s h.0) (λ first.
        >>=-Succeeds (subprograms_overview rest) _ (subprograms_overview-Succeeds rest h.1)
          (λ others. tt))

-- The text of the debug information, which the pipeline computes of both binaries, is computed
-- without an exception, where the type of every variable is one that some entry describes, and
-- that of every subprogram such a type or void.
pub str_dwarf_info-Succeeds :
    (elf : Pyelftools) (d : DwarfInfo)
    → HaveDescribedTypes elf d.global_variables
    → All (λ e. HasDescribedTypes elf e.1) d.subprograms
    → Succeeds (str_dwarf_info d)
unfolding str_dwarf_info
str_dwarf_info-Succeeds elf d globals subprograms =
    >>=-Succeeds (str_variables 2 d.global_variables) _
      (str_variables-Succeeds elf 2 d.global_variables globals)
      (λ global_text.
        >>=-Succeeds (subprograms_overview d.subprograms) _
          (subprograms_overview-Succeeds elf d.subprograms subprograms) (λ subprogram_text. tt))
