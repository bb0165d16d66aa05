-- ===== src/Dwarf/Extractor/TypeRec/Depth.antt =====
-- How deep the recursion of `_extract_type_rec` in py_etiss_xvalid/dwarf_info_extractor.py goes.
use etiss_xvalid.Base.{ℕ, zero, suc, ◌≤◌, ◌≡◌, refl, ap, arith, none}
use etiss_xvalid.Base.Dict.{Dict}
use etiss_xvalid.Base.Result.{Result, ok, >>=-congruent, or_handle}
use etiss_xvalid.Dwarf.Types.{DwarfType, missing, typedef}
use etiss_xvalid.Dwarf.Extractor.Die.{
  Attribute, Tag, array_type, pointer_type, const_type, volatile_type, typedef_tag, structure_type,
  union_type, member_tag, Die, die, Dies, no_die, child, at_type, Pyelftools,
  get_die_from_attribute,
}
use etiss_xvalid.Dwarf.Extractor.TypeRec.{
  referred_type, named_type, parse_member, parse_union_member, collect_members,
  collect_union_members, extract_type_step, extract_type_rec,
}

-- What holds of each entry that a `DW_AT_type` refers to.
abbrev Referred {ℓ} : Pyelftools → (Die → Type ℓ) → Die → Type ℓ
Referred elf P d = (e : Die) → get_die_from_attribute elf at_type d ≡ ok e → P e

abbrev AllDies {ℓ} : (Die → Type ℓ) → Dies → Type ℓ
AllDies P no_die = Unit
AllDies P (child d rest) = P d × AllDies P rest

-- The chains of references from an entry and its children have fewer than `n` steps.
abbrev pub HasChainsBelow : Pyelftools → ℕ → Die → Type 0
HasChainsBelow elf zero d = ⊥
HasChainsBelow elf (suc n) (die tag attributes children) =
    Referred elf (HasChainsBelow elf n) (die tag attributes children)
    × AllDies (Referred elf (HasChainsBelow elf n)) children

module _ (elf : Pyelftools) (f g : Die → Result DwarfType) where
  abbrev SameBehind : Die → Type 0
  SameBehind = Referred elf (λ e. f e ≡ g e)

  referred_type_same : (d : Die) → SameBehind d → referred_type elf f d ≡ referred_type elf g d
  unfolding referred_type
  referred_type_same d h = >>=-congruent (get_die_from_attribute elf at_type d) f g h

  parse_member_same : (d : Die) → SameBehind d → parse_member elf f d ≡ parse_member elf g d
  unfolding parse_member
  parse_member_same d h = rw (referred_type_same d h) refl

  parse_union_member_same :
      (d : Die) → SameBehind d → parse_union_member elf f d ≡ parse_union_member elf g d
  unfolding parse_union_member
  parse_union_member_same d h = rw (referred_type_same d h) refl

  collect_members_same :
      (cs : Dies) → AllDies SameBehind cs → collect_members elf f cs ≡ collect_members elf g cs
  unfolding collect_members
  collect_members_same no_die h = refl
  collect_members_same (child (die member_tag attributes children) rest) h =
      rw (parse_member_same (die member_tag attributes children) h.0, collect_members_same rest h.1)
        refl
  collect_members_same (child (die tag attributes children) rest) h = collect_members_same rest h.1

  collect_union_members_same :
      (cs : Dies)
      → AllDies SameBehind cs
      → collect_union_members elf f cs ≡ collect_union_members elf g cs
  unfolding collect_union_members
  collect_union_members_same no_die h = refl
  collect_union_members_same (child (die member_tag attributes children) rest) h =
      rw
        (
          parse_union_member_same (die member_tag attributes children) h.0,
          collect_union_members_same rest h.1,
        )
        refl
  collect_union_members_same (child (die tag attributes children) rest) h =
      collect_union_members_same rest h.1

  named_type_same :
      (attributes : Dict Attribute) (e : Die)
      → f e ≡ g e
      → named_type elf f attributes e ≡ named_type elf g attributes e
  unfolding named_type
  named_type_same attributes e h = rw h refl

  -- One call is the same with functions for the calls inside that agree on what is referred to.
  extract_type_step_same :
      (tag : Tag) (attributes : Dict Attribute) (children : Dies)
      → SameBehind (die tag attributes children)
      → AllDies SameBehind children
      → extract_type_step elf f (die tag attributes children)
        ≡ extract_type_step elf g (die tag attributes children)
  unfolding extract_type_step
  extract_type_step_same array_type attributes children h hs =
      rw (referred_type_same (die array_type attributes children) h) refl
  extract_type_step_same pointer_type attributes children h hs =
      rw (referred_type_same (die pointer_type attributes children) h) refl
  extract_type_step_same const_type attributes children h hs =
      rw (referred_type_same (die const_type attributes children) h) refl
  extract_type_step_same volatile_type attributes children h hs =
      rw (referred_type_same (die volatile_type attributes children) h) refl
  extract_type_step_same typedef_tag attributes children h hs =
      ap (λ r. or_handle r (ok (typedef missing none)))
        (>>=-congruent (get_die_from_attribute elf at_type (die typedef_tag attributes children))
          (named_type elf f attributes) (named_type elf g attributes)
          (λ e p. named_type_same attributes e (h e p)))
  extract_type_step_same structure_type attributes children h hs =
      rw (collect_members_same children hs) refl
  extract_type_step_same union_type attributes children h hs =
      rw (collect_union_members_same children hs) refl
  extract_type_step_same tag attributes children h hs = refl

-- Two depths of which the results agree on every entry with short chains.
abbrev AgreeOn : Pyelftools → ℕ → ℕ → ℕ → Type 0
AgreeOn elf below n m =
    (d : Die) → HasChainsBelow elf below d → extract_type_rec elf n d ≡ extract_type_rec elf m d

children_agree :
    (elf : Pyelftools) (below n m : ℕ)
    → AgreeOn elf below n m
    → (cs : Dies) → AllDies (Referred elf (HasChainsBelow elf below)) cs
    → AllDies (SameBehind elf (extract_type_rec elf n) (extract_type_rec elf m)) cs
children_agree elf below n m agree no_die h = tt
children_agree elf below n m agree (child d rest) h =
    ((λ e p. agree e (h.0 e p)), children_agree elf below n m agree rest h.1)

-- The result of the extraction of a type does not depend on how many nested calls the interpreter
-- allows, where these are more than the steps of every chain of references from the type.
pub extract_type_rec_deep_enough :
    (elf : Pyelftools) (n m : ℕ) (d : Die)
    → HasChainsBelow elf n d
    → n ≤ m
    → extract_type_rec elf n d ≡ extract_type_rec elf m d
unfolding extract_type_rec
extract_type_rec_deep_enough elf zero m d h le = absurd h
extract_type_rec_deep_enough elf (suc n) zero d h le = absurd (omega arith)
extract_type_rec_deep_enough elf (suc n) (suc m) (die tag attributes children) h le =
    let agree : AgreeOn elf n n m = λ e s. extract_type_rec_deep_enough elf n m e s (omega arith) in
    extract_type_step_same elf (extract_type_rec elf n) (extract_type_rec elf m) tag attributes
      children (λ e p. agree e (h.0 e p)) (children_agree elf n n m agree children h.1)
