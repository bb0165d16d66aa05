-- ===== src/Dwarf/Extractor/TypeRec/Refinement.antt =====
-- `_extract_type_rec` of py_etiss_xvalid/dwarf_info_extractor.py on well-formed entries.
use etiss_xvalid.Base.{ℕ, zero, suc, ◌+◌, ◌≤◌, ◌≡◌, ◌≢◌, refl, Option, none, some, arith}
use etiss_xvalid.Base.Text.{Text}
use etiss_xvalid.Base.Dict.{Dict, lookup}
use etiss_xvalid.Base.Result.{Result, ok}
use etiss_xvalid.Dwarf.Types.{DwarfType, typedef, Members, UnionMembers}
use etiss_xvalid.Dwarf.Extractor.Die.{
  Attribute, Tag, member_tag, Die, die, Dies, child, at_name, at_type, at_bit_size, attributes_of,
  text_at, get_text, Pyelftools, get_die_from_attribute,
}
use etiss_xvalid.Dwarf.Extractor.TypeRec.{
  referred_type, named_type, parse_member, parse_union_member, bit_range, collect_members,
  collect_union_members, extract_type_rec, extract_type_step,
}
use etiss_xvalid.Dwarf.Extractor.TypeRec.Described.{
  Describes, is_base, is_array, is_pointer, is_const, is_volatile, is_typedef, is_struct, is_union,
  HasMembers, no_more, one_more, no_member_here, HasUnionMembers, no_more_alternatives,
  one_alternative, no_alternative_here, BitRange,
}

-- From `n` nested calls on, the result is `t`.
abbrev ExtractedFrom : Pyelftools → ℕ → Die → DwarfType → Type 0
ExtractedFrom elf n d t = (m : ℕ) → n ≤ m → extract_type_rec elf m d ≡ ok t

extracted_from_step :
    (elf : Pyelftools) (n : ℕ) (d : Die) (t : DwarfType)
    → ((m : ℕ) → n ≤ m → extract_type_step elf (extract_type_rec elf m) d ≡ ok t)
    → ExtractedFrom elf (suc n) d t
unfolding extract_type_rec
extracted_from_step elf n d t h zero le = absurd (omega arith)
extracted_from_step elf n d t h (suc m) le = h m (omega arith)

referred_type_found :
    (elf : Pyelftools) (extract : Die → Result DwarfType) (d e : Die) {t : DwarfType}
    → get_die_from_attribute elf at_type d ≡ ok e
    → extract e ≡ ok t
    → referred_type elf extract d ≡ ok t
unfolding referred_type
referred_type_found elf extract d e p q = rw (p, q) refl

bit_range_found :
    (attributes : Dict Attribute) (size offset : Option ℕ)
    → BitRange attributes size offset
    → bit_range attributes (lookup at_bit_size attributes) ≡ ok (size, offset)
bit_range_found attributes none none b = rw b refl
bit_range_found attributes none (some offset) b = absurd b
bit_range_found attributes (some size) none b = absurd b
bit_range_found attributes (some size) (some offset) (a, found, is_size, is_offset) =
    rw (found, is_size, is_offset) refl

parse_member_found :
    (elf : Pyelftools) (extract : Die → Result DwarfType) (d e : Die) {t : DwarfType} {name : Text}
    (size offset : Option ℕ)
    → get_text at_name (attributes_of d) ≡ ok name
    → get_die_from_attribute elf at_type d ≡ ok e
    → extract e ≡ ok t
    → BitRange (attributes_of d) size offset
    → parse_member elf extract d ≡ ok (name, t, size, offset)
unfolding parse_member
parse_member_found elf extract d e size offset p q r b =
    rw (p, referred_type_found elf extract d e q r, bit_range_found (attributes_of d) size offset b)
      refl

parse_union_member_found :
    (elf : Pyelftools) (extract : Die → Result DwarfType) (d e : Die) {t : DwarfType} {name : Text}
    → get_text at_name (attributes_of d) ≡ ok name
    → get_die_from_attribute elf at_type d ≡ ok e
    → extract e ≡ ok t
    → parse_union_member elf extract d ≡ ok (name, t)
unfolding parse_union_member
parse_union_member_found elf extract d e p q r =
    rw (p, referred_type_found elf extract d e q r) refl

named_type_found :
    (elf : Pyelftools) (extract : Die → Result DwarfType) (attributes : Dict Attribute) (e : Die)
    {t : DwarfType} {name : Text}
    → text_at at_name attributes ≡ ok name
    → extract e ≡ ok t
    → named_type elf extract attributes e ≡ ok (typedef t (some name))
unfolding named_type
named_type_found elf extract attributes e p q = rw (p, q) refl

-- Other children than members are passed over.
collect_members_other :
    (elf : Pyelftools) (extract : Die → Result DwarfType) (tag : Tag) (attributes : Dict Attribute)
    (children rest : Dies)
    → tag ≢ member_tag
    → collect_members elf extract (child (die tag attributes children) rest)
      ≡ collect_members elf extract rest
unfolding collect_members
collect_members_other elf extract member_tag attributes children rest h = absurd (h refl)
collect_members_other elf extract tag attributes children rest h = refl

collect_union_members_other :
    (elf : Pyelftools) (extract : Die → Result DwarfType) (tag : Tag) (attributes : Dict Attribute)
    (children rest : Dies)
    → tag ≢ member_tag
    → collect_union_members elf extract (child (die tag attributes children) rest)
      ≡ collect_union_members elf extract rest
unfolding collect_union_members
collect_union_members_other elf extract member_tag attributes children rest h = absurd (h refl)
collect_union_members_other elf extract tag attributes children rest h = refl

abbrev CollectedFrom : Pyelftools → ℕ → Dies → Members → Type 0
CollectedFrom elf n cs ms = (m : ℕ) → n ≤ m → collect_members elf (extract_type_rec elf m) cs ≡ ms

abbrev AlternativesFrom : Pyelftools → ℕ → Dies → UnionMembers → Type 0
AlternativesFrom elf n cs ms =
    (m : ℕ) → n ≤ m → collect_union_members elf (extract_type_rec elf m) cs ≡ ms

mutual
  unfolding extract_type_step collect_members collect_union_members

  extracted :
      (elf : Pyelftools) {d : Die} {t : DwarfType}
      → Describes elf d t
      → (n : ℕ) × ExtractedFrom elf n d t
  extracted elf (is_base name size) =
      (1, extracted_from_step elf 0 _ _ (λ m le. rw (name, size) refl))
  extracted elf (is_array dims refers s) =
      let (n, deep) = extracted elf s in
      (
        suc n,
        extracted_from_step elf n _ _ (λ m le.
            rw (dims, referred_type_found elf (extract_type_rec elf m) _ _ refers (deep m le))
              refl),
      )
  extracted elf (is_pointer refers s) =
      let (n, deep) = extracted elf s in
      (
        suc n,
        extracted_from_step elf n _ _ (λ m le.
            rw (referred_type_found elf (extract_type_rec elf m) _ _ refers (deep m le)) refl),
      )
  extracted elf (is_const refers s) =
      let (n, deep) = extracted elf s in
      (
        suc n,
        extracted_from_step elf n _ _ (λ m le.
            rw (referred_type_found elf (extract_type_rec elf m) _ _ refers (deep m le)) refl),
      )
  extracted elf (is_volatile refers s) =
      let (n, deep) = extracted elf s in
      (
        suc n,
        extracted_from_step elf n _ _ (λ m le.
            rw (referred_type_found elf (extract_type_rec elf m) _ _ refers (deep m le)) refl),
      )
  extracted elf (is_typedef refers name s) =
      let (n, deep) = extracted elf s in
      (
        suc n,
        extracted_from_step elf n _ _ (λ m le.
            rw (refers, named_type_found elf (extract_type_rec elf m) _ _ name (deep m le)) refl),
      )
  extracted elf (is_struct name size ms) =
      let (n, deep) = members_collected elf ms in
      (suc n, extracted_from_step elf n _ _ (λ m le. rw (name, size, deep m le) refl))
  extracted elf (is_union size ms) =
      let (n, deep) = alternatives_collected elf ms in
      (suc n, extracted_from_step elf n _ _ (λ m le. rw (size, deep m le) refl))

  members_collected :
      (elf : Pyelftools) {cs : Dies} {ms : Members}
      → HasMembers elf cs ms
      → (n : ℕ) × CollectedFrom elf n cs ms
  members_collected elf no_more = (0, λ m le. refl)
  members_collected elf (one_more name refers s bits rest) =
      let (n, deep) = extracted elf s in
      let (k, others) = members_collected elf rest in
      (
        n + k,
        λ m le.
            rw
              (
                parse_member_found elf (extract_type_rec elf m) _ _ _ _ name refers
                    (deep m (omega arith)) bits,
                others m (omega arith),
              )
              refl,
      )
  members_collected elf (no_member_here other rest) =
      let (k, others) = members_collected elf rest in
      (
        k,
        λ m le. rw (collect_members_other elf (extract_type_rec elf m) _ _ _ _ other) (others m le),
      )

  alternatives_collected :
      (elf : Pyelftools) {cs : Dies} {ms : UnionMembers}
      → HasUnionMembers elf cs ms
      → (n : ℕ) × AlternativesFrom elf n cs ms
  alternatives_collected elf no_more_alternatives = (0, λ m le. refl)
  alternatives_collected elf (one_alternative name refers s rest) =
      let (n, deep) = extracted elf s in
      let (k, others) = alternatives_collected elf rest in
      (
        n + k,
        λ m le.
            rw
              (
                parse_union_member_found elf (extract_type_rec elf m) _ _ name refers
                    (deep m (omega arith)),
                others m (omega arith),
              )
              refl,
      )
  alternatives_collected elf (no_alternative_here other rest) =
      let (k, others) = alternatives_collected elf rest in
      (
        k,
        λ m le.
            rw (collect_union_members_other elf (extract_type_rec elf m) _ _ _ _ other)
              (others m le),
      )

-- For every entry that describes a type, whatever its nesting, the extraction returns that type,
-- if the interpreter allows some number of nested calls, or more of them.
pub extract_type_rec-Describes :
    (elf : Pyelftools) {d : Die} {t : DwarfType}
    → Describes elf d t
    → (n : ℕ) × ((m : ℕ) → n ≤ m → extract_type_rec elf m d ≡ ok t)
extract_type_rec-Describes elf s = extracted elf s
