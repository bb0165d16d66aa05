-- ===== src/Dwarf/Extractor/TypeRec/Described.antt =====
-- The types that well-formed entries describe, as relations between entries and types: what
-- `_extract_type_rec` of py_etiss_xvalid/dwarf_info_extractor.py is to return.
use etiss_xvalid.Base.{ℕ, ◌≡◌, ◌≢◌, Option, none, some, List}
use etiss_xvalid.Base.Text.{Text}
use etiss_xvalid.Base.Dict.{Dict, lookup}
use etiss_xvalid.Base.Result.{ok}
use etiss_xvalid.Dwarf.Types.{
  DwarfType, base, const, volatile, typedef, array, pointer, struct, union, Members, no_member,
  member, UnionMembers, no_union_member, union_member,
}
use etiss_xvalid.Dwarf.Extractor.Die.{
  Attribute, Tag, base_type, array_type, pointer_type, const_type, volatile_type, typedef_tag,
  structure_type, union_type, member_tag, Die, die, Dies, no_die, child, at_name, at_type,
  at_byte_size, at_bit_size, at_data_bit_offset, text_at, number_at, as_number, get_number,
  get_text, Pyelftools, get_die_from_attribute,
}
use etiss_xvalid.Dwarf.Extractor.TypeRec.{compute_array_size_from_subranges, prod}

-- A member's bit size and offset, where it has one.
abbrev pub BitRange : Dict Attribute → Option ℕ → Option ℕ → Type 0
BitRange attributes none none = lookup at_bit_size attributes ≡ none
BitRange attributes (some size) (some offset) =
    (a : Attribute) × (lookup at_bit_size attributes ≡ some a)
    × (as_number a.value ≡ ok size)
    × (get_number at_data_bit_offset attributes ≡ ok offset)
BitRange attributes _ _ = ⊥

-- An entry describes a type, where its attributes and what they refer to do.
mutual
  pub data Describes (elf : Pyelftools) : Die → DwarfType → Type 0 where
    is_base :
        {atts : Dict Attribute} {cs : Dies} {name : Text} {size : ℕ}
        → text_at at_name atts ≡ ok name
        → number_at at_byte_size atts ≡ ok size
        → Describes elf (die base_type atts cs) (base name size)
    is_array :
        {atts : Dict Attribute} {cs : Dies} {e : Die} {t : DwarfType} {dimensions : List ℕ}
        → compute_array_size_from_subranges cs ≡ ok dimensions
        → get_die_from_attribute elf at_type (die array_type atts cs) ≡ ok e
        → Describes elf e t
        → Describes elf (die array_type atts cs) (array t dimensions (prod dimensions))
    is_pointer :
        {atts : Dict Attribute} {cs : Dies} {e : Die} {t : DwarfType}
        → get_die_from_attribute elf at_type (die pointer_type atts cs) ≡ ok e
        → Describes elf e t
        → Describes elf (die pointer_type atts cs) (pointer t)
    is_const :
        {atts : Dict Attribute} {cs : Dies} {e : Die} {t : DwarfType}
        → get_die_from_attribute elf at_type (die const_type atts cs) ≡ ok e
        → Describes elf e t
        → Describes elf (die const_type atts cs) (const t)
    is_volatile :
        {atts : Dict Attribute} {cs : Dies} {e : Die} {t : DwarfType}
        → get_die_from_attribute elf at_type (die volatile_type atts cs) ≡ ok e
        → Describes elf e t
        → Describes elf (die volatile_type atts cs) (volatile t)
    is_typedef :
        {atts : Dict Attribute} {cs : Dies} {e : Die} {t : DwarfType} {name : Text}
        → get_die_from_attribute elf at_type (die typedef_tag atts cs) ≡ ok e
        → text_at at_name atts ≡ ok name
        → Describes elf e t
        → Describes elf (die typedef_tag atts cs) (typedef t (some name))
    is_struct :
        {atts : Dict Attribute} {cs : Dies} {ms : Members} {name : Text} {size : ℕ}
        → text_at at_name atts ≡ ok name
        → number_at at_byte_size atts ≡ ok size
        → HasMembers elf cs ms
        → Describes elf (die structure_type atts cs) (struct (some name) (some size) ms)
    is_union :
        {atts : Dict Attribute} {cs : Dies} {ms : UnionMembers} {size : ℕ}
        → number_at at_byte_size atts ≡ ok size
        → HasUnionMembers elf cs ms
        → Describes elf (die union_type atts cs) (union size ms)

  -- The members are those of the children that are members, in their order.
  pub data HasMembers (elf : Pyelftools) : Dies → Members → Type 0 where
    no_more : HasMembers elf no_die no_member
    one_more :
        {atts : Dict Attribute} {ks rest : Dies} {e : Die} {t : DwarfType} {name : Text}
        {size offset : Option ℕ} {ms : Members}
        → get_text at_name atts ≡ ok name
        → get_die_from_attribute elf at_type (die member_tag atts ks) ≡ ok e
        → Describes elf e t
        → BitRange atts size offset
        → HasMembers elf rest ms
        → HasMembers elf (child (die member_tag atts ks) rest) (member t (some name) size offset ms)
    no_member_here :
        {tag : Tag} {atts : Dict Attribute} {ks rest : Dies} {ms : Members}
        → tag ≢ member_tag
        → HasMembers elf rest ms
        → HasMembers elf (child (die tag atts ks) rest) ms

  pub data HasUnionMembers (elf : Pyelftools) : Dies → UnionMembers → Type 0 where
    no_more_alternatives : HasUnionMembers elf no_die no_union_member
    one_alternative :
        {atts : Dict Attribute} {ks rest : Dies} {e : Die} {t : DwarfType} {name : Text}
        {ms : UnionMembers}
        → get_text at_name atts ≡ ok name
        → get_die_from_attribute elf at_type (die member_tag atts ks) ≡ ok e
        → Describes elf e t
        → HasUnionMembers elf rest ms
        → HasUnionMembers elf (child (die member_tag atts ks) rest) (union_member name t ms)
    no_alternative_here :
        {tag : Tag} {atts : Dict Attribute} {ks rest : Dies} {ms : UnionMembers}
        → tag ≢ member_tag
        → HasUnionMembers elf rest ms
        → HasUnionMembers elf (child (die tag atts ks) rest) ms
