-- ===== src/Tests/Extraction/Types.antt =====
-- py_etiss_xvalid/dwarf_info_extractor.py on the types of a small program.
use etiss_xvalid.Base.{ℕ, ◌≤◌, ◌≡◌, refl, subst, none, some, [], ◌∷◌, arith}
use etiss_xvalid.Base.Text.{codes, text_eq}
use etiss_xvalid.Base.Utf8.{decode_utf_8}
use etiss_xvalid.Base.Dict.{Dict, lookup}
use etiss_xvalid.Base.Result.{ok, err, type_error}
use etiss_xvalid.Dwarf.Types.{DwarfType, base, struct, no_member, member}
use etiss_xvalid.Dwarf.Extractor.Die.{
  Attribute, pointer_type, subrange_type, die, no_die, child, get_die_from_attribute, text_at,
  number_at, get_text, get_number,
}
use etiss_xvalid.Dwarf.Extractor.TypeRec.{
  extract_type_rec, collect_dimensions, compute_array_size_from_subranges,
}
use etiss_xvalid.Dwarf.Extractor.TypeRec.Depth.{HasChainsBelow, extract_type_rec_deep_enough}
use etiss_xvalid.Dwarf.Extractor.TypeRec.Described.{
  Describes, is_base, is_struct, no_more, one_more, no_member_here,
}
use etiss_xvalid.Dwarf.Extractor.TypeRec.Refinement.{extract_type_rec-Describes}
use etiss_xvalid.Dwarf.Extractor.TypeRec.Raising.{MayRaise, extract_type_rec_raises}
use etiss_xvalid.Dwarf.Extractor.TypeRec.Dimensions.{compute_array_size_from_subranges_count}
use etiss_xvalid.Tests.Extraction.{of_number, int_entry, void_pointer, const_int, pair_entry, tools}

pub int_Describes : Describes tools int_entry (base (codes "int") 4)
unfolding lookup text_eq text_at number_at decode_utf_8
int_Describes = is_base refl refl

abbrev pair_type : DwarfType
pair_type = struct (some (codes "pair")) (some 8) (
    member (base (codes "int") 4) (some (codes "a")) none none
      (member (base (codes "int") 4) (some (codes "b")) (some 3) (some 32) no_member))

pair_Describes : Describes tools pair_entry pair_type
unfolding lookup text_eq text_at number_at get_text get_number decode_utf_8 get_die_from_attribute
pair_Describes = is_struct refl refl (
    one_more refl refl int_Describes refl
      (no_member_here (λ e. cc) (one_more refl refl int_Describes (_, refl, refl, refl) no_more)))

extract_type_rec-Describes_example :
    (n : ℕ) × ((m : ℕ) → n ≤ m → extract_type_rec tools m pair_entry ≡ ok pair_type)
extract_type_rec-Describes_example = extract_type_rec-Describes tools pair_Describes

-- The two members of the struct are found; the other child is passed over.
pair_runs : extract_type_rec tools 2 pair_entry ≡ ok pair_type
unfolding lookup text_eq text_at number_at get_text get_number decode_utf_8 get_die_from_attribute
    extract_type_rec
pair_runs = refl

int-HasChainsBelow : HasChainsBelow tools 1 int_entry
unfolding lookup text_eq get_die_from_attribute
int-HasChainsBelow = ((λ e refers. cc), tt)

const_int-HasChainsBelow : HasChainsBelow tools 2 const_int
unfolding lookup text_eq get_die_from_attribute
const_int-HasChainsBelow = (
  (λ e refers.
      let same : int_entry ≡ e = cc in subst (HasChainsBelow tools 1) same int-HasChainsBelow),
  tt,
)

extract_type_rec_deep_enough_example :
    extract_type_rec tools 2 const_int ≡ extract_type_rec tools 1000 const_int
extract_type_rec_deep_enough_example =
    extract_type_rec_deep_enough tools 2 1000 const_int const_int-HasChainsBelow (omega arith)

void_pointer_raises : extract_type_rec tools 1 void_pointer ≡ err type_error
unfolding lookup extract_type_rec text_eq
void_pointer_raises = refl

extract_type_rec_raises_example : MayRaise pointer_type type_error
extract_type_rec_raises_example =
    extract_type_rec_raises tools 0 pointer_type (of_number (codes "DW_AT_byte_size") 4 ∷ []) no_die
      void_pointer_raises

-- `a[2][3][4]` of which the second dimension is a count
abbrev bounded : ℕ → Dict Attribute
bounded n = of_number (codes "DW_AT_upper_bound") n ∷ []

abbrev counted : Dict Attribute
counted = of_number (codes "DW_AT_count") 3 ∷ []

compute_array_size_from_subranges_count_example :
    compute_array_size_from_subranges (
      child (die subrange_type (bounded 1) no_die) (
        child
          (die subrange_type counted no_die)
          (child (die subrange_type (bounded 3) no_die) no_die)))
    ≡ ok (3 ∷ 4 ∷ [])
unfolding lookup text_eq number_at collect_dimensions
compute_array_size_from_subranges_count_example =
    compute_array_size_from_subranges_count 3 (child (die subrange_type (bounded 1) no_die) no_die)
      (child (die subrange_type (bounded 3) no_die) no_die) counted no_die _ (3 ∷ []) refl refl refl
      (refl, refl, refl, tt)
