-- ===== src/Tests/BaseClasses.antt =====
-- What py_etiss_xvalid/entity/march/ declares beside the methods that are called, on concrete values.
use etiss_xvalid.Base.{◌≡◌, refl, some, none, [], ◌∷◌}
use etiss_xvalid.Base.Text.{codes, text_eq}
use etiss_xvalid.Base.Float.{decode_double}
use etiss_xvalid.Base.Result.{ok}
use etiss_xvalid.Dwarf.Types.{DwarfType, base, struct, member, no_member}
use etiss_xvalid.March.Value.{int_value, float_value, scalars}
use etiss_xvalid.March.Machine.{rv32imac}
use etiss_xvalid.March.StructValue.{fetch_struct_return_value}
use etiss_xvalid.March.BaseClass.{
  fetch_prologue_state, fetch_cswsp_instruction, fetch_cjr_instruction, from_rv32_words_le_bytes,
  base_fetch_struct_return_value,
}
use etiss_xvalid.Tests.Comparisons.{call_of_f, minus_one}

-- the words of 1.0
one_read :
    from_rv32_words_le_bytes (codes "00000000") (codes "0000f03f")
    ≡ ok (float_value (decode_double 4607182418800017408))
unfolding from_rv32_words_le_bytes
one_read = refl

-- struct { int a; }
abbrev one_int : DwarfType
one_int =
    struct (some (codes "s")) (some 4)
      (member (base (codes "int") 4) (some (codes "a")) none none no_member)

return_found : fetch_cjr_instruction (minus_one ∷ []) ≡ some minus_one
unfolding fetch_cjr_instruction text_eq
return_found = refl

no_store_found : fetch_prologue_state rv32imac [] ≡ fetch_cswsp_instruction []
unfolding fetch_prologue_state fetch_cswsp_instruction
no_store_found = refl

-- The method of the base class gives none of the integers that the one of the architecture gives.
one_int_fetched :
    fetch_struct_return_value rv32imac (call_of_f one_int)
    ≡ ok (scalars (int_value 4294967295 ∷ []))
unfolding fetch_struct_return_value
one_int_fetched = refl

one_int_lost : base_fetch_struct_return_value rv32imac (call_of_f one_int) ≡ ok (scalars [])
unfolding base_fetch_struct_return_value
one_int_lost = refl
