-- ===== src/Dwarf/Mapper.antt =====
-- py_etiss_xvalid/util/gcc_dwarf_rv_mapper.py: GCC's base type names on RV32.
use etiss_xvalid.Base.{ℕ, Option, none, some, [], ◌∷◌}
use etiss_xvalid.Base.Text.{Text, codes}
use etiss_xvalid.Base.Dict.{Dict, lookup}

abbrev gcc_dwarf_rv_mapper : Dict Text
gcc_dwarf_rv_mapper =
    (codes "char", codes "int")
    ∷ (codes "signed char", codes "int")
    ∷ (codes "unsigned char", codes "int")
    ∷ (codes "short int", codes "int")
    ∷ (codes "short unsigned int", codes "int")
    ∷ (codes "int", codes "int")
    ∷ (codes "unsigned int", codes "int")
    ∷ (codes "long int", codes "int")
    ∷ (codes "long unsigned int", codes "int")
    ∷ (codes "long long int", codes "long long")
    ∷ (codes "long long unsigned int", codes "long long")
    ∷ (codes "float", codes "float")
    ∷ (codes "double", codes "double")
    ∷ (codes "long double", codes "long double")
    ∷ (codes "_Bool", codes "int")
    ∷ (codes "struct", codes "struct")
    ∷ []

abbrev gcc_dwarf_size_mapper : Dict ℕ
gcc_dwarf_size_mapper =
    (codes "char", 1)
    ∷ (codes "signed char", 1)
    ∷ (codes "unsigned char", 1)
    ∷ (codes "short int", 2)
    ∷ (codes "short unsigned int", 2)
    ∷ (codes "int", 4)
    ∷ (codes "unsigned int", 4)
    ∷ (codes "long int", 4)
    ∷ (codes "long unsigned int", 4)
    ∷ (codes "long long int", 8)
    ∷ (codes "long long unsigned int", 8)
    ∷ (codes "float", 4)
    ∷ (codes "double", 8)
    ∷ (codes "long double", 16)
    ∷ (codes "_Bool", 1)
    ∷ []

abbrev or_default {ℓ} : {A : Type ℓ} → A → Option A → A
or_default d none = d
or_default d (some a) = a

-- "" for a name that the table lacks
unfoldable pub get_mapping_for_dwarf_base_type : Text → Text
unfolding lookup
get_mapping_for_dwarf_base_type key = or_default [] (lookup key gcc_dwarf_rv_mapper)

-- 0 for a name that the table lacks
unfoldable pub get_byte_size_for_base_type : Text → ℕ
unfolding lookup
get_byte_size_for_base_type key = or_default 0 (lookup key gcc_dwarf_size_mapper)
