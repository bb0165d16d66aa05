-- ===== src/Tests/Producers.antt =====
-- py_etiss_xvalid/entity/dwarf/compilation_unit.py on a concrete producer.
use etiss_xvalid.Base.{◌≡◌, refl, true, false, none, some, ◌∷◌, ◌++◌}
use etiss_xvalid.Base.Text.{Text, codes}
use etiss_xvalid.Dwarf.Info.{CompileUnit}
use etiss_xvalid.Dwarf.Producer.{extract_core_information}
use etiss_xvalid.Dwarf.Producer.Words.{
  extract_core_information-append, extract_core_information-march,
}

abbrev new_unit : CompileUnit
new_unit = record { march = none; mabi = none; misa_spec = none; little_endian = false }

abbrev options : Text
options = codes "GNU C17 -march=rv32gc -mabi=ilp32 -O2"

extract_core_information-append_example :
    extract_core_information (options ++ b' ' ∷ codes "-march=rv32imac_zicsr") true new_unit
    ≡ extract_core_information
        (codes "-march=rv32imac_zicsr")
        true
        (extract_core_information options true new_unit)
extract_core_information-append_example =
    extract_core_information-append options (codes "-march=rv32imac_zicsr") true new_unit

extract_core_information-march_example :
    (extract_core_information
      (options ++ b' ' ∷ (codes "-march=" ++ codes "rv32imac_zicsr"))
      true
      new_unit).march
    ≡ some (codes "rv32imac_zicsr")
extract_core_information-march_example =
    extract_core_information-march options (codes "v32imac_zicsr") b'r' true new_unit (
      refl,
      (
        refl,
        (
          refl,
          (
            refl,
            (refl, (refl, (refl, (refl, (refl, (refl, (refl, (refl, (refl, (refl, tt)))))))))),
          ),
        ),
      ),
    )
