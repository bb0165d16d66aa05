-- ===== src/Dwarf/Producer.antt =====
-- `extract_core_information` of py_etiss_xvalid/entity/dwarf/compilation_unit.py: the options in the
-- text of a compile unit's producer.
pub mod Words
use etiss_xvalid.Base.{
  ℕ, zero, suc, ◌+◌, ◌-◌, Bool, true, false, Option, none, some, List, [], ◌∷◌, if◌then◌else◌,
  length,
}
use etiss_xvalid.Base.Text.{Text, codes}
use etiss_xvalid.Dwarf.Location.{strip_prefix, is_space}
use etiss_xvalid.Dwarf.Info.{CompileUnit}

-- one tuple that `re.findall` gives: only one of its groups has a text
pub data CoreOption : Type 0 where
  mabi march misa_spec : Text → CoreOption

-- `[^\s]+` without the `+`: the longest run without a space
unfoldable pub run_of : Text → Text
run_of [] = []
run_of (c ∷ s) = let rest = run_of s in if is_space c then [] else c ∷ rest

-- an option of which a text is a value, which must not be empty, with its length
unfoldable pub with_value : (Text → CoreOption) → ℕ → Text → Option (CoreOption × ℕ)
with_value option size [] = none
with_value option size (c ∷ v) = some (option (c ∷ v), size + length (c ∷ v))

unfoldable pub after_prefix : (Text → CoreOption) → ℕ → Option Text → Option (CoreOption × ℕ)
unfolding run_of with_value
after_prefix option size none = none
after_prefix option size (some s) = with_value option size (run_of s)

abbrev pub or_else : Option (CoreOption × ℕ) → Option (CoreOption × ℕ) → Option (CoreOption × ℕ)
or_else (some r) later = some r
or_else none later = later

-- `-mabi=([^\s]+)|-march=([^\s]+)|-misa-spec=([^\s]+)` at the start of a text, with the length of
-- what matches
unfoldable pub match_option : Text → Option (CoreOption × ℕ)
unfolding strip_prefix after_prefix
match_option s = or_else (after_prefix mabi 6 (strip_prefix (codes "-mabi=") s)) (
    or_else (after_prefix march 7 (strip_prefix (codes "-march=") s))
      (after_prefix misa_spec 11 (strip_prefix (codes "-misa-spec=") s)))

-- `re.findall`: matches do not overlap, so the characters of a match are passed over.
unfoldable pub find_options : (skip : ℕ) → Text → List CoreOption
unfolding match_option
find_options skip [] = []
find_options (suc skip) (c ∷ s) = find_options skip s
find_options zero (c ∷ s) = elim (match_option (c ∷ s)) [
  | none ↦ find_options zero s
  | some (option, size) ↦ option ∷ find_options (size - 1) s
]

unfoldable pub set_options : List CoreOption → CompileUnit → CompileUnit
set_options [] u = u
set_options (mabi v ∷ options) u = set_options options (record u { mabi = some v })
set_options (march v ∷ options) u = set_options options (record u { march = some v })
set_options (misa_spec v ∷ options) u = set_options options (record u { misa_spec = some v })

unfoldable pub extract_core_information : Text → Bool → CompileUnit → CompileUnit
unfolding find_options set_options
extract_core_information producer little_endian u =
    record (set_options (find_options zero producer) u) { little_endian = little_endian }
