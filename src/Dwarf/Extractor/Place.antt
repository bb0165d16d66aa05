-- ===== src/Dwarf/Extractor/Place.antt =====
-- Where a subprogram or a variable is: `get_low_and_high_pc`, `_extract_location`,
-- `_get_location_output` and `show_loclist` of py_etiss_xvalid/dwarf_info_extractor.py.
use etiss_xvalid.Base.{ℕ, ◌+◌, Bool, Option, none, some, List, [], ◌∷◌, ◌++◌}
use etiss_xvalid.Base.Text.{Text, codes}
use etiss_xvalid.Base.Dict.{Dict}
use etiss_xvalid.Base.Result.{Result, ok, ◌>>=◌}
use etiss_xvalid.Dwarf.Extractor.Die.{
  Attribute, Die, at_low_pc, at_high_pc, attribute, number_at, as_number, LocationEntity,
  location_entry, other_entity, Location, location_expr, location_list, no_location, FormClass,
  address_class, constant_class, other_class, Pyelftools,
}

-- `DW_AT_high_pc` by the class of its form: an address, or the distance from the low one
unfoldable pub by_class : ℕ → Attribute → FormClass → Result (Option ℕ × Option ℕ)
by_class low_pc a address_class = do high_pc ← as_number a.value; ok (some low_pc, some high_pc)
by_class low_pc a constant_class = do
  distance ← as_number a.value
  ok (some low_pc, some (low_pc + distance))
by_class low_pc a other_class = ok (none, none)

-- The handler logs an exception and raises it again.
unfoldable pub get_low_and_high_pc : Pyelftools → Dict Attribute → Result (Option ℕ × Option ℕ)
unfolding number_at attribute by_class
get_low_and_high_pc elf attributes = do
  low_pc ← number_at at_low_pc attributes
  high_pc_attr ← attribute at_high_pc attributes
  by_class low_pc high_pc_attr (elf.describe_form_class high_pc_attr.form)

-- the version in the header of a compile unit, and its offset
pub record UnitHeader : Type 0 where
  pub version : ℕ
  pub cu_offset : ℕ

module _ (elf : Pyelftools) (cu : UnitHeader) where
  -- `'%s <<%s>>'`
  abbrev show_entity : LocationEntity → Text
  show_entity (location_entry shown loc_expr) =
      shown ++ (codes " <<" ++ (elf.describe_dwarf_expr loc_expr cu.cu_offset ++ codes ">>"))
  show_entity (other_entity shown) = shown

  -- the lines, joined; the indentation is empty
  unfoldable pub show_loclist : List LocationEntity → Text
  show_loclist [] = []
  show_loclist (e ∷ []) = show_entity e
  show_loclist (e ∷ f ∷ rest) = show_entity e ++ 10 ∷ show_loclist (f ∷ rest)

  unfoldable pub get_location_output : Location → Text
  unfolding show_loclist
  get_location_output (location_expr loc_expr) = elf.describe_dwarf_expr loc_expr cu.cu_offset
  get_location_output (location_list entities) = show_loclist entities
  get_location_output no_location = []

  abbrev set_location : Option Text → Text → Option Text
  set_location before [] = before
  set_location before (c ∷ output) = some (c ∷ output)

  -- one attribute of `die`, with the location so far
  unfoldable pub extract_location : Die → Option Text → Attribute → Result (Option Text)
  unfolding get_location_output
  extract_location d before a = elim (elf.attribute_has_location a cu.version) [
    | Bool.false ↦ ok before
    | Bool.true ↦ elf.parse_from_attribute a cu.version d >>= λ loc.
        ok (set_location before (get_location_output loc))
  ]

  -- the loop over the attributes: a later location takes the place of an earlier one
  unfoldable pub extract_locations : Die → Option Text → Dict Attribute → Result (Option Text)
  unfolding extract_location
  extract_locations d before [] = ok before
  extract_locations d before ((k, a) ∷ attributes) = do
    location ← extract_location d before a
    extract_locations d location attributes
