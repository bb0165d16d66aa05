-- ===== src/Dwarf/Extractor/TypeRec.antt =====
-- `_extract_type_rec` and `compute_array_size_from_subranges` of
-- py_etiss_xvalid/dwarf_info_extractor.py.
pub mod Depth
pub mod Described
pub mod Refinement
pub mod Raising
pub mod Dimensions
use etiss_xvalid.Base.{ℕ, zero, suc, ◌+◌, ◌-◌, ◌*◌, Option, none, some, List, [], ◌∷◌, ◌++◌}
use etiss_xvalid.Base.Text.{Text}
use etiss_xvalid.Base.Dict.{Dict, lookup}
use etiss_xvalid.Base.Result.{Result, ok, err, ◌>>=◌, or_handle, recursion_error, type_error}
use etiss_xvalid.Dwarf.Types.{
  DwarfType, missing, base, const, volatile, typedef, array, pointer, struct, union, Members,
  no_member, member, UnionMembers, no_union_member, union_member,
}
use etiss_xvalid.Dwarf.Extractor.Die.{
  Attribute, base_type, array_type, pointer_type, const_type, volatile_type, typedef_tag,
  structure_type, union_type, member_tag, subrange_type, Die, die, Dies, no_die, child, at_name,
  at_type, at_byte_size, at_count, at_upper_bound, at_lower_bound, at_bit_size, at_data_bit_offset,
  attributes_of, get_number, get_text, as_number, number_at, text_at, Pyelftools,
  get_die_from_attribute,
}

-- the lower bound, 0 where there is none
abbrev lower_bound : Option Attribute → Result ℕ
lower_bound none = ok 0
lower_bound (some a) = as_number a.value

-- One subrange. A count takes the place of the dimensions so far. An upper bound is not below the
-- lower one by more than 1, where the source would give a negative dimension.
unfoldable pub add_dimension : List ℕ → Dict Attribute → Option Attribute → Result (List ℕ)
unfolding number_at lookup
add_dimension dimensions attributes (some count) = do n ← as_number count.value; ok (n ∷ [])
add_dimension dimensions attributes none = do
  upper ← number_at at_upper_bound attributes
  lower ← lower_bound (lookup at_lower_bound attributes)
  ok (dimensions ++ (upper + 1 - lower) ∷ [])

unfoldable pub add_subrange : List ℕ → Die → Result (List ℕ)
unfolding add_dimension lookup
add_subrange dimensions (die subrange_type attributes children) =
    add_dimension dimensions attributes (lookup at_count attributes)
add_subrange dimensions (die tag attributes children) = ok dimensions

unfoldable pub collect_dimensions : List ℕ → Dies → Result (List ℕ)
unfolding add_subrange
collect_dimensions dimensions no_die = ok dimensions
collect_dimensions dimensions (child d rest) = do
  extended ← add_subrange dimensions d
  collect_dimensions extended rest

unfoldable pub compute_array_size_from_subranges : Dies → Result (List ℕ)
unfolding collect_dimensions
compute_array_size_from_subranges children = collect_dimensions [] children

-- `math.prod`
unfoldable pub prod : List ℕ → ℕ
prod [] = 1
prod (n ∷ ns) = n * prod ns

-- the bit size of a member and its offset
abbrev bit_range : Dict Attribute → Option Attribute → Result (Option ℕ × Option ℕ)
bit_range attributes none = ok (none, none)
bit_range attributes (some a) = do
  size ← as_number a.value
  offset ← get_number at_data_bit_offset attributes
  ok (some size, some offset)

module _ (elf : Pyelftools) (extract : Die → Result DwarfType) where
  -- the type that an entry refers to
  unfoldable pub referred_type : Die → Result DwarfType
  unfolding get_die_from_attribute
  referred_type d = do pt ← get_die_from_attribute elf at_type d; extract pt

  -- A member that raises is left out.
  abbrev kept_member : Result (Text × DwarfType × Option ℕ × Option ℕ) → Members → Members
  kept_member (err e) others = others
  kept_member (ok (name, t, size, offset)) others = member t (some name) size offset others

  unfoldable pub parse_member : Die → Result (Text × DwarfType × Option ℕ × Option ℕ)
  unfolding get_text get_number referred_type lookup
  parse_member d = do
    member_name ← get_text at_name (attributes_of d)
    member_type ← referred_type d
    (size, offset) ← bit_range (attributes_of d) (lookup at_bit_size (attributes_of d))
    ok (member_name, member_type, size, offset)

  unfoldable pub collect_members : Dies → Members
  unfolding parse_member
  collect_members no_die = no_member
  collect_members (child (die member_tag attributes children) rest) =
      kept_member (parse_member (die member_tag attributes children)) (collect_members rest)
  collect_members (child (die tag attributes children) rest) = collect_members rest

  abbrev kept_union_member : Result (Text × DwarfType) → UnionMembers → UnionMembers
  kept_union_member (err e) others = others
  kept_union_member (ok (name, t)) others = union_member name t others

  unfoldable pub parse_union_member : Die → Result (Text × DwarfType)
  unfolding get_text referred_type
  parse_union_member d = do
    member_name ← get_text at_name (attributes_of d)
    member_type ← referred_type d
    ok (member_name, member_type)

  unfoldable pub collect_union_members : Dies → UnionMembers
  unfolding parse_union_member
  collect_union_members no_die = no_union_member
  collect_union_members (child (die member_tag attributes children) rest) =
      kept_union_member (parse_union_member (die member_tag attributes children))
        (collect_union_members rest)
  collect_union_members (child (die tag attributes children) rest) = collect_union_members rest

  -- a type's definition by a name, with the entry of the type
  unfoldable pub named_type : Dict Attribute → Die → Result DwarfType
  unfolding text_at
  named_type attributes pt = do
    name ← text_at at_name attributes
    t ← extract pt
    ok (typedef t (some name))

  -- One call of `_extract_type_rec`, with `extract` for the calls inside. `ArrayType()` and
  -- `PointerType()`, in the handlers, lack an argument and raise.
  unfoldable pub extract_type_step : Die → Result DwarfType
  unfolding text_at number_at compute_array_size_from_subranges prod named_type referred_type
      get_die_from_attribute collect_members collect_union_members
  extract_type_step (die base_type attributes children) = do
    base_type_name ← text_at at_name attributes
    byte_size ← number_at at_byte_size attributes
    ok (base base_type_name byte_size)
  extract_type_step (die array_type attributes children) =
      or_handle
        (do
          dimensions ← compute_array_size_from_subranges children
          arr_type ← referred_type (die array_type attributes children)
          ok (array arr_type dimensions (prod dimensions)))
        (err type_error)
  extract_type_step (die pointer_type attributes children) =
      or_handle
        (do
          points_to ← referred_type (die pointer_type attributes children)
          ok (pointer points_to))
        (err type_error)
  extract_type_step (die const_type attributes children) =
      or_handle (do t ← referred_type (die const_type attributes children); ok (const t))
        (ok (const missing))
  extract_type_step (die volatile_type attributes children) =
      or_handle (do t ← referred_type (die volatile_type attributes children); ok (volatile t))
        (ok (volatile missing))
  extract_type_step (die typedef_tag attributes children) =
      or_handle
        (do
          pt ← get_die_from_attribute elf at_type (die typedef_tag attributes children)
          named_type attributes pt)
        (ok (typedef missing none))
  extract_type_step (die structure_type attributes children) =
      or_handle
        (do
          struct_name ← text_at at_name attributes
          struct_byte_size ← number_at at_byte_size attributes
          ok (struct (some struct_name) (some struct_byte_size) (collect_members children)))
        (ok (struct none none no_member))
  extract_type_step (die union_type attributes children) =
      or_handle
        (do
          union_byte_size ← number_at at_byte_size attributes
          ok (union union_byte_size (collect_union_members children)))
        (ok (struct none none no_member))
  extract_type_step (die tag attributes children) = ok missing

-- `_extract_type_rec`, where the interpreter allows `depth` nested calls of it: the next one raises
-- `RecursionError`.
unfoldable pub extract_type_rec : Pyelftools → (depth : ℕ) → Die → Result DwarfType
unfolding extract_type_step
extract_type_rec elf zero d = err recursion_error
extract_type_rec elf (suc depth) d = extract_type_step elf (extract_type_rec elf depth) d
