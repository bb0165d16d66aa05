-- ===== src/Dwarf/Show/Whole.antt =====
-- Where the `__str__` methods of py_etiss_xvalid/entity/dwarf/types.py and var_and_param_base.py
-- raise nothing.
use etiss_xvalid.Base.{ℕ, ◌*◌, ◌≡◌, refl, none, some}
use etiss_xvalid.Base.Result.{ok, Succeeds, >>=-Succeeds}
use etiss_xvalid.Dwarf.Types.{
  DwarfType, missing, base, const, volatile, typedef, array, pointer, struct, union, Members,
  no_member, member, UnionMembers, no_union_member, union_member, get_base, get_range,
}
use etiss_xvalid.Dwarf.Info.{Variable}
use etiss_xvalid.Dwarf.Show.{member_lines, union_member_lines, members_text, str_variable}

-- No part of a type is `None`, and every struct has a size.
abbrev mutual
  pub IsWhole : DwarfType → Type 0
  IsWhole missing = ⊥
  IsWhole (base name byte_size) = Unit
  IsWhole (const t) = IsWhole t
  IsWhole (volatile t) = IsWhole t
  IsWhole (typedef t name) = IsWhole t
  IsWhole (array t dimensions length) = IsWhole t
  IsWhole (pointer t) = IsWhole t
  IsWhole (struct name none members) = ⊥
  IsWhole (struct name (some byte_size) members) = AreWhole members
  IsWhole (union byte_size members) = AreWholeAlternatives members

  pub AreWhole : Members → Type 0
  AreWhole no_member = Unit
  AreWhole (member t name bit_size bit_offset rest) = IsWhole t × AreWhole rest

  pub AreWholeAlternatives : UnionMembers → Type 0
  AreWholeAlternatives no_union_member = Unit
  AreWholeAlternatives (union_member name t rest) = IsWhole t × AreWholeAlternatives rest

pub get_base-Succeeds : (t : DwarfType) → IsWhole t → Succeeds (get_base t)
unfolding get_base
get_base-Succeeds missing h = h
get_base-Succeeds (base name byte_size) h = tt
get_base-Succeeds (const t) h = get_base-Succeeds t h
get_base-Succeeds (volatile t) h = get_base-Succeeds t h
get_base-Succeeds (typedef t name) h = get_base-Succeeds t h
get_base-Succeeds (array t dimensions length) h = get_base-Succeeds t h
get_base-Succeeds (pointer t) h = get_base-Succeeds t h
get_base-Succeeds (struct name byte_size members) h = tt
get_base-Succeeds (union byte_size members) h = tt

range_known : (t : DwarfType) → IsWhole t → (n : ℕ) × (get_range t ≡ ok (some n))
unfolding get_range
range_known missing h = absurd h
range_known (base name byte_size) h = (byte_size, refl)
range_known (const t) h = range_known t h
range_known (volatile t) h = range_known t h
range_known (typedef t name) h = range_known t h
range_known (array t dimensions length) h = let (n, e) = range_known t h in (length * n, rw e refl)
range_known (pointer t) h = range_known t h
range_known (struct name none members) h = absurd h
range_known (struct name (some byte_size) members) h = (byte_size, refl)
range_known (union byte_size members) h = (byte_size, refl)

pub get_range-Succeeds : (t : DwarfType) → IsWhole t → Succeeds (get_range t)
get_range-Succeeds t h = rw (range_known t h).1 tt

member_lines-Succeeds :
    (indent : ℕ) (ms : Members) → AreWhole ms → Succeeds (member_lines indent ms)
unfolding member_lines
member_lines-Succeeds indent no_member h = tt
member_lines-Succeeds indent (member t name bit_size bit_offset rest) h =
    >>=-Succeeds (get_range t) _ (get_range-Succeeds t h.0) (λ range.
      >>=-Succeeds (member_lines indent rest) _ (member_lines-Succeeds indent rest h.1)
        (λ others. tt))

union_member_lines-Succeeds :
    (indent : ℕ) (ms : UnionMembers)
    → AreWholeAlternatives ms
    → Succeeds (union_member_lines indent ms)
unfolding union_member_lines
union_member_lines-Succeeds indent no_union_member h = tt
union_member_lines-Succeeds indent (union_member name t rest) h =
    >>=-Succeeds (get_range t) _ (get_range-Succeeds t h.0) (λ range.
      >>=-Succeeds (union_member_lines indent rest) _ (union_member_lines-Succeeds indent rest h.1)
        (λ others. tt))

members_text-Succeeds : (indent : ℕ) (t : DwarfType) → IsWhole t → Succeeds (members_text indent t)
unfolding members_text
members_text-Succeeds indent (struct name byte_size no_member) h = tt
members_text-Succeeds indent (struct name none (member t m b o rest)) h = absurd h
members_text-Succeeds indent (struct name (some byte_size) (member t m b o rest)) h =
    >>=-Succeeds (member_lines indent (member t m b o rest)) _
      (member_lines-Succeeds indent (member t m b o rest) h) (λ lines. tt)
members_text-Succeeds indent (union byte_size no_union_member) h = tt
members_text-Succeeds indent (union byte_size (union_member m t rest)) h =
    >>=-Succeeds (union_member_lines indent (union_member m t rest)) _
      (union_member_lines-Succeeds indent (union_member m t rest) h) (λ lines. tt)
members_text-Succeeds indent t h = tt

pub str_variable-Succeeds :
    (indent : ℕ) (v : Variable) → IsWhole v.type_info → Succeeds (str_variable indent v)
unfolding str_variable
str_variable-Succeeds indent v h =
    >>=-Succeeds (get_base v.type_info) _ (get_base-Succeeds v.type_info h) (λ info.
      >>=-Succeeds (get_range v.type_info) _ (get_range-Succeeds v.type_info h) (λ range.
        >>=-Succeeds (members_text indent v.type_info) _
          (members_text-Succeeds indent v.type_info h) (λ members. tt)))
