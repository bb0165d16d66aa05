-- ===== src/Dwarf/Show.antt =====
-- The `__str__` methods of py_etiss_xvalid/entity/dwarf/: types.py and var_and_param_base.py,
-- for a type and a variable. A method that is called of `None` raises; a newline is 10.
pub mod Whole
use etiss_xvalid.Base.{
  ℕ, Bool, true, false, Option, none, some, List, [], ◌∷◌, ◌++◌, ◌==◌, if◌then◌else◌, replicate,
}
use etiss_xvalid.Base.Text.{Text, codes}
use etiss_xvalid.Base.Decimal.{str_of}
use etiss_xvalid.Base.Result.{Result, ok, ◌>>=◌}
use etiss_xvalid.Dwarf.Types.{
  DwarfType, missing, base, const, volatile, typedef, array, pointer, struct, union, Members,
  no_member, member, UnionMembers, no_union_member, union_member, BaseInfo, get_base, get_range,
}
use etiss_xvalid.Dwarf.Info.{Variable}

-- `str` of an optional number and of an optional text
abbrev pub str_number : Option ℕ → Text
str_number none = codes "None"
str_number (some n) = str_of n

abbrev pub str_text : Option Text → Text
str_text none = codes "None"
str_text (some s) = s

-- a variable's name, of which the empty text stands for `None`
abbrev str_name : Text → Text
str_name [] = codes "None"
str_name (c ∷ name) = c ∷ name

-- `name or "<name unknown>"`
abbrev or_name_unknown : Option Text → Text
or_name_unknown none = codes "<name unknown>"
or_name_unknown (some []) = codes "<name unknown>"
or_name_unknown (some (c ∷ name)) = c ∷ name

-- the text of a type, where the type is not `None`
abbrev or_type_unknown : DwarfType → Text → Text
or_type_unknown missing s = codes "<type unknown>"
or_type_unknown t s = s

-- The name of a type definition is tested for `None` alone.
abbrev typedef_name : Option Text → Text
typedef_name none = codes "<name unknown>"
typedef_name (some name) = name

unfoldable pub str_dimensions : List ℕ → Text
unfolding str_of
str_dimensions [] = []
str_dimensions (d ∷ ds) = b'[' ∷ (str_of d ++ b']' ∷ str_dimensions ds)

abbrev str_bits : Option ℕ → Text
str_bits none = []
str_bits (some size) = codes ": " ++ str_of size

unfoldable mutual
  unfolding str_dimensions str_of

  pub str_type : DwarfType → Text
  str_type missing = codes "None"
  str_type (base [] byte_size) = codes "<missing basetype>"
  str_type (base (c ∷ name) byte_size) = c ∷ name
  str_type (const t) = codes "const " ++ or_type_unknown t (str_type t)
  str_type (volatile t) = codes "volatile " ++ or_type_unknown t (str_type t)
  str_type (typedef t name) =
      codes "typedef " ++ (or_type_unknown t (str_type t) ++ 32 ∷ typedef_name name)
  str_type (array t dimensions length) = or_type_unknown t (str_type t) ++ str_dimensions dimensions
  str_type (pointer t) = b'*' ∷ or_type_unknown t (str_type t)
  str_type (struct name byte_size members) =
      codes "struct "
      ++ (or_name_unknown name ++ (codes " { " ++ (str_members members ++ codes "; }")))
  str_type (union byte_size members) =
      codes "union { " ++ (str_union_members members ++ codes "; }")

  -- the members' texts, joined by "; "
  pub str_members : Members → Text
  str_members no_member = []
  str_members (member t name bit_size bit_offset no_member) =
      or_type_unknown t (str_type t) ++ 32 ∷ (or_name_unknown name ++ str_bits bit_size)
  str_members (member t name bit_size bit_offset (member u m b o rest)) =
      or_type_unknown t (str_type t)
      ++ 32
        ∷ (or_name_unknown name
            ++ (str_bits bit_size ++ (codes "; " ++ str_members (member u m b o rest))))

  pub str_union_members : UnionMembers → Text
  str_union_members no_union_member = []
  str_union_members (union_member name t no_union_member) = str_type t ++ 32 ∷ name
  str_union_members (union_member name t (union_member m u rest)) =
      str_type t ++ 32 ∷ (name ++ (codes "; " ++ str_union_members (union_member m u rest)))

-- a line that begins with spaces
abbrev pub line : ℕ → Text → Text
line indent s = replicate indent 32 ++ (s ++ 10 ∷ [])

abbrev same_size : Option ℕ → Option ℕ → Bool
same_size none none = true
same_size (some a) (some b) = a == b
same_size _ _ = false

-- the line on the range, where it is not the size of the base type
abbrev pub range_line : ℕ → Text → Option ℕ → Option ℕ → Text
range_line indent label total_range byte_size =
    if same_size total_range byte_size then [] else line indent (label ++ str_number total_range)

abbrev type_lines : ℕ → DwarfType → BaseInfo → Text
type_lines indent (struct name byte_size members) info =
    line indent (codes "  ├ Struct name: " ++ str_text name)
    ++ line indent (codes "  ├ Struct byte size: " ++ str_number byte_size)
type_lines indent (union byte_size members) info =
    line indent (codes "  ├ Union byte size: " ++ str_of byte_size)
type_lines indent t info =
    line indent (codes "  ├ Base Type: " ++ info.type_name)
    ++ line indent (codes "  ├ Base Type/Byte Size: " ++ str_number info.byte_size)

-- A bit size of 0 is not shown.
abbrev bit_lines : ℕ → Option ℕ → Option ℕ → Text
bit_lines indent none offset = []
bit_lines indent (some size) offset =
    if size == 0
    then []
    else line indent (codes "    ├ Bit size: " ++ str_of size)
      ++ line indent (codes "    └ Bit offset: " ++ str_number offset)

unfoldable pub member_lines : ℕ → Members → Result Text
unfolding str_type get_range
member_lines indent no_member = ok []
member_lines indent (member t name bit_size bit_offset rest) = do
  range ← get_range t
  others ← member_lines indent rest
  ok (
      line indent (codes "    ┌ Member name: " ++ str_text name)
      ++ (line indent (
            codes "    ├ Type composition: "
            ++ str_members (member t name bit_size bit_offset no_member))
          ++ (line indent (codes "    ├ Range (bytes): " ++ str_number range)
              ++ (bit_lines indent bit_size bit_offset ++ others))))

unfoldable pub union_member_lines : ℕ → UnionMembers → Result Text
unfolding str_type get_range
union_member_lines indent no_union_member = ok []
union_member_lines indent (union_member name t rest) = do
  range ← get_range t
  others ← union_member_lines indent rest
  ok (
      line indent (codes "    ┌ Member name: " ++ name)
      ++ (line indent (
            codes "    ├ Type composition: "
            ++ str_union_members (union_member name t no_union_member))
          ++ (line indent (codes "    ├ Range (bytes): " ++ str_number range) ++ others)))

abbrev members_title : ℕ → Text
members_title indent = line indent (codes "  > Members:")

unfoldable pub members_text : ℕ → DwarfType → Result Text
unfolding member_lines union_member_lines
members_text indent (struct name byte_size no_member) = ok []
members_text indent (struct name byte_size (member t m b o rest)) = do
  lines ← member_lines indent (member t m b o rest)
  ok (members_title indent ++ lines)
members_text indent (union byte_size no_union_member) = ok []
members_text indent (union byte_size (union_member m t rest)) = do
  lines ← union_member_lines indent (union_member m t rest)
  ok (members_title indent ++ lines)
members_text indent t = ok []

-- `VarAndParamBase.__str__`: the indentation is 2 for a global variable, and 6 for the others.
unfoldable pub str_variable : (indent : ℕ) → Variable → Result Text
unfolding get_base get_range str_type members_text
str_variable indent v = do
  info ← get_base v.type_info
  total_range ← get_range v.type_info
  members ← members_text indent v.type_info
  ok (
      line indent (codes "  ┌ Name: " ++ str_name v.name)
      ++ (line indent (codes "  ├ Type composition: " ++ str_type v.type_info)
          ++ (type_lines indent v.type_info info
              ++ (range_line indent (codes "  ├ Range: ") total_range info.byte_size
                  ++ (line indent (codes "  └ Location: " ++ str_text v.location) ++ members)))))
