-- ===== src/Dwarf/Types.antt =====
-- py_etiss_xvalid/entity/dwarf/types.py: DWARF types. `missing` stands for `None` where the source
-- has an `Optional[AbstractType]`; the extractor always gives a base type its name and size and an
-- array its length. Reading a property of `None` raises.
use etiss_xvalid.Base.{ℕ, ◌*◌, Option, none, some, List}
use etiss_xvalid.Base.Text.{Text, codes}
use etiss_xvalid.Base.Result.{Result, ok, err, ◌>>=◌, attribute_error, type_error}

mutual
  pub data DwarfType : Type 0 where
    missing : DwarfType
    base : (name : Text) (byte_size : ℕ) → DwarfType
    const volatile : DwarfType → DwarfType
    typedef : DwarfType → Option Text → DwarfType
    array : DwarfType → (dimensions : List ℕ) (length : ℕ) → DwarfType
    pointer : DwarfType → DwarfType
    struct : (name : Option Text) (byte_size : Option ℕ) → Members → DwarfType
    union : (byte_size : ℕ) → UnionMembers → DwarfType

  pub data Members : Type 0 where
    no_member : Members
    member : DwarfType → (name : Option Text) (bit_size bit_offset : Option ℕ) → Members → Members

  pub data UnionMembers : Type 0 where
    no_union_member : UnionMembers
    union_member : (name : Text) → DwarfType → UnionMembers → UnionMembers

-- the named tuple that `get_base` returns
pub record BaseInfo : Type 0 where
  pub type_name : Text
  pub byte_size : Option ℕ

abbrev pub not_available : Text
not_available = codes "<NA>"

unfoldable pub get_base : DwarfType → Result BaseInfo
get_base missing = err attribute_error
get_base (base name byte_size) = ok (record { type_name = name; byte_size = some byte_size })
get_base (const t) = get_base t
get_base (volatile t) = get_base t
get_base (typedef t name) = get_base t
get_base (array t dimensions length) = get_base t
get_base (pointer t) = get_base t
get_base (struct name byte_size members) =
    ok (record { type_name = not_available; byte_size = byte_size })
get_base (union byte_size members) =
    ok (record { type_name = not_available; byte_size = some byte_size })

-- `length * None` raises
abbrev times_range : ℕ → Option ℕ → Result (Option ℕ)
times_range n none = err type_error
times_range n (some m) = ok (some (n * m))

unfoldable pub get_range : DwarfType → Result (Option ℕ)
get_range missing = err attribute_error
get_range (base name byte_size) = ok (some byte_size)
get_range (const t) = get_range t
get_range (volatile t) = get_range t
get_range (typedef t name) = get_range t
get_range (array t dimensions length) = get_range t >>= times_range length
get_range (pointer t) = get_range t
get_range (struct name byte_size members) = ok byte_size
get_range (union byte_size members) = ok (some byte_size)
