-- ===== src/Dwarf/Extractor/TypeRec/Raising.antt =====
-- Where `_extract_type_rec` in py_etiss_xvalid/dwarf_info_extractor.py raises.
use etiss_xvalid.Base.{ℕ, zero, suc, ◌≡◌, refl, none}
use etiss_xvalid.Base.Dict.{Dict, lookup}
use etiss_xvalid.Base.Result.{Exn, Result, ok, err, or_handle, key_error, type_error}
use etiss_xvalid.Dwarf.Types.{DwarfType}
use etiss_xvalid.Dwarf.Extractor.Die.{
  Attribute, Tag, base_type, array_type, pointer_type, const_type, volatile_type, typedef_tag,
  structure_type, union_type, Die, die, Dies, at_type, attribute, Pyelftools,
  get_die_from_attribute,
}
use etiss_xvalid.Dwarf.Extractor.TypeRec.{referred_type, extract_type_step, extract_type_rec}

-- Which exception an entry of a tag may raise: a base type whatever its attributes raise, an array
-- and a pointer the one of the incomplete call in their handlers, and any other none.
abbrev pub MayRaise : Tag → Exn → Type 0
MayRaise base_type x = Unit
MayRaise array_type x = x ≡ type_error
MayRaise pointer_type x = x ≡ type_error
MayRaise tag x = ⊥

or_handle-err : (r : Result DwarfType) {e x : Exn} → or_handle r (err e) ≡ err x → x ≡ e
or_handle-err (ok t) h = cc
or_handle-err (err y) h = cc

or_handle_value : (r : Result DwarfType) (t : DwarfType) {x : Exn} → or_handle r (ok t) ≡ err x → ⊥
or_handle_value (ok t) u h = cc
or_handle_value (err y) u h = cc

-- Of the type entries, only base types, arrays and pointers can make the extraction of their type
-- raise, where the interpreter allows a nested call; and arrays and pointers only a type error.
pub extract_type_rec_raises :
    (elf : Pyelftools) (n : ℕ) (tag : Tag) (attributes : Dict Attribute) (children : Dies) {x : Exn}
    → extract_type_rec elf (suc n) (die tag attributes children) ≡ err x
    → MayRaise tag x
unfolding extract_type_rec extract_type_step
extract_type_rec_raises elf n base_type attributes children h = tt
extract_type_rec_raises elf n array_type attributes children h = or_handle-err _ h
extract_type_rec_raises elf n pointer_type attributes children h = or_handle-err _ h
extract_type_rec_raises elf n const_type attributes children h = or_handle_value _ _ h
extract_type_rec_raises elf n volatile_type attributes children h = or_handle_value _ _ h
extract_type_rec_raises elf n typedef_tag attributes children h = or_handle_value _ _ h
extract_type_rec_raises elf n structure_type attributes children h = or_handle_value _ _ h
extract_type_rec_raises elf n union_type attributes children h = or_handle_value _ _ h
extract_type_rec_raises elf n tag attributes children h = cc

-- A pointer to a pointer, and so on, `k` times, to one that has no type, as `void *`.
abbrev pub IsVoidPointer : Pyelftools → ℕ → Die → Type 0
IsVoidPointer elf zero d =
    (attributes : Dict Attribute) × (children : Dies) × (d ≡ die pointer_type attributes children)
    × (lookup at_type attributes ≡ none)
IsVoidPointer elf (suc k) d =
    (attributes : Dict Attribute) × (children : Dies) × (e : Die) × (d
      ≡ die pointer_type attributes children)
    × (get_die_from_attribute elf at_type (die pointer_type attributes children) ≡ ok e)
    × IsVoidPointer elf k e

pointer_to_raising :
    (elf : Pyelftools) (extract : Die → Result DwarfType) (attributes : Dict Attribute)
    (children : Dies) {x : Exn}
    → referred_type elf extract (die pointer_type attributes children) ≡ err x
    → extract_type_step elf extract (die pointer_type attributes children) ≡ err type_error
unfolding extract_type_step
pointer_to_raising elf extract attributes children h = rw h refl

pub referred_type-err :
    (elf : Pyelftools) (extract : Die → Result DwarfType) (d e : Die) {x : Exn}
    → get_die_from_attribute elf at_type d ≡ ok e
    → extract e ≡ err x
    → referred_type elf extract d ≡ err x
unfolding referred_type
referred_type-err elf extract d e p q = rw (p, q) refl

referred_type_untyped :
    (elf : Pyelftools) (extract : Die → Result DwarfType) (attributes : Dict Attribute)
    (children : Dies)
    → lookup at_type attributes ≡ none
    → referred_type elf extract (die pointer_type attributes children) ≡ err key_error
unfolding referred_type get_die_from_attribute attribute
referred_type_untyped elf extract attributes children h = rw h refl

-- The extraction of a pointer to void, or of a pointer to such a pointer, and so on, raises a type
-- error, whatever the number of nested calls that the interpreter allows, if it allows one.
pub extract_type_rec_void_pointer :
    (elf : Pyelftools) (n k : ℕ) (d : Die)
    → IsVoidPointer elf k d
    → extract_type_rec elf (suc n) d ≡ err type_error
unfolding extract_type_rec
extract_type_rec_void_pointer elf n zero d (attributes, children, is_pointer, untyped) =
    rw is_pointer (
      pointer_to_raising elf (extract_type_rec elf n) attributes children
        (referred_type_untyped elf (extract_type_rec elf n) attributes children untyped))
extract_type_rec_void_pointer elf zero (suc k) d
      (attributes, children, e, is_pointer, refers, void) =
    rw is_pointer (
      pointer_to_raising elf (extract_type_rec elf 0) attributes children (
        referred_type-err elf (extract_type_rec elf 0) (die pointer_type attributes children) e
          refers refl))
extract_type_rec_void_pointer elf (suc n) (suc k) d
      (attributes, children, e, is_pointer, refers, void) =
    rw is_pointer (
      pointer_to_raising elf (extract_type_rec elf (suc n)) attributes children (
        referred_type-err elf (extract_type_rec elf (suc n)) (die pointer_type attributes children)
          e refers (extract_type_rec_void_pointer elf n k e void)))
