-- ===== src/Dwarf/Extractor/TypeRec/Dimensions.antt =====
-- The dimensions of an array: `compute_array_size_from_subranges` of
-- py_etiss_xvalid/dwarf_info_extractor.py.
use etiss_xvalid.Base.{
  ℕ, suc, ◌+◌, ◌-◌, ◌≡◌, refl, sym, ap, ◌∙◌, none, some, List, [], ◌∷◌, ◌++◌, map, arith,
}
use mathlib.Core.List.{append-nil, append_assoc}
use etiss_xvalid.Base.Dict.{Dict, lookup}
use etiss_xvalid.Base.Result.{ok, ◌>>=◌, >>=-congruent, >>=-assoc}
use etiss_xvalid.Dwarf.Extractor.Die.{
  Attribute, subrange_type, die, Dies, no_die, child, at_count, at_upper_bound, at_lower_bound,
  number_at, as_number,
}
use etiss_xvalid.Dwarf.Extractor.TypeRec.{
  add_dimension, add_subrange, collect_dimensions, compute_array_size_from_subranges,
}

-- Entries of which each is a subrange from 0 to an upper bound.
abbrev pub HaveUpperBounds : List ℕ → Dies → Type 0
HaveUpperBounds [] no_die = Unit
HaveUpperBounds (u ∷ us) (child (die subrange_type attributes children) rest) =
    (lookup at_count attributes ≡ none)
    × (number_at at_upper_bound attributes ≡ ok u)
    × (lookup at_lower_bound attributes ≡ none)
    × HaveUpperBounds us rest
HaveUpperBounds _ _ = ⊥

abbrev pub append_dies : Dies → Dies → Dies
append_dies no_die ds = ds
append_dies (child d rest) ds = child d (append_dies rest ds)

collect_dimensions-append :
    (dims : List ℕ) (cs ds : Dies)
    → collect_dimensions dims (append_dies cs ds)
      ≡ (collect_dimensions dims cs >>= λ found. collect_dimensions found ds)
unfolding collect_dimensions
collect_dimensions-append dims no_die ds = refl
collect_dimensions-append dims (child d rest) ds =
    >>=-congruent (add_subrange dims d) _ _ (λ found e. collect_dimensions-append found rest ds)
    ∙ sym (
        >>=-assoc (add_subrange dims d) (λ found. collect_dimensions found rest)
          (λ found. collect_dimensions found ds))

collect_dimensions_bounds :
    (dims us : List ℕ) (cs : Dies)
    → HaveUpperBounds us cs
    → collect_dimensions dims cs ≡ ok (dims ++ map suc us)
unfolding collect_dimensions add_subrange add_dimension
collect_dimensions_bounds dims [] no_die h = rw (append-nil dims) refl
collect_dimensions_bounds dims (u ∷ us) no_die h = absurd h
collect_dimensions_bounds dims [] (child d rest) h = absurd h
collect_dimensions_bounds dims (u ∷ us) (child (die subrange_type attributes children) rest) h =
    let size : u + 1 - 0 ≡ suc u = omega arith in
    rw (h.0, h.1, h.2, size, collect_dimensions_bounds (dims ++ suc u ∷ []) us rest h.3)
      (ap ok (append_assoc dims (suc u ∷ []) (map suc us)))
collect_dimensions_bounds dims (u ∷ us) (child (die tag attributes children) rest) h = absurd h

-- Of an array's subranges, the last one that has a count takes the place of the dimensions before
-- it: where only subranges from 0 to an upper bound follow, the result is the count, and behind it
-- the numbers of elements of those, whatever stands before, if it can be read.
pub compute_array_size_from_subranges_count :
    (n : ℕ) (before rest : Dies) (attributes : Dict Attribute) (children : Dies) (a : Attribute)
    (us : List ℕ) {dims : List ℕ}
    → collect_dimensions [] before ≡ ok dims
    → lookup at_count attributes ≡ some a
    → as_number a.value ≡ ok n
    → HaveUpperBounds us rest
    → compute_array_size_from_subranges
        (append_dies before (child (die subrange_type attributes children) rest))
      ≡ ok (n ∷ map suc us)
unfolding compute_array_size_from_subranges collect_dimensions add_subrange add_dimension
compute_array_size_from_subranges_count n before rest attributes children a us p q r h =
    rw
      (
        collect_dimensions-append [] before (child (die subrange_type attributes children) rest),
        p,
        q,
        r,
        collect_dimensions_bounds (n ∷ []) us rest h,
      )
      refl
