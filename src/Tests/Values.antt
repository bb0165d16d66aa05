-- ===== src/Tests/Values.antt =====
-- Return values and normalised data of py_etiss_xvalid/, on concrete bits and chunks.
use etiss_xvalid.Base.{◌≡◌, refl, true, false, [], ◌∷◌, map, arith, inr}
use etiss_xvalid.Base.Bits.{bit_or}
use etiss_xvalid.Base.Float.{decode_float, decode_double, float_eq}
use etiss_xvalid.Layout.{ReturnRegisterLayout}
use etiss_xvalid.March.Value.{int_value}
use etiss_xvalid.March.StructValue.{fetch_ranges}
use etiss_xvalid.March.StructValue.Packed.{fetch_ranges-pack}
use etiss_xvalid.Verification.Normalize.{Chunk, sort_chunks, join_chunks}
use etiss_xvalid.Verification.Normalize.Splitting.{sort_chunks_split}
use etiss_xvalid.Verification.Normalize.Sorting.{same, exchange, SortedFrom, sort_chunks-Reordered}

-- struct { unsigned char a; int b : 3; }
abbrev char_and_field : ReturnRegisterLayout
char_and_field = record { xlen = 32; is_float = false; ranges = (0, 7) ∷ (8, 10) ∷ [] }

fetch_ranges-pack_example : fetch_ranges 1480 char_and_field.ranges ≡ map int_value (200 ∷ 5 ∷ [])
fetch_ranges-pack_example =
    fetch_ranges-pack char_and_field (200 ∷ 5 ∷ []) (omega arith) (omega arith)

abbrev first_chunk : Chunk
first_chunk = (536870912, 1 ∷ 2 ∷ [])

abbrev second_chunk : Chunk
second_chunk = (536870914, 3 ∷ 4 ∷ [])

sort_chunks-Reordered_example :
    SortedFrom 0 (sort_chunks [] (second_chunk ∷ first_chunk ∷ []))
    × (join_chunks (sort_chunks [] (second_chunk ∷ first_chunk ∷ []))
        ≡ join_chunks (sort_chunks [] (first_chunk ∷ second_chunk ∷ [])))
sort_chunks-Reordered_example =
    sort_chunks-Reordered (exchange [] [] second_chunk first_chunk (omega arith) same)

-- four bytes in one write, and in two
sort_chunks_split_example :
    join_chunks (sort_chunks [] ((536870916, 5 ∷ []) ∷ (536870912, 1 ∷ 2 ∷ 3 ∷ 4 ∷ []) ∷ []))
    ≡ join_chunks (
        sort_chunks []
          ((536870916, 5 ∷ []) ∷ (536870912, 1 ∷ 2 ∷ []) ∷ (536870914, 3 ∷ 4 ∷ []) ∷ []))
sort_chunks_split_example =
    sort_chunks_split 536870912 (1 ∷ 2 ∷ []) (3 ∷ 4 ∷ []) ((536870916, 5 ∷ []) ∷ []) []
      (inr (omega arith), tt) tt

-- 1.0 in both formats
one_is_one : float_eq (decode_double 4607182418800017408) (decode_float 1065353216) ≡ true
unfolding float_eq decode_double decode_float
one_is_one = refl

bits_of_both : bit_or 12 10 ≡ 14
unfolding bit_or
bits_of_both = refl
