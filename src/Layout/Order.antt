-- ===== src/Layout/Order.antt =====
-- The order of a register's ranges in py_etiss_xvalid/entity/verification/rv32_return_register_layout.py.
use etiss_xvalid.Base.{
  ℕ, ◌+◌, ◌-◌, ◌*◌, ◌≤◌, ◌≡◌, Bool, true, false, Option, some, none, List, [], ◌∷◌, ◌++◌, arith,
  last?, if◌then◌else◌,
}
use etiss_xvalid.Base.Division.{le-ceil_div}
use etiss_xvalid.Base.Result.{Result, ok, err, ◌>>=◌, >>=-eq-ok, verification_process_exception}
use etiss_xvalid.Layout.{
  ReturnRegisterLayout, add_bitfield, add_int, has_room_for_bitfield, has_room_for_int,
  crosses_alignment_boundary, get_aligned_start_bit, current_bit_offset, append_range, after_last,
  start_bit, aligned_after,
}

-- Each range is not empty and begins after the end of the one before it.
abbrev pub Ascending : ℕ → List (ℕ × ℕ) → Type 0
Ascending from [] = Unit {0}
Ascending from ((low, high) ∷ rest) = (from ≤ low) × (low ≤ high) × Ascending (high + 1) rest

abbrev pub IsOrdered : ReturnRegisterLayout → Type 0
IsOrdered r = Ascending 0 r.ranges

after_last-ge :
    (from low high : ℕ) (rs : List (ℕ × ℕ))
    → Ascending from ((low, high) ∷ rs)
    → from ≤ after_last (last? ((low, high) ∷ rs))
after_last-ge from low high [] a = omega arith
after_last-ge from low high ((l, h) ∷ rs) a = omega (arith, after_last-ge (high + 1) l h rs a.2)

Ascending-append :
    (from start bits : ℕ) (rs : List (ℕ × ℕ))
    → Ascending from rs
    → from ≤ start
    → after_last (last? rs) ≤ start
    → 1 ≤ bits
    → Ascending from (rs ++ (start, start + bits - 1) ∷ [])
Ascending-append from start bits [] a f h b = omega arith
Ascending-append from start bits ((l, h) ∷ []) a f q b = omega arith
Ascending-append from start bits ((l, h) ∷ (l', h') ∷ ys) a f q b =
    let fits : h + 1 ≤ start = omega (arith, after_last-ge (h + 1) l' h' ys a.2) in
    (a.0, a.1, Ascending-append (h + 1) start bits ((l', h') ∷ ys) a.2 fits q b)

-- `s` is `r` with one more range of `bits` bits, at or after the first free bit.
abbrev pub Placed : ReturnRegisterLayout → ReturnRegisterLayout → ℕ → Type 0
Placed r s bits = (start : ℕ) × (current_bit_offset r ≤ start) × (s ≡ append_range r start bits)

aligned_after-ge :
    (o : Option (ℕ × ℕ)) (alignment_bits start : ℕ)
    → aligned_after alignment_bits o ≡ ok start
    → after_last o ≤ start
aligned_after-ge none d start h = omega arith
aligned_after-ge (some (low, high)) d start h = ground (arith, le-ceil_div (high + 1) d)

start_bit-ge :
    (r : ReturnRegisterLayout) (alignment start : ℕ) (c : Bool)
    → start_bit r alignment c ≡ ok start
    → current_bit_offset r ≤ start
unfolding get_aligned_start_bit current_bit_offset
start_bit-ge r alignment start false h = ground arith
start_bit-ge r alignment start true h = aligned_after-ge (last? r.ranges) (alignment * 8) start h

-- What `add_bitfield` and `add_int` do once they know whether there is room and a crossing.
abbrev place : ReturnRegisterLayout → ℕ → ℕ → Result Bool → Bool → Result ReturnRegisterLayout
place r alignment bits c room =
    if room
    then c
      >>= (λ crosses. start_bit r alignment crosses >>= λ start. ok (append_range r start bits))
    else err verification_process_exception

place-Placed :
    (r s : ReturnRegisterLayout) (alignment bits : ℕ) (c : Result Bool) (room : Bool)
    → place r alignment bits c room ≡ ok s
    → Placed r s bits
place-Placed r s alignment bits c false h = cc
place-Placed r s alignment bits (err e) true h = cc
place-Placed r s alignment bits (ok c) true h =
    let (start, e, p) =
      >>=-eq-ok (start_bit r alignment c) (λ start. ok (append_range r start bits)) h in
    (start, start_bit-ge r alignment start c e, cc)

pub add_bitfield-Placed :
    (r s : ReturnRegisterLayout) (bits alignment : ℕ)
    → add_bitfield r bits alignment ≡ ok s
    → Placed r s bits
unfolding add_bitfield
add_bitfield-Placed r s bits alignment h =
    let c = crosses_alignment_boundary r bits alignment in
    let (room, e, p) =
      >>=-eq-ok (has_room_for_bitfield r bits alignment) (place r alignment bits c) h in
    place-Placed r s alignment bits c room p

pub add_int-Placed :
    (r s : ReturnRegisterLayout) (byte_size : ℕ)
    → add_int r byte_size ≡ ok s
    → Placed r s (byte_size * 8)
unfolding add_int
add_int-Placed r s byte_size h =
    let c = crosses_alignment_boundary r byte_size byte_size in
    let (room, e, p) =
      >>=-eq-ok (has_room_for_int r byte_size) (place r byte_size (byte_size * 8) c) h in
    place-Placed r s byte_size (byte_size * 8) c room p

pub Placed-IsOrdered :
    (r s : ReturnRegisterLayout) (bits : ℕ) → 1 ≤ bits → IsOrdered r → Placed r s bits → IsOrdered s
unfolding current_bit_offset
Placed-IsOrdered r s bits b o (start, ge, e) =
    rw e (Ascending-append 0 start bits r.ranges o (omega arith) ge b)

-- Adding a bit field of at least one bit to a register whose ranges are ascending and disjoint
-- leaves them so, whatever the alignment.
add_bitfield-IsOrdered :
    (r s : ReturnRegisterLayout) (bits alignment : ℕ)
    → 1 ≤ bits
    → IsOrdered r
    → add_bitfield r bits alignment ≡ ok s
    → IsOrdered s
add_bitfield-IsOrdered r s bits alignment b o h =
    Placed-IsOrdered r s bits b o (add_bitfield-Placed r s bits alignment h)

-- Adding an integer of at least one byte to a register whose ranges are ascending and disjoint
-- leaves them so.
add_int-IsOrdered :
    (r s : ReturnRegisterLayout) (byte_size : ℕ)
    → 1 ≤ byte_size
    → IsOrdered r
    → add_int r byte_size ≡ ok s
    → IsOrdered s
add_int-IsOrdered r s byte_size b o h =
    Placed-IsOrdered r s (byte_size * 8) (omega arith) o (add_int-Placed r s byte_size h)
