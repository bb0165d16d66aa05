-- ===== src/Layout/Integers.antt =====
-- `add_int` of py_etiss_xvalid/entity/verification/rv32_return_register_layout.py.
use native.Mathlib.Nat.{div-add-mod', mod-lt}
use etiss_xvalid.Base.{
  ℕ, ◌+◌, ◌-◌, ◌*◌, ◌%◌, ◌≤◌, ◌<◌, ◌≡◌, ◌⊎◌, inl, inr, Bool, true, false, Option, some, none, arith,
  last?, if◌then◌else◌, leb, ltb, last?-append, not, ◌||◌, refl, ◌/◌, ◌==◌,
}
use etiss_xvalid.Base.Division.{ceil_div, div_same, div_unique}
use etiss_xvalid.Base.Result.{ok, err, verification_process_exception}
use etiss_xvalid.Layout.{
  ReturnRegisterLayout, add_int, after_last, room_after, has_room_for_int,
  crosses_alignment_boundary, get_aligned_start_bit, start_bit, bits_to_consider,
  current_bit_offset, append_range,
}

-- a register of 32 bits in which whole bytes are reserved
pub record IsBytePacked (r : ReturnRegisterLayout) : Type 0 where
  pub xlen : r.xlen ≡ 32
  pub whole_bytes : current_bit_offset r % 8 ≡ 0
  pub within : current_bit_offset r ≤ 32

module _ (r : ReturnRegisterLayout) (b : ℕ) (hb : 1 ≤ b) (hb' : b ≤ 8) where
  byte_within : current_bit_offset r % 8 ≡ 0 → current_bit_offset r % (b * 8) + b ≤ b * 8
  byte_within h = omega (
    arith,
    div-add-mod' (current_bit_offset r) (b * 8),
    mod-lt (current_bit_offset r) {m = b * 8} (omega arith),
  )

  crosses_none :
      current_bit_offset r % (b * 8) + b ≤ b * 8 → crosses_alignment_boundary r b b ≡ ok false
  unfolding crosses_alignment_boundary
  crosses_none h = ground (arith, div_same (current_bit_offset r) b (b * 8))

  -- Behind whole bytes, an integer of one to eight bytes for which there is room is put right
  -- behind the last reserved bit, aligned to its size or not; where there is none, the call raises
  -- a verification exception.
  pub add_int_behind_bytes :
      (room : Bool)
      → current_bit_offset r % 8 ≡ 0
      → has_room_for_int r b ≡ ok room
      → add_int r b ≡ (
          if room
          then ok (append_range r (current_bit_offset r) (b * 8))
          else err verification_process_exception)
  unfolding add_int
  add_int_behind_bytes true h e = rw (e, crosses_none (byte_within h))
  add_int_behind_bytes false h e = rw e

-- the sizes of C's char, short and int
abbrev pub IsIntSize : ℕ → Type 0
IsIntSize b = (b ≡ 1) ⊎ (b ≡ 2) ⊎ (b ≡ 4)

room-fits :
    (r : ReturnRegisterLayout) (o : Option (ℕ × ℕ)) (b : ℕ)
    → IsIntSize b
    → r.xlen ≡ 32
    → after_last o % 8 ≡ 0
    → room_after r b o ≡ ok true
    → after_last o + b * 8 ≤ 32
room-fits r none b (inl e) x w h = omega arith
room-fits r none b (inr (inl e)) x w h = omega arith
room-fits r none b (inr (inr e)) x w h = omega arith
room-fits r (some (l, u)) b (inl e) x w h = rw e (ground (arith, rw e at h))
room-fits r (some (l, u)) b (inr (inl e)) x w h = rw e (ground (arith, rw e at h))
room-fits r (some (l, u)) b (inr (inr e)) x w h = rw e (ground (arith, rw e at h))

IntSize_bounds : (b : ℕ) → IsIntSize b → (1 ≤ b) × (b ≤ 8)
IntSize_bounds b h = omega arith

offset-append_range :
    (r : ReturnRegisterLayout) (start bits : ℕ)
    → 1 ≤ bits
    → current_bit_offset (append_range r start bits) ≡ start + bits
unfolding current_bit_offset
offset-append_range r start bits h =
    rw (last?-append r.ranges (start, start + bits - 1)) (omega arith)

append_range-IsBytePacked :
    (r : ReturnRegisterLayout) (bits : ℕ)
    → 1 ≤ bits
    → bits % 8 ≡ 0
    → current_bit_offset r + bits ≤ 32
    → IsBytePacked r
    → IsBytePacked (append_range r (current_bit_offset r) bits)
append_range-IsBytePacked r bits h m f p = record {
  xlen = p.xlen;
  whole_bytes =
      rw (offset-append_range r (current_bit_offset r) bits h) (omega (arith, p.whole_bytes));
  within = rw (offset-append_range r (current_bit_offset r) bits h) f;
}

room_after-ok :
    (r : ReturnRegisterLayout) (b : ℕ) (o : Option (ℕ × ℕ))
    → 1 ≤ b
    → (room : Bool) × (room_after r b o ≡ ok room)
room_after-ok r b none h = (true, refl)
room_after-ok r b (some (l, u)) h =
    let aligned = ceil_div u (b * 8) * (b * 8) in
    (not (leb r.xlen aligned || leb r.xlen (aligned + b)), ground arith)

pub has_room_for_int-ok :
    (r : ReturnRegisterLayout) (b : ℕ) → 1 ≤ b → (room : Bool) × (has_room_for_int r b ≡ ok room)
unfolding has_room_for_int
has_room_for_int-ok r b h = room_after-ok r b (last? r.ranges) h

crosses-ok :
    (r : ReturnRegisterLayout) (b : ℕ)
    → 1 ≤ b
    → (c : Bool) × (crosses_alignment_boundary r b b ≡ ok c)
unfolding crosses_alignment_boundary
crosses-ok r b h =
    let o = current_bit_offset r in
    let bits = bits_to_consider r b (b * 8) in
    (not ((o + bits - 1) / (b * 8) == o / (b * 8)), ground arith)

start_bit-ok :
    (r : ReturnRegisterLayout) (b : ℕ) (o : Option (ℕ × ℕ)) (c : Bool)
    → 1 ≤ b
    → last? r.ranges ≡ o
    → (start : ℕ) × (start_bit r b c ≡ ok start)
unfolding get_aligned_start_bit
start_bit-ok r b o false h e = (current_bit_offset r, refl)
start_bit-ok r b none true h e = (0, rw e refl)
start_bit-ok r b (some (l, u)) true h e = (ceil_div (u + 1) (b * 8) * (b * 8), rw e (ground arith))

-- An integer of at least one byte is added wherever there is room.
pub add_int-ok :
    (r : ReturnRegisterLayout) (b : ℕ)
    → 1 ≤ b
    → has_room_for_int r b ≡ ok true
    → (s : ReturnRegisterLayout) × (add_int r b ≡ ok s)
unfolding add_int
add_int-ok r b h e =
    let (c, p) = crosses-ok r b h in
    let (start, q) = start_bit-ok r b (last? r.ranges) c h refl in
    (append_range r start (b * 8), rw (e, p) (rw q))

room-IsBytePacked :
    (r s : ReturnRegisterLayout) (b : ℕ) (room : Bool)
    → IsIntSize b
    → IsBytePacked r
    → has_room_for_int r b ≡ ok room
    → add_int r b ≡ ok s
    → IsBytePacked s
unfolding has_room_for_int current_bit_offset
room-IsBytePacked r s b true size p e h =
    let (lo, hi) = IntSize_bounds b size in
    let fits : current_bit_offset r + b * 8 ≤ 32 =
      room-fits r (last? r.ranges) b size p.xlen p.whole_bytes e in
    let same : s ≡ append_range r (current_bit_offset r) (b * 8) =
      cc (add_int_behind_bytes r b lo hi true p.whole_bytes e) in
    rw same (append_range-IsBytePacked r (b * 8) (omega arith) (omega arith) fits p)
room-IsBytePacked r s b false size p e h =
    let (lo, hi) = IntSize_bounds b size in
    cc (add_int_behind_bytes r b lo hi false p.whole_bytes e)

-- Adding an integer of the size of a char, short or int to a 32-bit register whose reserved bits
-- end at a whole byte, within the register, leaves it such a register.
add_int-IsBytePacked :
    (r s : ReturnRegisterLayout) (b : ℕ)
    → IsIntSize b
    → IsBytePacked r
    → add_int r b ≡ ok s
    → IsBytePacked s
unfolding has_room_for_int
add_int-IsBytePacked r s b size p h =
    let (room, e) = room_after-ok r b (last? r.ranges) (IntSize_bounds b size).0 in
    room-IsBytePacked r s b room size p e h

module _ (q b : ℕ) (hb : 1 ≤ b) where
  ceil_div_multiple : ceil_div (q * (b * 8)) (b * 8) ≡ q
  ceil_div_multiple = div_unique q (q * (b * 8) + b * 8 - 1) (b * 8) (omega arith) (omega arith)

  -- The bits from the first one behind a multiple on, up to the size in bytes, cross no boundary.
  behind_multiple : (k : ℕ) → k < b * 8 → (q * (b * 8) + k) / (b * 8) ≡ q
  behind_multiple k h = div_unique q (q * (b * 8) + k) (b * 8) (omega arith) (omega arith)

  room_behind_multiple :
      (r : ReturnRegisterLayout) (low : ℕ)
      → room_after r b (some (low, q * (b * 8))) ≡ ok (ltb (q * (b * 8) + b) r.xlen)
  room_behind_multiple r low = rw ceil_div_multiple (ground arith)

  crosses_behind_multiple :
      (r : ReturnRegisterLayout) (low : ℕ)
      → last? r.ranges ≡ some (low, q * (b * 8))
      → crosses_alignment_boundary r b b ≡ ok false
  unfolding crosses_alignment_boundary current_bit_offset
  crosses_behind_multiple r low e =
      let first = behind_multiple 1 (omega arith) in
      let last = behind_multiple b (omega arith) in rw e (ground arith)

  placed :
      (r : ReturnRegisterLayout) (low : ℕ) (room : Bool)
      → last? r.ranges ≡ some (low, q * (b * 8))
      → has_room_for_int r b ≡ ok room
      → add_int r b ≡ (
          if room
          then ok (append_range r (q * (b * 8) + 1) (b * 8))
          else err verification_process_exception)
  unfolding add_int current_bit_offset
  placed r low true e h = rw (h, crosses_behind_multiple r low e) (rw e refl)
  placed r low false e h = rw h refl

  -- Where the last reserved bit is a multiple of the bits of an integer of at least one byte, the
  -- integer is put right behind it, so that its own last bit is the next multiple, exactly where
  -- that multiple and the size in bytes are together less than the width of the register;
  -- otherwise the call raises a verification exception. Where the width is not above the next
  -- multiple, the range passes the end of the register.
  pub add_int_behind_multiple :
      (r : ReturnRegisterLayout) (low : ℕ)
      → last? r.ranges ≡ some (low, q * (b * 8))
      → add_int r b ≡ (
          if ltb (q * (b * 8) + b) r.xlen
          then ok (append_range r (q * (b * 8) + 1) (b * 8))
          else err verification_process_exception)
  unfolding has_room_for_int
  add_int_behind_multiple r low e =
      placed r low (ltb (q * (b * 8) + b) r.xlen) e (rw e (room_behind_multiple r low))
