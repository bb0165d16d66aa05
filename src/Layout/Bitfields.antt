-- ===== src/Layout/Bitfields.antt =====
-- `add_bitfield` of py_etiss_xvalid/entity/verification/rv32_return_register_layout.py: where a bit
-- field is placed.
use native.Mathlib.Nat.{div-add-mod', mod-lt, mul-mod_left, zero-mod}
use etiss_xvalid.Base.{
  ℕ, ◌+◌, ◌*◌, ◌/◌, ◌%◌, ◌≤◌, ◌<◌, ◌≡◌, true, false, arith, last?, if◌then◌else◌, leb, leb→le,
  Bool-cases, Option-cases, inl, inr,
}
use etiss_xvalid.Base.Division.{div_same, div_next, ceil_div-next, next_boundary-le}
use etiss_xvalid.Base.Result.{ok, err, verification_process_exception}
use etiss_xvalid.Layout.{
  ReturnRegisterLayout, add_bitfield, has_room_for_bitfield, crosses_alignment_boundary,
  get_aligned_start_bit, current_bit_offset, append_range,
}

-- The field at `start` does not cross a boundary of `unit` bits.
abbrev pub Within : (start bits unit : ℕ) → Type 0
Within start bits unit = start % unit + bits ≤ unit

-- `start` is the least position from `from` on that crosses no boundary.
pub record IsFirstFit (from bits unit start : ℕ) : Type 0 where
  pub free : from ≤ start
  pub within : Within start bits unit
  pub least : (p : ℕ) → from ≤ p → Within p bits unit → start ≤ p

abbrev pub first_fit : (from bits unit : ℕ) → ℕ
first_fit from bits unit = if leb (from % unit + bits) unit then from else (from / unit + 1) * unit

first_fit-IsFirstFit :
    (from bits unit : ℕ)
    → 1 ≤ unit
    → bits ≤ unit
    → IsFirstFit from bits unit (first_fit from bits unit)
first_fit-IsFirstFit from bits unit hu hb = elim (Bool-cases (leb (from % unit + bits) unit)) [
  | inl h ↦ rw h (record { free = omega arith; within = leb→le _ _ h; least = λ p f w. f })
  | inr h ↦ rw h (record {
    free = omega (arith, div-add-mod' from unit, mod-lt from {m = unit} hu);
    within = rw (mul-mod_left (from / unit + 1) unit) (omega arith);
    least = λ p f w. next_boundary-le from p bits unit hu f (ground arith) w;
  })
]

module _ (r : ReturnRegisterLayout) (bits alignment : ℕ) (ha : 1 ≤ alignment) (hb : 1 ≤ bits)
    (hw : bits ≤ alignment * 8) where
  abbrev pub offset : ℕ
  offset = current_bit_offset r

  abbrev pub unit : ℕ
  unit = alignment * 8

  room_same :
      Within offset bits unit
      → has_room_for_bitfield r bits alignment ≡ ok (leb (offset + bits) r.xlen)
  unfolding has_room_for_bitfield
  room_same h = ground (arith, div_same offset bits unit)

  room_next :
      unit < offset % unit + bits
      → has_room_for_bitfield r bits alignment ≡ ok (leb ((offset / unit + 1) * unit + bits) r.xlen)
  unfolding has_room_for_bitfield
  room_next h = ground (arith, div_next offset bits unit)

  crosses_same : Within offset bits unit → crosses_alignment_boundary r bits alignment ≡ ok false
  unfolding crosses_alignment_boundary
  crosses_same h = ground (arith, div_same offset bits unit)

  crosses_next : unit < offset % unit + bits → crosses_alignment_boundary r bits alignment ≡ ok true
  unfolding crosses_alignment_boundary
  crosses_next h = ground (arith, div_next offset bits unit)

  start_next :
      unit < offset % unit + bits
      → get_aligned_start_bit r alignment ≡ ok ((offset / unit + 1) * unit)
  unfolding get_aligned_start_bit current_bit_offset
  start_next h = elim (Option-cases (last? r.ranges)) [
    | inl e ↦ absurd (omega (arith, zero-mod unit, rw e at h))
    | inr ((l, u), e) ↦ rw e (ground (arith, ceil_div-next (u + 1) unit, rw e at h))
  ]

  pub has_room-first_fit :
      has_room_for_bitfield r bits alignment ≡ ok (leb (first_fit offset bits unit + bits) r.xlen)
  has_room-first_fit = elim (Bool-cases (leb (offset % unit + bits) unit)) [
    | inl h ↦ rw h (room_same (leb→le _ _ h))
    | inr h ↦ rw h (room_next (ground arith))
  ]

  pub add_bitfield-first_fit : add_bitfield r bits alignment ≡ (
      if leb (first_fit offset bits unit + bits) r.xlen
      then ok (append_range r (first_fit offset bits unit) bits)
      else err verification_process_exception)
  unfolding add_bitfield
  add_bitfield-first_fit = elim (Bool-cases (leb (offset % unit + bits) unit)) [
    | inl h ↦ rw (h, room_same (leb→le _ _ h), crosses_same (leb→le _ _ h))
    | inr h ↦
        rw (h, room_next (ground arith), crosses_next (ground arith), start_next (ground arith))
  ]

  -- Adding a bit field of at least one bit, no wider than its base type, puts it first-fit: at the
  -- least bit, after those reserved, from which it crosses no boundary of the base type. If it
  -- ends within the register from there, the field is appended there; otherwise the call raises a
  -- verification exception.
  pub add_bitfield-IsFirstFit :
      (start : ℕ) × IsFirstFit (current_bit_offset r) bits (alignment * 8) start
      × (add_bitfield r bits alignment ≡ (
          if leb (start + bits) r.xlen
          then ok (append_range r start bits)
          else err verification_process_exception))
  add_bitfield-IsFirstFit = (
    first_fit offset bits unit,
    first_fit-IsFirstFit offset bits unit (omega arith) hw,
    add_bitfield-first_fit,
  )
