-- ===== src/March/StructLayout/Totality.antt =====
-- `compute_struct_values` of py_etiss_xvalid/entity/march/rv32.py: its exceptions.
use native.Mathlib.Nat.{zero-mod}
use etiss_xvalid.Base.{
  ℕ, ◌+◌, ◌*◌, ◌≤◌, ◌≡◌, refl, Bool, true, false, some, List, [], ◌∷◌, arith, All, leb,
}
use etiss_xvalid.Base.Result.{ok}
use etiss_xvalid.Layout.{
  Element, bitfield, float, integer, ReturnRegisterLayout, empty_layout, add_bitfield, add_int,
  has_room_for_int, has_room_for_bitfield, current_bit_offset, append_range,
}
use etiss_xvalid.Layout.Bitfields.{has_room-first_fit, add_bitfield-first_fit, first_fit}
use etiss_xvalid.Layout.Integers.{add_int-ok, has_room_for_int-ok}
use etiss_xvalid.March.StructLayout.{
  LoopState, or_new, close_unless, place_element, place_elements, close_last, compute_struct_values,
}
use etiss_xvalid.March.StructLayout.Widths.{IsSized}

-- What C allows: a bit field has a base type of at least one byte, and is no wider than that type
-- and than a register.
abbrev pub IsCElement : ℕ → Element → Type 0
IsCElement xlen (bitfield bits alignment) =
    (1 ≤ bits) × (1 ≤ alignment) × (bits ≤ alignment * 8) × (bits ≤ xlen)
IsCElement xlen (float byte_size) = 1 ≤ byte_size
IsCElement xlen (integer byte_size) = 1 ≤ byte_size

IsCElement-IsSized : (xlen : ℕ) (e : Element) → IsCElement xlen e → IsSized e
IsCElement-IsSized xlen (bitfield bits alignment) h = h.0
IsCElement-IsSized xlen (float byte_size) h = omega arith
IsCElement-IsSized xlen (integer byte_size) h = omega arith

first_fit-empty : (bits unit : ℕ) → bits ≤ unit → first_fit 0 bits unit ≡ 0
first_fit-empty bits unit h = ground (arith, zero-mod unit)

-- After the test for room, and a new register where it failed, the field is added.
bitfield-added :
    (xlen : ℕ) (regs : List ReturnRegisterLayout) (r : ReturnRegisterLayout) (bits alignment : ℕ)
    (room : Bool)
    → IsCElement xlen (bitfield bits alignment)
    → has_room_for_bitfield r bits alignment ≡ ok room
    → (s : ReturnRegisterLayout) × (add_bitfield (close_unless xlen room regs r).1 bits alignment
        ≡ ok s)
bitfield-added xlen regs r bits alignment true (b, a, w, x) e =
    let start = first_fit (current_bit_offset r) bits (alignment * 8) in
    (
      append_range r start bits,
      ground (
        arith,
        has_room-first_fit r bits alignment a b w,
        add_bitfield-first_fit r bits alignment a b w,
      ),
    )
bitfield-added xlen regs r bits alignment false (b, a, w, x) e = (
  append_range (empty_layout xlen) 0 bits,
  unfold current_bit_offset in
      ground (
        arith,
        first_fit-empty bits (alignment * 8),
        add_bitfield-first_fit (empty_layout xlen) bits alignment a b w,
      ),
)

integer-added :
    (xlen : ℕ) (regs : List ReturnRegisterLayout) (r : ReturnRegisterLayout) (byte_size : ℕ)
    (room : Bool)
    → 1 ≤ byte_size
    → has_room_for_int r byte_size ≡ ok room
    → (s : ReturnRegisterLayout) × (add_int (close_unless xlen room regs r).1 byte_size ≡ ok s)
integer-added xlen regs r byte_size true h e = add_int-ok r byte_size h e
integer-added xlen regs r byte_size false h e =
    add_int-ok (empty_layout xlen) byte_size h (unfold has_room_for_int in refl)

place_element-ok :
    (xlen : ℕ) (e : Element) (s : LoopState)
    → IsCElement xlen e
    → (t : LoopState) × (place_element xlen s e ≡ ok t)
unfolding place_element
place_element-ok xlen (bitfield bits alignment) (regs, a) h =
    let r = or_new xlen a in
    let room = leb (first_fit (current_bit_offset r) bits (alignment * 8) + bits) r.xlen in
    let e : has_room_for_bitfield r bits alignment ≡ ok room =
      has_room-first_fit r bits alignment h.1 h.0 h.2 in
    let (s, p) = bitfield-added xlen regs r bits alignment room h e in
    (((close_unless xlen room regs r).0, some s), rw e (rw p))
place_element-ok xlen (float byte_size) (regs, a) h = (_, refl)
place_element-ok xlen (integer byte_size) (regs, a) h =
    let r = or_new xlen a in
    let (room, e) = has_room_for_int-ok r byte_size h in
    let (s, p) = integer-added xlen regs r byte_size room h e in
    (((close_unless xlen room regs r).0, some s), rw e (rw p))

place_elements-ok :
    (xlen : ℕ) (es : List Element) (s : LoopState)
    → All (IsCElement xlen) es
    → (t : LoopState) × (place_elements xlen s es ≡ ok t)
unfolding place_elements
place_elements-ok xlen [] s h = (s, refl)
place_elements-ok xlen (e ∷ es) s h =
    let (s', p) = place_element-ok xlen e s h.0 in
    let (t, q) = place_elements-ok xlen es s' h.1 in (t, rw p q)

-- A struct whose elements are such as C allows is laid out in registers, without an exception.
pub compute_struct_values_total :
    (xlen : ℕ) (es : List Element)
    → All (IsCElement xlen) es
    → (regs : List ReturnRegisterLayout) × (compute_struct_values xlen es ≡ ok regs)
unfolding compute_struct_values
compute_struct_values_total xlen es h =
    let (t, p) = place_elements-ok xlen es ([], some (empty_layout xlen)) h in (close_last t, rw p)
