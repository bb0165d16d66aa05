-- ===== src/March/StructLayout/Widths.antt =====
-- `compute_struct_values` of py_etiss_xvalid/entity/march/rv32.py: the widths of what it reserves.
use mathlib.Core.List.{append_assoc, append-nil, map-append}
use etiss_xvalid.Base.{
  ℕ, ◌+◌, ◌-◌, ◌*◌, ◌≤◌, ◌≡◌, refl, sym, ap, ap₂, ◌∙◌, Bool, true, false, Option, none, some, List,
  [], ◌∷◌, ◌++◌, map, arith, All,
}
use etiss_xvalid.Base.Result.{Result, ok, err, ◌>>=◌, >>=-eq-ok}
use etiss_xvalid.Layout.{
  Element, bitfield, float, integer, ReturnRegisterLayout, empty_layout, float_layout, append_range,
  has_room_for_bitfield, has_room_for_int, add_bitfield, add_int, add_float, is_empty,
}
use etiss_xvalid.Layout.Order.{Placed, add_bitfield-Placed, add_int-Placed}
use etiss_xvalid.March.StructLayout.{
  LoopState, or_new, close_unless, place_element, place_elements, close_last, compute_struct_values,
}

abbrev pub bits_of : Element → ℕ
bits_of (bitfield bit_size alignment) = bit_size
bits_of (float byte_size) = byte_size * 8
bits_of (integer byte_size) = byte_size * 8

abbrev width : ℕ × ℕ → ℕ
width r = r.1 + 1 - r.0

abbrev pub widths : ReturnRegisterLayout → List ℕ
widths r = map width r.ranges

abbrev pub all_widths : List ReturnRegisterLayout → List ℕ
all_widths [] = []
all_widths (r ∷ rs) = widths r ++ all_widths rs

-- What the loop has reserved so far.
abbrev pub reserved : LoopState → List ℕ
reserved (regs, active) = all_widths regs ++ widths (or_new 0 active)

all_widths-append :
    (rs ss : List ReturnRegisterLayout) → all_widths (rs ++ ss) ≡ all_widths rs ++ all_widths ss
all_widths-append [] ss = refl
all_widths-append (r ∷ rs) ss = rw (all_widths-append rs ss) (sym (append_assoc (widths r) _ _))

widths-append_range :
    (r : ReturnRegisterLayout) (start bits : ℕ)
    → 1 ≤ bits
    → widths (append_range r start bits) ≡ widths r ++ bits ∷ []
widths-append_range r start bits h =
    map-append width r.ranges _ ∙ ap (λ w. widths r ++ w ∷ []) (omega arith)

widths-or_new :
    (xlen : ℕ) (a : Option ReturnRegisterLayout) → widths (or_new xlen a) ≡ widths (or_new 0 a)
widths-or_new xlen none = refl
widths-or_new xlen (some r) = refl

widths-Placed :
    (r s : ReturnRegisterLayout) (bits : ℕ)
    → 1 ≤ bits
    → Placed r s bits
    → widths s ≡ widths r ++ bits ∷ []
widths-Placed r s bits h (start, ge, e) = rw e (widths-append_range r start bits h)

close_unless-reserved :
    (xlen : ℕ) (room : Bool) (regs : List ReturnRegisterLayout) (r : ReturnRegisterLayout)
    → all_widths (close_unless xlen room regs r).0 ++ widths (close_unless xlen room regs r).1
      ≡ all_widths regs ++ widths r
close_unless-reserved xlen true regs r = refl
close_unless-reserved xlen false regs r =
    append-nil _
    ∙ all_widths-append regs (r ∷ [])
    ∙ ap (λ w. all_widths regs ++ w) (append-nil (widths r))

-- From the loop's state before an element to that after it.
filled-reserved :
    (xlen bits : ℕ) (room : Bool) (regs : List ReturnRegisterLayout)
    (a : Option ReturnRegisterLayout) (s : ReturnRegisterLayout)
    → 1 ≤ bits
    → Placed (close_unless xlen room regs (or_new xlen a)).1 s bits
    → all_widths (close_unless xlen room regs (or_new xlen a)).0 ++ widths s
      ≡ reserved (regs, a) ++ bits ∷ []
filled-reserved xlen bits room regs a s h p =
    let c = close_unless xlen room regs (or_new xlen a) in
    ap (λ w. all_widths c.0 ++ w) (widths-Placed c.1 s bits h p)
    ∙ sym (append_assoc (all_widths c.0) (widths c.1) (bits ∷ []))
    ∙ ap (λ w. w ++ bits ∷ [])
        (close_unless-reserved xlen room regs (or_new xlen a)
          ∙ ap (λ w. all_widths regs ++ w) (widths-or_new xlen a))

-- What a step that places a bit field or an integer has done: `test` is its test for room, `add`
-- its call on the register that it then fills.
abbrev pub Filled :
    ℕ
    → List ReturnRegisterLayout
    → ReturnRegisterLayout
    → Result Bool
    → (ReturnRegisterLayout → Result ReturnRegisterLayout)
    → LoopState
    → Type 0
Filled xlen regs active test add t =
    (room : Bool) × (s : ReturnRegisterLayout) × (test ≡ ok room)
    × (add (close_unless xlen room regs active).1 ≡ ok s)
    × (t ≡ ((close_unless xlen room regs active).0, some s))

fill_room :
    (xlen : ℕ) (regs : List ReturnRegisterLayout) (active : ReturnRegisterLayout)
    (test : Result Bool) (add : ReturnRegisterLayout → Result ReturnRegisterLayout) (t : LoopState)
    → (test >>= λ room.
        let (regs', active') = close_unless xlen room regs active in
        add active' >>= λ filled. ok (regs', some filled))
      ≡ ok t
    → Filled xlen regs active test add t
fill_room xlen regs active (err e) add t h = cc
fill_room xlen regs active (ok room) add t h =
    let c = close_unless xlen room regs active in
    let (s, e, q) = >>=-eq-ok (add c.1) (λ filled. ok (c.0, some filled)) h in
    (room, s, refl, e, cc)

pub bitfield-Filled :
    (xlen : ℕ) (regs : List ReturnRegisterLayout) (a : Option ReturnRegisterLayout)
    (bits alignment : ℕ) (t : LoopState)
    → place_element xlen (regs, a) (bitfield bits alignment) ≡ ok t
    → Filled xlen regs
        (or_new xlen a)
        (has_room_for_bitfield (or_new xlen a) bits alignment)
        (λ r. add_bitfield r bits alignment)
        t
unfolding place_element
bitfield-Filled xlen regs a bits alignment t h =
    fill_room xlen regs (or_new xlen a) _ (λ r. add_bitfield r bits alignment) t h

pub integer-Filled :
    (xlen : ℕ) (regs : List ReturnRegisterLayout) (a : Option ReturnRegisterLayout) (byte_size : ℕ)
    (t : LoopState)
    → place_element xlen (regs, a) (integer byte_size) ≡ ok t
    → Filled xlen regs
        (or_new xlen a)
        (has_room_for_int (or_new xlen a) byte_size)
        (λ r. add_int r byte_size)
        t
unfolding place_element
integer-Filled xlen regs a byte_size t h =
    fill_room xlen regs (or_new xlen a) _ (λ r. add_int r byte_size) t h

-- An empty register that is not kept had no widths.
closed-widths :
    (regs : List ReturnRegisterLayout) (xlen : ℕ) (is_float : Bool) (ranges : List (ℕ × ℕ))
    → all_widths
        (close_last (regs, some (record { xlen = xlen; is_float = is_float; ranges = ranges })))
      ≡ all_widths regs ++ map width ranges
unfolding is_empty
closed-widths regs xlen is_float [] = sym (append-nil _)
closed-widths regs xlen is_float (r ∷ rs) =
    all_widths-append regs _ ∙ ap (λ w. all_widths regs ++ w) (append-nil _)

close_last-widths : (t : LoopState) → all_widths (close_last t) ≡ reserved t
close_last-widths (regs, none) = sym (append-nil _)
close_last-widths (regs, some r) = closed-widths regs r.xlen r.is_float r.ranges

float-reserved :
    (xlen byte_size : ℕ) (regs : List ReturnRegisterLayout) (a : Option ReturnRegisterLayout)
    (t : LoopState)
    → 1 ≤ byte_size
    → place_element xlen (regs, a) (float byte_size) ≡ ok t
    → reserved t ≡ reserved (regs, a) ++ byte_size * 8 ∷ []
unfolding place_element
float-reserved xlen byte_size regs a t h p =
    let r = or_new xlen a in
    let closed = close_last (regs, some r) in
    let made = add_float (float_layout xlen) byte_size in
    let w : widths made ≡ byte_size * 8 ∷ [] =
      unfold add_float in widths-append_range (float_layout xlen) 0 (byte_size * 8) (omega arith) in
    let q : t ≡ (closed ++ made ∷ [], none) = cc in
    rw q (
      append-nil _
      ∙ all_widths-append closed (made ∷ [])
      ∙ ap₂ (λ u v. u ++ v) (close_last-widths (regs, some r)) (append-nil _ ∙ w)
      ∙ ap (λ w. (all_widths regs ++ w) ++ byte_size * 8 ∷ []) (widths-or_new xlen a))

-- every size is at least one
abbrev pub IsSized : Element → Type 0
IsSized e = 1 ≤ bits_of e

place_element-reserved :
    (xlen : ℕ) (e : Element) (s t : LoopState)
    → IsSized e
    → place_element xlen s e ≡ ok t
    → reserved t ≡ reserved s ++ bits_of e ∷ []
place_element-reserved xlen (bitfield bits alignment) (regs, a) t h p =
    let (room, s, e, f, q) = bitfield-Filled xlen regs a bits alignment t p in
    rw q (filled-reserved xlen bits room regs a s h (add_bitfield-Placed _ s bits alignment f))
place_element-reserved xlen (float byte_size) (regs, a) t h p =
    float-reserved xlen byte_size regs a t (omega arith) p
place_element-reserved xlen (integer byte_size) (regs, a) t h p =
    let (room, s, e, f, q) = integer-Filled xlen regs a byte_size t p in
    rw q (filled-reserved xlen (byte_size * 8) room regs a s h (add_int-Placed _ s byte_size f))

place_elements-reserved :
    (xlen : ℕ) (es : List Element) (s t : LoopState)
    → All IsSized es
    → place_elements xlen s es ≡ ok t
    → reserved t ≡ reserved s ++ map bits_of es
unfolding place_elements
place_elements-reserved xlen [] s t h p = cc (append-nil (reserved s))
place_elements-reserved xlen (e ∷ es) s t h p =
    let (s', q, r) = >>=-eq-ok (place_element xlen s e) (λ s'. place_elements xlen s' es) p in
    place_elements-reserved xlen es s' t h.1 r
    ∙ ap (λ w. w ++ map bits_of es) (place_element-reserved xlen e s s' h.0 q)
    ∙ append_assoc (reserved s) _ _

-- The registers that a struct is laid out in hold its elements, each with its number of bits, in
-- the order of the elements: none is lost, repeated or moved. The elements' sizes are at least
-- one.
pub compute_struct_values-widths :
    (xlen : ℕ) (es : List Element) (regs : List ReturnRegisterLayout)
    → All IsSized es
    → compute_struct_values xlen es ≡ ok regs
    → all_widths regs ≡ map bits_of es
unfolding compute_struct_values
compute_struct_values-widths xlen es regs h p =
    let (t, q, r) =
      >>=-eq-ok (place_elements xlen ([], some (empty_layout xlen)) es) (λ s. ok (close_last s))
        p in
    cc (close_last-widths t, place_elements-reserved xlen es _ t h q)
