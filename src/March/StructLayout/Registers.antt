-- ===== src/March/StructLayout/Registers.antt =====
-- `compute_struct_values` of py_etiss_xvalid/entity/march/rv32.py: the ranges in its registers.
use etiss_xvalid.Base.{
  ℕ, ◌*◌, ◌≤◌, ◌≡◌, refl, Bool, true, false, none, some, List, [], ◌∷◌, ◌++◌, arith, All,
  All-append, if◌then◌else◌,
}
use etiss_xvalid.Base.Result.{ok, >>=-eq-ok}
use etiss_xvalid.Layout.{
  Element, bitfield, float, integer, ReturnRegisterLayout, empty_layout, float_layout, add_float,
  is_empty,
}
use etiss_xvalid.Layout.Order.{
  IsOrdered, add_bitfield-Placed, add_int-Placed, Placed, Placed-IsOrdered,
}
use etiss_xvalid.March.StructLayout.{
  LoopState, or_new, close_unless, place_element, place_elements, close_last, compute_struct_values,
}
use etiss_xvalid.March.StructLayout.Widths.{IsSized, bitfield-Filled, integer-Filled}

-- a register of `xlen` bits whose ranges are disjoint and ascending
abbrev pub IsRegister : ℕ → ReturnRegisterLayout → Type 0
IsRegister xlen r = (r.xlen ≡ xlen) × IsOrdered r

abbrev pub IsLoopState : ℕ → LoopState → Type 0
IsLoopState xlen (regs, a) = All (IsRegister xlen) regs × IsRegister xlen (or_new xlen a)

close_unless-IsRegister :
    (xlen : ℕ) (room : Bool) (regs : List ReturnRegisterLayout) (r : ReturnRegisterLayout)
    → All (IsRegister xlen) regs
    → IsRegister xlen r
    → All (IsRegister xlen) (close_unless xlen room regs r).0
      × IsRegister xlen (close_unless xlen room regs r).1
close_unless-IsRegister xlen true regs r h k = (h, k)
close_unless-IsRegister xlen false regs r h k =
    (All-append (IsRegister xlen) regs (r ∷ []) h (k, tt), (refl, tt))

Placed-IsRegister :
    (xlen : ℕ) (r s : ReturnRegisterLayout) (bits : ℕ)
    → 1 ≤ bits
    → IsRegister xlen r
    → Placed r s bits
    → IsRegister xlen s
Placed-IsRegister xlen r s bits b (x, o) p = (rw p.2 x, Placed-IsOrdered r s bits b o p)

close_last-IsRegister :
    (xlen : ℕ) (t : LoopState) → IsLoopState xlen t → All (IsRegister xlen) (close_last t)
close_last-IsRegister xlen (regs, none) h = h.0
close_last-IsRegister xlen (regs, some r) h = kept (is_empty r)
  where
    kept : (empty : Bool) → All (IsRegister xlen) (if empty then regs else regs ++ r ∷ [])
    kept true = h.0
    kept false = All-append (IsRegister xlen) regs (r ∷ []) h.0 (h.1, tt)

float-IsRegister :
    (xlen byte_size : ℕ) → 1 ≤ byte_size → IsRegister xlen (add_float (float_layout xlen) byte_size)
unfolding add_float
float-IsRegister xlen byte_size h = (refl, omega arith)

place_element-IsLoopState :
    (xlen : ℕ) (e : Element) (s t : LoopState)
    → IsSized e
    → IsLoopState xlen s
    → place_element xlen s e ≡ ok t
    → IsLoopState xlen t
unfolding place_element
place_element-IsLoopState xlen (bitfield bits alignment) (regs, a) t h i p =
    let (room, s, e, f, q) = bitfield-Filled xlen regs a bits alignment t p in
    let c = close_unless-IsRegister xlen room regs (or_new xlen a) i.0 i.1 in
    rw q (c.0, Placed-IsRegister xlen _ s bits h c.1 (add_bitfield-Placed _ s bits alignment f))
place_element-IsLoopState xlen (float byte_size) (regs, a) t h i p =
    let closed = close_last (regs, some (or_new xlen a)) in
    let made = add_float (float_layout xlen) byte_size in
    let q : t ≡ (closed ++ made ∷ [], none) = cc in
    rw q (
      All-append (IsRegister xlen) closed (made ∷ [])
          (close_last-IsRegister xlen (regs, some (or_new xlen a)) i)
          (float-IsRegister xlen byte_size (omega arith), tt),
      (refl, tt),
    )
place_element-IsLoopState xlen (integer byte_size) (regs, a) t h i p =
    let (room, s, e, f, q) = integer-Filled xlen regs a byte_size t p in
    let c = close_unless-IsRegister xlen room regs (or_new xlen a) i.0 i.1 in
    rw q (c.0, Placed-IsRegister xlen _ s (byte_size * 8) h c.1 (add_int-Placed _ s byte_size f))

place_elements-IsLoopState :
    (xlen : ℕ) (es : List Element) (s t : LoopState)
    → All IsSized es
    → IsLoopState xlen s
    → place_elements xlen s es ≡ ok t
    → IsLoopState xlen t
unfolding place_elements
place_elements-IsLoopState xlen [] s t h i p = let q : t ≡ s = cc in rw q i
place_elements-IsLoopState xlen (e ∷ es) s t h i p =
    let (s', q, r) = >>=-eq-ok (place_element xlen s e) (λ s'. place_elements xlen s' es) p in
    place_elements-IsLoopState xlen es s' t h.1 (place_element-IsLoopState xlen e s s' h.0 i q) r

-- Every register that a struct is laid out in has `xlen` bits, and the bit ranges in it are not
-- empty, disjoint and ascending. The elements' sizes are at least one.
pub compute_struct_values-IsRegister :
    (xlen : ℕ) (es : List Element) (regs : List ReturnRegisterLayout)
    → All IsSized es
    → compute_struct_values xlen es ≡ ok regs
    → All (IsRegister xlen) regs
unfolding compute_struct_values
compute_struct_values-IsRegister xlen es regs h p =
    let start : LoopState = ([], some (empty_layout xlen)) in
    let (t, q, r) = >>=-eq-ok (place_elements xlen start es) (λ s. ok (close_last s)) p in
    let same : regs ≡ close_last t = cc in
    rw same (
      close_last-IsRegister xlen t
        (place_elements-IsLoopState xlen es start t h (tt, (refl, tt)) q))
