-- ===== src/Trace/Parser/SnapshotBytes.antt =====
-- The bytes of a snapshot, and py_etiss_xvalid/util/trace_parser.py on them.
use etiss_xvalid.Base.{ℕ, ◌+◌, ◌-◌, ◌≡◌, ◌∙◌, List, ◌++◌, arith, length, length-append, take, drop}
use etiss_xvalid.Base.Bytes.{
  le, words, le_bytes, words_bytes, length-le_bytes, le-le_bytes, take-append, take_all,
  drop-append, drop-append_more, length-words_bytes, words-words_bytes,
}
use etiss_xvalid.Base.Result.{ok}
use etiss_xvalid.Trace.Parser.{c_string, parse_state_snapshot}
use etiss_xvalid.Trace.Parser.Raw.{
  RawSnapshot, FitsSnapshot, pad, write_snapshot, read_snapshot, length-pad, c_string-pad,
}

module _ (s : RawSnapshot) (h : FitsSnapshot s) where
  pub length-write_snapshot : length (write_snapshot s) ≡ 412
  unfolding write_snapshot
  length-write_snapshot = omega (
    arith,
    length-append {0},
    length-le_bytes,
    length-words_bytes,
    length-pad 16 s.instruction h.short,
    h.x_length,
    h.f_length,
  )

  pc_read : le (take 4 (drop 4 (write_snapshot s))) ≡ s.pc
  unfolding write_snapshot
  pc_read = simp (drop-append, take-append, length-le_bytes) (le-le_bytes 4 s.pc h.pc)

  after_sp : List ℕ
  after_sp = words_bytes 4 s.x ++ (words_bytes 8 s.f ++ pad 16 s.instruction)

  drop_type :
      (k : ℕ)
      → drop (4 + k) (write_snapshot s) ≡ drop k (le_bytes 4 s.pc ++ (le_bytes 4 s.sp ++ after_sp))
  unfolding write_snapshot after_sp
  drop_type k = drop-append_more 4 k (le_bytes 4 1) _ (length-le_bytes 4 1)

  drop_pc : (k : ℕ) → drop (4 + (4 + k)) (write_snapshot s) ≡ drop k (le_bytes 4 s.sp ++ after_sp)
  drop_pc k = drop_type (4 + k) ∙ drop-append_more 4 k (le_bytes 4 s.pc) _ (length-le_bytes 4 s.pc)

  drop_sp : (k : ℕ) → drop (4 + (4 + (4 + k))) (write_snapshot s) ≡ drop k after_sp
  drop_sp k = drop_pc (4 + k) ∙ drop-append_more 4 k (le_bytes 4 s.sp) _ (length-le_bytes 4 s.sp)

  x_size : length (words_bytes 4 s.x) ≡ 128
  x_size = omega (arith, length-words_bytes 4 s.x, h.x_length)

  f_size : length (words_bytes 8 s.f) ≡ 256
  f_size = omega (arith, length-words_bytes 8 s.f, h.f_length)

  sp_read : le (take 4 (drop 8 (write_snapshot s))) ≡ s.sp
  sp_read = rw (drop_pc 0) (
      rw (take-append 4 (le_bytes 4 s.sp) after_sp (length-le_bytes 4 s.sp))
        (le-le_bytes 4 s.sp h.sp))

  x_read : words 4 32 (drop 12 (write_snapshot s)) ≡ s.x
  unfolding after_sp
  x_read = rw (drop_sp 0) (words-words_bytes 4 32 s.x _ h.x_length h.x)

  drop_x :
      (k : ℕ)
      → drop (4 + (4 + (4 + (128 + k)))) (write_snapshot s)
        ≡ drop k (words_bytes 8 s.f ++ pad 16 s.instruction)
  unfolding after_sp
  drop_x k = drop_sp (128 + k) ∙ drop-append_more 128 k (words_bytes 4 s.x) _ x_size

  f_read : words 8 32 (drop 140 (write_snapshot s)) ≡ s.f
  f_read = rw (drop_x 0) (words-words_bytes 8 32 s.f _ h.f_length h.f)

  instruction_read : c_string (take 16 (drop 396 (write_snapshot s))) ≡ s.instruction
  instruction_read =
      rw
        (
          drop_x 256,
          drop-append 256 (words_bytes 8 s.f) (pad 16 s.instruction) f_size,
          take_all 16 (pad 16 s.instruction) (length-pad 16 s.instruction h.short),
        )
        (c_string-pad (16 - length s.instruction) s.instruction h.characters)

  pub parse-write_snapshot : parse_state_snapshot (write_snapshot s) ≡ ok (read_snapshot s)
  unfolding parse_state_snapshot
  parse-write_snapshot =
      rw (length-write_snapshot, pc_read, sp_read, x_read, f_read, instruction_read)
