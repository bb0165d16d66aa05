-- ===== src/Trace/Parser/AccessBytes.antt =====
-- The bytes of a data access, and py_etiss_xvalid/util/trace_parser.py on them.
use etiss_xvalid.Base.{ℕ, ◌+◌, ◌≡◌, refl, ◌∙◌, List, ◌++◌, arith, length, length-append, take, drop}
use etiss_xvalid.Base.Bytes.{
  le, le_bytes, length-le_bytes, le-le_bytes, take-append, take_all, drop-append, drop-append_more,
}
use etiss_xvalid.Base.Result.{ok}
use etiss_xvalid.Trace.Parser.{parse_memory_access}
use etiss_xvalid.Trace.Parser.Raw.{
  RawAccess, FitsAccess, pad, write_access, read_access, length-pad,
}

module _ (entry_type : ℕ) (a : RawAccess) (h : FitsAccess a) where
  pub length-write_access : length (write_access entry_type a) ≡ 84
  unfolding write_access
  length-write_access =
      omega (arith, length-append {0}, length-le_bytes, length-pad 64 a.bytes h.size)

  after_pc : List ℕ
  after_pc = le_bytes 8 a.address ++ (le_bytes 4 (length a.bytes) ++ pad 64 a.bytes)

  drop_access_pc : (k : ℕ) → drop (4 + (4 + k)) (write_access entry_type a) ≡ drop k after_pc
  unfolding write_access after_pc
  drop_access_pc k =
      drop-append_more 4 (4 + k) (le_bytes 4 entry_type) _ (length-le_bytes 4 entry_type)
      ∙ drop-append_more 4 k (le_bytes 4 a.pc) _ (length-le_bytes 4 a.pc)

  access_pc_read : le (take 4 (drop 4 (write_access entry_type a))) ≡ a.pc
  unfolding write_access
  access_pc_read = simp (drop-append, take-append, length-le_bytes) (le-le_bytes 4 a.pc h.pc)

  address_read : le (take 8 (drop 8 (write_access entry_type a))) ≡ a.address
  unfolding after_pc
  address_read =
      rw (drop_access_pc 0, take-append 8 (le_bytes 8 a.address) _ (length-le_bytes 8 a.address))
        (le-le_bytes 8 a.address h.address)

  drop_address :
      (k : ℕ)
      → drop (4 + (4 + (8 + k))) (write_access entry_type a)
        ≡ drop k (le_bytes 4 (length a.bytes) ++ pad 64 a.bytes)
  unfolding after_pc
  drop_address k =
      drop_access_pc (8 + k)
      ∙ drop-append_more 8 k (le_bytes 8 a.address) _ (length-le_bytes 8 a.address)

  size_read : le (take 4 (drop 16 (write_access entry_type a))) ≡ length a.bytes
  size_read =
      rw
        (
          drop_address 0,
          take-append 4 (le_bytes 4 (length a.bytes)) _ (length-le_bytes 4 (length a.bytes)),
        )
        (le-le_bytes 4 (length a.bytes) (omega (arith, h.size)))

  bytes_read : take (length a.bytes) (take 64 (drop 20 (write_access entry_type a))) ≡ a.bytes
  bytes_read =
      rw
        (
          drop_address 4,
          drop-append 4 (le_bytes 4 (length a.bytes)) (pad 64 a.bytes)
              (length-le_bytes 4 (length a.bytes)),
          take_all 64 (pad 64 a.bytes) (length-pad 64 a.bytes h.size),
        )
        (take-append (length a.bytes) a.bytes _ refl)

  pub parse-write_access : parse_memory_access (write_access entry_type a) ≡ ok (read_access a)
  unfolding parse_memory_access
  parse-write_access = rw (length-write_access, size_read, access_pc_read, address_read, bytes_read)
