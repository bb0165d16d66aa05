-- ===== src/Trace/Parser/RoundTrip.antt =====
-- py_etiss_xvalid/util/trace_parser.py on a trace that is written in its formats.
use mathlib.Core.List.{append_assoc}
use etiss_xvalid.Base.{
  ℕ, zero, suc, ◌^◌, ◌≤◌, ◌<◌, ◌≡◌, refl, List, [], ◌∷◌, ◌++◌, map, arith, length, length-append,
  take, drop, All,
}
use etiss_xvalid.Base.Bytes.{le, le_bytes, length-le_bytes, le-le_bytes, take-append, drop-append}
use etiss_xvalid.Base.Result.{ok}
use etiss_xvalid.Trace.{state_snapshot}
use etiss_xvalid.Trace.Parser.{
  parse_dwrite, parse_dread, read_round, Round, read_loop, parse_trace_file,
}
use etiss_xvalid.Trace.Parser.Raw.{
  RawSnapshot, RawAccess, RawEntry, raw_snapshot, raw_write, raw_read, FitsSnapshot, FitsAccess,
  Fits, write_snapshot, write_access, write_entry, write_trace, read_snapshot, read_entry,
}
use etiss_xvalid.Trace.Parser.SnapshotBytes.{length-write_snapshot, parse-write_snapshot}
use etiss_xvalid.Trace.Parser.AccessBytes.{length-write_access, parse-write_access}

header_read :
    (entry_type : ℕ) (body rest : List ℕ)
    → take 4 ((le_bytes 4 entry_type ++ body) ++ rest) ≡ le_bytes 4 entry_type
header_read entry_type body rest =
    rw (append_assoc (le_bytes 4 entry_type) body rest)
      (take-append 4 (le_bytes 4 entry_type) (body ++ rest) (length-le_bytes 4 entry_type))

module _ (s : RawSnapshot) (rest : List ℕ) (h : FitsSnapshot s) where
  snapshot_header : take 4 (write_snapshot s ++ rest) ≡ le_bytes 4 1
  unfolding write_snapshot
  snapshot_header = header_read 1 _ rest

  round-write_snapshot :
      read_round (write_snapshot s ++ rest)
      ≡ Round.parsed (ok (state_snapshot (read_snapshot s))) rest
  unfolding read_round
  round-write_snapshot = rw (
    snapshot_header,
    length-le_bytes 4 1,
    le-le_bytes 4 1 (omega arith),
    take-append 412 (write_snapshot s) rest (length-write_snapshot s h),
    drop-append 412 (write_snapshot s) rest (length-write_snapshot s h),
    parse-write_snapshot s h,
  )

module _ (entry_type : ℕ) (a : RawAccess) (rest : List ℕ) (small : entry_type < 256 ^ 4)
    (h : FitsAccess a) where
  access_header :
      (length (take 4 (write_access entry_type a ++ rest)) ≡ 4)
      × (le (take 4 (write_access entry_type a ++ rest)) ≡ entry_type)
  unfolding write_access
  access_header =
      rw (header_read entry_type _ rest)
        (length-le_bytes 4 entry_type, le-le_bytes 4 entry_type small)

  access_body :
      (take 84 (write_access entry_type a ++ rest) ≡ write_access entry_type a)
      × (drop 84 (write_access entry_type a ++ rest) ≡ rest)
  access_body = (
    take-append 84 _ rest (length-write_access entry_type a h),
    drop-append 84 _ rest (length-write_access entry_type a h),
  )

read_round-write_entry :
    (e : RawEntry) (rest : List ℕ)
    → Fits e
    → read_round (write_entry e ++ rest) ≡ Round.parsed (ok (read_entry e)) rest
unfolding write_entry
read_round-write_entry (raw_snapshot s) rest h = round-write_snapshot s rest h
read_round-write_entry (raw_write a) rest h =
    let (l, t) = access_header 2 a rest (omega arith) h in
    let (w, r) = access_body 2 a rest (omega arith) h in
    unfold read_round parse_dwrite in rw (l, t, w, r, parse-write_access 2 a h)
read_round-write_entry (raw_read a) rest h =
    let (l, t) = access_header 3 a rest (omega arith) h in
    let (w, r) = access_body 3 a rest (omega arith) h in
    unfold read_round parse_dread in rw (l, t, w, r, parse-write_access 3 a h)

length-write_entry : (e : RawEntry) → Fits e → 84 ≤ length (write_entry e)
unfolding write_entry
length-write_entry (raw_snapshot s) h = omega (arith, length-write_snapshot s h)
length-write_entry (raw_write a) h = omega (arith, length-write_access 2 a h)
length-write_entry (raw_read a) h = omega (arith, length-write_access 3 a h)

read_loop-write_trace :
    (es : List RawEntry) (fuel : ℕ)
    → All Fits es
    → length (write_trace es) ≤ fuel
    → read_loop fuel (write_trace es) ≡ ok (map read_entry es)
unfolding write_trace read_loop
read_loop-write_trace [] zero h f = refl
read_loop-write_trace [] (suc fuel) h f = unfold read_round in refl
read_loop-write_trace (e ∷ es) zero h f =
    absurd (omega (arith, length-write_entry e h.0, length-append (write_entry e) (write_trace es)))
read_loop-write_trace (e ∷ es) (suc fuel) h f =
    rw (read_round-write_entry e (write_trace es) h.0, read_loop)
      (rw (
        read_loop-write_trace es fuel h.1 (
          omega (arith, length-write_entry e h.0, length-append (write_entry e) (write_trace es)))))

-- A trace of snapshots and accesses whose values fit their fields, written in the formats that the
-- parser names, is parsed to these values, in their order: no entry is lost and no exception
-- raised. A location is read as its lower-case hexadecimal digits, padded with zeros to eight.
pub parse-write_trace :
    (es : List RawEntry) → All Fits es → parse_trace_file (write_trace es) ≡ ok (map read_entry es)
unfolding parse_trace_file
parse-write_trace es h = read_loop-write_trace es _ h (omega arith)
