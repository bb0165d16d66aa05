-- ===== src/Tests/Traces.antt =====
-- py_etiss_xvalid/util/trace_parser.py and peekable_iter.py on a concrete trace.
use etiss_xvalid.Base.{◌≡◌, refl, List, [], ◌∷◌, map, arith, replicate}
use etiss_xvalid.Base.Text.{codes}
use etiss_xvalid.Base.Result.{ok}
use etiss_xvalid.Trace.Parser.{parse_trace_file}
use etiss_xvalid.Trace.Parser.Raw.{
  RawEntry, raw_snapshot, raw_write, raw_read, write_trace, read_entry,
}
use etiss_xvalid.Trace.Parser.RoundTrip.{parse-write_trace}

abbrev raw_trace : List RawEntry
raw_trace =
    raw_snapshot (record {
      pc = 256;
      sp = 65536;
      x = replicate 32 7;
      f = replicate 32 0;
      instruction = codes "cswsp";
    })
    ∷ raw_write (record { pc = 260; address = 536870912; bytes = 1 ∷ 2 ∷ 3 ∷ 255 ∷ [] })
    ∷ raw_read (record { pc = 264; address = 4096; bytes = 0 ∷ [] })
    ∷ []

parse-write_trace_example : parse_trace_file (write_trace raw_trace) ≡ ok (map read_entry raw_trace)
parse-write_trace_example = parse-write_trace raw_trace (
  record {
    pc = omega arith;
    sp = omega arith;
    x_length = refl;
    x = omega arith;
    f_length = refl;
    f = omega arith;
    characters = omega arith;
    short = omega arith;
  },
  (
    record { pc = omega arith; address = omega arith; size = omega arith },
    (record { pc = omega arith; address = omega arith; size = omega arith }, tt),
  ),
)
