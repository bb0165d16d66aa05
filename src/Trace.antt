-- ===== src/Trace.antt =====
-- py_etiss_xvalid/util/trace_parser.py and peekable_iter.py: the entries of a binary trace.
pub mod Parser
pub mod Peekable
use etiss_xvalid.Base.{ℕ, List}
use etiss_xvalid.Base.Text.{Text}

-- the dictionary of a `state_snapshot`; the parser gives `x` and `f` 32 registers each
pub record Snapshot : Type 0 where
  pub pc : ℕ
  pub sp : ℕ
  pub x : List ℕ
  pub f : List ℕ
  pub instruction : Text

-- the dictionary of a `dwrite` or a `dread`; `data_hex` is its field `data`
pub record Access : Type 0 where
  pub pc : ℕ
  pub location : Text
  pub byte_size : ℕ
  pub data_hex : Text

pub data TraceEntry : Type 0 where
  state_snapshot : Snapshot → TraceEntry
  dwrite dread : Access → TraceEntry
