-- ===== src/Trace/Parser/Raw.antt =====
-- The binary formats of py_etiss_xvalid/util/trace_parser.py, '<III32I32Q16s' and '<IIQI64s', as the
-- writing of entries.
use etiss_xvalid.Base.{
  ℕ, zero, suc, ◌-◌, ◌^◌, ◌≤◌, ◌<◌, ◌≡◌, refl, List, [], ◌∷◌, ◌++◌, arith, length, length-append,
  replicate, length-replicate, All,
}
use etiss_xvalid.Base.Text.{Text}
use etiss_xvalid.Base.Bytes.{hex_upper, le_bytes, words_bytes}
use etiss_xvalid.Base.Hex.{hex_08}
use etiss_xvalid.Trace.{Snapshot, Access, TraceEntry, state_snapshot, dwrite, dread}
use etiss_xvalid.Trace.Parser.{c_string}

-- the values in a trace, before they are written
pub record RawSnapshot : Type 0 where
  pub pc : ℕ
  pub sp : ℕ
  pub x : List ℕ
  pub f : List ℕ
  pub instruction : Text

pub record RawAccess : Type 0 where
  pub pc : ℕ
  pub address : ℕ
  pub bytes : List ℕ

pub data RawEntry : Type 0 where
  raw_snapshot : RawSnapshot → RawEntry
  raw_write raw_read : RawAccess → RawEntry

abbrev pub IsCharacter : ℕ → Type 0
IsCharacter b = (0 < b) × (b < 128)

-- The values fit their fields.
pub record FitsSnapshot (s : RawSnapshot) : Type 0 where
  pub pc : s.pc < 256 ^ 4
  pub sp : s.sp < 256 ^ 4
  pub x_length : length s.x ≡ 32
  pub x : All (λ w. w < 256 ^ 4) s.x
  pub f_length : length s.f ≡ 32
  pub f : All (λ w. w < 256 ^ 8) s.f
  pub characters : All IsCharacter s.instruction
  pub short : length s.instruction ≤ 16

pub record FitsAccess (a : RawAccess) : Type 0 where
  pub pc : a.pc < 256 ^ 4
  pub address : a.address < 256 ^ 8
  pub size : length a.bytes ≤ 64

abbrev pub pad : ℕ → List ℕ → List ℕ
pad n bs = bs ++ replicate (n - length bs) 0

unfoldable pub write_snapshot : RawSnapshot → List ℕ
write_snapshot s =
    le_bytes 4 1
    ++ (le_bytes 4 s.pc
        ++ (le_bytes 4 s.sp ++ (words_bytes 4 s.x ++ (words_bytes 8 s.f ++ pad 16 s.instruction))))

unfoldable pub write_access : ℕ → RawAccess → List ℕ
write_access entry_type a =
    le_bytes 4 entry_type
    ++ (le_bytes 4 a.pc
        ++ (le_bytes 8 a.address ++ (le_bytes 4 (length a.bytes) ++ pad 64 a.bytes)))

abbrev pub read_snapshot : RawSnapshot → Snapshot
read_snapshot s = record { pc = s.pc; sp = s.sp; x = s.x; f = s.f; instruction = s.instruction }

abbrev pub read_access : RawAccess → Access
read_access a = record {
  pc = a.pc;
  location = hex_08 a.address;
  byte_size = length a.bytes;
  data_hex = hex_upper a.bytes;
}

pub length-pad : (n : ℕ) (bs : List ℕ) → length bs ≤ n → length (pad n bs) ≡ n
length-pad n bs h = omega (
  arith,
  length-append bs (replicate (n - length bs) 0),
  length-replicate {A = ℕ} (n - length bs) 0,
)

c_string-replicate : (n : ℕ) → c_string (replicate n 0) ≡ []
unfolding c_string
c_string-replicate zero = refl
c_string-replicate (suc n) = refl

pub c_string-pad : (n : ℕ) (t : Text) → All IsCharacter t → c_string (t ++ replicate n 0) ≡ t
unfolding c_string
c_string-pad n [] h = c_string-replicate n
c_string-pad n (c ∷ t) h = ground (arith, c_string-pad n t h.1)

unfoldable pub write_entry : RawEntry → List ℕ
write_entry (raw_snapshot s) = write_snapshot s
write_entry (raw_write a) = write_access 2 a
write_entry (raw_read a) = write_access 3 a

-- the file that holds the entries one after the other
unfoldable pub write_trace : List RawEntry → List ℕ
unfolding write_entry
write_trace [] = []
write_trace (e ∷ es) = write_entry e ++ write_trace es

abbrev pub read_entry : RawEntry → TraceEntry
read_entry (raw_snapshot s) = state_snapshot (read_snapshot s)
read_entry (raw_write a) = dwrite (read_access a)
read_entry (raw_read a) = dread (read_access a)

abbrev pub Fits : RawEntry → Type 0
Fits (raw_snapshot s) = FitsSnapshot s
Fits (raw_write a) = FitsAccess a
Fits (raw_read a) = FitsAccess a
