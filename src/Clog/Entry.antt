-- ===== src/Clog/Entry.antt =====
-- src/observer/storage/clog/log_entry.h and log_entry.cpp: the header of a log entry, its bytes, and
-- the entry. An `int32_t` or `int64_t` is kept as its bit pattern; `signed32` and `signed64` read it.
-- The machine stores numbers with the lowest byte first, and the header has no padding.
pub mod Codec
use ob_htap.Prelude.{
  ℕ, zero, suc, ◌+◌, ◌-◌, ◌*◌, ◌/◌, ◌%◌, ◌^◌, List, [], ◌∷◌, ◌++◌, Option, none, some,
  if◌then◌else◌, ltb, length, take, drop,
}
use ob_htap.Prelude.Int.{ℤ, pos, negsuc, ltb_ℤ}

abbrev pub signed32 : ℕ → ℤ
signed32 w = if ltb w (2 ^ 31) then pos w else negsuc (2 ^ 32 - w - 1)

abbrev pub signed64 : ℕ → ℤ
signed64 w = if ltb w (2 ^ 63) then pos w else negsuc (2 ^ 64 - w - 1)

-- `LogHeader`
pub record LogHeader : Type 0 where
  pub lsn : ℕ
  pub size : ℕ
  pub module_id : ℕ

-- `LogHeader::SIZE`
abbrev pub header_size : ℕ
header_size = 16

-- The bytes of a number in memory.
unfoldable pub le_bytes : ℕ → ℕ → List ℕ
le_bytes zero n = []
le_bytes (suc k) n = n % 256 ∷ le_bytes k (n / 256)

unfoldable pub le_number : List ℕ → ℕ
le_number [] = 0
le_number (b ∷ bs) = b + 256 * le_number bs

-- `reinterpret_cast<const char *>(&header)`
unfoldable pub header_bytes : LogHeader → List ℕ
header_bytes h = le_bytes 8 h.lsn ++ (le_bytes 4 h.size ++ le_bytes 4 h.module_id)

-- `reinterpret_cast<char *>(&header)`, filled with bytes that were read
unfoldable pub header_of : List ℕ → LogHeader
header_of bs = record {
  lsn = le_number (take 8 bs);
  size = le_number (take 4 (drop 8 bs));
  module_id = le_number (take 4 (drop 12 bs));
}

-- `LogEntry`; its payload size is the size in its header.
pub record LogEntry : Type 0 where
  pub header : LogHeader
  pub bytes : List ℕ

abbrev pub max_size : ℕ
max_size = 4 * 1024 * 1024

abbrev pub max_payload_size : ℕ
max_payload_size = max_size - header_size

-- `LogEntry::total_size`, of a size that is not negative: `init` makes no size between its limit and
-- 2 ^ 31, and `flush` fails its ASSERT on those from there on.
abbrev pub total_size : LogEntry → ℕ
total_size e = header_size + e.header.size

-- `LogEntry::init`. `none` is INVALID_ARGUMENT. The number of bytes is cast to `int32_t`.
unfoldable pub init : ℕ → ℕ → List ℕ → Option LogEntry
init lsn module_id bytes =
    if ltb_ℤ (pos max_payload_size) (signed32 (length bytes % 2 ^ 32))
    then none
    else some (record {
      header = record { lsn = lsn; size = length bytes % 2 ^ 32; module_id = module_id };
      bytes = bytes;
    })

-- What the move constructor and the move assignment leave in the entry that is moved from.
abbrev pub moved_from : LogEntry → LogEntry
moved_from e = record {
  header = record { lsn = 0; size = 0; module_id = e.header.module_id };
  bytes = [];
}

-- What is written of the bytes of an entry: as many as its payload size says.
abbrev pub payload : LogEntry → List ℕ
payload e = take e.header.size e.bytes

-- What `LogFileWriter::write` puts into a file for an entry.
abbrev pub entry_bytes : LogEntry → List ℕ
entry_bytes e = header_bytes e.header ++ payload e
