-- ===== src/Recovery/Wal.antt =====
-- src/recovery/wal.h and wal.cpp: the log's state, its frames, and how its file is extended and read.
-- An offset is below 2 ^ 63 and a payload below 2 ^ 32, so the sums of the code do not wrap.
pub mod Append
pub mod Capacity
pub mod Frame
pub mod Tail
pub mod Scan
pub mod Recover
use lineair_db.Base.{
  ℕ, zero, suc, ◌+◌, ◌-◌, ◌*◌, ◌/◌, ◌%◌, ◌^◌, min, max, Bool, true, false, not, ◌&&◌, ◌||◌,
}
use lineair_db.Base.{Option, none, some, List, [], ◌∷◌, ◌++◌, length, take, drop, replicate}
use lineair_db.Base.{ltb, leb, ◌==◌, if◌then◌else◌}
use lineair_db.Recovery.Word.{byte_at, put_le16, put_le32, get_le16, get_le32}
use lineair_db.Recovery.Crc32c.{checksum}
use lineair_db.Recovery.LogRecord.{LogRecord, MsgPack}
use lineair_db.Recovery.Disk.{
  Disk, Ran, done, failure, Io, ◌>>=◌, ◌>>◌, pure, fail, efbig, write_all_at, pread_all,
  sync_retrying,
}

abbrev pub k_magic : ℕ
k_magic = 0x4c57414c

abbrev pub k_version : ℕ
k_version = 1

abbrev pub k_flags : ℕ
k_flags = 0

abbrev pub k_header_size : ℕ
k_header_size = 20

abbrev pub k_max_payload_size : ℕ
k_max_payload_size = 256 * 1024 * 1024

abbrev pub k_chunk_size : ℕ
k_chunk_size = 2 ^ 20

-- `Wal::State`
pub data WalState : Type 0 where
  unscanned ready failed_state : WalState

pub record Wal : Type 0 where
  pub state : WalState
  pub write_offset : ℕ
  pub frontier : ℕ
  pub initialised_size : ℕ
  pub initial_capacity : ℕ
  pub extension_count : ℕ

-- The fields of a header, and the first 16 bytes, which the checksum covers.
pub record Header : Type 0 where
  pub magic : ℕ
  pub version : ℕ
  pub flags : ℕ
  pub payload_size : ℕ
  pub epoch : ℕ
  pub crc : ℕ
  pub covered : List ℕ

unfoldable pub parse_header : List ℕ → Header
parse_header header = record {
  magic = get_le32 header;
  version = get_le16 (drop 4 header);
  flags = get_le16 (drop 6 header);
  payload_size = get_le32 (drop 8 header);
  epoch = get_le32 (drop 12 header);
  crc = get_le32 (drop 16 header);
  covered = take 16 header;
}

-- What `HeaderIsTornPrefix` expects: the constant fields.
unfoldable pub expected_prefix : List ℕ
expected_prefix = put_le32 k_magic ++ (put_le16 k_version ++ put_le16 k_flags)

unfoldable pub all_zero : List ℕ → Bool
all_zero [] = true
all_zero (b ∷ l) = b == 0 && all_zero l

-- The two loops of `HeaderIsTornPrefix`: the bytes that match `expected`, and the zeroes behind them.
unfoldable pub torn_loop : List ℕ → List ℕ → Bool
unfolding all_zero
torn_loop [] header = false
torn_loop (e ∷ expected) [] = true
torn_loop (e ∷ expected) (b ∷ header) =
    if b == e then torn_loop expected header else all_zero (b ∷ header)

unfoldable pub header_is_torn_prefix : List ℕ → Bool
unfolding torn_loop expected_prefix
header_is_torn_prefix header = torn_loop expected_prefix header

-- Why the bytes at the end of the frames do not go on as a frame.
pub data Anomaly : Type 0 where
  magic_mismatch unsupported_version unknown_flags payload_too_large : Anomaly
  inside_header inside_payload checksum_mismatch : Anomaly

unfoldable pub header_anomaly : Header → Option Anomaly
header_anomaly h =
    if not (h.magic == k_magic)
    then some magic_mismatch
    else if not (h.version == k_version)
    then some unsupported_version
    else if not (h.flags == k_flags)
    then some unknown_flags
    else if ltb k_max_payload_size h.payload_size
    then some payload_too_large
    else none

-- The frame that `AppendGroup` writes around a payload.
unfoldable pub frame_header : ℕ → List ℕ → List ℕ
frame_header epoch payload =
    put_le32 k_magic
    ++ (put_le16 k_version ++ (put_le16 k_flags ++ (put_le32 (length payload) ++ put_le32 epoch)))

unfoldable pub encode_frame : ℕ → List ℕ → List ℕ
unfolding frame_header
encode_frame epoch payload =
    frame_header epoch payload
    ++ (put_le32 (checksum (frame_header epoch payload) payload) ++ payload)

-- `WriteZeroesAndSync` of [from, to): chunk by chunk, then one fsync. The fuel is the number of bytes.
zero_chunks : ℕ → ℕ → ℕ → Io (Unit {0})
zero_chunks zero from to = pure tt
zero_chunks (suc fuel) from to =
    let size = min k_chunk_size (to - from) in
    let rest = write_all_at (replicate size 0) from >> zero_chunks fuel (from + size) to in
    if leb to from then pure tt else rest

pub write_zeroes_and_sync : ℕ → ℕ → Io (Unit {0})
unfolding zero_chunks
write_zeroes_and_sync from to =
    if leb to from then pure tt else (do zero_chunks (to - from) from to; sync_retrying)

-- `numeric_limits<off_t>::max()`
abbrev pub off_max : ℕ
off_max = 2 ^ 63 - 1

-- `EnsureCapacityFor`, which returns `initialised_size_`.
unfoldable pub ensure_capacity_for : Wal → ℕ → ℕ → Io ℕ
ensure_capacity_for w end_of_log group_size =
    if ltb (off_max - end_of_log) group_size
    then fail efbig
    else if w.initial_capacity == 0
    then pure w.initialised_size
    else let needed = end_of_log + group_size in
      let units =
        max 1 (needed / w.initial_capacity + (if needed % w.initial_capacity == 0 then 0 else 1)) in
      let target = units * w.initial_capacity in
      if leb needed w.initialised_size && leb w.initial_capacity w.initialised_size
      then pure w.initialised_size
      else (if ltb (off_max / w.initial_capacity) units
          then fail efbig
          else (if leb target w.initialised_size
              then pure w.initialised_size
              else (write_zeroes_and_sync w.initialised_size target >>= λ _. pure target)))
