-- ===== src/Recovery/Tests.antt =====
-- Small logs, and runs of the operations of src/recovery on them.
mod Codec
mod Replays
use Codec.{unary, one_record, length-pack_one}
use lineair_db.Base.{
  ℕ, ◌≡◌, refl, ◌≤◌, arith, false, none, some, List, [], ◌∷◌, ◌++◌, All, replicate, take, length,
}
use lineair_db.Types.Keys.{IsByte}
use lineair_db.Recovery.Word.{put_le32, get_le32, put_le16, get_le16}
use lineair_db.Recovery.Crc32c.{checksum}
use lineair_db.Recovery.Crc32c.Bitwise.{crc32c, checksum-crc32c}
use lineair_db.Recovery.LogRecord.{LogRecord, MsgPack}
use lineair_db.Recovery.Disk.{
  Disk, Event, moved, interrupted, failed, write_at, write_all_at, pread_all, read_loop,
}
use lineair_db.Recovery.Disk.Laws.{Ends, slice, Quiet, write_all_at-Quiet, pread_all-Quiet}
use lineair_db.Recovery.Wal.{
  Wal, WalState, ready, unscanned, failed_state, header_anomaly, parse_header,
  header_is_torn_prefix, torn_loop, all_zero, expected_prefix, Anomaly, magic_mismatch,
}
use lineair_db.Base.{length-append, ◌<◌, ◌^◌, max}
use lineair_db.Recovery.Wal.{encode_frame}
use lineair_db.Recovery.Wal.Frame.{length-encode_frame, whole_header, written, parse_header-written}
use lineair_db.Recovery.Wal.Append.{encoded, epochs_agree}
use lineair_db.Recovery.Wal.Append.Encoding.{last_epoch, encode_loop-frames}
use lineair_db.Recovery.Wal.Scan.{start}
use lineair_db.Recovery.Wal.Scan.Frames.{Loggable, frames, behind}
use lineair_db.Recovery.Wal.Recover.{scan_ok}
use lineair_db.Recovery.Wal.Recover.Restored.{all_records, scan_and_repair-frames}
use lineair_db.Recovery.Wal.Append.{Buckets, encode_loop, append_group}
use lineair_db.Recovery.Wal.Append.Untouched.{append_group-take}
use lineair_db.Recovery.Wal.Append.Acknowledged.{Committed, append_group-Committed}
use lineair_db.Recovery.Wal.Scan.{Detail, bad_header, scan_loop, on_header, torn_or_bad}
use lineair_db.Recovery.Wal.Recover.{
  scan_corrupt, scan_and_repair, scan_in, scan_file, io_failure, hop, after_scan,
}
use lineair_db.Recovery.Wal.Recover.Untouched.{scan_and_repair-corrupt}

-- A log of three bytes in a file of eight, whose next calls are cut short.
abbrev small_log : Wal
small_log = record {
  state = ready;
  write_offset = 3;
  frontier = 4;
  initialised_size = 8;
  initial_capacity = 8;
  extension_count = 0;
}

abbrev small_disk : Disk
small_disk = record {
  file = 1 ∷ 2 ∷ 3 ∷ replicate 5 0;
  synced = [];
  script = interrupted ∷ moved 2 ∷ moved 7 ∷ [];
}

abbrev one_bucket : Buckets
one_bucket = (5, one_record) ∷ []

append_group-take_example :
    take 3 (append_group unary small_log one_bucket 9 small_disk).1.file ≡ take 3 small_disk.file
append_group-take_example =
    append_group-take unary small_log one_bucket 9 small_disk (omega arith) (omega arith)

append_group-Committed_example :
    Committed small_log
      (encode_loop unary 4 9 one_bucket [] 4)
      small_disk
      (append_group unary small_log one_bucket 9 small_disk)
append_group-Committed_example =
    append_group-Committed unary small_log one_bucket 9 small_disk refl (omega arith) (omega arith)

write_all_at-Quiet_example :
    Ends
      (write_all_at (7 ∷ 8 ∷ 9 ∷ []) 2 small_disk)
      tt
      (write_at small_disk.file 2 (7 ∷ 8 ∷ 9 ∷ []))
      []
write_all_at-Quiet_example = write_all_at-Quiet (7 ∷ 8 ∷ 9 ∷ []) 2 small_disk tt (omega arith)

pread_all-Quiet_example :
    Ends (pread_all 4 1 small_disk) (slice 1 4 small_disk.file) small_disk.file []
pread_all-Quiet_example = pread_all-Quiet 4 1 small_disk tt (omega arith)

checksum-crc32c_example : checksum (1 ∷ 2 ∷ []) (3 ∷ []) ≡ crc32c (1 ∷ 2 ∷ 3 ∷ [])
checksum-crc32c_example = checksum-crc32c (1 ∷ 2 ∷ []) (3 ∷ []) (omega arith) (omega arith)

-- A log whose first frame is overwritten.
abbrev damaged_disk : Disk
damaged_disk = record { file = replicate 20 9; synced = []; script = interrupted ∷ [] }

abbrev fresh_log : Wal
fresh_log = record {
  state = unscanned;
  write_offset = 0;
  frontier = 0;
  initialised_size = 0;
  initial_capacity = 0;
  extension_count = 0;
}

damaged_log : Wal
damaged_log = record {
  state = failed_state;
  write_offset = 0;
  frontier = 0;
  initialised_size = 20;
  initial_capacity = 0;
  extension_count = 0;
}

scanned :
    scan_and_repair unary 0 fresh_log damaged_disk
    ≡ (scan_corrupt (bad_header magic_mismatch), damaged_log, record damaged_disk { script = [] })
unfolding scan_and_repair scan_in scan_file io_failure hop after_scan scan_loop on_header
    torn_or_bad header_anomaly parse_header header_is_torn_prefix torn_loop all_zero expected_prefix
    put_le16 put_le32 get_le16 get_le32 pread_all read_loop damaged_log
scanned = refl

scan_and_repair-corrupt_example :
    ((record damaged_disk { script = [] }).file ≡ damaged_disk.file)
    × (damaged_log.state ≡ failed_state)
scan_and_repair-corrupt_example =
    scan_and_repair-corrupt unary 0 fresh_log damaged_log damaged_disk
      (record damaged_disk { script = [] }) (bad_header magic_mismatch) scanned

one_bucket-Loggable : Loggable unary 0 one_bucket
unfolding Loggable epochs_agree
one_bucket-Loggable =
    (refl, omega arith, omega arith, omega arith, refl, omega (arith, length-pack_one), tt)

encode_loop-frames_example :
    encode_loop unary 0 9 one_bucket [] 0
    ≡ encoded ([] ++ frames unary one_bucket) (last_epoch 0 one_bucket)
encode_loop-frames_example =
    encode_loop-frames unary 0 9 one_bucket [] 0 0 (omega arith) one_bucket-Loggable (omega arith)

-- The frame of one bucket with thirty zeroes of capacity behind it.
abbrev written_disk : Disk
written_disk = record {
  file = frames unary one_bucket ++ replicate 30 0;
  synced = [];
  script = interrupted ∷ moved 3 ∷ [];
}

written_disk_small : length written_disk.file < 2 ^ 63
unfolding frames
written_disk_small = omega (
  arith,
  length-append (frames unary one_bucket) (replicate 30 0),
  length-append (encode_frame 5 (unary.pack one_record)) [],
  length-encode_frame 5 (unary.pack one_record),
  length-pack_one,
)

scan_and_repair-frames_example :
    (s : List Event) × (scan_and_repair unary 0 fresh_log written_disk ≡ (
      scan_ok (behind unary start one_bucket) false,
      record fresh_log {
        state = ready;
        write_offset = (behind unary start one_bucket).offset;
        frontier = (behind unary start one_bucket).frontier;
        initialised_size = max 0 (length written_disk.file);
      },
      record written_disk { script = s },
    ))
    × ((behind unary start one_bucket).records ≡ all_records one_bucket)
    × ((behind unary start one_bucket).offset ≡ length (frames unary one_bucket))
scan_and_repair-frames_example =
    scan_and_repair-frames unary fresh_log written_disk one_bucket 30 (omega arith) refl
      written_disk_small one_bucket-Loggable tt refl

parse_header-written_example : parse_header (whole_header 5 (1 ∷ 2 ∷ [])) ≡ written 5 (1 ∷ 2 ∷ [])
parse_header-written_example = parse_header-written 5 (1 ∷ 2 ∷ []) (omega arith) (omega arith)
