-- ===== src/Recovery/Wal/Scan.antt =====
-- src/recovery/wal.cpp, `ScanAndRepair` and `HopCoveredFrames`: the frames are read from the front, what
-- an interrupted write left behind them is zeroed, and the capacity is initialised.
-- `fstat` is taken to succeed, and to report the length of the file.
pub mod Reads
pub mod Zeroes
pub mod Frames
use lineair_db.Base.{
  ℕ, zero, suc, ◌+◌, ◌-◌, max, Bool, true, false, not, ◌||◌, ◌&&◌, Option, none, some,
}
use lineair_db.Base.{List, [], ◌∷◌, ◌++◌, length, leb, ltb, ◌==◌, if◌then◌else◌}
use lineair_db.Recovery.Crc32c.{checksum}
use lineair_db.Recovery.LogRecord.{LogRecord, MsgPack}
use lineair_db.Recovery.Disk.{Disk, Ran, done, failure, Io, ◌>>=◌, pure, eio, pread_all}
use lineair_db.Recovery.Wal.{
  Wal, WalState, ready, unscanned, failed_state, k_header_size, Header, parse_header,
  header_is_torn_prefix, Anomaly, inside_header, inside_payload, checksum_mismatch, header_anomaly,
  write_zeroes_and_sync, ensure_capacity_for,
}
use lineair_db.Recovery.Wal.Append.{is_empty, epochs_agree}
use lineair_db.Recovery.Wal.Tail.{
  Probe, no_frame, frame, undecidable, find_last_non_zero, search_for_frame_after,
}

-- The variables of the scan.
pub record Progress : Type 0 where
  pub offset : ℕ
  pub frontier : ℕ
  pub have_frame : Bool
  pub frames_skipped : ℕ
  pub bytes_skipped : ℕ
  pub records : List LogRecord

abbrev pub start : Progress
start = record {
  offset = 0;
  frontier = 0;
  have_frame = false;
  frames_skipped = 0;
  bytes_skipped = 0;
  records = [];
}

-- Why a log is corrupt.
pub data Detail : Type 0 where
  bad_header : Anomaly → Detail
  epoch_regressed epoch_zero trailing_bytes does_not_decode no_record record_epoch : Detail
  data_beyond frame_beyond unclassified : Anomaly → ℕ → Detail

-- What the scan makes of one frame. `stop` holds the end of a frame whose checksum fails.
pub data Verdict : Type 0 where
  next : Progress → Verdict
  stop : Anomaly → Option ℕ → Verdict
  corrupt : Detail → Verdict

pub frame_end : Progress → Header → ℕ
frame_end p h = p.offset + k_header_size + h.payload_size

-- A frame at or below `min_epoch` is counted, and its records are not rebuilt.
pub skip_frame : Progress → Header → Progress
unfolding frame_end
skip_frame p h = record p {
  offset = frame_end p h;
  frontier = h.epoch;
  have_frame = true;
  frames_skipped = p.frames_skipped + 1;
  bytes_skipped = p.bytes_skipped + (k_header_size + h.payload_size);
}

take_records : Progress → Header → ℕ → Option (List LogRecord × ℕ) → Verdict
unfolding frame_end
take_records p h size none = corrupt does_not_decode
take_records p h size (some (decoded, consumed)) =
    if not (consumed == size)
    then corrupt trailing_bytes
    else if is_empty decoded
    then corrupt no_record
    else if not (epochs_agree h.epoch decoded)
    then corrupt record_epoch
    else next (record p {
      offset = frame_end p h;
      frontier = h.epoch;
      have_frame = true;
      records = p.records ++ decoded;
    })

pub judge : MsgPack → ℕ → Progress → Header → List ℕ → Verdict
unfolding skip_frame take_records
judge codec min_epoch p h payload =
    if not (checksum h.covered payload == h.crc)
    then stop checksum_mismatch (some (frame_end p h))
    else (if p.have_frame && ltb h.epoch p.frontier
        then corrupt epoch_regressed
        else (if h.epoch == 0
            then corrupt epoch_zero
            else (if leb h.epoch min_epoch
                then next (skip_frame p h)
                else take_records p h (length payload) (codec.unpack payload))))

-- Where the loop stopped, and the anomaly that stopped it before the end of the file.
pub data Scanned : Type 0 where
  stopped : Progress → Option (Anomaly × Option ℕ) → Scanned
  bad : Detail → Scanned

-- A header that does not parse: an interrupted write, or damage.
unfoldable pub torn_or_bad : Progress → Anomaly → Bool → Scanned
torn_or_bad p a true = stopped p (some (a, none))
torn_or_bad p a false = bad (bad_header a)

module _ (codec : MsgPack) (file_size min_epoch : ℕ) where
  -- `rest` is the loop from the next frame on.
  pub on_verdict : (Progress → Io Scanned) → Progress → Verdict → Io Scanned
  on_verdict rest p (next p') = rest p'
  on_verdict rest p (stop a end) = pure (stopped p (some (a, end)))
  on_verdict rest p (corrupt detail) = pure (bad detail)

  unfoldable pub on_header :
      (Progress → Io Scanned) → Progress → List ℕ → Option Anomaly → Io Scanned
  unfolding on_verdict torn_or_bad
  on_header rest p header (some a) = pure (torn_or_bad p a (header_is_torn_prefix header))
  on_header rest p header none =
      let h = parse_header header in
      if ltb file_size (frame_end p h)
      then pure (stopped p (some (inside_payload, none)))
      else (pread_all h.payload_size (p.offset + k_header_size) >>= λ payload.
          on_verdict rest p (judge codec min_epoch p h payload))

  -- Each frame takes 20 bytes at least: the fuel is the number of bytes that are left.
  unfoldable pub scan_loop : ℕ → Progress → Io Scanned
  scan_loop zero p = pure (stopped p none)
  scan_loop (suc fuel) p =
      if leb file_size p.offset
      then pure (stopped p none)
      else (if ltb (file_size - p.offset) k_header_size
          then pure (stopped p (some (inside_header, none)))
          else (pread_all k_header_size p.offset >>= λ header.
              on_header (scan_loop fuel) p header (header_anomaly (parse_header header))))
