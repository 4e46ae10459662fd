-- ===== src/Recovery/Wal/Recover.antt =====
-- src/recovery/wal.cpp, `HopCoveredFrames` and the whole of `ScanAndRepair` round the loop of its scan.
pub mod Untouched
pub mod Restored
use lineair_db.Base.{ℕ, zero, suc, ◌+◌, ◌-◌, max, Bool, true, false, not, ◌&&◌, Option, none, some}
use lineair_db.Base.{List, length, leb, ltb, ◌==◌, if◌then◌else◌}
use lineair_db.Recovery.Crc32c.{checksum}
use lineair_db.Recovery.LogRecord.{MsgPack}
use lineair_db.Recovery.Disk.{Disk, Ran, done, failure, Io, ◌>>=◌, pure, eio, pread_all}
use lineair_db.Recovery.Wal.{
  Wal, WalState, ready, unscanned, failed_state, k_header_size, Header, parse_header,
  header_is_torn_prefix, Anomaly, header_anomaly, write_zeroes_and_sync, ensure_capacity_for,
}
use lineair_db.Recovery.Wal.Tail.{
  Probe, no_frame, frame, undecidable, find_last_non_zero, search_for_frame_after,
}
use lineair_db.Recovery.Wal.Scan.{
  Progress, start, Detail, data_beyond, frame_beyond, unclassified, frame_end, skip_frame, Scanned,
  stopped, bad, scan_loop,
}

-- The last frame that was hopped: its offset and its header.
abbrev pub Guard : Type 0
Guard = Option (ℕ × Header)

-- What a hop returns: `none` where the code returns false with no I/O error, for a header that cannot be
-- followed.
abbrev pub Hopped : Type 0
Hopped = Option (Progress × Guard)

module _ (file_size min_epoch : ℕ) where
  -- `rest` is the loop from the next frame on.
  pub hop_header :
      (Progress → Guard → Io Hopped) → Progress → Guard → List ℕ → Option Anomaly → Io Hopped
  hop_header rest p guard header (some a) =
      pure (if header_is_torn_prefix header then some (p, guard) else none)
  hop_header rest p guard header none =
      let h = parse_header header in
      if ltb file_size (frame_end p h)
      then pure none
      else if p.have_frame && ltb h.epoch p.frontier
      then pure none
      else if h.epoch == 0
      then pure none
      else if ltb min_epoch h.epoch
      then pure (some (p, guard))
      else rest (skip_frame p h) (some (p.offset, h))

  pub hop_loop : ℕ → Progress → Guard → Io Hopped
  unfolding hop_header
  hop_loop zero p guard = pure (some (p, guard))
  hop_loop (suc fuel) p guard =
      if leb file_size p.offset
      then pure (some (p, guard))
      else (if ltb (file_size - p.offset) k_header_size
          then pure none
          else (pread_all k_header_size p.offset >>= λ header.
              hop_header (hop_loop fuel) p guard header (header_anomaly (parse_header header))))

-- The frame before the point that the hop reached is read in full; where its checksum fails, or the hop
-- could not be followed, the scan begins at offset 0.
after_hop : Hopped → Io Progress
after_hop none = pure start
after_hop (some (p, none)) = pure p
after_hop (some (p, some (at, h))) = do
  payload ← pread_all h.payload_size (at + k_header_size)
  pure (if checksum h.covered payload == h.crc then p else start)

unfoldable pub hop : ℕ → ℕ → Io Progress
unfolding after_hop hop_loop
hop file_size min_epoch =
    if min_epoch == 0
    then pure start
    else (hop_loop file_size min_epoch file_size start none >>= after_hop)

-- Whether the bytes behind the frames could be settled; `repaired true` where some were zeroed.
pub data Repair : Type 0 where
  repaired : Bool → Repair
  damaged : Detail → Repair

abbrev is_beyond : Option ℕ → ℕ → Bool
is_beyond none last = false
is_beyond (some end) last = leb end last

by_probe : Anomaly → ℕ → ℕ → Probe → Io Repair
by_probe a offset last frame = pure (damaged (frame_beyond a offset))
by_probe a offset last undecidable = pure (damaged (unclassified a offset))
by_probe a offset last no_frame = do
  _ ← write_zeroes_and_sync offset (last + 1)
  pure (repaired true)

by_last : Anomaly → Option ℕ → ℕ → ℕ → Option ℕ → Io Repair
unfolding by_probe
by_last a broken_end offset file_size none = pure (repaired false)
by_last a broken_end offset file_size (some last) =
    if is_beyond broken_end last
    then pure (damaged (data_beyond a offset))
    else (search_for_frame_after offset (last + 1) file_size >>= by_probe a offset last)

pub repair_tail : ℕ → ℕ → Option (Anomaly × Option ℕ) → Io Repair
unfolding by_last
repair_tail file_size offset none = pure (repaired false)
repair_tail file_size offset (some (a, broken_end)) = do
  last ← find_last_non_zero offset file_size
  by_last a broken_end offset file_size last

-- `WalScanResult`, by its status.
pub data ScanResult : Type 0 where
  scan_ok : Progress → Bool → ScanResult
  scan_corrupt : Detail → ScanResult
  scan_io_error : ℕ → ScanResult

abbrev pub fail_wal : Wal → Wal
fail_wal w = record w { state = failed_state }

-- `FinishScan` behind the repair: nothing is published before the capacity is there.
finish : Wal → Progress → Repair → Io (ScanResult × Wal)
finish w p (damaged detail) = pure (scan_corrupt detail, fail_wal w)
finish w p (repaired truncated) = do
  size ← ensure_capacity_for w p.offset 0
  pure (
    scan_ok p truncated,
    record w {
      state = ready;
      write_offset = p.offset;
      frontier = p.frontier;
      initialised_size = size;
    },
  )

unfoldable pub after_scan : Wal → ℕ → Scanned → Io (ScanResult × Wal)
unfolding finish
after_scan w file_size (bad detail) = pure (scan_corrupt detail, fail_wal w)
after_scan w file_size (stopped p why) = repair_tail file_size p.offset why >>= finish w p

unfoldable pub scan_file : MsgPack → ℕ → Wal → ℕ → Io (ScanResult × Wal)
unfolding after_scan
scan_file codec min_epoch w file_size = hop file_size min_epoch >>= λ p.
    scan_loop codec file_size min_epoch file_size p >>= after_scan w file_size

unfoldable pub io_failure : Wal → Ran (ScanResult × Wal) → ScanResult × Wal × Disk
io_failure w (done (r, w') d) = (r, w', d)
io_failure w (failure e d) = (scan_io_error e, fail_wal w, d)

unfoldable pub scan_in : WalState → MsgPack → ℕ → Wal → Disk → ScanResult × Wal × Disk
unfolding scan_file io_failure
scan_in failed_state codec min_epoch w d = (scan_io_error eio, fail_wal w, d)
scan_in _ codec min_epoch w d =
    let w1 = record w { initialised_size = max w.initialised_size (length d.file) } in
    io_failure w1 (scan_file codec min_epoch w1 (length d.file) d)

unfoldable pub scan_and_repair : MsgPack → ℕ → Wal → Disk → ScanResult × Wal × Disk
unfolding scan_in
scan_and_repair codec min_epoch w d = scan_in w.state codec min_epoch w d
