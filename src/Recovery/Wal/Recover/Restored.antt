-- ===== src/Recovery/Wal/Recover/Restored.antt =====
-- What the scan at startup makes of a log that appends have written.
use lineair_db.Base.{
  ℕ, ◌+◌, ◌-◌, ◌^◌, ◌≤◌, ◌<◌, ◌≡◌, refl, sym, ap, ◌∙◌, arith, max, false, Option, none, some,
}
use lineair_db.Base.{
  List, [], ◌∷◌, ◌++◌, append_assoc, append-nil, length, length-append, length-replicate, replicate,
}
use lineair_db.Recovery.LogRecord.{LogRecord, MsgPack}
use lineair_db.Recovery.Disk.{Disk, Event, done}
use lineair_db.Recovery.Disk.Laws.{Quiet, run_bind}
use lineair_db.Recovery.Wal.{
  Wal, WalState, ready, unscanned, Anomaly, encode_frame, ensure_capacity_for,
}
use lineair_db.Recovery.Wal.Capacity.{ensure_capacity_for_enough}
use lineair_db.Recovery.Wal.Frame.{length-encode_frame}
use lineair_db.Recovery.Wal.Append.{Buckets}
use lineair_db.Recovery.Wal.Tail.{find_last_non_zero}
use lineair_db.Recovery.Wal.Tail.Zeroes.{find_last_non_zero-zeroes}
use lineair_db.Recovery.Wal.Scan.{Progress, start, stopped, scan_loop}
use lineair_db.Recovery.Wal.Scan.Frames.{Loggable, frames, took, behind, scan_loop-frames}
use lineair_db.Recovery.Wal.Scan.Zeroes.{tail_anomaly, scan_loop-zeroes}
use lineair_db.Recovery.Wal.Recover.{
  repaired, by_last, repair_tail, scan_ok, finish, after_scan, scan_file, io_failure, scan_in,
  scan_and_repair, hop,
}

-- The records of some buckets, in their order.
unfoldable pub all_records : Buckets → List LogRecord
all_records [] = []
all_records ((epoch, records) ∷ buckets) = records ++ all_records buckets

behind-offset :
    (codec : MsgPack) (p : Progress) (buckets : Buckets)
    → (behind codec p buckets).offset ≡ p.offset + length (frames codec buckets)
unfolding behind frames
behind-offset codec p [] = omega arith
behind-offset codec p ((epoch, records) ∷ buckets) =
    behind-offset codec (took codec p epoch records) buckets
    ∙ omega (
      arith,
      length-append (encode_frame epoch (codec.pack records)) (frames codec buckets),
      length-encode_frame epoch (codec.pack records),
    )

behind-records :
    (codec : MsgPack) (p : Progress) (buckets : Buckets)
    → (behind codec p buckets).records ≡ p.records ++ all_records buckets
unfolding behind all_records
behind-records codec p [] = sym (append-nil p.records)
behind-records codec p ((epoch, records) ∷ buckets) =
    behind-records codec (took codec p epoch records) buckets
    ∙ append_assoc p.records records (all_records buckets)

length_le_frames :
    (codec : MsgPack) (buckets : Buckets) → length buckets ≤ length (frames codec buckets)
unfolding frames
length_le_frames codec [] = omega arith
length_le_frames codec ((epoch, records) ∷ buckets) = omega (
  arith,
  length_le_frames codec buckets,
  length-append (encode_frame epoch (codec.pack records)) (frames codec buckets),
  length-encode_frame epoch (codec.pack records),
)

repair_tail-zeroes :
    (d : Disk) (pre : List ℕ) (z : ℕ) (why : Option (Anomaly × Option ℕ))
    → d.file ≡ pre ++ replicate z 0
    → Quiet d.script
    → (s : List Event) × Quiet s
      × (repair_tail (length d.file) (length pre) why d
          ≡ done (repaired false) (record d { script = s }))
unfolding repair_tail by_last
repair_tail-zeroes d pre z none e q = (d.script, q, refl)
repair_tail-zeroes d pre z (some (a, broken_end)) e q =
    let size : length d.file ≡ length pre + z =
      ap (λ (l : List ℕ). length l) e
      ∙ omega (arith, length-append pre (replicate z 0), length-replicate {A = ℕ} z 0) in
    let (s, q', r) =
      find_last_non_zero-zeroes (length pre) (length d.file) d pre z e (omega arith) (omega arith)
        q in
    (s, q', run_bind (find_last_non_zero (length pre) (length d.file)) _ d r)

-- The whole log: what the scan loop returns, and what follows it.
module _ (codec : MsgPack) (w : Wal) (d : Disk) (buckets : Buckets) (z : ℕ)
    (room : w.initial_capacity ≤ length d.file)
    (file : d.file ≡ frames codec buckets ++ replicate z 0) (fits : length d.file < 2 ^ 63)
    (loggable : Loggable codec 0 buckets) (quiet : Quiet d.script) where
  abbrev restored : Progress
  restored = behind codec start buckets

  abbrev w1 : Wal
  w1 = record w { initialised_size = max w.initialised_size (length d.file) }

  abbrev restored_log : Wal
  restored_log = record w1 {
    state = ready;
    write_offset = restored.offset;
    frontier = restored.frontier;
  }

  size : length d.file ≡ length (frames codec buckets) + z
  size =
      ap (λ (l : List ℕ). length l) file
      ∙ omega (
        arith,
        length-append (frames codec buckets) (replicate z 0),
        length-replicate {A = ℕ} z 0,
      )

  scan_loop-whole :
      (s : List Event) × Quiet s
      × (scan_loop codec (length d.file) 0 (length d.file) start d
          ≡ done (stopped restored (tail_anomaly z)) (record d { script = s }))
  scan_loop-whole =
      let k : ℕ = length d.file - length buckets in
      let (s1, q1, e1) =
        scan_loop-frames codec buckets (length d.file) k start d [] (replicate z 0)
          (omega (arith, length_le_frames codec buckets, size)) file refl loggable quiet in
      let (s2, q2, e2) =
        scan_loop-zeroes codec k restored (record d { script = s1 }) (frames codec buckets) z file
          (behind-offset codec start buckets ∙ omega arith)
          (omega (arith, length_le_frames codec buckets, size)) q1 in
      (s2, q2, e1 ∙ e2)

  finish-whole :
      (s : List Event)
      → finish w1 restored (repaired false) (record d { script = s })
        ≡ done (scan_ok restored false, restored_log) (record d { script = s })
  unfolding finish
  finish-whole s =
      run_bind (ensure_capacity_for w1 restored.offset 0) _ (record d { script = s })
        (ensure_capacity_for_enough w1 restored.offset (record d { script = s })
          (omega (arith, behind-offset codec start buckets, size))
          (omega (arith, behind-offset codec start buckets, size)) (omega arith))

  after_scan-whole :
      (s : List Event)
      → Quiet s
      → (s' : List Event) × (after_scan w1
            (length d.file)
            (stopped restored (tail_anomaly z))
            (record d { script = s })
          ≡ done (scan_ok restored false, restored_log) (record d { script = s' }))
  unfolding after_scan
  after_scan-whole s q =
      let at : restored.offset ≡ length (frames codec buckets) =
        behind-offset codec start buckets ∙ omega arith in
      let (s', q', e) =
        repair_tail-zeroes (record d { script = s }) (frames codec buckets) z (tail_anomaly z) file
          q in
      (
        s',
        run_bind (repair_tail (length d.file) restored.offset (tail_anomaly z)) _
              (record d { script = s })
              (ap
                  (λ (n : ℕ).
                    repair_tail (length d.file) n (tail_anomaly z) (record d { script = s }))
                  at
                ∙ e)
            ∙ finish-whole s',
      )

  scan_file-whole :
      (s : List Event) × (scan_file codec 0 w1 (length d.file) d
        ≡ done (scan_ok restored false, restored_log) (record d { script = s }))
  unfolding scan_file hop
  scan_file-whole =
      let (s1, q1, e1) = scan_loop-whole in
      let (s2, e2) = after_scan-whole s1 q1 in
      (s2, run_bind (scan_loop codec (length d.file) 0 (length d.file) start) _ d e1 ∙ e2)

  -- At startup, where no call fails and none moves nothing: of a file of less than 2 ^ 63 bytes that
  -- holds the frames of buckets that the log accepts, and zeroes behind them, with the initial capacity
  -- inside the file, the scan ends well, truncates nothing and leaves every byte as it was. It returns
  -- the records of all buckets in their order, and the log is ready, ends behind the last frame, and
  -- has that frame's epoch as its frontier.
  pub scan_and_repair-frames :
      w.state ≡ unscanned
      → (s : List Event) × (scan_and_repair codec 0 w d
          ≡ (scan_ok (behind codec start buckets) false, restored_log, record d { script = s }))
        × ((behind codec start buckets).records ≡ all_records buckets)
        × ((behind codec start buckets).offset ≡ length (frames codec buckets))
  unfolding scan_and_repair scan_in io_failure
  scan_and_repair-frames fresh =
      let (s, e) = scan_file-whole in
      (
        s,
        ap (λ (t : WalState). scan_in t codec 0 w d) fresh ∙ ap (io_failure w1) e,
        behind-records codec start buckets,
        behind-offset codec start buckets ∙ omega arith,
      )
