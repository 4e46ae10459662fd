-- ===== src/Recovery/Wal/Recover/Untouched.antt =====
-- A scan that reports damage has changed no byte of the log.
use lineair_db.Base.{ℕ, zero, suc, ◌+◌, ◌-◌, ◌≡◌, refl, ◌∙◌, ◌&&◌, true, Option, none, some, subst}
use lineair_db.Base.{List, length, leb, ltb, ◌==◌, max}
use lineair_db.Recovery.LogRecord.{MsgPack}
use lineair_db.Recovery.Disk.{Disk, Ran, done, failure, Io, ◌>>=◌, pread_all}
use lineair_db.Recovery.Disk.Reads.{Reads, Reads-pure, Reads-if, Reads-bind, Reads-pread_all}
use lineair_db.Recovery.Disk.Ensures.{Ensures, Ensures-read, Ensures-bind, Ensures-if, Ensures-pure}
use lineair_db.Recovery.Wal.{
  Wal, WalState, ready, unscanned, failed_state, k_header_size, Header, Anomaly, header_anomaly,
  parse_header, write_zeroes_and_sync, ensure_capacity_for,
}
use lineair_db.Recovery.Wal.Tail.{
  Probe, no_frame, frame, undecidable, find_last_non_zero, search_for_frame_after,
}
use lineair_db.Recovery.Wal.Tail.Reads.{find_last_non_zero-Reads, search_for_frame_after-Reads}
use lineair_db.Recovery.Wal.Scan.{
  Progress, start, Detail, frame_end, skip_frame, Scanned, stopped, bad, scan_loop,
}
use lineair_db.Recovery.Wal.Scan.Reads.{scan_loop-Reads}
use lineair_db.Recovery.Wal.Recover.{
  Guard, Hopped, hop_header, hop_loop, after_hop, hop, Repair, repaired, damaged, by_probe, by_last,
  repair_tail, is_beyond, ScanResult, scan_ok, scan_corrupt, scan_io_error, finish, after_scan,
  scan_file, io_failure, scan_in, scan_and_repair,
}

module _ (file_size min_epoch : ℕ) where
  hop_header-Reads :
      (rest : Progress → Guard → Io Hopped)
      → ((p : Progress) (guard : Guard) → Reads (rest p guard))
      → (p : Progress) (guard : Guard) (header : List ℕ) (a : Option Anomaly)
      → Reads (hop_header file_size min_epoch rest p guard header a)
  unfolding hop_header
  hop_header-Reads rest r p guard header (some a) = Reads-pure _
  hop_header-Reads rest r p guard header none =
      let h : Header = parse_header header in
      Reads-if (ltb file_size (frame_end p h)) (Reads-pure _) (
        Reads-if (p.have_frame && ltb h.epoch p.frontier) (Reads-pure _) (
          Reads-if (h.epoch == 0) (Reads-pure _) (
            Reads-if (ltb min_epoch h.epoch) (Reads-pure _)
              (r (skip_frame p h) (some (p.offset, h))))))

  hop_loop-Reads :
      (fuel : ℕ) (p : Progress) (guard : Guard) → Reads (hop_loop file_size min_epoch fuel p guard)
  unfolding hop_loop
  hop_loop-Reads zero p guard = Reads-pure _
  hop_loop-Reads (suc fuel) p guard = Reads-if (leb file_size p.offset) (Reads-pure _) (
      Reads-if (ltb (file_size - p.offset) k_header_size) (Reads-pure _) (
        Reads-bind (pread_all k_header_size p.offset) _ (Reads-pread_all _ _) (λ header.
          hop_header-Reads (hop_loop file_size min_epoch fuel) (hop_loop-Reads fuel) p guard header
            (header_anomaly (parse_header header)))))

  after_hop-Reads : (r : Hopped) → Reads (after_hop r)
  unfolding after_hop
  after_hop-Reads none = Reads-pure _
  after_hop-Reads (some (p, none)) = Reads-pure _
  after_hop-Reads (some (p, some (at, h))) =
      Reads-bind (pread_all h.payload_size (at + k_header_size)) _ (Reads-pread_all _ _)
        (λ payload. Reads-pure _)

  pub hop-Reads : Reads (hop file_size min_epoch)
  unfolding hop
  hop-Reads = Reads-if (min_epoch == 0) (Reads-pure _) (
      Reads-bind (hop_loop file_size min_epoch file_size start none) _
        (hop_loop-Reads file_size start none) after_hop-Reads)

-- `Corrupt w d` of a result: a damaged log has the bytes of `d`, and the log has failed.
Corrupt : Disk → ScanResult × Wal → Disk → Type 0
Corrupt d (scan_corrupt detail, w) d' = (d'.file ≡ d.file) × (w.state ≡ failed_state)
Corrupt d (scan_ok p truncated, w) d' = Unit
Corrupt d (scan_io_error e, w) d' = Unit

Damaged : Disk → Repair → Disk → Type 0
Damaged d (damaged detail) d' = d'.file ≡ d.file
Damaged d (repaired truncated) d' = Unit

by_probe-Damaged :
    (a : Anomaly) (offset last : ℕ) (p : Probe) (d0 d : Disk)
    → d.file ≡ d0.file
    → Ensures (Damaged d0) (by_probe a offset last p d)
unfolding by_probe Damaged
by_probe-Damaged a offset last frame d0 d e = e
by_probe-Damaged a offset last undecidable d0 d e = e
by_probe-Damaged a offset last no_frame d0 d e =
    Ensures-pure (Damaged d0) (write_zeroes_and_sync offset (last + 1) d) (λ _. repaired true)
      (λ _ _. tt)

by_last-Damaged :
    (a : Anomaly) (broken_end : Option ℕ) (offset file_size : ℕ) (last : Option ℕ) (d0 d : Disk)
    → d.file ≡ d0.file
    → Ensures (Damaged d0) (by_last a broken_end offset file_size last d)
unfolding by_last Damaged
by_last-Damaged a broken_end offset file_size none d0 d e = tt
by_last-Damaged a broken_end offset file_size (some last) d0 d e =
    Ensures-if (Damaged d0) (is_beyond broken_end last) _ _ d e (
      Ensures-read (Damaged d0) (search_for_frame_after offset (last + 1) file_size)
        (by_probe a offset last) d (search_for_frame_after-Reads offset (last + 1) file_size)
        (λ p d' e'. by_probe-Damaged a offset last p d0 d' (e' ∙ e)))

repair_tail-Damaged :
    (file_size offset : ℕ) (why : Option (Anomaly × Option ℕ)) (d0 d : Disk)
    → d.file ≡ d0.file
    → Ensures (Damaged d0) (repair_tail file_size offset why d)
unfolding repair_tail Damaged
repair_tail-Damaged file_size offset none d0 d e = tt
repair_tail-Damaged file_size offset (some (a, broken_end)) d0 d e =
    Ensures-read (Damaged d0) (find_last_non_zero offset file_size)
      (by_last a broken_end offset file_size) d (find_last_non_zero-Reads offset file_size)
      (λ last d' e'. by_last-Damaged a broken_end offset file_size last d0 d' (e' ∙ e))

finish-Corrupt :
    (w : Wal) (p : Progress) (r : Repair) (d0 d : Disk)
    → Damaged d0 r d
    → Ensures (Corrupt d0) (finish w p r d)
unfolding finish Corrupt Damaged
finish-Corrupt w p (damaged detail) d0 d e = (e, refl)
finish-Corrupt w p (repaired truncated) d0 d e =
    Ensures-pure (Corrupt d0) (ensure_capacity_for w p.offset 0 d) _ (λ _ _. tt)

after_scan-Corrupt :
    (w : Wal) (file_size : ℕ) (s : Scanned) (d0 d : Disk)
    → d.file ≡ d0.file
    → Ensures (Corrupt d0) (after_scan w file_size s d)
unfolding after_scan Corrupt
after_scan-Corrupt w file_size (bad detail) d0 d e = (e, refl)
after_scan-Corrupt w file_size (stopped p why) d0 d e =
    Ensures-bind (Damaged d0) (Corrupt d0) (repair_tail file_size p.offset why d) (finish w p)
      (repair_tail-Damaged file_size p.offset why d0 d e) (λ r d' h. finish-Corrupt w p r d0 d' h)

scan_file-Corrupt :
    (codec : MsgPack) (min_epoch : ℕ) (w : Wal) (file_size : ℕ) (d : Disk)
    → Ensures (Corrupt d) (scan_file codec min_epoch w file_size d)
unfolding scan_file
scan_file-Corrupt codec min_epoch w file_size d =
    let scan = scan_loop codec file_size min_epoch file_size in
    Ensures-read (Corrupt d) (hop file_size min_epoch) (λ p. scan p >>= after_scan w file_size) d
      (hop-Reads file_size min_epoch)
      (λ p d1 e1.
        Ensures-read (Corrupt d) (scan p) (after_scan w file_size) d1
          (scan_loop-Reads codec file_size min_epoch file_size p)
          (λ s d' e. after_scan-Corrupt w file_size s d d' (e ∙ e1)))

CorruptEnd : Disk → ScanResult × Wal × Disk → Type 0
unfolding Corrupt
CorruptEnd d (r, w, d') = Corrupt d (r, w) d'

io_failure-Corrupt :
    (w : Wal) (d : Disk) (x : Ran (ScanResult × Wal))
    → Ensures (Corrupt d) x
    → CorruptEnd d (io_failure w x)
unfolding io_failure Corrupt CorruptEnd
io_failure-Corrupt w d (done (r, w') d') h = h
io_failure-Corrupt w d (failure e d') h = tt

scan_in-Corrupt :
    (s : WalState) (codec : MsgPack) (min_epoch : ℕ) (w : Wal) (d : Disk)
    → CorruptEnd d (scan_in s codec min_epoch w d)
unfolding scan_in Corrupt CorruptEnd
scan_in-Corrupt failed_state codec min_epoch w d = tt
scan_in-Corrupt ready codec min_epoch w d =
    let w1 = record w { initialised_size = max w.initialised_size (length d.file) } in
    io_failure-Corrupt w1 d (scan_file codec min_epoch w1 (length d.file) d)
      (scan_file-Corrupt codec min_epoch w1 (length d.file) d)
scan_in-Corrupt unscanned codec min_epoch w d =
    let w1 = record w { initialised_size = max w.initialised_size (length d.file) } in
    io_failure-Corrupt w1 d (scan_file codec min_epoch w1 (length d.file) d)
      (scan_file-Corrupt codec min_epoch w1 (length d.file) d)

-- A scan that reports a damaged log, whatever the system calls did on the way, has left every byte of
-- the file as it was, and the log has failed.
pub scan_and_repair-corrupt :
    (codec : MsgPack) (min_epoch : ℕ) (w w' : Wal) (d d' : Disk) (detail : Detail)
    → scan_and_repair codec min_epoch w d ≡ (scan_corrupt detail, w', d')
    → (d'.file ≡ d.file) × (w'.state ≡ failed_state)
unfolding scan_and_repair CorruptEnd Corrupt
scan_and_repair-corrupt codec min_epoch w w' d d' detail e =
    subst (CorruptEnd d) e (scan_in-Corrupt w.state codec min_epoch w d)
