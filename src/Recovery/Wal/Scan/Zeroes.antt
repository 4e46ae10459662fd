-- ===== src/Recovery/Wal/Scan/Zeroes.antt =====
-- Where the scan stops that has reached the zeroes behind the log.
use lineair_db.Base.{ℕ, zero, suc, ◌+◌, ◌-◌, ◌≤◌, ◌≡◌, refl, ap, ◌∙◌, arith, Option, none, some}
use lineair_db.Base.{
  List, [], ◌++◌, length, length-append, length-replicate, replicate, ltb, ◌==◌, if◌then◌else◌,
}
use lineair_db.Base.{le→leb, lt→leb_false, lt→ltb, le→ltb_false, ne→==, dec_lt}
use lineair_db.Recovery.LogRecord.{MsgPack}
use lineair_db.Recovery.Word.{put_le16, put_le32, get_le16, get_le32}
use lineair_db.Recovery.Disk.{Disk, Event, done, pread_all}
use lineair_db.Recovery.Disk.Laws.{Quiet, run_bind, pread_all-Quiet}
use lineair_db.Recovery.Disk.Zeroes.{zero_slice}
use lineair_db.Recovery.Wal.{
  Anomaly, inside_header, magic_mismatch, header_anomaly, parse_header, header_is_torn_prefix,
  torn_loop, all_zero, expected_prefix,
}
use lineair_db.Recovery.Wal.Scan.{Progress, stopped, scan_loop, on_header, torn_or_bad}

-- Why the scan stops before `z` zeroes.
unfoldable pub tail_anomaly : ℕ → Option (Anomaly × Option ℕ)
tail_anomaly z =
    if z == 0
    then none
    else if ltb z 20
    then some (inside_header, none)
    else some (magic_mismatch, none)

module _ (codec : MsgPack) where
  on_header-zeroes :
      (size fuel : ℕ) (p : Progress) (d : Disk)
      → on_header codec size 0
          (scan_loop codec size 0 fuel)
          p
          (replicate 20 0)
          (header_anomaly (parse_header (replicate 20 0)))
          d
        ≡ done (stopped p (some (magic_mismatch, none))) d
  unfolding on_header torn_or_bad header_anomaly parse_header header_is_torn_prefix torn_loop
      all_zero expected_prefix put_le16 put_le32 get_le16 get_le32
  on_header-zeroes size fuel p d = refl

  pub scan_loop-zeroes :
      (k : ℕ) (p : Progress) (d : Disk) (pre : List ℕ) (z : ℕ)
      → d.file ≡ pre ++ replicate z 0
      → p.offset ≡ length pre
      → z ≤ k
      → Quiet d.script
      → (s : List Event) × Quiet s
        × (scan_loop codec (length d.file) 0 k p d
            ≡ done (stopped p (tail_anomaly z)) (record d { script = s }))
  unfolding scan_loop tail_anomaly
  scan_loop-zeroes zero p d pre zero e at h q = (d.script, q, refl)
  scan_loop-zeroes zero p d pre (suc z) e at h q = absurd (omega arith)
  scan_loop-zeroes (suc k) p d pre zero e at h q =
      let size : length d.file ≡ length pre =
        ap (λ (l : List ℕ). length l) e ∙ omega (arith, length-append pre []) in
      (d.script, q, rw (le→leb (length d.file) p.offset (omega arith)))
  scan_loop-zeroes (suc k) p d pre (suc z) e at h q =
      let size : length d.file ≡ length pre + suc z =
        ap (λ (l : List ℕ). length l) e
        ∙ omega
            (arith, length-append pre (replicate (suc z) 0), length-replicate {A = ℕ} (suc z) 0) in
      elim (dec_lt (suc z) 20) [
        | yes short ↦ (
          d.script,
          q,
          rw (
            lt→leb_false (length d.file) p.offset (omega arith),
            lt→ltb (length d.file - p.offset) 20 (omega arith),
            ne→== (suc z) 0 (omega arith),
            lt→ltb (suc z) 20 short,
          ),
        )
        | no long ↦
            let r1 = pread_all-Quiet 20 p.offset d q (omega arith) in
            (
              r1.script,
              r1.quiet,
              rw
                  (
                    lt→leb_false (length d.file) p.offset (omega arith),
                    le→ltb_false (length d.file - p.offset) 20 (omega arith),
                    ne→== (suc z) 0 (omega arith),
                    le→ltb_false (suc z) 20 (omega arith),
                  )
                  (run_bind (pread_all 20 p.offset) _ d r1.ran
                    ∙ ap
                        (λ (l : List ℕ).
                          on_header codec (length d.file) 0 (scan_loop codec (length d.file) 0 k) p
                            l (header_anomaly (parse_header l)) (record d { script = r1.script }))
                        (zero_slice pre (suc z) p.offset 20 d.file e (omega arith) (omega arith))
                    ∙ on_header-zeroes (length d.file) k p (record d { script = r1.script })),
            )
      ]
