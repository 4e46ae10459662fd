-- ===== src/Recovery/Wal/Scan/Reads.antt =====
-- The loop of the scan changes no byte.
use lineair_db.Base.{ℕ, zero, suc, ◌+◌, ◌-◌, Option, none, some, List, leb, ltb}
use lineair_db.Recovery.LogRecord.{MsgPack}
use lineair_db.Recovery.Disk.{Io, pread_all}
use lineair_db.Recovery.Disk.Reads.{Reads, Reads-pure, Reads-if, Reads-bind, Reads-pread_all}
use lineair_db.Recovery.Wal.{k_header_size, Header, Anomaly, header_anomaly, parse_header}
use lineair_db.Recovery.Wal.Scan.{
  Progress, Verdict, next, stop, corrupt, Scanned, frame_end, judge, on_verdict, on_header,
  scan_loop,
}

module _ (codec : MsgPack) (file_size min_epoch : ℕ) where
  module _ (rest : Progress → Io Scanned) (h : (p : Progress) → Reads (rest p)) (p : Progress) where
    on_verdict-Reads : (v : Verdict) → Reads (on_verdict codec file_size min_epoch rest p v)
    unfolding on_verdict
    on_verdict-Reads (next p') = h p'
    on_verdict-Reads (stop a end) = Reads-pure _
    on_verdict-Reads (corrupt detail) = Reads-pure _

    on_header-Reads :
        (header : List ℕ) (a : Option Anomaly)
        → Reads (on_header codec file_size min_epoch rest p header a)
    unfolding on_header
    on_header-Reads header (some a) = Reads-pure _
    on_header-Reads header none =
        let hd : Header = parse_header header in
        Reads-if (ltb file_size (frame_end p hd)) (Reads-pure _) (
          Reads-bind (pread_all hd.payload_size (p.offset + k_header_size)) _ (Reads-pread_all _ _)
            (λ payload. on_verdict-Reads (judge codec min_epoch p hd payload)))

  pub scan_loop-Reads :
      (fuel : ℕ) (p : Progress) → Reads (scan_loop codec file_size min_epoch fuel p)
  unfolding scan_loop
  scan_loop-Reads zero p = Reads-pure _
  scan_loop-Reads (suc fuel) p = Reads-if (leb file_size p.offset) (Reads-pure _) (
      Reads-if (ltb (file_size - p.offset) k_header_size) (Reads-pure _) (
        Reads-bind (pread_all k_header_size p.offset) _ (Reads-pread_all _ _) (λ header.
          on_header-Reads (scan_loop codec file_size min_epoch fuel) (scan_loop-Reads fuel) p header
            (header_anomaly (parse_header header)))))
