-- ===== src/Recovery/Wal/Scan/Frames.antt =====
-- The scan of a log that appends have written, over calls that succeed.
use lineair_db.Base.{
  ℕ, zero, suc, ◌+◌, ◌-◌, ◌^◌, ◌≤◌, ◌<◌, ◌≡◌, refl, sym, ap, ◌∙◌, arith, true, false,
}
use lineair_db.Base.{Option, none, List, [], ◌∷◌, ◌++◌, length, length-append, append_assoc}
use lineair_db.Base.{ltb, leb, ==_refl, le→ltb_false, lt→leb_false, ne→==, Bool-cases, inl, inr}
use lineair_db.Recovery.Crc32c.{checksum}
use lineair_db.Recovery.LogRecord.{LogRecord, MsgPack}
use lineair_db.Recovery.Disk.{Disk, Event, Io, ◌>>=◌, pread_all}
use lineair_db.Recovery.Disk.Laws.{Quiet, slice, run_bind, pread_all-Quiet}
use lineair_db.Recovery.Disk.Zeroes.{slice_at}
use lineair_db.Recovery.Wal.{
  Header, parse_header, encode_frame, Anomaly, header_anomaly, k_header_size, k_max_payload_size,
}
use lineair_db.Recovery.Wal.Frame.{
  whole_header, length-whole_header, length-encode_frame, encode_frame-split, written,
  parse_header-written, header_anomaly-written,
}
use lineair_db.Recovery.Wal.Append.{Buckets, is_empty, epochs_agree}
use lineair_db.Recovery.Wal.Scan.{
  Progress, frame_end, Verdict, next, take_records, judge, Scanned, on_verdict, on_header,
  scan_loop,
}

-- Buckets that the log accepts behind the epoch `last`.
unfoldable pub Loggable : MsgPack → ℕ → Buckets → Type 0
Loggable codec last [] = Unit
Loggable codec last ((epoch, records) ∷ buckets) =
    (is_empty records ≡ false)
    × (1 ≤ epoch)
    × (last ≤ epoch)
    × (epoch < 2 ^ 32)
    × (epochs_agree epoch records ≡ true)
    × (length (codec.pack records) ≤ k_max_payload_size)
    × Loggable codec epoch buckets

-- The frames of some buckets.
unfoldable pub frames : MsgPack → Buckets → List ℕ
frames codec [] = []
frames codec ((epoch, records) ∷ buckets) =
    encode_frame epoch (codec.pack records) ++ frames codec buckets

-- The variables of the scan behind one frame, and behind those of all buckets.
abbrev pub took : MsgPack → Progress → ℕ → List LogRecord → Progress
took codec p epoch records = record p {
  offset = p.offset + k_header_size + length (codec.pack records);
  frontier = epoch;
  have_frame = true;
  records = p.records ++ records;
}

unfoldable pub behind : MsgPack → Progress → Buckets → Progress
behind codec p [] = p
behind codec p ((epoch, records) ∷ buckets) = behind codec (took codec p epoch records) buckets

module _ (codec : MsgPack) (epoch : ℕ) (records : List LogRecord) where
  abbrev payload : List ℕ
  payload = codec.pack records

  judge-written :
      (p : Progress)
      → is_empty records ≡ false
      → 1 ≤ epoch
      → p.frontier ≤ epoch
      → epochs_agree epoch records ≡ true
      → judge codec 0 p (written epoch payload) payload ≡ next (took codec p epoch records)
  unfolding judge take_records frame_end
  judge-written p full some_epoch order agree =
      rw
        (
          ==_refl (checksum (written epoch payload).covered payload),
          codec.unpack-pack records,
          ==_refl (length payload),
          full,
          agree,
          le→ltb_false epoch p.frontier order,
          ne→== epoch 0 (omega arith),
          lt→leb_false epoch 0 some_epoch,
        )
        (elim (Bool-cases p.have_frame) [ inl h ↦ rw h refl | inr h ↦ rw h refl ])

  reads_header :
      (fuel : ℕ) (p : Progress) (d : Disk)
      → leb (length d.file) p.offset ≡ false
      → ltb (length d.file - p.offset) 20 ≡ false
      → scan_loop codec (length d.file) 0 (suc fuel) p d
        ≡ (pread_all 20 p.offset >>= λ header.
              on_header codec
                (length d.file)
                0
                (scan_loop codec (length d.file) 0 fuel)
                p
                header
                (header_anomaly (parse_header header)))
            d
  unfolding scan_loop
  reads_header fuel p d a b = rw (a, b)

  reads_payload :
      (size : ℕ) (rest : Progress → Io Scanned) (p : Progress) (d : Disk) (header : List ℕ)
      (h : Header)
      → parse_header header ≡ h
      → ltb size (p.offset + 20 + h.payload_size) ≡ false
      → on_header codec size 0 rest p header none d
        ≡ (pread_all h.payload_size (p.offset + 20) >>= λ payload.
              on_verdict codec size 0 rest p (judge codec 0 p h payload))
            d
  unfolding on_header frame_end
  reads_payload size rest p d header h e b = rw (e, b)

  -- One round of the scan, at a frame.
  scan_loop-written :
      (fuel : ℕ) (p : Progress) (d : Disk) (pre rest : List ℕ)
      → d.file ≡ pre ++ (encode_frame epoch payload ++ rest)
      → p.offset ≡ length pre
      → is_empty records ≡ false
      → 1 ≤ epoch
      → p.frontier ≤ epoch
      → epoch < 2 ^ 32
      → epochs_agree epoch records ≡ true
      → length payload ≤ k_max_payload_size
      → Quiet d.script
      → (s : List Event) × Quiet s
        × (scan_loop codec (length d.file) 0 (suc fuel) p d
            ≡ scan_loop codec
                (length d.file)
                0
                fuel
                (took codec p epoch records)
                (record d { script = s }))
  unfolding scan_loop on_header on_verdict frame_end
  scan_loop-written fuel p d pre rest file at full some_epoch order small agree short quiet =
      let header : List ℕ = whole_header epoch payload in
      let file1 : d.file ≡ pre ++ (header ++ (payload ++ rest)) =
        file
        ∙ ap (λ l. pre ++ l)
            (ap (λ l. l ++ rest) (encode_frame-split epoch payload)
              ∙ append_assoc header payload rest) in
      let file2 : d.file ≡ (pre ++ header) ++ (payload ++ rest) =
        file1 ∙ sym (append_assoc pre header (payload ++ rest)) in
      let size : length d.file ≡ length pre + 20 + length payload + length rest =
        ap (λ (l : List ℕ). length l) file1
        ∙ omega (
          arith,
          length-append pre (header ++ (payload ++ rest)),
          length-append header (payload ++ rest),
          length-append payload rest,
          length-whole_header epoch payload,
        ) in
      let first : slice p.offset 20 d.file ≡ header =
        slice_at pre header (payload ++ rest) p.offset 20 d.file file1 at
          (sym (length-whole_header epoch payload)) in
      let second : slice (p.offset + 20) (length payload) d.file ≡ payload =
        slice_at (pre ++ header) payload rest (p.offset + 20) (length payload) d.file file2
          (sym (length-append pre header ∙ omega (arith, length-whole_header epoch payload)))
          refl in
      let r1 = pread_all-Quiet 20 p.offset d quiet (omega arith) in
      let d1 : Disk = record d { script = r1.script } in
      let r2 = pread_all-Quiet (length payload) (p.offset + 20) d1 r1.quiet (omega arith) in
      let rest_loop : Progress → Io Scanned = scan_loop codec (length d.file) 0 fuel in
      let d2 : Disk = record d { script = r2.script } in
      (
        r2.script,
        r2.quiet,
        reads_header fuel p d (lt→leb_false (length d.file) p.offset (omega arith))
              (le→ltb_false (length d.file - p.offset) 20 (omega arith))
            ∙ run_bind (pread_all 20 p.offset) _ d r1.ran
            ∙ ap
                (λ (l : List ℕ).
                  on_header codec (length d.file) 0 rest_loop p l (header_anomaly (parse_header l))
                    d1)
                first
            ∙ ap
                (λ (h : Header).
                  on_header codec (length d.file) 0 rest_loop p header (header_anomaly h) d1)
                (parse_header-written epoch payload small (omega arith))
            ∙ ap (λ (o : Option Anomaly). on_header codec (length d.file) 0 rest_loop p header o d1)
                (header_anomaly-written epoch payload short)
            ∙ reads_payload (length d.file) rest_loop p d1 header (written epoch payload)
                (parse_header-written epoch payload small (omega arith))
                (le→ltb_false (length d.file) (p.offset + 20 + length payload) (omega arith))
            ∙ run_bind (pread_all (length payload) (p.offset + 20)) _ d1 r2.ran
            ∙ ap
                (λ (l : List ℕ).
                  on_verdict codec (length d.file) 0 rest_loop p
                    (judge codec 0 p (written epoch payload) l) d2)
                second
            ∙ ap (λ (v : Verdict). on_verdict codec (length d.file) 0 rest_loop p v d2)
                (judge-written p full some_epoch order agree),
      )

-- The rounds of the scan at the frames of all buckets.
pub scan_loop-frames :
    (codec : MsgPack) (buckets : Buckets) (fuel k : ℕ) (p : Progress) (d : Disk) (pre rest : List ℕ)
    → fuel ≡ length buckets + k
    → d.file ≡ pre ++ (frames codec buckets ++ rest)
    → p.offset ≡ length pre
    → Loggable codec p.frontier buckets
    → Quiet d.script
    → (s : List Event) × Quiet s
      × (scan_loop codec (length d.file) 0 fuel p d
          ≡ scan_loop codec (length d.file) 0 k (behind codec p buckets) (record d { script = s }))
unfolding frames behind Loggable
scan_loop-frames codec [] fuel k p d pre rest f e at l q =
    (d.script, q, ap (λ (n : ℕ). scan_loop codec (length d.file) 0 n p d) (f ∙ omega arith))
scan_loop-frames codec ((epoch, records) ∷ buckets) zero k p d pre rest f e at l q =
    absurd (omega arith)
scan_loop-frames codec ((epoch, records) ∷ buckets) (suc fuel) k p d pre rest f e at
      (full, some_epoch, order, small, agree, short, l) q =
    let frame : List ℕ = encode_frame epoch (codec.pack records) in
    let file1 : d.file ≡ pre ++ (frame ++ (frames codec buckets ++ rest)) =
      e ∙ ap (λ t. pre ++ t) (append_assoc frame (frames codec buckets) rest) in
    let (s1, q1, step) =
      scan_loop-written codec epoch records fuel p d pre (frames codec buckets ++ rest) file1 at
        full some_epoch order small agree short q in
    let at1 : p.offset + 20 + length (codec.pack records) ≡ length (pre ++ frame) =
      sym
        (length-append pre frame ∙ omega (arith, length-encode_frame epoch (codec.pack records))) in
    let (s, q', all) =
      scan_loop-frames codec buckets fuel k (took codec p epoch records) (record d { script = s1 })
        (pre ++ frame) rest (omega arith)
        (file1 ∙ sym (append_assoc pre frame (frames codec buckets ++ rest))) at1 l q1 in
    (s, q', step ∙ all)
