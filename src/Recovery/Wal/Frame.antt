-- ===== src/Recovery/Wal/Frame.antt =====
-- A frame that `AppendGroup` writes, as `ScanAndRepair` reads it.
use lineair_db.Base.{ℕ, ◌+◌, ◌^◌, ◌≤◌, ◌<◌, ◌≡◌, refl, sym, ap, ◌∙◌, arith, none}
use lineair_db.Base.{List, [], ◌++◌, length, length-append, take, drop, append_assoc}
use lineair_db.Base.{le→ltb_false}
use lineair_db.Recovery.Word.{put_le16, put_le32, get_le16, get_le32, get-put_le32}
use lineair_db.Recovery.Crc32c.{checksum}
use lineair_db.Recovery.Crc32c.Bitwise.{checksum_lt}
use lineair_db.Recovery.Wal.{
  Header, parse_header, frame_header, encode_frame, header_anomaly, k_magic, k_version, k_flags,
  k_max_payload_size,
}

-- The 20 bytes before the payload.
abbrev pub whole_header : ℕ → List ℕ → List ℕ
whole_header epoch payload =
    frame_header epoch payload ++ put_le32 (checksum (frame_header epoch payload) payload)

pub encode_frame-split :
    (epoch : ℕ) (payload : List ℕ)
    → encode_frame epoch payload ≡ whole_header epoch payload ++ payload
unfolding encode_frame
encode_frame-split epoch payload = sym (append_assoc (frame_header epoch payload) _ payload)

length-frame_header : (epoch : ℕ) (payload : List ℕ) → length (frame_header epoch payload) ≡ 16
unfolding frame_header put_le16 put_le32
length-frame_header epoch payload = refl

pub length-whole_header : (epoch : ℕ) (payload : List ℕ) → length (whole_header epoch payload) ≡ 20
unfolding frame_header put_le16 put_le32
length-whole_header epoch payload = refl

pub length-encode_frame :
    (epoch : ℕ) (payload : List ℕ) → length (encode_frame epoch payload) ≡ 20 + length payload
length-encode_frame epoch payload =
    ap (λ (t : List ℕ). length t) (encode_frame-split epoch payload)
    ∙ omega (
      arith,
      length-append (whole_header epoch payload) payload,
      length-whole_header epoch payload,
    )

-- The header that the scan parses.
abbrev pub written : ℕ → List ℕ → Header
written epoch payload = record {
  magic = k_magic;
  version = k_version;
  flags = k_flags;
  payload_size = length payload;
  epoch = epoch;
  crc = checksum (frame_header epoch payload) payload;
  covered = frame_header epoch payload;
}

module _ (epoch : ℕ) (payload : List ℕ) where
  abbrev crc : ℕ
  crc = checksum (frame_header epoch payload) payload

  words :
      (get_le32 (whole_header epoch payload) ≡ k_magic)
      × (get_le16 (drop 4 (whole_header epoch payload)) ≡ k_version)
      × (get_le16 (drop 6 (whole_header epoch payload)) ≡ k_flags)
  unfolding frame_header put_le16 put_le32 get_le16 get_le32
  words = (refl, refl, refl)

  size_word :
      length payload < 2 ^ 32 → get_le32 (drop 8 (whole_header epoch payload)) ≡ length payload
  unfolding frame_header put_le16 put_le32
  size_word h = get-put_le32 (length payload) (put_le32 epoch ++ put_le32 crc) h

  epoch_word : epoch < 2 ^ 32 → get_le32 (drop 12 (whole_header epoch payload)) ≡ epoch
  unfolding frame_header put_le16 put_le32
  epoch_word h = get-put_le32 epoch (put_le32 crc) h

  crc_word : get_le32 (drop 16 (whole_header epoch payload)) ≡ crc
  unfolding frame_header put_le16 put_le32
  crc_word = get-put_le32 crc [] (checksum_lt (frame_header epoch payload) payload)

  covered_bytes : take 16 (whole_header epoch payload) ≡ frame_header epoch payload
  unfolding frame_header put_le16 put_le32
  covered_bytes = refl

  -- Parsing the header of a frame that was written gives its fields back, the checksum included, for an
  -- epoch and a payload's length below 2 ^ 32.
  pub parse_header-written :
      epoch < 2 ^ 32
      → length payload < 2 ^ 32
      → parse_header (whole_header epoch payload) ≡ written epoch payload
  unfolding parse_header
  parse_header-written e l = λ i. record {
    magic = words.0 i;
    version = words.1 i;
    flags = words.2 i;
    payload_size = size_word l i;
    epoch = epoch_word e i;
    crc = crc_word i;
    covered = covered_bytes i;
  }

  pub header_anomaly-written :
      length payload ≤ k_max_payload_size → header_anomaly (written epoch payload) ≡ none
  unfolding header_anomaly
  header_anomaly-written h = rw (le→ltb_false k_max_payload_size (length payload) h)
