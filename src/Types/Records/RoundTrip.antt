-- ===== src/Types/Records/RoundTrip.antt =====
-- One record of the list: its size, and what `DecodeRecord` makes of it.
use lineair_db.Base.{ℕ, ◌+◌, ◌≤◌, ◌≡◌, ◌∙◌, refl, true, arith, leb, take}
use lineair_db.Base.{List, ◌++◌, append_assoc, length, length-append, All-append, All}
use lineair_db.Base.{drop-append_length, take-append_length}
use lineair_db.Types.Outcome.{value}
use lineair_db.Types.Keys.{Key, IsKey, IsByte}
use lineair_db.Types.Records.{encoded_record_size, write_varint, write_record, decode_record}
use lineair_db.Types.Records.Varint.{varint_size-write, write_varint-shape, decode_loop-varint}

leb-length : (xs ys : List ℕ) → leb (length xs) (length (xs ++ ys)) ≡ true
leb-length xs ys = ground (arith, length-append xs ys)

module _ {key : Key} (k : IsKey key) where
  -- `EncodedRecordSize` is the number of bytes that `WriteRecord` stores, and does not wrap.
  pub encoded_record_size-length : encoded_record_size key ≡ length (write_record key)
  unfolding encoded_record_size write_record
  encoded_record_size-length = rw length-append (
      omega (
        arith,
        k.short,
        varint_size-write (length key),
        write_varint-shape (length key) (omega (arith, k.short)),
      ))

  pub write_record-shape :
      All IsByte (write_record key)
      × (1 ≤ length (write_record key))
      × (length (write_record key) ≤ length key + 10)
  unfolding write_record
  write_record-shape =
      let (small, some_byte, short) = write_varint-shape (length key) (omega (arith, k.short)) in
      (
        All-append IsByte (write_varint (length key)) key small k.bytes,
        rw length-append (omega arith),
        rw length-append (omega arith),
      )

  -- `DecodeRecord` at the record that `WriteRecord` stored of a key, whatever stands behind it, finds
  -- the key and its length and stands behind the record.
  pub decode_record-write :
      (rest : List ℕ)
      → decode_record (write_record key ++ rest)
        ≡ value (record {
          start = write_record key ++ rest;
          val = key ++ rest;
          next = rest;
          len = length key;
        })
  unfolding decode_record write_record
  decode_record-write rest = rw append_assoc (
      decode_loop-varint (length key) _ (key ++ rest) (omega (arith, k.short))
      ∙ rw (drop-append_length, leb-length) (refl))

  -- The key of that record.
  pub record_key-write : (rest : List ℕ) → take (length key) (key ++ rest) ≡ key
  record_key-write rest = take-append_length key rest
