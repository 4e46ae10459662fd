-- ===== src/Types/PackedKeys/Build.antt =====
-- `FromSortedDeduped` and `FromOne`.
use lineair_db.Base.{ℕ, ◌+◌, ◌^◌, ◌<◌, ◌≡◌, refl, arith, leb, if◌then◌else◌}
use lineair_db.Base.{List, [], ◌∷◌, length, length-append, All, ◌-◌, append-nil}
use lineair_db.Types.Outcome.{value, length_error}
use lineair_db.Types.Keys.{Key, IsKey}
use lineair_db.Types.Records.{write_record, write_records}
use lineair_db.Types.Records.RoundTrip.{encoded_record_size-length, write_record-shape}
use lineair_db.Types.PackedKeys.{check_fits_uint32, payload_loop, from_sorted_deduped, from_one}
use lineair_db.Types.PackedKeys.Layout.{packed, fits, fill_lem, count-le-bytes}

payload_loop_lem :
    (keys : List Key) (n : ℕ)
    → All IsKey keys
    → n < 2 ^ 32
    → payload_loop keys n ≡ (
        if leb (n + length (write_records keys)) (2 ^ 32 - 1)
        then value (n + length (write_records keys))
        else length_error)
unfolding payload_loop check_fits_uint32 write_records
payload_loop_lem [] n k h = ground arith
payload_loop_lem (key ∷ keys) n k h = ground (
  arith,
  encoded_record_size-length k.0,
  write_record-shape k.0,
  length-append (write_record key) (write_records keys),
  payload_loop_lem keys (n + length (write_record key)) k.1,
)

-- `FromSortedDeduped` of keys packs them if their encoding fits 32 bits, and throws if it does not.
pub from_sorted_deduped_lem :
    (keys : List Key)
    → All IsKey keys
    → from_sorted_deduped keys ≡ (if fits keys then value (packed keys) else length_error)
unfolding from_sorted_deduped
from_sorted_deduped_lem keys k = ground (
  arith,
  payload_loop_lem keys 0 k (omega arith),
  count-le-bytes keys k,
  fill_lem (length keys) (length (write_records keys)) (write_records keys) refl,
)

-- `FromOne` packs the one key.
pub from_one_lem :
    (key : Key)
    → IsKey key
    → from_one key ≡ (if fits (key ∷ []) then value (packed (key ∷ [])) else length_error)
unfolding from_one check_fits_uint32 write_records
from_one_lem key k = rw append-nil (
    ground (
      arith,
      encoded_record_size-length k,
      fill_lem 1 (length (write_record key)) (write_record key) refl,
    ))
