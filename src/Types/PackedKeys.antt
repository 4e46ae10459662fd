-- ===== src/Types/PackedKeys.antt =====
-- src/types/packed_primary_keys.hpp, the operations: a sorted list of primary keys in one allocation.
-- A pointer into the records is the list of the bytes from it up to the limit of the list.
pub mod Layout
pub mod Build
pub mod Insert
pub mod Erase
pub mod Sorted
pub mod View
use lineair_db.Base.{ℕ, zero, suc, ◌+◌, ◌-◌, ◌%◌, ◌^◌}
use lineair_db.Base.{not, Option, none, some, List, [], ◌∷◌, ◌++◌}
use lineair_db.Base.{length, take, ltb, ◌==◌, if◌then◌else◌}
use lineair_db.Types.Outcome.{Outcome, value, length_error, out_of_fuel, ◌>>=◌, ◌>>◌, assert}
use lineair_db.Types.Keys.{Key, key_eq, key_lt}
use lineair_db.Types.Records.{add_size, sub_size, encoded_record_size, write_record, write_records}
use lineair_db.Types.Records.{Record, record_key, decode_record}

-- `count`, `bytes` and the payload behind the two fields.
pub record PackedPrimaryKeys : Type 0 where
  pub count : ℕ
  pub bytes : ℕ
  pub records : List ℕ

-- `Ptr`: `none` is the null pointer.
abbrev pub Ptr : Type 0
Ptr = Option PackedPrimaryKeys

pub check_fits_uint32 : ℕ → Outcome ℕ
check_fits_uint32 n = if ltb (2 ^ 32 - 1) n then length_error else value n

-- `AllocateMutable`, the stores into its payload, and the assert that they end at its end.
pub fill : ℕ → ℕ → List ℕ → Outcome PackedPrimaryKeys
fill count bytes written = do
  assert (length written == bytes)
  value (record { count = count; bytes = bytes; records = written })

payload_loop : List Key → ℕ → Outcome ℕ
payload_loop [] payload_bytes = value payload_bytes
payload_loop (key ∷ keys) payload_bytes = do
  let total = add_size payload_bytes (encoded_record_size key)
  _ ← check_fits_uint32 total
  payload_loop keys total

pub from_sorted_deduped : List Key → Outcome PackedPrimaryKeys
unfolding payload_loop check_fits_uint32 fill
from_sorted_deduped keys = do
  payload_bytes ← payload_loop keys 0
  count ← check_fits_uint32 (length keys)
  fill count payload_bytes (write_records keys)

pub from_one : Key → Outcome PackedPrimaryKeys
unfolding check_fits_uint32 fill
from_one key = do
  bytes ← check_fits_uint32 (encoded_record_size key)
  fill 1 bytes (write_record key)

-- What `Insert` and `Erase` return: the pointer that they were given, or a new list.
pub data Update : Type 0 where
  unchanged : Update
  replaced : PackedPrimaryKeys → Update

abbrev pub updated : Ptr → Update → Ptr
updated keys unchanged = keys
updated keys (replaced next) = some next

-- The scan of `Insert`: `none` where the key is present, else the place to insert it.
insert_loop : ℕ → List ℕ → Key → Outcome (Option (List ℕ))
insert_loop fuel [] key = value (some [])
insert_loop zero (b ∷ cursor) key = out_of_fuel
insert_loop (suc fuel) (b ∷ cursor) key = do
  r ← decode_record (b ∷ cursor)
  let rest = insert_loop fuel r.next key
  if key_eq (record_key r) key
      then value none
      else if not (key_lt (record_key r) key)
      then value (some r.start)
      else rest

-- The bytes before `pos`, and the two pieces around the stored ones.
abbrev pub before : List ℕ → List ℕ → List ℕ
before records pos = take (length records - length pos) records

insert_at : PackedPrimaryKeys → Key → Option (List ℕ) → Outcome Update
insert_at keys key none = value unchanged
insert_at keys key (some pos) = do
  let new_bytes = add_size keys.bytes (encoded_record_size key)
  count ← check_fits_uint32 (keys.count + 1)
  bytes ← check_fits_uint32 new_bytes
  next ← fill count bytes (before keys.records pos ++ (write_record key ++ pos))
  value (replaced next)

pub insert : Ptr → Key → Outcome Update
unfolding insert_at insert_loop
insert none key = do next ← from_one key; value (replaced next)
insert (some keys) key = do
  pos ← insert_loop (length keys.records) keys.records key
  insert_at keys key pos

-- The new list of `Erase`, without the record `r`.
cut : PackedPrimaryKeys → Record → Outcome Update
cut keys r = do
  let removed_bytes = length r.start - length r.next
  count ← check_fits_uint32 (sub_size keys.count 1)
  next ←
      fill count (sub_size keys.bytes removed_bytes % 2 ^ 32)
        (before keys.records r.start ++ r.next)
  value (replaced next)

erase_loop : ℕ → PackedPrimaryKeys → List ℕ → Key → Outcome Update
erase_loop fuel keys [] key = value unchanged
erase_loop zero keys (b ∷ cursor) key = out_of_fuel
erase_loop (suc fuel) keys (b ∷ cursor) key = do
  r ← decode_record (b ∷ cursor)
  let rest = erase_loop fuel keys r.next key
  if key_eq (record_key r) key
      then cut keys r
      else if not (key_lt (record_key r) key)
      then value unchanged
      else rest

unfoldable pub erase : Ptr → Key → Outcome Update
unfolding erase_loop cut
erase none key = value unchanged
erase (some keys) key =
    if keys.count == 0
    then value unchanged
    else erase_loop (length keys.records) keys keys.records key
