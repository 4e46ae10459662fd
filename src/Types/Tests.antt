-- ===== src/Types/Tests.antt =====
-- Small index entries, and runs of the operations of src/types on them.
use lineair_db.Base.{◌≡◌, refl, ◌↔◌, Bool, true, not, ◌&&◌, ◌||◌, some, List, [], ◌∷◌, ◌++◌}
use lineair_db.Base.{All, length, le→leb, arith, if◌then◌else◌}
use lineair_db.Base.{ltb, false}
use lineair_db.Types.TransactionId.{
  TransactionId, tid_lt, from_word, pack_transaction_id, unpack_transaction_id,
}
use lineair_db.Types.TransactionId.Packed.{
  IsVersion, unpack_transaction_id-pack, tid_lt-pack, pack-from_word,
}
use lineair_db.Types.Snapshot.{Snapshot, add_op, remove_op, record_secondary_index_delta, compare}
use lineair_db.Types.Snapshot.Deltas.{delta_of, delta_of-record_secondary_index_delta}
use lineair_db.Types.Outcome.{value, length_error}
use lineair_db.Types.Keys.{Key, IsKey, key_eq, key_lt}
use lineair_db.Types.Records.{write_record, write_records, decode_record}
use lineair_db.Types.Records.RoundTrip.{decode_record-write, write_record-shape}
use lineair_db.Types.PackedKeys.{Ptr, unchanged, replaced, from_sorted_deduped, insert, erase}
use lineair_db.Types.PackedKeys.Layout.{packed, fits, IsSorted, has_key, insert_sorted, erase_key}
use lineair_db.Types.PackedKeys.Build.{from_sorted_deduped_lem}
use lineair_db.Types.PackedKeys.Insert.{insert_lem}
use lineair_db.Types.PackedKeys.Erase.{erase_lem, length-write_records-cons}
use lineair_db.Types.PackedKeys.View.{contains, lower_bound, equals, primary_keys_vector, begin}
use lineair_db.Types.PackedKeys.View.Laws.{
  lower_bound-packed, equals-packed, primary_keys_vector-packed, from_key,
}
use lineair_db.Types.DataItem.{
  is_sorted_deduped, add_secondary_index_value, remove_secondary_index_value,
}
use lineair_db.Types.DataItem.PrimaryKeys.{Holds, add_lem, IsSorted-is_sorted_deduped}
use lineair_db.Types.DataItem.Sets.{contains-add, contains-remove}

abbrev ant : Key
ant = 0x61 ∷ 0x6e ∷ []

abbrev bee : Key
bee = 0x62 ∷ []

abbrev cat : Key
cat = 0x63 ∷ 0x61 ∷ []

abbrev two_keys : List Key
two_keys = ant ∷ cat ∷ []

ant-IsKey : IsKey ant
ant-IsKey = record { bytes = omega arith; short = omega arith }

bee-IsKey : IsKey bee
bee-IsKey = record { bytes = omega arith; short = omega arith }

cat-IsKey : IsKey cat
cat-IsKey = record { bytes = omega arith; short = omega arith }

ant-cat : key_lt ant cat ≡ true
unfolding key_lt
ant-cat = refl

two_keys-IsSorted : IsSorted two_keys
two_keys-IsSorted = ((ant-cat, tt), (tt, tt))

two_keys-IsKey : All IsKey two_keys
two_keys-IsKey = (ant-IsKey, (cat-IsKey, tt))

length-write_records_nil : length (write_records []) ≡ 0
unfolding write_records
length-write_records_nil = refl

two_keys-fits : fits two_keys ≡ true
two_keys-fits = le→leb _ _ (
    omega (
      arith,
      length-write_records-cons ant (cat ∷ []),
      length-write_records-cons cat [],
      length-write_records_nil,
      write_record-shape ant-IsKey,
      write_record-shape cat-IsKey,
    ))

two_keys-Holds : Holds (some (packed two_keys)) two_keys
two_keys-Holds = record {
  points = refl;
  all = two_keys-IsKey;
  sorted = two_keys-IsSorted;
  small = two_keys-fits;
}

abbrev three_keys : List Key
three_keys = ant ∷ bee ∷ cat ∷ []

three_keys-IsKey : All IsKey three_keys
three_keys-IsKey = (ant-IsKey, (bee-IsKey, (cat-IsKey, tt)))

three_keys-fits : fits three_keys ≡ true
three_keys-fits = le→leb _ _ (
    omega (
      arith,
      length-write_records-cons ant (bee ∷ cat ∷ []),
      length-write_records-cons bee (cat ∷ []),
      length-write_records-cons cat [],
      length-write_records_nil,
      write_record-shape ant-IsKey,
      write_record-shape bee-IsKey,
      write_record-shape cat-IsKey,
    ))

inserted : insert_sorted bee two_keys ≡ three_keys
unfolding insert_sorted key_eq key_lt
inserted = refl

add_lem_example : add_secondary_index_value (some (packed two_keys)) bee ≡ (
    if fits (insert_sorted bee two_keys)
    then value (some (packed (insert_sorted bee two_keys)))
    else length_error)
add_lem_example = add_lem bee two_keys-Holds bee-IsKey

added : add_secondary_index_value (some (packed two_keys)) bee ≡ value (some (packed three_keys))
added = rw (add_lem_example, inserted, three_keys-fits)

contains-add_example :
    contains (some (packed three_keys)) cat ≡ value (key_eq bee cat || has_key cat two_keys)
contains-add_example = contains-add bee cat two_keys-Holds bee-IsKey added

contains-remove_example :
    (q : Ptr) × (remove_secondary_index_value (some (packed two_keys)) ant ≡ value q)
    × Holds q (erase_key ant two_keys)
    × ((j : Key) → contains q j ≡ value (has_key j two_keys && not (key_eq ant j)))
contains-remove_example = contains-remove ant two_keys-Holds

insert_lem_example : insert (some (packed two_keys)) bee ≡ (
    if has_key bee two_keys
    then value unchanged
    else (if fits (insert_sorted bee two_keys)
        then value (replaced (packed (insert_sorted bee two_keys)))
        else length_error))
insert_lem_example =
    insert_lem two_keys bee two_keys-IsKey two_keys-IsSorted two_keys-fits bee-IsKey

erase_lem_example :
    erase (some (packed two_keys)) cat
    ≡ value (if has_key cat two_keys then replaced (packed (erase_key cat two_keys)) else unchanged)
erase_lem_example = erase_lem two_keys cat two_keys-IsKey two_keys-IsSorted two_keys-fits

from_sorted_deduped_lem_example :
    from_sorted_deduped two_keys ≡ (if fits two_keys then value (packed two_keys) else length_error)
from_sorted_deduped_lem_example = from_sorted_deduped_lem two_keys two_keys-IsKey

sorted : is_sorted_deduped two_keys ≡ true
unfolding is_sorted_deduped key_lt
sorted = refl

IsSorted-is_sorted_deduped_example : IsSorted two_keys
IsSorted-is_sorted_deduped_example = IsSorted-is_sorted_deduped two_keys sorted

lower_bound-packed_example :
    lower_bound (some (packed two_keys)) bee ≡ value (begin (some (packed (from_key bee two_keys))))
lower_bound-packed_example = lower_bound-packed two_keys bee two_keys-IsKey

primary_keys_vector-packed_example : primary_keys_vector (some (packed two_keys)) ≡ value two_keys
primary_keys_vector-packed_example = primary_keys_vector-packed two_keys two_keys-IsKey

equals-packed_example :
    (r : Bool) × (equals (some (packed two_keys)) (some (packed three_keys)) ≡ value r)
    × ((r ≡ true) ↔ (two_keys ≡ three_keys))
equals-packed_example = equals-packed two_keys three_keys two_keys-IsKey three_keys-IsKey

decode_record-write_example :
    decode_record (write_record ant ++ write_record bee)
    ≡ value (record {
      start = write_record ant ++ write_record bee;
      val = ant ++ write_record bee;
      next = write_record bee;
      len = 2;
    })
decode_record-write_example = decode_record-write ant-IsKey (write_record bee)

abbrev one_version : TransactionId
one_version = record { epoch = 7; tid = 4 }

abbrev next_version : TransactionId
next_version = record { epoch = 7; tid = 6 }

one_version-IsVersion : IsVersion one_version
one_version-IsVersion = record { epoch_small = omega arith; tid_small = omega arith }

next_version-IsVersion : IsVersion next_version
next_version-IsVersion = record { epoch_small = omega arith; tid_small = omega arith }

unpack_transaction_id-pack_example :
    unpack_transaction_id (pack_transaction_id one_version) ≡ one_version
unpack_transaction_id-pack_example = unpack_transaction_id-pack one_version one_version-IsVersion

tid_lt-pack_example :
    tid_lt one_version next_version
    ≡ ltb (pack_transaction_id one_version) (pack_transaction_id next_version)
tid_lt-pack_example =
    tid_lt-pack one_version next_version one_version-IsVersion next_version-IsVersion

pack-from_word_example : pack_transaction_id (from_word 0x7_0000_0004) ≡ 0x7_0000_0004
pack-from_word_example = pack-from_word 0x7_0000_0004 (omega arith)

abbrev snapshot_of : Key → Key → Snapshot
snapshot_of table key = record {
  key = key;
  is_read_modify_write = false;
  table_name = table;
  index_name = [];
  is_insert = false;
  secondary_index_deltas = record { primary_key = bee; op = add_op } ∷ [];
}

delta_of-record_secondary_index_delta_example :
    delta_of bee
      (record_secondary_index_delta (snapshot_of ant cat) bee remove_op).secondary_index_deltas
    ≡ (if key_eq bee bee
        then some remove_op
        else delta_of bee (snapshot_of ant cat).secondary_index_deltas)
delta_of-record_secondary_index_delta_example =
    delta_of-record_secondary_index_delta bee bee remove_op (snapshot_of ant cat)

ant_table : compare (snapshot_of ant bee) (snapshot_of ant cat) ≡ true
unfolding compare key_eq key_lt
ant_table = refl

bee_table : compare (snapshot_of ant cat) (snapshot_of bee ant) ≡ true
unfolding compare key_eq key_lt
bee_table = refl
