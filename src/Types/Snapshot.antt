-- ===== src/Types/Snapshot.antt =====
-- src/types/snapshot.hpp: an entry of a transaction's read or write set. The copied data item and the
-- references to the index, the table and the entry are left out: nothing here reads them.
pub mod Deltas
pub mod Order
use lineair_db.Base.{ℕ, Bool, not, List, [], ◌∷◌, if◌then◌else◌}
use lineair_db.Types.Keys.{Key, key_eq, key_lt}

-- `SecondaryIndexOp` of src/types/definitions.h
pub data SecondaryIndexOp : Type 0 where
  no_op add_op remove_op full_op : SecondaryIndexOp

pub record SecondaryIndexDelta : Type 0 where
  pub primary_key : Key
  pub op : SecondaryIndexOp

pub record Snapshot : Type 0 where
  pub key : Key
  pub is_read_modify_write : Bool
  pub table_name : Key
  pub index_name : Key
  pub is_insert : Bool
  pub secondary_index_deltas : List SecondaryIndexDelta

-- The loop of `RecordSecondaryIndexDelta`, and what follows it.
record_delta : Key → SecondaryIndexOp → List SecondaryIndexDelta → List SecondaryIndexDelta
record_delta primary_key op [] = record { primary_key = primary_key; op = op } ∷ []
record_delta primary_key op (delta ∷ deltas) =
    let rest = record_delta primary_key op deltas in
    if key_eq delta.primary_key primary_key then record delta { op = op } ∷ deltas else delta ∷ rest

pub record_secondary_index_delta : Snapshot → Key → SecondaryIndexOp → Snapshot
unfolding record_delta
record_secondary_index_delta s primary_key op = record s {
  secondary_index_deltas = record_delta primary_key op s.secondary_index_deltas;
}

unfoldable pub compare : Snapshot → Snapshot → Bool
compare left right =
    if not (key_eq left.table_name right.table_name)
    then key_lt left.table_name right.table_name
    else if not (key_eq left.index_name right.index_name)
    then key_lt left.index_name right.index_name
    else key_lt left.key right.key
