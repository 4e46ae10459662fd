-- ===== src/Recovery/Replay.antt =====
-- The fold of `BuildRecoverySet` of src/recovery/logger.cpp: the log records become the rows and the
-- operations on index entries that the database replays. A hash map is the list of its entries in the order
-- of their insertion.
pub mod Newest
pub mod Recovered
pub mod Distinct
pub mod Groups
use lineair_db.Base.{
  ℕ, Bool, true, false, not, ◌&&◌, ◌||◌, List, [], ◌∷◌, ◌++◌, ◌==◌, if◌then◌else◌,
}
use lineair_db.Types.Keys.{Key, key_eq}
use lineair_db.Types.TransactionId.{TransactionId, tid_lt}
use lineair_db.Types.PackedKeys.Layout.{insert_sorted}
use lineair_db.Recovery.LogRecord.{KeyValuePair, LogRecord}

-- An entry of one of the two maps.
pub record Cell {ℓ κ} (K : Type ℓ) (V : Type κ) : Type (ℓ ⊔ κ) where
  pub key : K
  pub tid : TransactionId
  pub val : V

module _ {ℓ κ} {K : Type ℓ} {V : Type κ} (eq : K → K → Bool) where
  -- The entry of a key is made, or replaced by a newer one.
  unfoldable pub put_newest : Cell K V → List (Cell K V) → List (Cell K V)
  put_newest new [] = new ∷ []
  put_newest new (cell ∷ cells) =
      let rest = put_newest new cells in
      if eq cell.key new.key
      then (if tid_lt cell.tid new.tid then new ∷ cells else cell ∷ cells)
      else cell ∷ rest

-- `SecondaryIndexOp` as it is logged.
abbrev pub add_raw : ℕ
add_raw = 1

abbrev pub full_raw : ℕ
full_raw = 3

-- The key of a row, and what is kept of it; the key of an operation on an index entry.
pub record RowKey : Type 0 where
  pub table_name : Key
  pub key : Key

pub record Row : Type 0 where
  pub buffer : List ℕ
  pub index_type : ℕ

pub record SecondaryOpKey : Type 0 where
  pub table_name : Key
  pub index_name : Key
  pub index_type : ℕ
  pub secondary_key : Key
  pub primary_key : Key

unfoldable pub row_key_eq : RowKey → RowKey → Bool
row_key_eq a b = key_eq a.table_name b.table_name && key_eq a.key b.key

-- The entry of an index that an operation is on.
pub record SecondaryGroupKey : Type 0 where
  pub table_name : Key
  pub index_name : Key
  pub index_type : ℕ
  pub secondary_key : Key

abbrev pub group_of : SecondaryOpKey → SecondaryGroupKey
group_of k = record {
  table_name = k.table_name;
  index_name = k.index_name;
  index_type = k.index_type;
  secondary_key = k.secondary_key;
}

unfoldable pub group_eq : SecondaryGroupKey → SecondaryGroupKey → Bool
group_eq a b =
    key_eq a.table_name b.table_name
    && key_eq a.index_name b.index_name
    && a.index_type == b.index_type
    && key_eq a.secondary_key b.secondary_key

unfoldable pub op_key_eq : SecondaryOpKey → SecondaryOpKey → Bool
op_key_eq a b = group_eq (group_of a) (group_of b) && key_eq a.primary_key b.primary_key

abbrev pub is_empty {ℓ} : {A : Type ℓ} → List A → Bool
is_empty [] = true
is_empty (x ∷ xs) = false

unfoldable pub is_secondary_index : KeyValuePair → Bool
is_secondary_index kvp =
    not (is_empty kvp.index_name)
    || not (kvp.secondary_op == 0)
    || not (is_empty kvp.primary_keys)
    || not (is_empty kvp.secondary_primary_key)
    || not (kvp.index_type == 0)

abbrev pub row_cell : KeyValuePair → Cell RowKey Row
row_cell kvp = record {
  key = record { table_name = kvp.table_name; key = kvp.key };
  tid = kvp.tid;
  val = record { buffer = kvp.buffer; index_type = kvp.index_type };
}

abbrev pub op_cell : KeyValuePair → Key → ℕ → Cell SecondaryOpKey ℕ
op_cell kvp primary_key op = record {
  key = record {
    table_name = kvp.table_name;
    index_name = kvp.index_name;
    index_type = kvp.index_type;
    secondary_key = kvp.key;
    primary_key = primary_key;
  };
  tid = kvp.tid;
  val = op;
}

-- `recovery_set` with `primary_position`, and `secondary_latest`.
pub record Replay : Type 0 where
  pub rows : List (Cell RowKey Row)
  pub secondary_latest : List (Cell SecondaryOpKey ℕ)

-- An entry with all its primary keys stands for the addition of each of them.
unfoldable pub put_full :
    KeyValuePair → List Key → List (Cell SecondaryOpKey ℕ) → List (Cell SecondaryOpKey ℕ)
put_full kvp [] cells = cells
put_full kvp (pk ∷ primary_keys) cells =
    put_full kvp primary_keys (put_newest op_key_eq (op_cell kvp pk add_raw) cells)

unfoldable pub put_op : KeyValuePair → List (Cell SecondaryOpKey ℕ) → List (Cell SecondaryOpKey ℕ)
put_op kvp cells =
    if kvp.secondary_op == full_raw
    then put_full kvp kvp.primary_keys cells
    else if not (is_empty kvp.secondary_primary_key)
    then put_newest op_key_eq (op_cell kvp kvp.secondary_primary_key kvp.secondary_op) cells
    else cells

unfoldable pub replay_pair : KeyValuePair → Replay → Replay
replay_pair kvp r =
    if is_secondary_index kvp
    then record r { secondary_latest = put_op kvp r.secondary_latest }
    else record r { rows = put_newest row_key_eq (row_cell kvp) r.rows }

unfoldable pub replay_pairs : List KeyValuePair → Replay → Replay
replay_pairs [] r = r
replay_pairs (kvp ∷ pairs) r = replay_pairs pairs (replay_pair kvp r)

unfoldable pub replay_records : List LogRecord → Replay → Replay
replay_records [] r = r
replay_records (log_record ∷ records) r =
    replay_records records (replay_pairs log_record.key_value_pairs r)

-- The image is folded ahead of the tail of the log.
unfoldable pub fold_records : List LogRecord → List LogRecord → Replay
fold_records image tail =
    replay_records tail (replay_records image (record { rows = []; secondary_latest = [] }))

-- An entry of `grouped_secondary`.
pub record Group : Type 0 where
  pub key : SecondaryGroupKey
  pub max_tid : TransactionId
  pub primary_keys : List Key

abbrev pub later_of : TransactionId → TransactionId → TransactionId
later_of max_tid tid = if tid_lt max_tid tid then tid else max_tid

unfoldable pub add_to_group : Cell SecondaryOpKey ℕ → List Group → List Group
add_to_group cell [] =
    record {
      key = group_of cell.key;
      max_tid = later_of (record { epoch = 0; tid = 0 }) cell.tid;
      primary_keys = cell.key.primary_key ∷ [];
    }
    ∷ []
add_to_group cell (g ∷ groups) =
    let rest = add_to_group cell groups in
    if group_eq g.key (group_of cell.key)
    then record g {
      max_tid = later_of g.max_tid cell.tid;
      primary_keys = g.primary_keys ++ (cell.key.primary_key ∷ []);
    }
      ∷ groups
    else g ∷ rest

-- The operations that add, grouped by their entry.
unfoldable pub group_all : List (Cell SecondaryOpKey ℕ) → List Group → List Group
group_all [] groups = groups
group_all (cell ∷ cells) groups =
    group_all cells (if not (cell.val == add_raw) then groups else add_to_group cell groups)

-- `std::sort` of the keys, and the erasure of the doubles that `std::unique` finds.
unfoldable pub sort_unique : List Key → List Key
sort_unique [] = []
sort_unique (pk ∷ primary_keys) = insert_sorted pk (sort_unique primary_keys)

abbrev pub sorted_group : Group → Group
sorted_group g = record g { primary_keys = sort_unique g.primary_keys }

abbrev pub sorted_groups : List Group → List Group
sorted_groups [] = []
sorted_groups (g ∷ groups) = sorted_group g ∷ sorted_groups groups

-- The entries of indexes behind the rows. No group is without a key.
unfoldable pub recovered_entries : List LogRecord → List LogRecord → List Group
recovered_entries image tail =
    sorted_groups (group_all (fold_records image tail).secondary_latest [])
