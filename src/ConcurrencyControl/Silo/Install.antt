-- ===== src/ConcurrencyControl/Silo/Install.antt =====
-- What a commit of src/concurrency_control/impl/silo_nwr.hpp does to the items that it has locked, with the
-- copies of src/types/data_item.hpp.
use lineair_db.Base.{
  ℕ, ◌+◌, ◌%◌, ◌^◌, Bool, true, false, not, ◌&&◌, none, some, List, [], ◌∷◌, length, ◌==◌,
  if◌then◌else◌,
}
use lineair_db.Types.Outcome.{Outcome, value, assertion, ◌>>=◌}
use lineair_db.Types.TransactionId.{TransactionId}
use lineair_db.Types.PackedKeys.View.{primary_keys_vector}
use lineair_db.Types.DataItem.{add_secondary_index_value, remove_secondary_index_value}
use lineair_db.Types.Snapshot.{
  SecondaryIndexDelta, SecondaryIndexOp, add_op, remove_op, no_op, full_op,
}
use lineair_db.ConcurrencyControl.Memory.{DataItem, World, tick, store_item, release}
use lineair_db.ConcurrencyControl.Silo.{Entry}
use lineair_db.ConcurrencyControl.Silo.Locking.{is_empty, with_copied_tid}

abbrev pub is_primary_initialized : DataItem → Bool
is_primary_initialized item = not (length item.buffer == 0)

-- `CopyLiveVersionToStableVersion`
unfoldable pub copy_live_version_to_stable_version : DataItem → Outcome DataItem
copy_live_version_to_stable_version item =
    let buffer =
      if length item.checkpoint_buffer == 0 then item.buffer else item.checkpoint_buffer in
    elim item.checkpoint_primary_keys [
      | some keys ↦ value (record item { checkpoint_buffer = buffer })
      | none ↦ do
        keys ← primary_keys_vector item.primary_keys
        value (record item { checkpoint_buffer = buffer; checkpoint_primary_keys = some keys })
    ]

unfoldable pub copy_all : List Entry → World → Outcome World
copy_all [] w = value w
copy_all (e ∷ write_set) w = do
  let here = tick w
  item ← copy_live_version_to_stable_version (here.items e.index_cache)
  copy_all write_set (store_item e.index_cache item here)

-- `operator=`
abbrev pub copied : DataItem → DataItem → DataItem
copied item rhs = record item {
  transaction_id = rhs.transaction_id;
  buffer = rhs.buffer;
  primary_keys = rhs.primary_keys;
}

abbrev pub has_deltas : List SecondaryIndexDelta → Bool
has_deltas [] = false
has_deltas (delta ∷ deltas) = true

-- A write that merges with the keys of its index entry.
unfoldable pub merges_deltas : Entry → Bool
merges_deltas e =
    not (is_empty e.snapshot.index_name)
    && has_deltas e.snapshot.secondary_index_deltas
    && not e.is_unique

unfoldable pub apply_op : SecondaryIndexDelta → DataItem → SecondaryIndexOp → Outcome DataItem
apply_op delta item add_op = do
  keys ← add_secondary_index_value item.primary_keys delta.primary_key
  value (record item { primary_keys = keys })
apply_op delta item remove_op = do
  keys ← remove_secondary_index_value item.primary_keys delta.primary_key
  value (record item { primary_keys = keys })
apply_op delta item no_op = assertion
apply_op delta item full_op = assertion

unfoldable pub apply_deltas : List SecondaryIndexDelta → DataItem → Outcome DataItem
unfolding apply_op
apply_deltas [] item = value item
apply_deltas (delta ∷ deltas) item = do
  changed ← apply_op delta item delta.op
  apply_deltas deltas changed

-- What the item of an entry becomes.
unfoldable pub installed : Entry → DataItem → Outcome DataItem
installed e item =
    if merges_deltas e
    then apply_deltas e.snapshot.secondary_index_deltas item
    else value (copied item e.data_item_copy)

pub record Installed : Type 0 where
  pub write_set : List Entry
  pub world : World

-- The loop of the install. An entry that merges takes the item for its copy, the others keep theirs,
-- which is what the item has become.
unfoldable pub install_all : List Entry → World → Outcome Installed
install_all [] w = value (record { write_set = []; world = w })
install_all (e ∷ write_set) w = do
  let here = tick w
  item ← installed e (here.items e.index_cache)
  rest ← install_all write_set (store_item e.index_cache item here)
  value (record rest {
    write_set = record e { data_item_copy = copied e.data_item_copy item } ∷ rest.write_set;
  })

-- The version of a written item: the first of the epoch, or the next one.
unfoldable pub unlocked_id : ℕ → TransactionId → TransactionId
unlocked_id current_epoch current_tid =
    if not (current_epoch == current_tid.epoch)
    then record { epoch = current_epoch; tid = 2 }
    else record { epoch = current_epoch; tid = (current_tid.tid + 1) % 2 ^ 32 }

-- `PostProcessing` of a transaction that has committed.
unfoldable pub post_processing : ℕ → List Entry → World → Installed
post_processing current_epoch [] w = record { write_set = []; world = w }
post_processing current_epoch (e ∷ write_set) w =
    let id = unlocked_id current_epoch e.data_item_copy.transaction_id in
    let rest = post_processing current_epoch write_set (release e.index_cache id (tick w)) in
    record rest { write_set = with_copied_tid id e ∷ rest.write_set }
