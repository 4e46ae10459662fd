-- ===== src/Types/DataItem.antt =====
-- src/types/data_item.hpp, the primary keys that a secondary index entry holds.
pub mod PrimaryKeys
pub mod Sets
use lineair_db.Base.{
  ℕ, Bool, true, false, not, ◌&&◌, Option, none, some, List, [], ◌∷◌, if◌then◌else◌,
}
use lineair_db.Types.Outcome.{Outcome, value, ◌>>=◌, ◌>>◌, assert}
use lineair_db.Types.Keys.{Key, key_lt}
use lineair_db.Types.PackedKeys.{Ptr, from_sorted_deduped, insert, erase, updated}

-- `IsSortedDeduped`: no two neighbours that are not ascending.
unfoldable pub is_sorted_deduped : List Key → Bool
is_sorted_deduped [] = true
is_sorted_deduped (x ∷ []) = true
is_sorted_deduped (x ∷ y ∷ keys) = if not (key_lt x y) then false else is_sorted_deduped (y ∷ keys)

-- Each returns what `primary_keys_` points to afterwards.
pub set_primary_keys : List Key → Outcome Ptr
set_primary_keys keys = do
  assert (is_sorted_deduped keys)
  packed ← from_sorted_deduped keys
  value (some packed)

pub add_secondary_index_value : Ptr → Key → Outcome Ptr
add_secondary_index_value current key = do next ← insert current key; value (updated current next)

unfoldable pub remove_secondary_index_value : Ptr → Key → Outcome Ptr
remove_secondary_index_value current key = do next ← erase current key; value (updated current next)
