-- ===== src/ConcurrencyControl/Silo.antt =====
-- src/concurrency_control/impl/silo_nwr.hpp: the protocols `Silo` and `SiloNWR`. A loop that waits runs on
-- one round more than the others have moves, and `out_of_fuel` is a loop that still waits when no other
-- thread moves any more.
pub mod Read
mod Tests
pub mod Locking
pub mod Install
pub mod Validation
pub mod Nwr
pub mod Pivots
pub mod Commit
pub mod Still
pub mod Aborts
pub mod PivotsOnly
pub mod Commits
pub mod Passes
pub mod Installs
pub mod Omits
pub mod Overwritten
pub mod Validated
pub mod Omitted
pub mod Onward
pub mod OnwardPivots
pub mod Serial
pub mod Sorted
use lineair_db.Base.{ℕ, Bool, true, false, Option, none, some, List, [], ◌∷◌, if◌then◌else◌}
use lineair_db.Types.TransactionId.{TransactionId}
use lineair_db.Types.Snapshot.{Snapshot, compare}
use lineair_db.ConcurrencyControl.Memory.{DataItem}

-- What `Snapshot` of src/types/snapshot.hpp holds beside the names: the copy of the item, the item, the
-- kind of its index, and the indexes that may still be null.
pub record Entry : Type 0 where
  pub snapshot : Snapshot
  pub data_item_copy : DataItem
  pub index_cache : ℕ
  pub is_unique : Bool
  pub pi_ref : Option ℕ
  pub si_ref : Option ℕ

pub record ValidationItem : Type 0 where
  pub item_p_cache : ℕ
  pub transaction_id : TransactionId

unfoldable pub insert_entry : Entry → List Entry → List Entry
insert_entry e [] = e ∷ []
insert_entry e (f ∷ entries) =
    let rest = insert_entry e entries in
    if compare f.snapshot e.snapshot then f ∷ rest else e ∷ f ∷ entries

-- `std::sort` of the write set by `Snapshot::Compare`.
unfoldable pub sort_entries : List Entry → List Entry
unfolding insert_entry
sort_entries [] = []
sort_entries (e ∷ entries) = insert_entry e (sort_entries entries)
