-- ===== src/ConcurrencyControl/Silo/Locking.antt =====
-- How `Precommit` of src/concurrency_control/impl/silo_nwr.hpp locks the write set.
pub mod Keeps
pub mod Waits
pub mod Copies
use lineair_db.Base.{
  ℕ, zero, suc, Bool, true, false, not, ◌&&◌, Option, none, some, List, [], ◌∷◌, length, ◌==◌,
  if◌then◌else◌,
}
use lineair_db.Types.Keys.{Key}
use lineair_db.Types.Outcome.{Outcome, value, out_of_fuel, ◌>>=◌}
use lineair_db.Types.TransactionId.{TransactionId, tid_eq}
use lineair_db.ConcurrencyControl.Memory.{
  World, tick, fails, is_locked, locked, decremented, with_tid, take_lock, release,
}
use lineair_db.ConcurrencyControl.Silo.{Entry, ValidationItem}

-- The loop that locks one item.
unfoldable pub lock_loop : ℕ → ℕ → World → Outcome World
lock_loop zero p w = out_of_fuel
lock_loop (suc fuel) p w =
    let loaded = tick w in
    let current = (loaded.items p).transaction_id in
    let exchanged = tick loaded in
    let again = lock_loop fuel p (if is_locked current then loaded else exchanged) in
    if is_locked current
    then again
    else if tid_eq (exchanged.items p).transaction_id current && not (fails loaded)
    then value (take_lock p exchanged)
    else again

-- `unlock_locked_items`
unfoldable pub unlock_item : ℕ → World → World
unlock_item p w =
    let current = (w.items p).transaction_id in
    if is_locked current then release p (decremented current) w else w

unfoldable pub unlock_locked_items : List ℕ → World → World
unfolding unlock_item
unlock_locked_items [] w = w
unlock_locked_items (p ∷ locked_items) w = unlock_locked_items locked_items (unlock_item p (tick w))

abbrev pub is_item : ℕ → Option ℕ → Bool
is_item p none = false
is_item p (some q) = p == q

abbrev pub finds : World → Entry → Option ℕ → Bool
finds w e none = true
finds w e (some index) = is_item e.index_cache (w.indexes index e.snapshot.key)

abbrev pub is_empty : Key → Bool
is_empty [] = true
is_empty (b ∷ s) = false

-- Whether the index still has the entry's item at its key, as far as that is checked.
unfoldable pub is_attached : World → Entry → Bool
is_attached w e = if is_empty e.snapshot.index_name then finds w e e.pi_ref else finds w e e.si_ref

-- Of an item's reads, the versions with the lock bit set.
abbrev pub marked : ℕ → ValidationItem → ValidationItem
marked p v =
    if v.item_p_cache == p then record v { transaction_id = locked v.transaction_id } else v

unfoldable pub mark_own : ℕ → List ValidationItem → List ValidationItem
mark_own p [] = []
mark_own p (v ∷ validation_set) = marked p v ∷ mark_own p validation_set

pub record Locked : Type 0 where
  pub acquired : Bool
  pub write_set : List Entry
  pub validation_set : List ValidationItem
  pub world : World

abbrev pub with_copied_tid : TransactionId → Entry → Entry
with_copied_tid t e = record e { data_item_copy = with_tid t e.data_item_copy }

abbrev pub gives_up : List Entry → List ValidationItem → World → Locked
gives_up write_set validation_set w = record {
  acquired = false;
  write_set = write_set;
  validation_set = validation_set;
  world = unlock_locked_items w.held w;
}

-- The loop over the write set.
unfoldable pub lock_all : List Entry → List ValidationItem → World → Outcome Locked
unfolding lock_loop is_attached
lock_all [] validation_set w =
    value (record { acquired = true; write_set = []; validation_set = validation_set; world = w })
lock_all (e ∷ write_set) validation_set w = do
  taken ← lock_loop (suc (length w.others)) e.index_cache w
  let entry = with_copied_tid (taken.items e.index_cache).transaction_id e
  let got = tick taken
  let locking = lock_all write_set (mark_own e.index_cache validation_set) got
  if is_attached got e
      then (do rest ← locking; value (record rest { write_set = entry ∷ rest.write_set }))
      else value (gives_up (entry ∷ write_set) validation_set got)
