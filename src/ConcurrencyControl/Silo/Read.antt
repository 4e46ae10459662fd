-- ===== src/ConcurrencyControl/Silo/Read.antt =====
-- `Read` and `ReadUnvalidated` of src/concurrency_control/impl/silo_nwr.hpp.
use lineair_db.Base.{ℕ, zero, suc, List, [], ◌∷◌, ◌++◌, length, if◌then◌else◌, ◌||◌, not}
use lineair_db.Types.Outcome.{Outcome, value, out_of_fuel, ◌>>=◌}
use lineair_db.Types.TransactionId.{TransactionId, tid_eq}
use lineair_db.ConcurrencyControl.Memory.{DataItem, World, tick, is_locked}
use lineair_db.ConcurrencyControl.Silo.{ValidationItem}

-- What was read, and the memory as the last load has seen it.
pub record Seen : Type 0 where
  pub item : DataItem
  pub transaction_id : TransactionId
  pub world : World

-- The copy takes the version, the buffer and the pointer to the keys one after the other, and others may
-- write between: `snapshot` has each from the memory of its own access.
unfoldable pub read_loop : ℕ → ℕ → World → Outcome Seen
read_loop zero p w = out_of_fuel
read_loop (suc fuel) p w =
    let before = tick w in
    let tx_id = (before.items p).transaction_id in
    let copies_tid = tick before in
    let copies_buffer = tick copies_tid in
    let copies_keys = tick copies_buffer in
    let after = tick copies_keys in
    let again = read_loop fuel p (if is_locked tx_id then before else after) in
    if is_locked tx_id || not (tid_eq (after.items p).transaction_id tx_id)
    then again
    else value (record {
      item = record (copies_tid.items p) {
        buffer = (copies_buffer.items p).buffer;
        primary_keys = (copies_keys.items p).primary_keys;
      };
      transaction_id = tx_id;
      world = after;
    })

unfoldable pub read_unvalidated : ℕ → World → Outcome Seen
unfolding read_loop
read_unvalidated p w = read_loop (suc (length w.others)) p w

pub record Validated : Type 0 where
  pub seen : Seen
  pub validation_set : List ValidationItem

unfoldable pub read : ℕ → List ValidationItem → World → Outcome Validated
read p validation_set w = do
  seen ← read_unvalidated p w
  value (record {
    seen = seen;
    validation_set =
        validation_set ++ (record { item_p_cache = p; transaction_id = seen.transaction_id } ∷ []);
  })
