-- ===== src/ConcurrencyControl/StableRead.antt =====
-- src/concurrency_control/stable_read.hpp, the read of a secondary index entry without a transaction. What
-- the loop sees is a list: of each round the version before, the list of keys, and the version after; other
-- threads write between these loads. `none` is a loop that still runs when the list has ended.
use lineair_db.Base.{bit_and, Bool, not, Option, none, some, List, [], ◌∷◌, ◌==◌, if◌then◌else◌}
use lineair_db.Types.TransactionId.{TransactionId, tid_eq}
use lineair_db.Types.PackedKeys.{Ptr}
use lineair_db.Types.PackedKeys.View.{size}

pub record Observation : Type 0 where
  pub before : TransactionId
  pub keys : Ptr
  pub after : TransactionId

pub record StablePrimaryKeys : Type 0 where
  pub found : Bool
  pub primary_keys : Ptr
  pub tid : TransactionId

pub stable_read_primary_keys : List Observation → Option StablePrimaryKeys
stable_read_primary_keys [] = none
stable_read_primary_keys (r ∷ rounds) =
    let rest = stable_read_primary_keys rounds in
    if not (bit_and r.before.tid 1 == 0)
    then rest
    else if tid_eq r.after r.before
    then some (record { found = not (size r.keys == 0); primary_keys = r.keys; tid = r.before })
    else rest
