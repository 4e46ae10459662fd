-- ===== src/ConcurrencyControl/Silo/Validation.antt =====
-- `AntiDependencyValidation` of src/concurrency_control/impl/silo_nwr.hpp.
use lineair_db.Base.{Bool, true, false, not, List, [], ◌∷◌, if◌then◌else◌}
use lineair_db.Types.TransactionId.{tid_eq}
use lineair_db.ConcurrencyControl.Memory.{World, tick}
use lineair_db.ConcurrencyControl.Silo.{ValidationItem}

pub record Checked : Type 0 where
  pub valid : Bool
  pub world : World

-- `AntiDependencyValidation`, and `ObservedReadsStillValid`, which is the same loop.
unfoldable pub anti_dependency_validation : List ValidationItem → World → Checked
anti_dependency_validation [] w = record { valid = true; world = w }
anti_dependency_validation (v ∷ validation_set) w =
    let loaded = tick w in
    let rest = anti_dependency_validation validation_set loaded in
    if not (tid_eq (loaded.items v.item_p_cache).transaction_id v.transaction_id)
    then record { valid = false; world = loaded }
    else rest
