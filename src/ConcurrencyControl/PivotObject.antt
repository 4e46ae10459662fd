-- ===== src/ConcurrencyControl/PivotObject.antt =====
-- src/concurrency_control/pivot_object.hpp: what the NWR protocol keeps with a data item.
pub mod Reachable
use lineair_db.Base.{ℕ, Bool, not, ◌==◌, if◌then◌else◌}
use lineair_db.ConcurrencyControl.HalfWordSet.{is_greater_than, is_greater_or_equal_than}

pub data NwrValidationResult : Type 0 where
  acyclic rw_path wr_path anti_dependency linearizability not_yet_validated : NwrValidationResult

pub record Versions : Type 0 where
  pub target_id : ℕ
  pub epoch : ℕ

pub record MergedSets : Type 0 where
  pub rset : ℕ
  pub wset : ℕ

pub record NwrPivotObject : Type 0 where
  pub versions : Versions
  pub msets : MergedSets

unfoldable pub is_reachable_into : NwrPivotObject → NwrPivotObject → NwrValidationResult
is_reachable_into lhs rhs =
    if is_greater_or_equal_than rhs.msets.rset lhs.msets.wset
    then wr_path
    else if is_greater_than rhs.msets.wset lhs.msets.rset
    then rw_path
    else acyclic

pub is_concurrent_with : NwrPivotObject → NwrPivotObject → NwrValidationResult
is_concurrent_with lhs rhs =
    if not (rhs.versions.epoch == lhs.versions.epoch) then linearizability else acyclic
