-- ===== src/ConcurrencyControl/Silo/Omitted.antt =====
-- The writes that src/concurrency_control/impl/silo_nwr.hpp leaves out.
use lineair_db.Base.{ℕ, ◌≡◌, true, false, List, ◌++◌, All}
use lineair_db.ConcurrencyControl.HalfWordSet.{put_higherside}
use lineair_db.ConcurrencyControl.PivotObject.{acyclic, NwrPivotObject, is_reachable_into}
use lineair_db.ConcurrencyControl.Silo.{Entry}
use lineair_db.ConcurrencyControl.Silo.Install.{merges_deltas}
use lineair_db.ConcurrencyControl.Silo.Nwr.{
  writeset, PivotObjectSnapshot, Nwr, is_writeset, squash_reads, Round, refused, omitted, retried,
}
use lineair_db.ConcurrencyControl.Silo.Overwritten.{
  PivotProperty, Merges, HasPivots, AllSeen, Covers,
}

-- A write whose item had, in the memory, a pivot version of the epoch from which no path leads to this
-- transaction, and which merges nothing.
pub record IsOverwritten (Q : PivotProperty) (epoch : ℕ) (mine : NwrPivotObject) (e : Entry)
    : Type 0 where
  pub pivot : NwrPivotObject
  pub seen : Q e.index_cache pivot
  pub of_epoch : pivot.versions.epoch ≡ epoch
  pub no_path : is_reachable_into pivot mine ≡ acyclic
  pub no_deltas : merges_deltas e ≡ false

-- What holds where the writes are left out: the transaction's own versions are of the epoch and include
-- those that it has read.
pub record IsOmitted (Q : PivotProperty) (epoch : ℕ) (write_set read_set : List Entry) (n : Nwr)
    : Type 0 where
  pub result : n.nwr_validation_result ≡ acyclic
  pub epoch_is : n.my_pivot_object.versions.epoch ≡ epoch
  pub rset : ℕ
  pub reads_in : n.my_pivot_object.msets.rset ≡ squash_reads put_higherside epoch read_set rset
  pub overwritten : All (IsOverwritten Q epoch n.my_pivot_object) write_set

-- The tests of one snapshot.
abbrev IsClear : ℕ → NwrPivotObject → PivotObjectSnapshot → Type 0
IsClear epoch mine s =
    is_writeset s.set_type ≡ true
    → (s.pv_snapshot.versions.epoch ≡ epoch) × (is_reachable_into s.pv_snapshot mine ≡ acyclic)

-- How a round ends: with the writes left out, or with what the next round needs.
abbrev RoundResult : PivotProperty → ℕ → List Entry → List Entry → Round → Type 0
RoundResult Q epoch write_set read_set (refused n w) = Unit
RoundResult Q epoch write_set read_set (retried n w) =
    HasPivots Q w × AllSeen Q n.pivot_object_snapshots
RoundResult Q epoch write_set read_set (omitted n w) = IsOmitted Q epoch write_set read_set n

module _ (Q : PivotProperty) (merges : Merges Q) (epoch : ℕ) (write_set read_set : List Entry)
    (old fresh reads : List PivotObjectSnapshot) (covers : Covers writeset write_set fresh)
    (seen : AllSeen Q fresh) where
  abbrev all_snapshots : List PivotObjectSnapshot
  all_snapshots = old ++ (fresh ++ reads)
