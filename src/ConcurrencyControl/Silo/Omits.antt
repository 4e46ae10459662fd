-- ===== src/ConcurrencyControl/Silo/Omits.antt =====
-- The snapshots behind the exchanges of src/concurrency_control/impl/silo_nwr.hpp where all of them succeed, and
-- what `UpdatePivotObjects` makes of the versions read.
use lineair_db.Base.{
  ℕ, ◌*◌, ◌^◌, ◌%◌, ◌≡◌, refl, ap, arith, true, not, ◌&&◌, List, [], ◌∷◌, ◌==◌, le→leb, Bool-cases,
  inl, inr, if◌then◌else◌,
}
use native.Mathlib.Nat.{zero-div}
use lineair_db.Types.TransactionId.{TransactionId}
use lineair_db.ConcurrencyControl.HalfWordSet.{
  hash, get_by_slot, get, put_lowerside, hashptr, array_size, counter_size,
}
use lineair_db.ConcurrencyControl.PivotObject.{NwrPivotObject}
use lineair_db.ConcurrencyControl.Memory.{World, tick, fails}
use lineair_db.ConcurrencyControl.Silo.{Entry}
use lineair_db.ConcurrencyControl.Silo.Pivots.{rebuilt, update_pivot_objects}
use lineair_db.ConcurrencyControl.Silo.Nwr.{
  PivotObjectSnapshot, Nwr, squash_reads, with_merged, msets_eq, pivot_eq, store_pivot,
  exchange_all,
}

pub exchange_all-snapshots :
    (mine : NwrPivotObject) (snapshots : List PivotObjectSnapshot) (w : World)
    → (exchange_all mine snapshots w).all_cas_succeed ≡ true
    → (exchange_all mine snapshots w).snapshots ≡ snapshots
unfolding exchange_all
exchange_all-snapshots mine [] w h = refl
exchange_all-snapshots mine (s ∷ snapshots) w h =
    let p : ℕ = s.item_p_cache in
    let merged : NwrPivotObject = with_merged s.pv_snapshot mine in
    let stored : World = store_pivot p merged (tick w) in
    elim (Bool-cases (msets_eq merged.msets s.pv_snapshot.msets)) [
      | inl e ↦ rw e (ap (λ l. s ∷ l) (exchange_all-snapshots mine snapshots w (rw e at h)))
      | inr n ↦
          elim (Bool-cases
            (pivot_eq ((tick w).items p).pivot_object s.pv_snapshot && not (fails w))) [
              | inl e ↦
                  rw (n, e)
                    (ap (λ l. s ∷ l)
                      (exchange_all-snapshots mine snapshots stored (rw (n, e) at h)))
              | inr m ↦ absurd (cc (rw (n, m) at h))
            ]
    ]

get-empty : (seed : ℕ) → get 0 seed ≡ 0
unfolding get get_by_slot
get-empty seed = rw (zero-div (2 ^ (counter_size * (hash seed % array_size)))) refl

put_lowerside-empty : (seed version : ℕ) → put_lowerside 0 seed version ≡ 0
unfolding put_lowerside
put_lowerside-empty seed version = rw (get-empty seed, le→leb 0 version (omega arith)) refl

-- Squashed by `PutLowerside` into an empty set, any versions read leave the set empty.
squash_reads-put_lowerside :
    (epoch : ℕ) (read_set : List Entry) → squash_reads put_lowerside epoch read_set 0 ≡ 0
unfolding squash_reads
squash_reads-put_lowerside epoch [] = refl
squash_reads-put_lowerside epoch (e ∷ read_set) =
    let tid : TransactionId = e.data_item_copy.transaction_id in
    rw (put_lowerside-empty (hashptr e.index_cache) (if tid.epoch == epoch then tid.tid else 1))
      (squash_reads-put_lowerside epoch read_set)

-- Where the transaction's set of versions read is still empty, `UpdatePivotObjects` publishes no read:
-- whatever was read, and whatever the other threads do, it ends as it does for an empty read set.
pub update_pivot_objects-unread :
    (epoch : ℕ) (read_set write_set : List Entry) (n : Nwr) (w : World)
    → n.my_pivot_object.msets.rset ≡ 0
    → update_pivot_objects epoch read_set write_set n w
      ≡ update_pivot_objects epoch [] write_set n w
unfolding update_pivot_objects rebuilt squash_reads
update_pivot_objects-unread epoch read_set write_set n w h =
    rw (h, squash_reads-put_lowerside epoch read_set) refl
