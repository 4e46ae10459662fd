-- ===== src/ConcurrencyControl/Silo/Overwritten.antt =====
-- What the validation of version orders of src/concurrency_control/impl/silo_nwr.hpp has found where the writes
-- are left out. A property of pivot objects, which the other threads and the merges keep, stands for what is
-- known of the pivot objects in the memory.
use lineair_db.Base.{
  ℕ, ◌≡◌, refl, arith, Bool, true, false, not, ◌&&◌, List, [], ◌∷◌, All, ◌==◌, ==_refl, Bool-cases,
  inl, inr,
}
use lineair_db.Types.TransactionId.{tid_eq}
use lineair_db.ConcurrencyControl.PivotObject.{NwrPivotObject}
use lineair_db.ConcurrencyControl.Memory.{
  DataItem, Items, Others, World, mem, moved, tick_with, tick, fails,
}
use lineair_db.ConcurrencyControl.Silo.{Entry, ValidationItem}
use lineair_db.ConcurrencyControl.Silo.Validation.{anti_dependency_validation}
use lineair_db.ConcurrencyControl.Silo.Nwr.{
  SnapshotFrom, PivotObjectSnapshot, Taken, snapshot_all, with_merged, msets_eq, pivot_eq,
  store_pivot, exchange_all,
}

abbrev pub PivotProperty : Type 1
PivotProperty = ℕ → NwrPivotObject → Type 0

abbrev pub KeepsPivots : PivotProperty → Others → Type 0
KeepsPivots Q o = (s : Items) (p : ℕ) → Q p (s p).pivot_object → Q p (o.items s p).pivot_object

abbrev pub Merges : PivotProperty → Type 0
Merges Q = (p : ℕ) (pivot mine : NwrPivotObject) → Q p pivot → Q p (with_merged pivot mine)

pub record HasPivots (Q : PivotProperty) (w : World) : Type 0 where
  pub items : (p : ℕ) → Q p (w.items p).pivot_object
  pub others : All (KeepsPivots Q) w.others

moved-pivot :
    (Q : PivotProperty) (p : ℕ) (b : Bool) (before after : DataItem)
    → Q p after.pivot_object
    → Q p (moved b before after).pivot_object
moved-pivot Q p true before after h = h
moved-pivot Q p false before after h = h

tick_with-HasPivots :
    (Q : PivotProperty) (others : List Others) (w : World)
    → All (KeepsPivots Q) others
    → HasPivots Q w
    → HasPivots Q (tick_with others w)
tick_with-HasPivots Q [] w k g = g
tick_with-HasPivots Q (o ∷ others) w k g = record {
  items = λ p.
      moved-pivot Q p (mem p w.held) (w.items p) (o.items w.items p) (k.0 w.items p (g.items p));
  others = k.1;
}

tick-HasPivots : (Q : PivotProperty) (w : World) → HasPivots Q w → HasPivots Q (tick w)
unfolding tick
tick-HasPivots Q w g = tick_with-HasPivots Q w.others w g.others g

store_pivot-HasPivots :
    (Q : PivotProperty) (w : World) (p : ℕ) (pivot : NwrPivotObject)
    → HasPivots Q w
    → Q p pivot
    → HasPivots Q (store_pivot p pivot w)
store_pivot-HasPivots Q w p pivot g h = record {
  items = λ q. elim (Bool-cases (q == p)) [
    | inl e ↦ let eq : q ≡ p = ground arith in rw (eq, ==_refl p) h
    | inr n ↦ rw n (g.items q)
  ];
  others = g.others;
}

abbrev pub AllSeen : PivotProperty → List PivotObjectSnapshot → Type 0
AllSeen Q = All (λ (s : PivotObjectSnapshot). Q s.item_p_cache s.pv_snapshot)

-- Snapshots of the items of some entries, one for each.
abbrev pub Covers : SnapshotFrom → List Entry → List PivotObjectSnapshot → Type 0
Covers from [] snapshots = Unit
Covers from (e ∷ entries) [] = ⊥
Covers from (e ∷ entries) (s ∷ snapshots) =
    (s.item_p_cache ≡ e.index_cache) × (s.set_type ≡ from) × Covers from entries snapshots

pub record IsTaken (Q : PivotProperty) (from : SnapshotFrom) (entries : List Entry) (t : Taken)
    : Type 0 where
  pub seen : AllSeen Q t.snapshots
  pub covers : Covers from entries t.snapshots
  pub pivots : HasPivots Q t.world

pub snapshot_all-IsTaken :
    (Q : PivotProperty) (from : SnapshotFrom) (entries : List Entry) (w : World)
    → HasPivots Q w
    → IsTaken Q from entries (snapshot_all from entries w)
unfolding snapshot_all
snapshot_all-IsTaken Q from [] w g = record { seen = tt; covers = tt; pivots = g }
snapshot_all-IsTaken Q from (e ∷ entries) w g =
    let here : HasPivots Q (tick w) = tick-HasPivots Q w g in
    let rest : IsTaken Q from entries (snapshot_all from entries (tick w)) =
      snapshot_all-IsTaken Q from entries (tick w) here in
    record {
      seen = (here.items e.index_cache, rest.seen);
      covers = (refl, refl, rest.covers);
      pivots = rest.pivots;
    }

pub anti_dependency_validation-HasPivots :
    (Q : PivotProperty) (vs : List ValidationItem) (w : World)
    → HasPivots Q w
    → HasPivots Q (anti_dependency_validation vs w).world
unfolding anti_dependency_validation
anti_dependency_validation-HasPivots Q [] w g = g
anti_dependency_validation-HasPivots Q (v ∷ vs) w g =
    let rest = anti_dependency_validation-HasPivots Q vs (tick w) (tick-HasPivots Q w g) in
    elim (Bool-cases
      (not (tid_eq ((tick w).items v.item_p_cache).transaction_id v.transaction_id))) [
        | inl e ↦ rw e (tick-HasPivots Q w g)
        | inr n ↦ rw n rest
      ]

-- What the exchanges leave in the memory and in the snapshots.
pub record IsExchanged (Q : PivotProperty) (snapshots : List PivotObjectSnapshot) (w : World)
    : Type 0 where
  pub seen : AllSeen Q snapshots
  pub pivots : HasPivots Q w

pub exchange_all-IsExchanged :
    (Q : PivotProperty) (mine : NwrPivotObject) (snapshots : List PivotObjectSnapshot) (w : World)
    → Merges Q
    → AllSeen Q snapshots
    → HasPivots Q w
    → IsExchanged Q (exchange_all mine snapshots w).snapshots (exchange_all mine snapshots w).world
unfolding exchange_all
exchange_all-IsExchanged Q mine [] w m a g = record { seen = tt; pivots = g }
exchange_all-IsExchanged Q mine (s ∷ snapshots) w m a g =
    let p : ℕ = s.item_p_cache in
    let merged : NwrPivotObject = with_merged s.pv_snapshot mine in
    let here : HasPivots Q (tick w) = tick-HasPivots Q w g in
    elim (Bool-cases (msets_eq merged.msets s.pv_snapshot.msets)) [
      | inl e ↦
          let rest = exchange_all-IsExchanged Q mine snapshots w m a.1 g in
          rw e (record { seen = (a.0, rest.seen); pivots = rest.pivots })
      | inr n ↦
          elim (Bool-cases
            (pivot_eq ((tick w).items p).pivot_object s.pv_snapshot && not (fails w))) [
              | inl e ↦
                  let rest =
                    exchange_all-IsExchanged Q mine snapshots (store_pivot p merged (tick w)) m a.1
                      (store_pivot-HasPivots Q (tick w) p merged here
                        (m p s.pv_snapshot mine a.0)) in
                  rw (n, e) (record { seen = (a.0, rest.seen); pivots = rest.pivots })
              | inr f ↦ rw (n, f) (record { seen = (here.items p, a.1); pivots = here })
            ]
    ]
