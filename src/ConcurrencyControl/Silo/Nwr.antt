-- ===== src/ConcurrencyControl/Silo/Nwr.antt =====
-- `IsOmittable` of src/concurrency_control/impl/silo_nwr.hpp: whether the writes may be left out, since
-- each of them would be overwritten at once in the order of versions that the pivot objects give.
use lineair_db.Base.{
  ℕ, zero, suc, Bool, true, false, not, ◌&&◌, ◌||◌, List, [], ◌∷◌, ◌++◌, ◌==◌, if◌then◌else◌,
}
use lineair_db.Types.Outcome.{Outcome, value, out_of_fuel}
use lineair_db.ConcurrencyControl.HalfWordSet.{hashptr, put_higherside, merge}
use lineair_db.ConcurrencyControl.PivotObject.{
  NwrValidationResult, acyclic, rw_path, wr_path, anti_dependency, linearizability,
  not_yet_validated, NwrPivotObject, MergedSets, is_reachable_into,
}
use lineair_db.ConcurrencyControl.Memory.{World, tick, fails, store_item}
use lineair_db.ConcurrencyControl.Silo.{Entry, ValidationItem}
use lineair_db.ConcurrencyControl.Silo.Validation.{Checked, anti_dependency_validation}
use lineair_db.ConcurrencyControl.Silo.Install.{merges_deltas}

pub data SnapshotFrom : Type 0 where
  readset writeset : SnapshotFrom

pub record PivotObjectSnapshot : Type 0 where
  pub item_p_cache : ℕ
  pub pv_snapshot : NwrPivotObject
  pub set_type : SnapshotFrom

-- The members of the protocol that the validation of version orders uses.
pub record Nwr : Type 0 where
  pub nwr_validation_result : NwrValidationResult
  pub my_pivot_object : NwrPivotObject
  pub pivot_object_snapshots : List PivotObjectSnapshot

pub record Taken : Type 0 where
  pub snapshots : List PivotObjectSnapshot
  pub world : World

-- The pivot objects of a set, loaded one after the other.
unfoldable pub snapshot_all : SnapshotFrom → List Entry → World → Taken
snapshot_all from [] w = record { snapshots = []; world = w }
snapshot_all from (e ∷ entries) w =
    let loaded = tick w in
    let rest = snapshot_all from entries loaded in
    record rest {
      snapshots =
          record {
            item_p_cache = e.index_cache;
            pv_snapshot = (loaded.items e.index_cache).pivot_object;
            set_type = from;
          }
          ∷ rest.snapshots;
    }

abbrev pub is_writeset : SnapshotFrom → Bool
is_writeset writeset = true
is_writeset readset = false

-- Whether each item to be written has a pivot version of the epoch.
unfoldable pub are_of_epoch : ℕ → List PivotObjectSnapshot → Bool
are_of_epoch epoch [] = true
are_of_epoch epoch (s ∷ snapshots) =
    let rest = are_of_epoch epoch snapshots in
    if is_writeset s.set_type && not (s.pv_snapshot.versions.epoch == epoch) then false else rest

-- The versions read, squashed into a set by `PutHigherside` or by `PutLowerside`.
unfoldable pub squash_reads : (ℕ → ℕ → ℕ → ℕ) → ℕ → List Entry → ℕ → ℕ
squash_reads put epoch [] rset = rset
squash_reads put epoch (e ∷ read_set) rset =
    let tid = e.data_item_copy.transaction_id in
    squash_reads put epoch read_set
      (put rset (hashptr e.index_cache) (if tid.epoch == epoch then tid.tid else 1))

unfoldable pub squash_pivots : List PivotObjectSnapshot → ℕ → ℕ
squash_pivots [] wset = wset
squash_pivots (s ∷ snapshots) wset = squash_pivots snapshots (
    if is_writeset s.set_type
    then put_higherside wset (hashptr s.item_p_cache) s.pv_snapshot.versions.target_id
    else wset)

abbrev pub is_acyclic : NwrValidationResult → Bool
is_acyclic acyclic = true
is_acyclic rw_path = false
is_acyclic wr_path = false
is_acyclic anti_dependency = false
is_acyclic linearizability = false
is_acyclic not_yet_validated = false

-- The first path from a pivot version to this transaction, if there is one.
unfoldable pub first_path : NwrPivotObject → List PivotObjectSnapshot → NwrValidationResult
first_path mine [] = acyclic
first_path mine (s ∷ snapshots) =
    let rest = first_path mine snapshots in
    let result = is_reachable_into s.pv_snapshot mine in
    if is_writeset s.set_type && not (is_acyclic result) then result else rest

unfoldable pub requires_lock_based_install : List Entry → Bool
requires_lock_based_install [] = false
requires_lock_based_install (e ∷ write_set) =
    let rest = requires_lock_based_install write_set in if merges_deltas e then true else rest

abbrev pub with_merged : NwrPivotObject → NwrPivotObject → NwrPivotObject
with_merged pivot mine = record pivot {
  msets = record {
    rset = merge pivot.msets.rset mine.msets.rset;
    wset = merge pivot.msets.wset mine.msets.wset;
  };
}

unfoldable pub msets_eq : MergedSets → MergedSets → Bool
msets_eq a b = a.rset == b.rset && a.wset == b.wset

unfoldable pub pivot_eq : NwrPivotObject → NwrPivotObject → Bool
pivot_eq a b =
    a.versions.target_id == b.versions.target_id
    && a.versions.epoch == b.versions.epoch
    && msets_eq a.msets b.msets

abbrev pub store_pivot : ℕ → NwrPivotObject → World → World
store_pivot p pivot w = store_item p (record (w.items p) { pivot_object = pivot }) w

pub record Exchanged : Type 0 where
  pub all_cas_succeed : Bool
  pub snapshots : List PivotObjectSnapshot
  pub world : World

-- The merges into the pivot objects. An exchange that fails leaves in its snapshot what it has found.
unfoldable pub exchange_all : NwrPivotObject → List PivotObjectSnapshot → World → Exchanged
exchange_all mine [] w = record { all_cas_succeed = true; snapshots = []; world = w }
exchange_all mine (s ∷ snapshots) w =
    let p = s.item_p_cache in
    let merged = with_merged s.pv_snapshot mine in
    let same = msets_eq merged.msets s.pv_snapshot.msets in
    let here = tick w in
    let found = (here.items p).pivot_object in
    let rest = exchange_all mine snapshots (if same then w else store_pivot p merged here) in
    if same || (pivot_eq found s.pv_snapshot && not (fails w))
    then record rest { snapshots = s ∷ rest.snapshots }
    else record {
      all_cas_succeed = false;
      snapshots = record s { pv_snapshot = found } ∷ snapshots;
      world = here;
    }

-- How one round ends.
pub data Round : Type 0 where
  refused omitted retried : Nwr → World → Round

-- What follows the anti-dependency validation.
unfoldable pub exchange_round : List Entry → Nwr → Checked → Round
exchange_round write_set n checked =
    let x = exchange_all n.my_pivot_object n.pivot_object_snapshots checked.world in
    if not checked.valid
    then refused (record n { nwr_validation_result = anti_dependency }) checked.world
    else if requires_lock_based_install write_set
    then refused n checked.world
    else if not x.all_cas_succeed
    then retried (record n { pivot_object_snapshots = x.snapshots }) x.world
    else omitted
        (record n { pivot_object_snapshots = x.snapshots; nwr_validation_result = acyclic }) x.world

abbrev pub squashed : ℕ → List Entry → Nwr → NwrPivotObject
squashed epoch read_set n = record n.my_pivot_object {
  versions = record n.my_pivot_object.versions { epoch = epoch };
  msets = record {
    rset = squash_reads put_higherside epoch read_set n.my_pivot_object.msets.rset;
    wset = squash_pivots n.pivot_object_snapshots n.my_pivot_object.msets.wset;
  };
}

-- `n` has the snapshots of this round behind those of the former ones.
unfoldable pub validate_round :
    ℕ → List Entry → List Entry → List ValidationItem → Nwr → World → Round
validate_round epoch write_set read_set validation_set n w =
    let mine = squashed epoch read_set n in
    let path = first_path mine n.pivot_object_snapshots in
    if not (are_of_epoch epoch n.pivot_object_snapshots)
    then refused (record n { nwr_validation_result = linearizability }) w
    else if not (is_acyclic path)
    then refused (record n { my_pivot_object = mine; nwr_validation_result = path }) w
    else exchange_round write_set (record n { my_pivot_object = mine })
        (anti_dependency_validation validation_set w)

abbrev pub snapshot_round : List Entry → List Entry → Nwr → World → Nwr
snapshot_round write_set read_set n w =
    let writes = snapshot_all writeset write_set w in
    let reads = snapshot_all readset read_set writes.world in
    record n {
      pivot_object_snapshots = n.pivot_object_snapshots ++ (writes.snapshots ++ reads.snapshots);
    }

abbrev pub snapshot_world : List Entry → List Entry → World → World
snapshot_world write_set read_set w =
    (snapshot_all readset read_set (snapshot_all writeset write_set w).world).world

pub record Omission : Type 0 where
  pub omittable : Bool
  pub nwr : Nwr
  pub world : World

-- The fuel counts the rounds, which are the calls of `IsOmittable` by itself.
unfoldable pub is_omittable :
    ℕ → ℕ → List Entry → List Entry → List ValidationItem → Nwr → World → Outcome Omission
unfolding validate_round
is_omittable zero epoch write_set read_set validation_set n w = out_of_fuel
is_omittable (suc fuel) epoch write_set read_set validation_set n w =
    elim (validate_round epoch write_set read_set validation_set
      (snapshot_round write_set read_set n w) (snapshot_world write_set read_set w)) [
        | refused n' w' ↦ value (record { omittable = false; nwr = n'; world = w' })
        | omitted n' w' ↦ value (record { omittable = true; nwr = n'; world = w' })
        | retried n' w' ↦ is_omittable fuel epoch write_set read_set validation_set n' w'
      ]
