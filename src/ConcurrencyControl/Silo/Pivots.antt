-- ===== src/ConcurrencyControl/Silo/Pivots.antt =====
-- `UpdatePivotObjects` of src/concurrency_control/impl/silo_nwr.hpp.
use lineair_db.Base.{
  ℕ, zero, suc, ◌+◌, ◌%◌, ◌^◌, not, ◌&&◌, Option, none, some, List, [], ◌∷◌, length, ◌==◌,
  if◌then◌else◌,
}
use lineair_db.Types.Outcome.{Outcome, value, out_of_fuel, ◌>>=◌}
use lineair_db.ConcurrencyControl.HalfWordSet.{hashptr, put_higherside, put_lowerside}
use lineair_db.ConcurrencyControl.PivotObject.{NwrPivotObject}
use lineair_db.ConcurrencyControl.Memory.{World, tick, fails}
use lineair_db.ConcurrencyControl.Silo.{Entry}
use lineair_db.ConcurrencyControl.Silo.Nwr.{
  PivotObjectSnapshot, Nwr, is_writeset, squash_reads, with_merged, pivot_eq, store_pivot,
}

-- The versions that the entries will have when they are unlocked.
unfoldable pub squash_writes : ℕ → List Entry → ℕ → ℕ
squash_writes epoch [] wset = wset
squash_writes epoch (e ∷ write_set) wset =
    let tid = e.data_item_copy.transaction_id in
    squash_writes epoch write_set (
      put_higherside wset (hashptr e.index_cache)
        (if tid.epoch == epoch then (tid.tid + 1) % 2 ^ 32 else 2))

unfoldable pub rebuilt : ℕ → List Entry → List Entry → NwrPivotObject → NwrPivotObject
rebuilt epoch read_set write_set mine = record mine {
  versions = record mine.versions { epoch = epoch };
  msets = record {
    rset = squash_reads put_lowerside epoch read_set mine.msets.rset;
    wset = squash_writes epoch write_set mine.msets.wset;
  };
}

-- The last entry of an item before one that has also read it.
unfoldable pub blind_entry : ℕ → List Entry → Option Entry → Option Entry
blind_entry p [] found = found
blind_entry p (e ∷ write_set) found =
    let rest = blind_entry p write_set (if e.index_cache == p then some e else found) in
    if e.index_cache == p && e.snapshot.is_read_modify_write then found else rest

-- The loop of the exchange.
unfoldable pub merge_into : ℕ → ℕ → NwrPivotObject → World → Outcome World
merge_into zero p mine w = out_of_fuel
merge_into (suc fuel) p mine w =
    let loaded = tick w in
    let old = (loaded.items p).pivot_object in
    let exchanged = tick loaded in
    let again = merge_into fuel p mine exchanged in
    if pivot_eq (exchanged.items p).pivot_object old && not (fails loaded)
    then value (store_pivot p (with_merged old mine) exchanged)
    else again

abbrev pub pivot_of : NwrPivotObject → Entry → NwrPivotObject
pivot_of mine e = record mine {
  versions = record mine.versions { target_id = e.data_item_copy.transaction_id.tid };
}

-- A first blind write of the epoch makes the pivot version, everything else is merged.
abbrev pub update_one : Option Entry → ℕ → NwrPivotObject → World → Outcome World
update_one (some e) p mine w = value (store_pivot p (pivot_of mine e) (tick w))
update_one none p mine w = merge_into (suc (length w.others)) p mine w

-- The entry that writes an item of the write set blindly, where its pivot version is of another epoch.
pub first_blind : ℕ → List Entry → PivotObjectSnapshot → World → Option Entry
first_blind epoch write_set s w =
    let p = s.item_p_cache in
    if not ((w.items p).pivot_object.versions.epoch == epoch) && is_writeset s.set_type
    then blind_entry p write_set none
    else none

unfoldable pub update_all :
    ℕ → NwrPivotObject → List Entry → List PivotObjectSnapshot → World → Outcome World
update_all epoch mine write_set [] w = value w
update_all epoch mine write_set (s ∷ snapshots) w = do
  let p = s.item_p_cache
  let here = tick w
  updated ← update_one (first_blind epoch write_set s here) p mine here
  update_all epoch mine write_set snapshots updated

unfoldable pub update_pivot_objects : ℕ → List Entry → List Entry → Nwr → World → Outcome World
update_pivot_objects epoch read_set write_set n w =
    update_all epoch (rebuilt epoch read_set write_set n.my_pivot_object) write_set
      n.pivot_object_snapshots w
