-- ===== src/ConcurrencyControl/Silo/OnwardPivots.antt =====
-- The update of the pivot objects leaves the versions of the items.
use lineair_db.Base.{
  ℕ, zero, suc, ◌≡◌, refl, subst, not, ◌&&◌, Option, none, some, List, [], ◌∷◌, All, length,
  Bool-cases, inl, inr,
}
use lineair_db.Types.Outcome.{value, bind_value}
use lineair_db.ConcurrencyControl.PivotObject.{NwrPivotObject}
use lineair_db.ConcurrencyControl.Memory.{World, tick, fails}
use lineair_db.ConcurrencyControl.Silo.{Entry}
use lineair_db.ConcurrencyControl.Silo.Nwr.{
  PivotObjectSnapshot, Nwr, with_merged, pivot_eq, store_pivot,
}
use lineair_db.ConcurrencyControl.Silo.Pivots.{
  first_blind, merge_into, update_one, pivot_of, update_all, rebuilt, update_pivot_objects,
}
use lineair_db.ConcurrencyControl.Silo.Commit.{Mode, updates_if}
use lineair_db.ConcurrencyControl.Silo.Locking.Copies.{tid_at}
use lineair_db.ConcurrencyControl.Silo.Onward.{
  Raises, IsSince-refl, IsOnward, IsOnward-refl, IsOnward-trans, tick-IsOnward, put-IsOnward,
}

store_pivot-IsOnward :
    (w : World) (p : ℕ) (pivot : NwrPivotObject)
    → All Raises w.others
    → IsOnward w (store_pivot p pivot w)
store_pivot-IsOnward w p pivot r =
    put-IsOnward w (store_pivot p pivot w) p (record (w.items p) { pivot_object = pivot }) refl refl
      r (IsSince-refl (tid_at w p))

merge_into-IsOnward :
    (fuel p : ℕ) (mine : NwrPivotObject) (w v : World)
    → All Raises w.others
    → merge_into fuel p mine w ≡ value v
    → IsOnward w v
unfolding merge_into
merge_into-IsOnward zero p mine w v r h = absurd (cc)
merge_into-IsOnward (suc fuel) p mine w v r h =
    let again : World = tick (tick w) in
    let old : NwrPivotObject = ((tick w).items p).pivot_object in
    let once : IsOnward w (tick w) = tick-IsOnward w r in
    let twice : IsOnward w again =
      IsOnward-trans w (tick w) again once (tick-IsOnward (tick w) once.others) in
    elim (Bool-cases (pivot_eq (again.items p).pivot_object old && not (fails (tick w)))) [
      | inl e ↦
          let out : store_pivot p (with_merged old mine) again ≡ v = cc (rw e at h) in
          IsOnward-trans w again v twice (
            subst (IsOnward again) out
              (store_pivot-IsOnward again p (with_merged old mine) twice.others))
      | inr n ↦
          IsOnward-trans w again v twice
            (merge_into-IsOnward fuel p mine again v twice.others (rw n at h))
    ]

update_one-IsOnward :
    (blind : Option Entry) (p : ℕ) (mine : NwrPivotObject) (w v : World)
    → All Raises w.others
    → update_one blind p mine w ≡ value v
    → IsOnward w v
update_one-IsOnward (some e) p mine w v r h =
    let once : IsOnward w (tick w) = tick-IsOnward w r in
    let out : store_pivot p (pivot_of mine e) (tick w) ≡ v = cc in
    IsOnward-trans w (tick w) v once (
      subst (IsOnward (tick w)) out (store_pivot-IsOnward (tick w) p (pivot_of mine e) once.others))
update_one-IsOnward none p mine w v r h = merge_into-IsOnward (suc (length w.others)) p mine w v r h

update_all-IsOnward :
    (epoch : ℕ) (mine : NwrPivotObject) (write_set : List Entry)
    (snapshots : List PivotObjectSnapshot) (w v : World)
    → All Raises w.others
    → update_all epoch mine write_set snapshots w ≡ value v
    → IsOnward w v
unfolding update_all
update_all-IsOnward epoch mine write_set [] w v r h =
    let out : w ≡ v = cc in subst (IsOnward w) out (IsOnward-refl w r)
update_all-IsOnward epoch mine write_set (s ∷ snapshots) w v r h =
    let p : ℕ = s.item_p_cache in
    let (updated, (ran, goes_on)) =
      bind_value (update_one (first_blind epoch write_set s (tick w)) p mine (tick w)) _ v h in
    let once : IsOnward w (tick w) = tick-IsOnward w r in
    let one : IsOnward (tick w) updated =
      update_one-IsOnward (first_blind epoch write_set s (tick w)) p mine (tick w) updated
        once.others ran in
    IsOnward-trans w (tick w) v once (
      IsOnward-trans (tick w) updated v one
        (update_all-IsOnward epoch mine write_set snapshots updated v one.others goes_on))

pub updates_if-IsOnward :
    (mode : Mode) (epoch : ℕ) (write_set : List Entry) (n : Nwr) (w v : World)
    → All Raises w.others
    → updates_if mode epoch write_set n w ≡ value v
    → IsOnward w v
unfolding update_pivot_objects
updates_if-IsOnward none epoch write_set n w v r h =
    let out : w ≡ v = cc in subst (IsOnward w) out (IsOnward-refl w r)
updates_if-IsOnward (some t) epoch write_set n w v r h =
    update_all-IsOnward epoch (rebuilt epoch t.read_set write_set n.my_pivot_object) write_set
      n.pivot_object_snapshots w v r h
