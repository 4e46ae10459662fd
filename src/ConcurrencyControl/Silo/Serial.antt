-- ===== src/ConcurrencyControl/Silo/Serial.antt =====
-- The moment at which a transaction of src/concurrency_control/impl/silo_nwr.hpp takes effect: all its
-- write locks are held, and every version that it has read is still the newest.
use lineair_db.Base.{
  ℕ, suc, ◌≡◌, ap, subst, ◌∙◌, Bool, true, false, List, [], ◌∷◌, All, length, ◌==◌, Bool-cases, inl,
  inr, if◌then◌else◌,
}
use lineair_db.Types.Outcome.{value, bind_value}
use lineair_db.Types.TransactionId.{TransactionId, tid_eq, tid_lt, eq_of_tid_eq}
use lineair_db.ConcurrencyControl.Memory.{World, tick, locked}
use lineair_db.ConcurrencyControl.Memory.Online.{Online, make_me_online}
use lineair_db.ConcurrencyControl.Silo.{Entry, ValidationItem}
use lineair_db.ConcurrencyControl.Silo.Locking.{
  lock_loop, is_attached, mark_own, Locked, gives_up, lock_all, with_copied_tid,
}
use lineair_db.ConcurrencyControl.Silo.Locking.Copies.{tid_at}
use lineair_db.ConcurrencyControl.Silo.Validation.{Checked, anti_dependency_validation}
use lineair_db.ConcurrencyControl.Silo.Commit.{copies_if}
use lineair_db.ConcurrencyControl.Silo.OnwardPivots.{updates_if-IsOnward}
use lineair_db.ConcurrencyControl.Silo.Nwr.{Nwr}
use lineair_db.ConcurrencyControl.Silo.Commit.{Mode, updates_if}
use lineair_db.ConcurrencyControl.Silo.Onward.{
  bare, IsSince, Raises, IsSince-trans, IsSince-antisymm, bare-locked, IsOnward, IsOnward-refl,
  IsOnward-trans, tick-IsOnward, lock_loop-IsOnward, copies_if-IsOnward, make_me_online-IsOnward,
}
use lineair_db.ConcurrencyControl.Silo.{sort_entries}
use lineair_db.ConcurrencyControl.Silo.Commit.{
  Validator, Precommitted, aborts, validate_and_install, unlock_write_set,
}

-- What was read is not newer than what stands in the memory; and it is the newest.
abbrev pub AllPast : World → List ValidationItem → Type 0
AllPast w = All (λ v. IsSince v.transaction_id (tid_at w v.item_p_cache))

abbrev pub AllCurrent : World → List ValidationItem → Type 0
AllCurrent w = All (λ v. bare (tid_at w v.item_p_cache) ≡ bare v.transaction_id)

AllPast-IsOnward :
    (w v : World) (vs : List ValidationItem) → IsOnward w v → AllPast w vs → AllPast v vs
AllPast-IsOnward w v [] o a = tt
AllPast-IsOnward w v (x ∷ vs) o a = (
  IsSince-trans x.transaction_id (tid_at w x.item_p_cache) (tid_at v x.item_p_cache) a.0
      (o.since x.item_p_cache),
  AllPast-IsOnward w v vs o a.1,
)

-- The lock bit that the loop over the write set gives to its own reads counts for nothing here.
mark_own-All :
    (A : ℕ → TransactionId → Type 0) (p : ℕ) (vs : List ValidationItem)
    → All (λ v. A v.item_p_cache (bare v.transaction_id)) vs
    → All (λ v. A v.item_p_cache (bare v.transaction_id)) (mark_own p vs)
unfolding mark_own
mark_own-All A p [] a = tt
mark_own-All A p (v ∷ vs) a = (at (v.item_p_cache == p), mark_own-All A p vs a.1)
  where
    at :
        (b : Bool)
        → A (if b then record v { transaction_id = locked v.transaction_id } else v).item_p_cache (
            bare
              (if b
                then record v { transaction_id = locked v.transaction_id }
                else v).transaction_id)
    at true = rw (bare-locked v.transaction_id) a.0
    at false = a.0

All-mark_own :
    (A : ℕ → TransactionId → Type 0) (p : ℕ) (vs : List ValidationItem)
    → All (λ v. A v.item_p_cache (bare v.transaction_id)) (mark_own p vs)
    → All (λ v. A v.item_p_cache (bare v.transaction_id)) vs
unfolding mark_own
All-mark_own A p [] a = tt
All-mark_own A p (v ∷ vs) a = (at (v.item_p_cache == p) a.0, All-mark_own A p vs a.1)
  where
    at :
        (b : Bool)
        → A (if b then record v { transaction_id = locked v.transaction_id } else v).item_p_cache (
            bare
              (if b
                then record v { transaction_id = locked v.transaction_id }
                else v).transaction_id)
        → A v.item_p_cache (bare v.transaction_id)
    at true h = rw (bare-locked v.transaction_id) at h
    at false h = h

-- The loop over the write set, where it gets all locks.
record IsReady (vs : List ValidationItem) (w : World) (l : Locked) : Type 1 where
  onward : IsOnward w l.world
  forth :
      (A : ℕ → TransactionId → Type 0)
      → All (λ v. A v.item_p_cache (bare v.transaction_id)) vs
      → All (λ v. A v.item_p_cache (bare v.transaction_id)) l.validation_set
  back :
      (A : ℕ → TransactionId → Type 0)
      → All (λ v. A v.item_p_cache (bare v.transaction_id)) l.validation_set
      → All (λ v. A v.item_p_cache (bare v.transaction_id)) vs

lock_all-IsReady :
    (write_set : List Entry) (vs : List ValidationItem) (w : World) (l : Locked)
    → All Raises w.others
    → lock_all write_set vs w ≡ value l
    → l.acquired ≡ true
    → IsReady vs w l
unfolding lock_all
lock_all-IsReady [] vs w l r h a =
    let out : record { acquired = true; write_set = []; validation_set = vs; world = w } ≡ l = cc in
    subst (IsReady vs w) out
      (record { onward = IsOnward-refl w r; forth = λ A x. x; back = λ A x. x })
lock_all-IsReady (e ∷ write_set) vs w l r h a =
    let p : ℕ = e.index_cache in
    let (taken, (ran, goes_on)) = bind_value (lock_loop (suc (length w.others)) p w) _ l h in
    let t : IsOnward w taken = lock_loop-IsOnward (suc (length w.others)) p w taken r ran in
    let got : World = tick taken in
    let g : IsOnward w got = IsOnward-trans w taken got t (tick-IsOnward taken t.others) in
    let entry : Entry = with_copied_tid (tid_at taken p) e in
    elim (Bool-cases (is_attached got e)) [
      | inr off ↦
          let out : gives_up (entry ∷ write_set) vs got ≡ l = cc (rw off at goes_on) in
          let lost : false ≡ true = ap (λ (l : Locked). l.acquired) out ∙ a in absurd (cc)
      | inl on ↦
          let (rest, (locking, end)) =
            bind_value (lock_all write_set (mark_own p vs) got) _ l (rw on at goes_on) in
          let out : record rest { write_set = entry ∷ rest.write_set } ≡ l = cc in
          let q : IsReady (mark_own p vs) got rest =
            lock_all-IsReady write_set (mark_own p vs) got rest g.others locking
              (ap (λ (l : Locked). l.acquired) out ∙ a) in
          subst (IsReady vs w) out (record {
            onward = IsOnward-trans w got rest.world g q.onward;
            forth = λ A x. q.forth A (mark_own-All A p vs x);
            back = λ A x. All-mark_own A p vs (q.back A x);
          })
    ]

-- What is the newest later, and was read before, is the newest now.
AllCurrent-IsOnward :
    (w v : World) (vs : List ValidationItem)
    → IsOnward w v
    → AllPast w vs
    → AllCurrent v vs
    → AllCurrent w vs
AllCurrent-IsOnward w v [] o a c = tt
AllCurrent-IsOnward w v (x ∷ vs) o a c = (
  IsSince-antisymm (tid_at w x.item_p_cache) x.transaction_id (rw c.0 at (o.since x.item_p_cache))
      a.0,
  AllCurrent-IsOnward w v vs o a.1 c.1,
)

-- placeholder
pub anti_dependency_validation-AllCurrent :
    (vs : List ValidationItem) (w : World)
    → All Raises w.others
    → AllPast w vs
    → (anti_dependency_validation vs w).valid ≡ true
    → AllCurrent w vs
unfolding anti_dependency_validation
anti_dependency_validation-AllCurrent [] w r a h = tt
anti_dependency_validation-AllCurrent (v ∷ vs) w r a h =
    let once : IsOnward w (tick w) = tick-IsOnward w r in
    elim (Bool-cases (tid_eq (tid_at (tick w) v.item_p_cache) v.transaction_id)) [
      | inr n ↦ absurd (cc (rw n at h))
      | inl e ↦
          let same : tid_at (tick w) v.item_p_cache ≡ v.transaction_id = eq_of_tid_eq _ _ e in
          let rest : AllCurrent (tick w) vs =
            anti_dependency_validation-AllCurrent vs (tick w) once.others
              (AllPast-IsOnward w (tick w) vs once a.1) (rw e at h) in
          AllCurrent-IsOnward w (tick w) (v ∷ vs) once a (ap bare same, rest)
    ]

validate_and_install-valid :
    (validator : Validator) (epoch : ℕ) (l : Locked) (w : World) (r : Precommitted)
    → validate_and_install validator epoch l w ≡ value r
    → r.passed ≡ true
    → (anti_dependency_validation l.validation_set w).valid ≡ true
unfolding validate_and_install
validate_and_install-valid validator epoch l w r h passed =
    let checked : Checked = anti_dependency_validation l.validation_set w in
    elim (Bool-cases checked.valid) [
      | inl e ↦ e
      | inr n ↦
          let out : aborts false epoch l.write_set (unlock_write_set l.write_set checked.world)
              ≡ r =
            cc (rw n at h) in
          let lost : false ≡ true = ap (λ (r : Precommitted). r.passed) out ∙ passed in absurd (cc)
    ]

-- The phases of a lock-based commit, of `Silo` or `SiloNWR`, whatever the other threads do between its
-- accesses, as long as they only lock, unlock and raise versions: where all write locks are taken, the
-- stable copies and the pivot objects are done, the thread has joined its new epoch and the validation
-- passes, then at the moment at which it joined every version that was read is still the newest of its
-- item, lock bits aside. What was read is taken to be no newer than the memory in which the locking
-- begins.
pub validate_and_install-AllCurrent :
    (mode : Mode) (need_to_checkpoint : Bool) (validator : Validator) (epoch : ℕ) (n : Nwr)
    (write_set : List Entry) (vs : List ValidationItem) (w copied updated : World) (l : Locked)
    (online : Online) (r : Precommitted)
    → All Raises w.others
    → AllPast w vs
    → lock_all (sort_entries write_set) vs w ≡ value l
    → l.acquired ≡ true
    → copies_if need_to_checkpoint l.write_set l.world ≡ value copied
    → updates_if mode epoch l.write_set n copied ≡ value updated
    → make_me_online updated ≡ value online
    → validate_and_install validator online.epoch l online.world ≡ value r
    → r.passed ≡ true
    → AllCurrent online.world vs
validate_and_install-AllCurrent mode b validator epoch n write_set vs w copied updated l online r
      raises past locking a ran merged joined end passed =
    let q : IsReady vs w l = lock_all-IsReady (sort_entries write_set) vs w l raises locking a in
    let c : IsOnward l.world copied =
      copies_if-IsOnward b l.write_set l.world copied q.onward.others ran in
    let m : IsOnward copied updated =
      updates_if-IsOnward mode epoch l.write_set n copied updated c.others merged in
    let o : IsOnward updated online.world =
      make_me_online-IsOnward updated online m.others joined in
    let s : World = online.world in
    let u : IsOnward w s =
      IsOnward-trans w l.world s q.onward
        (IsOnward-trans l.world copied s c (IsOnward-trans copied updated s m o)) in
    q.back (λ p t. bare (tid_at s p) ≡ t)
      (anti_dependency_validation-AllCurrent l.validation_set s o.others
        (AllPast-IsOnward w s l.validation_set u
          (q.forth (λ p t. tid_lt (bare (tid_at w p)) t ≡ false) past))
        (validate_and_install-valid validator online.epoch l s r end passed))
