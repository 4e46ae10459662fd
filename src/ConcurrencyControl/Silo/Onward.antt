-- ===== src/ConcurrencyControl/Silo/Onward.antt =====
-- The versions of the items only rise, but for the lock bit, in every step of a commit up to its validation.
use lineair_db.Base.{
  ℕ, zero, suc, ◌-◌, ◌/◌, ◌%◌, bit_or, ◌≡◌, refl, subst, arith, Bool, true, false, not, ◌&&◌, List,
  [], ◌∷◌, All, length, ◌==◌, Bool-cases, inl, inr, if◌then◌else◌,
}
use lineair_db.Base.Bits.{bit_or-halve, bit_or-zero}
use lineair_db.Types.Outcome.{value, bind_value}
use lineair_db.Types.TransactionId.{TransactionId, tid_eq, tid_lt}
use lineair_db.ConcurrencyControl.Memory.{
  DataItem, Items, Others, World, mem, moved, tick_with, tick, fails, is_locked, locked, take_lock,
  store_item, put_item,
}
use lineair_db.ConcurrencyControl.Memory.Online.{Online, online_loop, make_me_online}
use lineair_db.ConcurrencyControl.Silo.{Entry}
use lineair_db.ConcurrencyControl.Silo.Locking.{lock_loop}
use lineair_db.ConcurrencyControl.Silo.Locking.Copies.{tid_at}
use lineair_db.ConcurrencyControl.Silo.Install.{copy_live_version_to_stable_version, copy_all}
use lineair_db.ConcurrencyControl.Silo.Still.{copy_live-Has}
use lineair_db.ConcurrencyControl.Silo.Commit.{copies_if}

-- A version without its lock bit.
abbrev pub bare : TransactionId → TransactionId
bare t = record t { tid = t.tid - t.tid % 2 }

-- `u` is not older than `t`.
abbrev pub IsSince : TransactionId → TransactionId → Type 0
IsSince t u = tid_lt (bare u) (bare t) ≡ false

-- The other threads may lock and unlock an item, and otherwise only raise its version.
abbrev pub Raises : Others → Type 0
Raises o = (s : Items) (p : ℕ) → IsSince (s p).transaction_id (o.items s p).transaction_id

pub IsSince-refl : (t : TransactionId) → IsSince t t
unfolding tid_lt
IsSince-refl t = ground arith

pub IsSince-trans : (t u v : TransactionId) → IsSince t u → IsSince u v → IsSince t v
unfolding tid_lt
IsSince-trans t u v a b = ground arith

-- Two versions that are each not older than the other differ in the lock bit at most.
pub IsSince-antisymm : (t u : TransactionId) → IsSince t u → IsSince u t → bare t ≡ bare u
unfolding tid_lt
IsSince-antisymm t u a b = λ i. record { epoch = epochs i; tid = tids i }
  where
    epochs : t.epoch ≡ u.epoch
    epochs = ground arith

    tids : t.tid - t.tid % 2 ≡ u.tid - u.tid % 2
    tids = ground arith

pub bare-locked : (t : TransactionId) → bare (locked t) ≡ bare t
bare-locked t = λ i. record { epoch = t.epoch; tid = tids i }
  where
    tids : bit_or t.tid 1 - bit_or t.tid 1 % 2 ≡ t.tid - t.tid % 2
    tids = ground (arith, bit_or-halve t.tid 1, bit_or-zero (t.tid / 2))

-- From `w` to `v` no version has become older.
pub record IsOnward (w v : World) : Type 0 where
  pub since : (p : ℕ) → IsSince (tid_at w p) (tid_at v p)
  pub others : All Raises v.others

pub IsOnward-refl : (w : World) → All Raises w.others → IsOnward w w
IsOnward-refl w r = record { since = λ p. IsSince-refl (tid_at w p); others = r }

pub IsOnward-trans : (u v w : World) → IsOnward u v → IsOnward v w → IsOnward u w
IsOnward-trans u v w a b = record {
  since = λ p. IsSince-trans (tid_at u p) (tid_at v p) (tid_at w p) (a.since p) (b.since p);
  others = b.others;
}

tick_with-IsOnward :
    (others : List Others) (w : World)
    → All Raises others
    → All Raises w.others
    → IsOnward w (tick_with others w)
tick_with-IsOnward [] w r k = record { since = λ p. IsSince-refl (tid_at w p); others = k }
tick_with-IsOnward (o ∷ others) w r k = record {
  since = λ p. at (mem p w.held) (w.items p) (o.items w.items p) (r.0 w.items p);
  others = r.1;
}
  where
    at :
        (b : Bool) (before after : DataItem)
        → IsSince before.transaction_id after.transaction_id
        → IsSince before.transaction_id (moved b before after).transaction_id
    at true before after h = IsSince-refl before.transaction_id
    at false before after h = h

pub tick-IsOnward : (w : World) → All Raises w.others → IsOnward w (tick w)
unfolding tick
tick-IsOnward w r = tick_with-IsOnward w.others w r r

put_at :
    (b : Bool) (item before : DataItem)
    → (b ≡ true → IsSince before.transaction_id item.transaction_id)
    → IsSince before.transaction_id (if b then item else before).transaction_id
put_at true item before h = h refl
put_at false item before h = IsSince-refl before.transaction_id

-- One version is replaced by one that is not older.
pub put-IsOnward :
    (w v : World) (p : ℕ) (item : DataItem)
    → v.items ≡ put_item p item w.items
    → v.others ≡ w.others
    → All Raises w.others
    → IsSince (tid_at w p) item.transaction_id
    → IsOnward w v
put-IsOnward w v p item hi ho r h = record {
  since =
      λ q. rw hi (put_at (q == p) item (w.items q) (λ e. let eq : q ≡ p = ground arith in rw eq h));
  others = rw ho r;
}

pub lock_loop-IsOnward :
    (fuel p : ℕ) (w w' : World)
    → All Raises w.others
    → lock_loop fuel p w ≡ value w'
    → IsOnward w w'
unfolding lock_loop
lock_loop-IsOnward zero p w w' r h = absurd (cc)
lock_loop-IsOnward (suc fuel) p w w' r h =
    let once : IsOnward w (tick w) = tick-IsOnward w r in
    let twice : IsOnward w (tick (tick w)) =
      IsOnward-trans w (tick w) (tick (tick w)) once (tick-IsOnward (tick w) once.others) in
    elim (Bool-cases (is_locked (tid_at (tick w) p))) [
      | inl e ↦
          IsOnward-trans w (tick w) w' once
            (lock_loop-IsOnward fuel p (tick w) w' once.others (rw e at h))
      | inr f ↦
          elim (Bool-cases
            (tid_eq (tid_at (tick (tick w)) p) (tid_at (tick w) p) && not (fails (tick w)))) [
              | inl e ↦
                  let out : take_lock p (tick (tick w)) ≡ w' = cc (rw (f, e) at h) in
                  IsOnward-trans w (tick (tick w)) w' twice (
                    subst (IsOnward (tick (tick w))) out (
                      put-IsOnward (tick (tick w)) (take_lock p (tick (tick w))) p _ refl refl
                        twice.others
                        (rw (bare-locked (tid_at (tick (tick w)) p))
                          (IsSince-refl (tid_at (tick (tick w)) p)))))
              | inr e ↦
                  IsOnward-trans w (tick (tick w)) w' twice
                    (lock_loop-IsOnward fuel p (tick (tick w)) w' twice.others (rw (f, e) at h))
            ]
    ]

copy_live-transaction_id :
    (item item' : DataItem)
    → copy_live_version_to_stable_version item ≡ value item'
    → IsSince item.transaction_id item'.transaction_id
copy_live-transaction_id item item' h =
    copy_live-Has (λ p t b k. IsSince item.transaction_id t) 0 item item' h
      (IsSince-refl item.transaction_id)

copy_all-IsOnward :
    (entries : List Entry) (w v : World)
    → All Raises w.others
    → copy_all entries w ≡ value v
    → IsOnward w v
unfolding copy_all
copy_all-IsOnward [] w v r h =
    let out : w ≡ v = cc in
    subst (IsOnward w) out (record { since = λ p. IsSince-refl (tid_at w p); others = r })
copy_all-IsOnward (e ∷ entries) w v r h =
    let here : World = tick w in
    let p : ℕ = e.index_cache in
    let (item, (ran, goes_on)) =
      bind_value (copy_live_version_to_stable_version (here.items p)) _ v h in
    let once : IsOnward w here = tick-IsOnward w r in
    let stored : IsOnward here (store_item p item here) =
      put-IsOnward here (store_item p item here) p item refl refl once.others
        (copy_live-transaction_id (here.items p) item ran) in
    IsOnward-trans w here v once (
      IsOnward-trans here (store_item p item here) v stored
        (copy_all-IsOnward entries (store_item p item here) v stored.others goes_on))

pub copies_if-IsOnward :
    (b : Bool) (entries : List Entry) (w v : World)
    → All Raises w.others
    → copies_if b entries w ≡ value v
    → IsOnward w v
copies_if-IsOnward true entries w v r h = copy_all-IsOnward entries w v r h
copies_if-IsOnward false entries w v r h =
    let out : w ≡ v = cc in
    subst (IsOnward w) out (record { since = λ p. IsSince-refl (tid_at w p); others = r })

online_loop-IsOnward :
    (fuel published : ℕ) (w : World) (o : Online)
    → All Raises w.others
    → online_loop fuel published w ≡ value o
    → IsOnward w o.world
unfolding online_loop
online_loop-IsOnward zero published w o r h = absurd (cc)
online_loop-IsOnward (suc fuel) published w o r h =
    let once : IsOnward w (tick w) = tick-IsOnward w r in
    let v : World = tick (tick w) in
    let twice : IsOnward w v =
      IsOnward-trans w (tick w) v once (tick-IsOnward (tick w) once.others) in
    elim (Bool-cases (v.global_epoch == published)) [
      | inl is ↦
          let out : record { epoch = published; world = v } ≡ o = cc (rw is at h) in
          subst (λ (o : Online). IsOnward w o.world) out twice
      | inr not_yet ↦
          IsOnward-trans w v o.world twice
            (online_loop-IsOnward fuel v.global_epoch v o twice.others (rw not_yet at h))
    ]

pub make_me_online-IsOnward :
    (w : World) (o : Online) → All Raises w.others → make_me_online w ≡ value o → IsOnward w o.world
unfolding make_me_online
make_me_online-IsOnward w o r h =
    let once : IsOnward w (tick w) = tick-IsOnward w r in
    IsOnward-trans w (tick w) o.world once (
      online_loop-IsOnward (suc (length (tick w).others)) (tick w).global_epoch (tick w) o
        once.others h)
