-- ===== src/ConcurrencyControl/Silo/Commits.antt =====
-- A commit that passes: what it writes is the only thing that it changes.
use lineair_db.Base.{
  ℕ, ◌≡◌, refl, sym, ap, subst, ◌∙◌, arith, Bool, true, false, List, [], ◌∷◌, All, Bool-cases, inl,
  inr, ◌==◌, ==_refl,
}
use lineair_db.Types.Outcome.{value, bind_value}
use lineair_db.Types.TransactionId.{TransactionId}
use lineair_db.Types.Snapshot.{
  SecondaryIndexDelta, SecondaryIndexOp, add_op, remove_op, no_op, full_op,
}
use lineair_db.Types.DataItem.{add_secondary_index_value, remove_secondary_index_value}
use lineair_db.ConcurrencyControl.Memory.{
  DataItem, World, mem, tick, release, store_item, is_locked,
}
use lineair_db.ConcurrencyControl.Memory.Rely.{
  Property, Has, Either, BeforeLock, IsGuarded, tick-IsGuarded, tick-held, release-IsGuarded,
  held-IsGuarded, put-IsGuarded, next-free,
}
use lineair_db.ConcurrencyControl.Silo.{Entry}
use lineair_db.ConcurrencyControl.Silo.Locking.Keeps.{pointers, IsDistinct, without-not_in}
use lineair_db.ConcurrencyControl.Silo.Install.{
  merges_deltas, apply_op, apply_deltas, installed, copied, Installed, install_all, unlocked_id,
  post_processing,
}

-- With which version each item of a write set was locked.
pub record LockedId : Type 0 where
  pub pointer : ℕ
  pub version : TransactionId

abbrev pub ids : List Entry → List LockedId
ids [] = []
ids (e ∷ entries) =
    record { pointer = e.index_cache; version = e.data_item_copy.transaction_id } ∷ ids entries

abbrev pub HasIds : List LockedId → ℕ → TransactionId → Type 0
HasIds [] p t = Unit
HasIds (id ∷ list) p t = (id.pointer ≡ p → t ≡ id.version) × HasIds list p t

-- A locked item, installed, that has the property once it is released.
abbrev pub Released : Property → ℕ → Property
Released P epoch p t buffer keys = P p (unlocked_id epoch t) buffer keys

abbrev pub AfterRelease : Property → ℕ → Property
AfterRelease P epoch p t buffer keys = (is_locked t ≡ true) × Released P epoch p t buffer keys

abbrev pub WithIds : List LockedId → Property → Property
WithIds list Q p t buffer keys = Q p t buffer keys × HasIds list p t

-- While the entries `pending` are still to be installed.
abbrev pub Pending : Property → ℕ → List Entry → Property
Pending P epoch pending p =
    Either (mem p (pointers pending)) (BeforeLock P) (AfterRelease P epoch) p

-- The property holds of what an entry writes.
abbrev pub Writes : Property → ℕ → Entry → Type 0
Writes P epoch e =
    (item item' : DataItem)
    → Has (BeforeLock P) e.index_cache item
    → item.transaction_id ≡ e.data_item_copy.transaction_id
    → installed e item ≡ value item'
    → Has (Released P epoch) e.index_cache item'

Either-map :
    (P Q R : Property) (q : ℕ) (b : Bool) (item : DataItem)
    → (Has Q q item → Has R q item)
    → Has (Either b Q P) q item
    → Has (Either b R P) q item
Either-map P Q R q true item f h = f h
Either-map P Q R q false item f h = h

pub IsGuarded-mono :
    (P Q R : Property) (w : World)
    → ((p : ℕ) → Has Q p (w.items p) → Has R p (w.items p))
    → IsGuarded P Q w
    → IsGuarded P R w
IsGuarded-mono P Q R w f g = record {
  items = λ p. Either-map P Q R p (mem p w.held) (w.items p) (f p) (g.items p);
  others = g.others;
}

apply_op-transaction_id :
    (delta : SecondaryIndexDelta) (item item' : DataItem) (op : SecondaryIndexOp)
    → apply_op delta item op ≡ value item'
    → item'.transaction_id ≡ item.transaction_id
unfolding apply_op
apply_op-transaction_id delta item item' add_op h =
    let (keys, (ran, end)) =
      bind_value (add_secondary_index_value item.primary_keys delta.primary_key) _ item' h in
    let out : record item { primary_keys = keys } ≡ item' = cc in
    sym (ap (λ (v : DataItem). v.transaction_id) out)
apply_op-transaction_id delta item item' remove_op h =
    let (keys, (ran, end)) =
      bind_value (remove_secondary_index_value item.primary_keys delta.primary_key) _ item' h in
    let out : record item { primary_keys = keys } ≡ item' = cc in
    sym (ap (λ (v : DataItem). v.transaction_id) out)
apply_op-transaction_id delta item item' no_op h = absurd (cc)
apply_op-transaction_id delta item item' full_op h = absurd (cc)

apply_deltas-transaction_id :
    (deltas : List SecondaryIndexDelta) (item item' : DataItem)
    → apply_deltas deltas item ≡ value item'
    → item'.transaction_id ≡ item.transaction_id
unfolding apply_deltas
apply_deltas-transaction_id [] item item' h =
    let out : item ≡ item' = cc in sym (ap (λ (v : DataItem). v.transaction_id) out)
apply_deltas-transaction_id (delta ∷ deltas) item item' h =
    let (changed, (ran, rest)) = bind_value (apply_op delta item delta.op) _ item' h in
    apply_deltas-transaction_id deltas changed item' rest
    ∙ apply_op-transaction_id delta item changed delta.op ran

-- An install leaves the item locked, with the version of the entry's copy.
pub installed-transaction_id :
    (e : Entry) (item item' : DataItem)
    → item.transaction_id ≡ e.data_item_copy.transaction_id
    → installed e item ≡ value item'
    → item'.transaction_id ≡ e.data_item_copy.transaction_id
unfolding installed
installed-transaction_id e item item' same h = elim (Bool-cases (merges_deltas e)) [
  | inl m ↦
      apply_deltas-transaction_id e.snapshot.secondary_index_deltas item item' (rw m at h) ∙ same
  | inr n ↦
      let out : copied item e.data_item_copy ≡ item' = cc (rw n at h) in
      sym (ap (λ (v : DataItem). v.transaction_id) out)
]

pub record IsInstalled (P : Property) (epoch : ℕ) (list : List LockedId) (es : List Entry)
    (w : World) (d : Installed) : Type 0 where
  pub guarded : IsGuarded P (WithIds list (AfterRelease P epoch)) d.world
  pub held : d.world.held ≡ w.held
  pub same : ids d.write_set ≡ ids es

pub install_all-IsInstalled :
    (P : Property) (epoch : ℕ) (list : List LockedId) (es : List Entry) (w : World) (d : Installed)
    → IsGuarded P (WithIds list (Pending P epoch es)) w
    → ((p : ℕ) (t : TransactionId) → HasIds list p t → HasIds (ids es) p t)
    → IsDistinct (pointers es)
    → ((p : ℕ) → mem p (pointers es) ≡ true → mem p w.held ≡ true)
    → All (Writes P epoch) es
    → install_all es w ≡ value d
    → IsInstalled P epoch list es w d
unfolding install_all
install_all-IsInstalled P epoch list [] w d g narrow apart mine writes h =
    let out : record { write_set = []; world = w } ≡ d = cc in
    subst (IsInstalled P epoch list [] w) out (record { guarded = g; held = refl; same = refl })
install_all-IsInstalled P epoch list (e ∷ es) w d g narrow apart mine writes h =
    let p : ℕ = e.index_cache in
    let here : World = tick w in
    let (item, (ran, goes_on)) = bind_value (installed e (here.items p)) _ d h in
    let stored : World = store_item p item here in
    let (rest, (later, end)) = bind_value (install_all es stored) _ d goes_on in
    let gh : IsGuarded P (WithIds list (Pending P epoch (e ∷ es))) here = tick-IsGuarded P _ w g in
    let is_mine : mem p here.held ≡ true = rw (tick-held w) (mine p (rw (==_refl p) refl)) in
    let was = held-IsGuarded P (WithIds list (Pending P epoch (e ∷ es))) here p gh is_mine in
    let same : (here.items p).transaction_id ≡ e.data_item_copy.transaction_id =
      (narrow p (here.items p).transaction_id was.1).0 refl in
    let kept : item.transaction_id ≡ e.data_item_copy.transaction_id =
      installed-transaction_id e (here.items p) item same ran in
    let before : Has (BeforeLock P) p (here.items p) = rw (==_refl p) at was.0 in
    let after : Has (AfterRelease P epoch) p item =
      (rw (kept, ← same) before.0, writes.0 (here.items p) item before same ran) in
    let gs : IsGuarded P (WithIds list (Pending P epoch es)) stored =
      put-IsGuarded P (WithIds list (Pending P epoch (e ∷ es))) (WithIds list (Pending P epoch es))
        here stored p item gh refl refl
        (rw (is_mine, apart.0) (after, subst (HasIds list p) (same ∙ sym kept) was.1))
        (λ q n k.
          Either-map P (WithIds list (Pending P epoch (e ∷ es))) (WithIds list (Pending P epoch es))
            q (mem q here.held) (here.items q) (λ was_q. (rw n at was_q.0, was_q.1)) k) in
    let r : IsInstalled P epoch list es stored rest =
      install_all-IsInstalled P epoch list es stored rest gs (λ q t i. (narrow q t i).1) apart.1
        (λ q m. rw (tick-held w) (mine q (ground (arith)))) writes.1 later in
    let out : record {
      write_set = record e { data_item_copy = copied e.data_item_copy item } ∷ rest.write_set;
      world = rest.world;
    }
        ≡ d =
      cc in
    subst (IsInstalled P epoch list (e ∷ es) w) out
      (record { guarded = r.guarded; held = r.held ∙ tick-held w; same = rw (kept, r.same) refl })

-- The version of a locked item's release has no lock bit.
unlocked_id-free :
    (epoch : ℕ) (t : TransactionId) → is_locked t ≡ true → is_locked (unlocked_id epoch t) ≡ false
unfolding unlocked_id
unlocked_id-free epoch t h = elim (Bool-cases (epoch == t.epoch)) [
  | inl e ↦ rw e (next-free t epoch h)
  | inr n ↦ rw n refl
]

-- The entries' versions have no lock bit.
abbrev pub AllFree : List Entry → Type 0
AllFree = All (λ (e : Entry). is_locked e.data_item_copy.transaction_id ≡ false)

pub post_processing-items :
    (P : Property) (epoch : ℕ) (list : List LockedId) (es : List Entry) (w : World)
    → IsGuarded P (WithIds list (AfterRelease P epoch)) w
    → ((p : ℕ) (t : TransactionId) → HasIds list p t → HasIds (ids es) p t)
    → w.held ≡ pointers es
    → IsDistinct (pointers es)
    → ((p : ℕ) → Has P p ((post_processing epoch es w).world.items p))
      × ((post_processing epoch es w).world.held ≡ [])
      × AllFree (post_processing epoch es w).write_set
unfolding post_processing
post_processing-items P epoch list [] w g narrow e apart = (λ p. rw e at (g.items p), e, tt)
post_processing-items P epoch list (f ∷ es) w g narrow e apart =
    let p : ℕ = f.index_cache in
    let here : IsGuarded P (WithIds list (AfterRelease P epoch)) (tick w) =
      tick-IsGuarded P _ w g in
    let holds : (tick w).held ≡ p ∷ pointers es = tick-held w ∙ e in
    let was =
      held-IsGuarded P (WithIds list (AfterRelease P epoch)) (tick w) p here
        (rw (holds, ==_refl p) refl) in
    let same : ((tick w).items p).transaction_id ≡ f.data_item_copy.transaction_id =
      (narrow p ((tick w).items p).transaction_id was.1).0 refl in
    let id : TransactionId = unlocked_id epoch f.data_item_copy.transaction_id in
    let free : is_locked id ≡ false =
      unlocked_id-free epoch f.data_item_copy.transaction_id (rw (← same) was.0.0) in
    let (items, held, versions) =
      post_processing-items P epoch list es (release p id (tick w))
        (release-IsGuarded P (WithIds list (AfterRelease P epoch)) (tick w) p id here free
          (rw (← same) was.0.1))
        (λ q t i. (narrow q t i).1) (rw (free, holds) (without-not_in p (pointers es) apart.0))
        apart.1 in
    (items, held, (free, versions))
