-- ===== src/ConcurrencyControl/Silo/Installs.antt =====
-- The install of src/concurrency_control/impl/silo_nwr.hpp does all its writes.
use lineair_db.Base.{
  ℕ, ◌≡◌, refl, subst, ◌∙◌, arith, Bool, true, false, List, [], ◌∷◌, All, ◌==◌, ==_refl,
}
use lineair_db.Types.Outcome.{value, bind_value}
use lineair_db.ConcurrencyControl.Memory.{
  DataItem, Others, World, mem, moved, tick_with, tick, store_item,
}
use lineair_db.ConcurrencyControl.Memory.Rely.{tick-held}
use lineair_db.ConcurrencyControl.Silo.{Entry}
use lineair_db.ConcurrencyControl.Silo.Locking.Keeps.{pointers, IsDistinct}
use lineair_db.ConcurrencyControl.Silo.Install.{installed, copied, Installed, install_all}

-- Two items with the same version, buffer and keys.
pub record IsSame (item item' : DataItem) : Type 0 where
  pub transaction_id : item'.transaction_id ≡ item.transaction_id
  pub buffer : item'.buffer ≡ item.buffer
  pub primary_keys : item'.primary_keys ≡ item.primary_keys

IsSame-trans : (a b c : DataItem) → IsSame a b → IsSame b c → IsSame a c
IsSame-trans a b c p q = record {
  transaction_id = q.transaction_id ∙ p.transaction_id;
  buffer = q.buffer ∙ p.buffer;
  primary_keys = q.primary_keys ∙ p.primary_keys;
}

IsSame-refl : (a : DataItem) → IsSame a a
IsSame-refl a = record { transaction_id = refl; buffer = refl; primary_keys = refl }

moved-IsSame :
    (b : Bool) (before after : DataItem) → b ≡ true → IsSame before (moved b before after)
moved-IsSame true before after h = record {
  transaction_id = refl;
  buffer = refl;
  primary_keys = refl;
}
moved-IsSame false before after h = absurd (cc)

tick_with-IsSame :
    (others : List Others) (w : World) (q : ℕ)
    → mem q w.held ≡ true
    → IsSame (w.items q) ((tick_with others w).items q)
tick_with-IsSame [] w q h = IsSame-refl (w.items q)
tick_with-IsSame (o ∷ others) w q h = moved-IsSame (mem q w.held) (w.items q) (o.items w.items q) h

tick-IsSame : (w : World) (q : ℕ) → mem q w.held ≡ true → IsSame (w.items q) ((tick w).items q)
unfolding tick
tick-IsSame w q h = tick_with-IsSame w.others w q h

-- What the install of an entry makes of its item in `w` stands in `v`.
pub record IsWritten (e : Entry) (w v : World) : Type 0 where
  pub before : DataItem
  pub was : IsSame (w.items e.index_cache) before
  pub after : DataItem
  pub made : installed e before ≡ value after
  pub stands : IsSame after (v.items e.index_cache)

abbrev pub AllWritten : List Entry → World → World → Type 0
AllWritten [] w v = Unit
AllWritten (e ∷ entries) w v = IsWritten e w v × AllWritten entries w v

AllWritten-since :
    (es : List Entry) (w stored v : World)
    → All (λ q. IsSame (w.items q) (stored.items q)) (pointers es)
    → AllWritten es stored v
    → AllWritten es w v
AllWritten-since [] w stored v s a = tt
AllWritten-since (e ∷ es) w stored v s (i, a) = (
  record {
    before = i.before;
    was = IsSame-trans (w.items e.index_cache) (stored.items e.index_cache) i.before s.0 i.was;
    after = i.after;
    made = i.made;
    stands = i.stands;
  },
  AllWritten-since es w stored v s.1 a,
)

-- A store into one item leaves the other locked items as they were before the others' turn.
store_item-IsSame :
    (qs : List ℕ) (w : World) (p : ℕ) (item : DataItem)
    → All (λ q. mem q w.held ≡ true) qs
    → mem p qs ≡ false
    → All (λ q. IsSame (w.items q) ((store_item p item (tick w)).items q)) qs
store_item-IsSame [] w p item m n = tt
store_item-IsSame (q ∷ qs) w p item m n =
    let apart : (q == p) ≡ false = ground arith in
    (rw apart (tick-IsSame w q m.0), store_item-IsSame qs w p item m.1 (ground arith))

-- A locked item that is none of the entries' stays as it is.
install_all-IsSame :
    (es : List Entry) (w : World) (d : Installed) (q : ℕ)
    → mem q w.held ≡ true
    → mem q (pointers es) ≡ false
    → install_all es w ≡ value d
    → IsSame (w.items q) (d.world.items q)
unfolding install_all
install_all-IsSame [] w d q m n h =
    let out : record { write_set = []; world = w } ≡ d = cc in
    subst (λ (d : Installed). IsSame (w.items q) (d.world.items q)) out (IsSame-refl (w.items q))
install_all-IsSame (e ∷ es) w d q m n h =
    let here : World = tick w in
    let (item, (ran, goes_on)) = bind_value (installed e (here.items e.index_cache)) _ d h in
    let stored : World = store_item e.index_cache item here in
    let (rest, (later, end)) = bind_value (install_all es stored) _ d goes_on in
    let out : record {
      write_set = record e { data_item_copy = copied e.data_item_copy item } ∷ rest.write_set;
      world = rest.world;
    }
        ≡ d =
      cc in
    let apart : (q == e.index_cache) ≡ false = ground arith in
    let others : mem q (pointers es) ≡ false = ground arith in
    let there : stored.items q ≡ here.items q = rw apart refl in
    let r : IsSame (stored.items q) (rest.world.items q) =
      install_all-IsSame es stored rest q (rw (tick-held w) m) others later in
    subst (λ (d : Installed). IsSame (w.items q) (d.world.items q)) out
      (IsSame-trans (w.items q) (here.items q) (rest.world.items q) (tick-IsSame w q m)
        (subst (λ (i : DataItem). IsSame i (rest.world.items q)) there r))

-- The install of a write set whose items this thread has locked, all of them distinct, whatever the
-- other threads do meanwhile: at its end each entry's item has the version, the buffer and the keys
-- that the install of this entry makes of the locked item, as it was when the install began.
pub install_all-AllWritten :
    (es : List Entry) (w : World) (d : Installed)
    → All (λ p. mem p w.held ≡ true) (pointers es)
    → IsDistinct (pointers es)
    → install_all es w ≡ value d
    → AllWritten es w d.world
unfolding install_all
install_all-AllWritten [] w d m apart h = tt
install_all-AllWritten (e ∷ es) w d m apart h =
    let p : ℕ = e.index_cache in
    let here : World = tick w in
    let (item, (ran, goes_on)) = bind_value (installed e (here.items p)) _ d h in
    let stored : World = store_item p item here in
    let (rest, (later, end)) = bind_value (install_all es stored) _ d goes_on in
    let out : record {
      write_set = record e { data_item_copy = copied e.data_item_copy item } ∷ rest.write_set;
      world = rest.world;
    }
        ≡ d =
      cc in
    let there : stored.items p ≡ item = rw (==_refl p) refl in
    let kept : IsSame (stored.items p) (rest.world.items p) =
      install_all-IsSame es stored rest p (rw (tick-held w) m.0) apart.0 later in
    subst (λ (d : Installed). AllWritten (e ∷ es) w d.world) out
      (
        record {
          before = here.items p;
          was = tick-IsSame w p m.0;
          after = item;
          made = ran;
          stands = subst (λ (i : DataItem). IsSame i (rest.world.items p)) there kept;
        },
        AllWritten-since es w stored rest.world
            (store_item-IsSame (pointers es) w p item m.1 apart.0)
            (install_all-AllWritten es stored rest (rw (tick-held w) m.1) apart.1 later),
      )
