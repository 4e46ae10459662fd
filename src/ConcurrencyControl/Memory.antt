-- ===== src/ConcurrencyControl/Memory.antt =====
-- The data items of src/types/data_item.hpp as a transaction and the other threads share them. A pointer
-- to an item is a number. What the other threads do is a list: one element for each access of this
-- thread, which takes effect just before it. They leave alone an item that this thread has locked,
-- save for its pivot object, which every thread updates without the lock.
pub mod Rely
pub mod Online
use lineair_db.Base.{
  ℕ, ◌^◌, ◌+◌, ◌-◌, ◌%◌, bit_and, bit_or, Bool, true, false, not, ◌&&◌, ◌||◌, Option, none, some,
}
use lineair_db.Base.{List, [], ◌∷◌, ◌++◌, ◌==◌, if◌then◌else◌}
use lineair_db.Types.Keys.{Key}
use lineair_db.Types.TransactionId.{TransactionId}
use lineair_db.Types.PackedKeys.{Ptr}
use lineair_db.ConcurrencyControl.PivotObject.{NwrPivotObject}

-- `DataItem`: the buffer is the list of its bytes, and the lock of the other protocol is left out.
pub record DataItem : Type 0 where
  pub transaction_id : TransactionId
  pub buffer : List ℕ
  pub primary_keys : Ptr
  pub checkpoint_buffer : List ℕ
  pub checkpoint_primary_keys : Option (List Key)
  pub pivot_object : NwrPivotObject

abbrev pub Items : Type 0
Items = ℕ → DataItem

-- `Get` of an index, by the pointer to the index.
abbrev pub Indexes : Type 0
Indexes = ℕ → Key → Option ℕ

-- What happens before one access: the other threads change items, the indexes and the global epoch, and
-- a weak exchange may fail without a reason.
pub record Others : Type 0 where
  pub items : Items → Items
  pub indexes : Indexes → Indexes
  pub global_epoch : ℕ → ℕ
  pub spurious : Bool

-- `held` are the items that this thread has locked.
pub record World : Type 0 where
  pub items : Items
  pub indexes : Indexes
  pub global_epoch : ℕ
  pub held : List ℕ
  pub others : List Others

abbrev pub mem : ℕ → List ℕ → Bool
mem p [] = false
mem p (q ∷ qs) = p == q || mem p qs

abbrev pub without : ℕ → List ℕ → List ℕ
without p [] = []
without p (q ∷ qs) = let rest = without p qs in if p == q then rest else q ∷ rest

-- What an item is after others have moved it from `before` to `after`.
abbrev pub moved : Bool → DataItem → DataItem → DataItem
moved true before after = record before { pivot_object = after.pivot_object }
moved false before after = after

abbrev pub interfere : List ℕ → Items → Items → Items
interfere held before after p = moved (mem p held) (before p) (after p)

abbrev pub tick_with : List Others → World → World
tick_with [] w = w
tick_with (o ∷ others) w = record w {
  items = interfere w.held w.items (o.items w.items);
  indexes = o.indexes w.indexes;
  global_epoch = o.global_epoch w.global_epoch;
  others = others;
}

-- The others' turn before an access.
unfoldable pub tick : World → World
tick w = tick_with w.others w

abbrev pub fails_with : List Others → Bool
fails_with [] = false
fails_with (o ∷ others) = o.spurious

-- Whether a weak exchange, the next access, fails without a reason.
unfoldable pub fails : World → Bool
fails w = fails_with w.others

abbrev pub put_item : ℕ → DataItem → Items → Items
put_item p item items q = if q == p then item else items q

abbrev pub store_item : ℕ → DataItem → World → World
store_item p item w = record w { items = put_item p item w.items }

abbrev pub with_tid : TransactionId → DataItem → DataItem
with_tid t item = record item { transaction_id = t }

abbrev pub is_locked : TransactionId → Bool
is_locked t = not (bit_and t.tid 1 == 0)

-- `tid |= 1`, and `tid--` of 32 bits.
abbrev pub locked : TransactionId → TransactionId
locked t = record t { tid = bit_or t.tid 1 }

abbrev pub decremented : TransactionId → TransactionId
decremented t = record t { tid = (t.tid + (2 ^ 32 - 1)) % 2 ^ 32 }

-- The exchange that has taken an item's lock, and the store of a version, which gives the lock back only if
-- the version has no lock bit.
abbrev pub take_lock : ℕ → World → World
take_lock p w = record w {
  items = put_item p (with_tid (locked (w.items p).transaction_id) (w.items p)) w.items;
  held = w.held ++ (p ∷ []);
}

abbrev pub release : ℕ → TransactionId → World → World
release p t w = record w {
  items = put_item p (with_tid t (w.items p)) w.items;
  held = if is_locked t then w.held else without p w.held;
}
