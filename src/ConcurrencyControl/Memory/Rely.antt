-- ===== src/ConcurrencyControl/Memory/Rely.antt =====
-- What the accesses of a thread keep: a property of each item's version, buffer and keys, which the other
-- threads keep, and which the locked items have with the version they had before.
use lineair_db.Base.{ℕ, ◌+◌, ◌-◌, ◌/◌, ◌%◌, ◌^◌, ◌<◌, bit_and, bit_or, ◌≡◌, refl, arith}
use lineair_db.Base.{Bool, true, false, not, ◌||◌, List, [], ◌∷◌, ◌++◌, All, ◌==◌, ==_refl}
use lineair_db.Base.{Bool-cases, inl, inr}
use lineair_db.Base.Bits.{bit_and-mask, bit_or-halve, bit_or-zero}
use lineair_db.Types.TransactionId.{TransactionId}
use lineair_db.Types.PackedKeys.{Ptr}
use lineair_db.ConcurrencyControl.Memory.{
  DataItem, Items, Others, World, mem, without, moved, tick_with, tick, put_item, is_locked, locked,
  decremented, with_tid, take_lock, release,
}

abbrev pub Property : Type 1
Property = ℕ → TransactionId → List ℕ → Ptr → Type 0

abbrev pub Has : Property → ℕ → DataItem → Type 0
Has P p item = P p item.transaction_id item.buffer item.primary_keys

-- An item that was locked, and has not changed since.
abbrev pub BeforeLock : Property → Property
BeforeLock P p t buffer keys = (is_locked t ≡ true) × P p (decremented t) buffer keys

-- `Q` for the items that this thread has locked, `P` for the others.
abbrev pub Either : Bool → Property → Property → Property
Either true Q P = Q
Either false Q P = P

abbrev pub Keeps : Property → Others → Type 0
Keeps P o = (s : Items) (p : ℕ) → Has P p (s p) → Has P p (o.items s p)

pub record IsGuarded (P Q : Property) (w : World) : Type 0 where
  pub items : (p : ℕ) → Has (Either (mem p w.held) Q P) p (w.items p)
  pub others : All (Keeps P) w.others

moved-Has :
    (P Q : Property) (p : ℕ) (b : Bool) (before after : DataItem)
    → (Has P p before → Has P p after)
    → Has (Either b Q P) p before
    → Has (Either b Q P) p (moved b before after)
moved-Has P Q p true before after k h = h
moved-Has P Q p false before after k h = k h

tick_with-IsGuarded :
    (P Q : Property) (others : List Others) (w : World)
    → All (Keeps P) others
    → IsGuarded P Q w
    → IsGuarded P Q (tick_with others w)
tick_with-IsGuarded P Q [] w k g = g
tick_with-IsGuarded P Q (o ∷ others) w k g = record {
  items = λ p.
      moved-Has P Q p (mem p w.held) (w.items p) (o.items w.items p) (k.0 w.items p) (g.items p);
  others = k.1;
}

pub tick-IsGuarded : (P Q : Property) (w : World) → IsGuarded P Q w → IsGuarded P Q (tick w)
unfolding tick
tick-IsGuarded P Q w g = tick_with-IsGuarded P Q w.others w g.others g

tick_with-held : (others : List Others) (w : World) → (tick_with others w).held ≡ w.held
tick_with-held [] w = refl
tick_with-held (o ∷ others) w = refl

pub tick-held : (w : World) → (tick w).held ≡ w.held
unfolding tick
tick-held w = tick_with-held w.others w

-- One item is replaced; the others are guarded as they were.
pub put-IsGuarded :
    (P Q R : Property) (w v : World) (p : ℕ) (item : DataItem)
    → IsGuarded P Q w
    → v.items ≡ put_item p item w.items
    → v.others ≡ w.others
    → Has (Either (mem p v.held) R P) p item
    → ((q : ℕ)
        → (q == p) ≡ false
        → Has (Either (mem q w.held) Q P) q (w.items q)
        → Has (Either (mem q v.held) R P) q (w.items q))
    → IsGuarded P R v
put-IsGuarded P Q R w v p item g hi ho here rest = record {
  items = λ q. rw hi (elim (Bool-cases (q == p)) [
    | inl e ↦ let eq : q ≡ p = ground arith in rw (eq, ==_refl p) here
    | inr n ↦ rw n (rest q n (g.items q))
  ]);
  others = rw ho g.others;
}

or_false : (b : Bool) → (b || false) ≡ b
or_false true = refl
or_false false = refl

pub mem-append : (q p : ℕ) (held : List ℕ) → mem q (held ++ (p ∷ [])) ≡ (mem q held || (q == p))
mem-append q p [] = ground arith
mem-append q p (r ∷ held) = ground (arith, mem-append q p held)

mem-without : (q p : ℕ) (held : List ℕ) → (q == p) ≡ false → mem q (without p held) ≡ mem q held
mem-without q p [] n = refl
mem-without q p (r ∷ held) n = ground (arith, mem-without q p held)

mem-without_self : (p : ℕ) (held : List ℕ) → mem p (without p held) ≡ false
mem-without_self p [] = refl
mem-without_self p (r ∷ held) = ground (arith, mem-without_self p held)

-- An item that is released becomes one of the others.
pub release-IsGuarded :
    (P Q : Property) (w : World) (p : ℕ) (t : TransactionId)
    → IsGuarded P Q w
    → is_locked t ≡ false
    → Has P p (with_tid t (w.items p))
    → IsGuarded P Q (release p t w)
release-IsGuarded P Q w p t g free h =
    put-IsGuarded P Q Q w (release p t w) p (with_tid t (w.items p)) g refl refl
      (rw (free, mem-without_self p w.held) h) (λ q n k. rw (free, mem-without q p w.held n) k)

-- The lock bit of an even version, set and taken off again.
pub bit_or-even : (n : ℕ) → n % 2 ≡ 0 → bit_or n 1 ≡ n + 1
bit_or-even n h = omega (arith, bit_or-halve n 1, bit_or-zero (n / 2))

pub is_locked_even : (t : TransactionId) → is_locked t ≡ false → t.tid % 2 ≡ 0
is_locked_even t h = ground (arith, bit_and-mask 1 t.tid)

odd : (n : ℕ) → n % 2 ≡ 0 → not (bit_and (bit_or n 1) 1 == 0) ≡ true
odd n h =
    let e : bit_and (bit_or n 1) 1 ≡ 1 =
      omega (arith, bit_and-mask 1 (bit_or n 1), bit_or-even n h) in
    rw e refl

pub is_locked-locked : (t : TransactionId) → is_locked t ≡ false → is_locked (locked t) ≡ true
is_locked-locked t h = odd t.tid (is_locked_even t h)

pub decremented-locked :
    (t : TransactionId) → is_locked t ≡ false → t.tid < 2 ^ 32 → decremented (locked t) ≡ t
decremented-locked t h b = λ i. record { epoch = t.epoch; tid = undo i }
  where
    undo : (bit_or t.tid 1 + (2 ^ 32 - 1)) % 2 ^ 32 ≡ t.tid
    undo = omega (arith, bit_or-even t.tid (is_locked_even t h))

is_locked_odd : (t : TransactionId) → is_locked t ≡ true → t.tid % 2 ≡ 1
is_locked_odd t h = ground (arith, bit_and-mask 1 t.tid)

even-free : (t : TransactionId) → t.tid % 2 ≡ 0 → is_locked t ≡ false
even-free t h = let e : bit_and t.tid 1 ≡ 0 = omega (arith, bit_and-mask 1 t.tid) in rw e refl

-- One less or one more than a locked version is free of the lock.
pub decremented-free : (t : TransactionId) → is_locked t ≡ true → is_locked (decremented t) ≡ false
decremented-free t h = even-free (decremented t) (omega (arith, is_locked_odd t h))

pub next-free :
    (t : TransactionId) (epoch : ℕ)
    → is_locked t ≡ true
    → is_locked (record { epoch = epoch; tid = (t.tid + 1) % 2 ^ 32 }) ≡ false
next-free t epoch h =
    even-free (record { epoch = epoch; tid = (t.tid + 1) % 2 ^ 32 })
      (omega (arith, is_locked_odd t h))

pub held-IsGuarded :
    (P Q : Property) (w : World) (p : ℕ)
    → IsGuarded P Q w
    → mem p w.held ≡ true
    → Has Q p (w.items p)
held-IsGuarded P Q w p g h = rw h at (g.items p)

-- An item that is not locked is not one of those that this thread has locked.
pub free-IsGuarded :
    (P : Property) (w : World) (p : ℕ)
    → IsGuarded P (BeforeLock P) w
    → is_locked (w.items p).transaction_id ≡ false
    → (mem p w.held ≡ false) × Has P p (w.items p)
free-IsGuarded P w p g h = elim (Bool-cases (mem p w.held)) [
  | inl e ↦ absurd (cc ((held-IsGuarded P (BeforeLock P) w p g e).0))
  | inr n ↦ (n, rw n at (g.items p))
]

abbrev pub IsSmall : Property → Type 0
IsSmall P = (p : ℕ) (t : TransactionId) (b : List ℕ) (k : Ptr) → P p t b k → t.tid < 2 ^ 32

pub take_lock-IsGuarded :
    (P : Property) (w : World) (p : ℕ)
    → IsSmall P
    → IsGuarded P (BeforeLock P) w
    → is_locked (w.items p).transaction_id ≡ false
    → IsGuarded P (BeforeLock P) (take_lock p w)
take_lock-IsGuarded P w p small g h =
    let (n, has) = free-IsGuarded P w p g h in
    let t : TransactionId = (w.items p).transaction_id in
    put-IsGuarded P (BeforeLock P) (BeforeLock P) w (take_lock p w) p
      (with_tid (locked t) (w.items p)) g refl refl
      (rw (mem-append p p w.held, ==_refl p, n)
        (
          is_locked-locked t h,
          rw (decremented-locked t h (small p t (w.items p).buffer (w.items p).primary_keys has))
              has,
        ))
      (λ q m k. rw (mem-append q p w.held, m, or_false (mem q w.held)) k)
