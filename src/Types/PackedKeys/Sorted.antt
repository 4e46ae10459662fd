-- ===== src/Types/PackedKeys/Sorted.antt =====
-- Inserting into and erasing from a sorted list of keys: what is in the result, and in which order.
use lineair_db.Base.{◌≡◌, refl, arith, true, false, not, ◌&&◌, ◌||◌, List, [], ◌∷◌, All}
use lineair_db.Base.{Bool-cases, inl, inr}
use lineair_db.Types.Keys.{Key, key_eq, key_lt, key_lt_trans, key_lt_total, key_lt_irrefl}
use lineair_db.Types.Keys.{eq_of_key_eq, key_eq_refl}
use lineair_db.Types.PackedKeys.Layout.{
  IsSorted, has_key, insert_sorted, erase_key, not-has_key_below,
}

-- The keys after an insertion are the new one and the old ones.
pub has_key-insert_sorted :
    (j key : Key) (keys : List Key)
    → has_key j (insert_sorted key keys) ≡ (key_eq key j || has_key j keys)
unfolding has_key insert_sorted
has_key-insert_sorted j key [] = refl
has_key-insert_sorted j key (x ∷ keys) =
    ground (arith, eq_of_key_eq x key, has_key-insert_sorted j key keys)

pub All-insert_sorted {ℓ} :
    (P : Key → Type ℓ) (key : Key) (keys : List Key)
    → P key
    → All P keys
    → All P (insert_sorted key keys)
unfolding insert_sorted
All-insert_sorted P key [] p h = (p, tt)
All-insert_sorted P key (x ∷ keys) p h = elim (Bool-cases (key_eq x key)) [
  | inl e ↦ rw e h
  | inr n ↦ elim (Bool-cases (key_lt x key)) [
    | inl lt ↦ rw (n, lt) (h.0, All-insert_sorted P key keys p h.1)
    | inr ge ↦ rw (n, ge) (p, h)
  ]
]

-- A bound of a list that is above `x` bounds what is above `key`, for `key` below `x`.
All-trans :
    (key x : Key) (keys : List Key)
    → key_lt key x ≡ true
    → All (λ y. key_lt x y ≡ true) keys
    → All (λ y. key_lt key y ≡ true) keys
All-trans key x [] h a = tt
All-trans key x (y ∷ keys) h a = (key_lt_trans key x y h a.0, All-trans key x keys h a.1)

-- Insertion keeps the order.
pub insert_sorted-IsSorted :
    (key : Key) (keys : List Key) → IsSorted keys → IsSorted (insert_sorted key keys)
unfolding insert_sorted
insert_sorted-IsSorted key [] s = (tt, tt)
insert_sorted-IsSorted key (x ∷ keys) s = elim (Bool-cases (key_eq x key)) [
  | inl e ↦ rw e s
  | inr n ↦ elim (Bool-cases (key_lt x key)) [
    | inl lt ↦
        rw (n, lt)
          (
            All-insert_sorted (λ y. key_lt x y ≡ true) key keys lt s.0,
            insert_sorted-IsSorted key keys s.1,
          )
    | inr ge ↦
        rw (n, ge)
          ((key_lt_total x key ge n, All-trans key x keys (key_lt_total x key ge n) s.0), s)
  ]
]

pub All-erase_key {ℓ} :
    (P : Key → Type ℓ) (key : Key) (keys : List Key) → All P keys → All P (erase_key key keys)
unfolding erase_key
All-erase_key P key [] h = tt
All-erase_key P key (x ∷ keys) h = elim (Bool-cases (key_eq x key)) [
  | inl e ↦ rw e h.1
  | inr n ↦ rw n (h.0, All-erase_key P key keys h.1)
]

-- Removal keeps the order.
pub erase_key-IsSorted :
    (key : Key) (keys : List Key) → IsSorted keys → IsSorted (erase_key key keys)
unfolding erase_key
erase_key-IsSorted key [] s = tt
erase_key-IsSorted key (x ∷ keys) s = elim (Bool-cases (key_eq x key)) [
  | inl e ↦ rw e s.1
  | inr n ↦
      rw n (All-erase_key (λ y. key_lt x y ≡ true) key keys s.0, erase_key-IsSorted key keys s.1)
]

-- In a sorted list the first key is not found again.
head_once : (x : Key) (keys : List Key) → All (λ y. key_lt x y ≡ true) keys → has_key x keys ≡ false
unfolding has_key
head_once x [] a = refl
head_once x (y ∷ keys) a = elim (Bool-cases (key_eq y x)) [
  | inl e ↦ cc (key_lt_irrefl x, eq_of_key_eq y x e, a.0)
  | inr n ↦ rw n (head_once x keys a.1)
]

-- The keys after a removal are the old ones other than the removed one.
pub has_key-erase_key :
    (j key : Key) (keys : List Key)
    → IsSorted keys
    → has_key j (erase_key key keys) ≡ (has_key j keys && not (key_eq key j))
unfolding has_key erase_key
has_key-erase_key j key [] s = refl
has_key-erase_key j key (x ∷ keys) s = ground (
  arith,
  eq_of_key_eq x key,
  eq_of_key_eq x j,
  key_eq_refl key,
  eq_of_key_eq key j,
  head_once x keys s.0,
  has_key-erase_key j key keys s.1,
)

-- A key that is there changes nothing.
pub insert_sorted_present :
    (key : Key) (keys : List Key)
    → IsSorted keys
    → has_key key keys ≡ true
    → insert_sorted key keys ≡ keys
unfolding has_key insert_sorted
insert_sorted_present key [] s h = cc
insert_sorted_present key (x ∷ keys) s h = ground (
  arith,
  not-has_key_below key x keys,
  key_lt_total x key,
  insert_sorted_present key keys s.1,
  s.0,
)
