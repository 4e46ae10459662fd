-- ===== src/Types/PackedKeys/View/Laws.antt =====
-- What a view of a packed list of sorted keys shows.
use lineair_db.Base.{ℕ, zero, suc, ◌<◌, ◌≡◌, refl, ap, arith, ◌==◌}
use lineair_db.Base.{
  Bool, true, false, not, ◌&&◌, none, some, List, [], ◌∷◌, ◌++◌, append_assoc, append-nil,
}
use lineair_db.Base.{length, length-append, All, Bool-cases, ◌↔◌, inl, inr, if◌then◌else◌}
use lineair_db.Types.Outcome.{value, map_value}
use lineair_db.Types.Keys.{
  Key, IsKey, key_eq, key_lt, key_lt_total, key_lt_irrefl, eq_of_key_eq, key_eq_refl,
}
use lineair_db.Types.Records.{write_record, write_records}
use lineair_db.Types.Records.RoundTrip.{write_record-shape, decode_record-write, record_key-write}
use lineair_db.Types.PackedKeys.Layout.{packed, IsSorted, has_key, not-has_key_below}
use lineair_db.Types.PackedKeys.View.{
  Iterator, iterator_eq, deref, advance, size, begin, end, lower_bound_loop, lower_bound, contains,
  equals_loop, equals, vector_loop, primary_keys_vector,
}

not_empty : (n : ℕ) → (suc n == 0) ≡ false
not_empty n = ground arith

-- The iterator that stands before `keys`.
abbrev at : List Key → Iterator
at keys = record { cursor = write_records keys; left = length keys }

at_end : (view : List Key) → iterator_eq (at []) (end (some (packed view))) ≡ true
unfolding iterator_eq end write_records
at_end view = refl

module _ {x : Key} (k : IsKey x) (keys : List Key) where
  at_key : (view : List Key) → iterator_eq (at (x ∷ keys)) (end (some (packed view))) ≡ false
  unfolding iterator_eq end write_records
  at_key view =
      ground (arith, write_record-shape k, length-append (write_record x) (write_records keys))

  deref-at : deref (at (x ∷ keys)) ≡ value x
  unfolding deref write_records
  deref-at =
      rw (decode_record-write k (write_records keys), record_key-write k (write_records keys))

  advance-at : advance (at (x ∷ keys)) ≡ value (at keys)
  unfolding advance write_records
  advance-at =
      rw (not_empty (length keys), decode_record-write k (write_records keys))
        (ap (λ (n : ℕ). value (record { cursor = write_records keys; left = n })) (omega arith))

-- The keys from the first one on that is not below `key`.
unfoldable pub from_key : Key → List Key → List Key
from_key key [] = []
from_key key (x ∷ keys) = if key_lt x key then from_key key keys else x ∷ keys

choose :
    (below : Bool) (here behind : List Key)
    → (if not below then value (at here) else value (at behind))
      ≡ value (at (if below then behind else here))
choose true here behind = refl
choose false here behind = refl

lower_bound_loop_lem :
    (fuel : ℕ) (view keys : List Key) (key : Key)
    → All IsKey keys
    → length keys < fuel
    → lower_bound_loop fuel (some (packed view)) (at keys) key ≡ value (at (from_key key keys))
unfolding lower_bound_loop from_key
lower_bound_loop_lem zero view keys key k h = absurd (omega arith)
lower_bound_loop_lem (suc fuel) view [] key k h =
    rw (at_end view) (unfold end write_records in refl)
lower_bound_loop_lem (suc fuel) view (x ∷ keys) key k h =
    rw
      (
        at_key k.0 keys view,
        deref-at k.0 keys,
        advance-at k.0 keys,
        lower_bound_loop_lem fuel view keys key k.1 (omega arith),
      )
      (choose (key_lt x key) (x ∷ keys) (from_key key keys))

vector_loop_lem :
    (fuel : ℕ) (view keys acc : List Key)
    → All IsKey keys
    → length keys < fuel
    → vector_loop fuel (some (packed view)) (at keys) acc ≡ value (acc ++ keys)
unfolding vector_loop
vector_loop_lem zero view keys acc k h = absurd (omega arith)
vector_loop_lem (suc fuel) view [] acc k h = rw (at_end view, append-nil)
vector_loop_lem (suc fuel) view (x ∷ keys) acc k h =
    rw
      (
        at_key k.0 keys view,
        deref-at k.0 keys,
        advance-at k.0 keys,
        vector_loop_lem fuel view keys (acc ++ (x ∷ [])) k.1 (omega arith),
      )
      (ap value (append_assoc acc (x ∷ []) keys))

-- Iterating over the packed list of some keys yields these keys, in order.
pub primary_keys_vector-packed :
    (keys : List Key) → All IsKey keys → primary_keys_vector (some (packed keys)) ≡ value keys
unfolding primary_keys_vector size begin
primary_keys_vector-packed keys k = vector_loop_lem (suc (length keys)) keys keys [] k (omega arith)

-- In the packed list of some keys, `lower_bound` stands at the first key that is not below the searched
-- one, or at the end.
pub lower_bound-packed :
    (keys : List Key) (key : Key)
    → All IsKey keys
    → lower_bound (some (packed keys)) key ≡ value (begin (some (packed (from_key key keys))))
unfolding lower_bound size begin
lower_bound-packed keys key k =
    lower_bound_loop_lem (suc (length keys)) keys keys key k (omega arith)

abbrev head_is : Key → List Key → Bool
head_is key [] = false
head_is key (x ∷ keys) = key_eq x key

ne_of_lt : (j k : Key) → key_lt j k ≡ true → key_eq j k ≡ false
ne_of_lt j k h = elim (Bool-cases (key_eq j k)) [
  | inl e ↦ cc (key_lt_irrefl j, eq_of_key_eq j k e, h)
  | inr n ↦ n
]

head_is-from_key :
    (key : Key) (keys : List Key)
    → IsSorted keys
    → head_is key (from_key key keys) ≡ has_key key keys
unfolding from_key has_key
head_is-from_key key [] s = refl
head_is-from_key key (x ∷ keys) s = elim (Bool-cases (key_lt x key)) [
  | inl lt ↦ rw (lt, ne_of_lt x key lt) (head_is-from_key key keys s.1)
  | inr ge ↦ rw ge (elim (Bool-cases (key_eq x key)) [
    | inl e ↦ rw e
    | inr n ↦ rw (n, not-has_key_below key x keys (key_lt_total x key ge n) s.0)
  ])
]

All-from_key : (key : Key) (keys : List Key) → All IsKey keys → All IsKey (from_key key keys)
unfolding from_key
All-from_key key [] k = tt
All-from_key key (x ∷ keys) k = elim (Bool-cases (key_lt x key)) [
  | inl lt ↦ rw lt (All-from_key key keys k.1)
  | inr ge ↦ rw ge k
]

contains_at :
    (view keys : List Key) (key : Key)
    → All IsKey keys
    → (if iterator_eq (at keys) (end (some (packed view)))
        then value false
        else map_value (λ k. key_eq k key) (deref (at keys)))
      ≡ value (head_is key keys)
contains_at view [] key k = rw (at_end view)
contains_at view (x ∷ keys) key k = rw (at_key k.0 keys view, deref-at k.0 keys)

-- In the packed list of ascending keys, `contains` ends well and decides whether the key is in the
-- list.
pub contains-packed :
    (keys : List Key) (key : Key)
    → All IsKey keys
    → IsSorted keys
    → contains (some (packed keys)) key ≡ value (has_key key keys)
unfolding contains begin
contains-packed keys key k s =
    rw (lower_bound-packed keys key k, ← head_is-from_key key keys s)
      (contains_at keys (from_key key keys) key (All-from_key key keys k))

unfoldable pub same_keys : List Key → List Key → Bool
same_keys [] [] = true
same_keys [] (y ∷ ys) = false
same_keys (x ∷ xs) [] = false
same_keys (x ∷ xs) (y ∷ ys) = key_eq x y && same_keys xs ys

eq_of_same_keys : (xs ys : List Key) → same_keys xs ys ≡ true → xs ≡ ys
unfolding same_keys
eq_of_same_keys [] [] h = refl
eq_of_same_keys [] (y ∷ ys) h = cc
eq_of_same_keys (x ∷ xs) [] h = cc
eq_of_same_keys (x ∷ xs) (y ∷ ys) h = ground (arith, eq_of_key_eq x y, eq_of_same_keys xs ys)

same_keys_refl : (xs : List Key) → same_keys xs xs ≡ true
unfolding same_keys
same_keys_refl [] = refl
same_keys_refl (x ∷ xs) = rw (key_eq_refl x) (same_keys_refl xs)

equals_loop_lem :
    (fuel : ℕ) (view xs ys : List Key)
    → All IsKey xs
    → All IsKey ys
    → length xs ≡ length ys
    → length xs < fuel
    → equals_loop fuel (some (packed view)) (at xs) (at ys) ≡ value (same_keys xs ys)
unfolding equals_loop same_keys
equals_loop_lem zero view xs ys k l e h = absurd (omega arith)
equals_loop_lem (suc fuel) view [] [] k l e h = rw (at_end view)
equals_loop_lem (suc fuel) view [] (y ∷ ys) k l e h = absurd (omega arith)
equals_loop_lem (suc fuel) view (x ∷ xs) [] k l e h = absurd (omega arith)
equals_loop_lem (suc fuel) view (x ∷ xs) (y ∷ ys) k l e h =
    rw
      (
        at_key k.0 xs view,
        deref-at k.0 xs,
        deref-at l.0 ys,
        advance-at k.0 xs,
        advance-at l.0 ys,
        equals_loop_lem fuel view xs ys k.1 l.1 (omega arith) (omega arith),
      )
      (ground arith)

-- `equals` of the packed lists of two lists of keys ends well and decides whether they are of the same
-- keys.
pub equals-packed :
    (xs ys : List Key)
    → All IsKey xs
    → All IsKey ys
    → (r : Bool) × (equals (some (packed xs)) (some (packed ys)) ≡ value r)
      × ((r ≡ true) ↔ (xs ≡ ys))
unfolding equals size begin
equals-packed xs ys k l = elim (Bool-cases (length xs == length ys)) [
  | inl e ↦ (
    same_keys xs ys,
    rw e (equals_loop_lem (suc (length xs)) xs xs ys k l (ground arith) (omega arith)),
    (eq_of_same_keys xs ys, λ p. rw p (same_keys_refl ys)),
  )
  | inr n ↦ (false, rw n, (λ p. cc, λ p. ground (arith, ap (λ (l : List Key). length l) p)))
]

pub contains_null : (key : Key) → contains none key ≡ value false
unfolding contains lower_bound lower_bound_loop iterator_eq begin end size
contains_null key = refl
