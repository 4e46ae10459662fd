-- ===== src/Types/DataItem/PrimaryKeys.antt =====
-- The primary keys of an index entry behave as a sorted set.
use lineair_db.Base.{◌≡◌, refl, Bool, true, false, none, some}
use lineair_db.Base.{List, [], ◌∷◌, All, Bool-cases, inl, inr, if◌then◌else◌}
use lineair_db.Types.Outcome.{value, length_error, ◌>>=◌}
use lineair_db.Types.Keys.{Key, IsKey, key_lt, key_lt_trans}
use lineair_db.Types.PackedKeys.{Ptr, updated, replaced}
use lineair_db.Types.PackedKeys.Layout.{packed, fits, IsSorted, has_key, insert_sorted, erase_key}
use lineair_db.Types.PackedKeys.Insert.{insert_lem, insert-none}
use lineair_db.Types.PackedKeys.Erase.{erase_lem, erase_null}
use lineair_db.Types.PackedKeys.Sorted.{insert_sorted_present}
use lineair_db.Types.DataItem.{
  is_sorted_deduped, add_secondary_index_value, remove_secondary_index_value,
}

-- `primary_keys_` holds `keys`: the null pointer stands for no key.
abbrev pub Points : Ptr → List Key → Type 0
Points none keys = keys ≡ []
Points (some p) keys = p ≡ packed keys

pub record Holds (p : Ptr) (keys : List Key) : Type 0 where
  pub points : Points p keys
  pub all : All IsKey keys
  pub sorted : IsSorted keys
  pub small : fits keys ≡ true

above :
    (x y : Key) (keys : List Key)
    → key_lt x y ≡ true
    → All (λ z. key_lt y z ≡ true) keys
    → All (λ z. key_lt x z ≡ true) keys
above x y [] h a = tt
above x y (z ∷ keys) h a = (key_lt_trans x y z h a.0, above x y keys h a.1)

-- A list of keys of which no two neighbours fail to ascend is ascending as a whole.
pub IsSorted-is_sorted_deduped : (keys : List Key) → is_sorted_deduped keys ≡ true → IsSorted keys
unfolding is_sorted_deduped
IsSorted-is_sorted_deduped [] h = tt
IsSorted-is_sorted_deduped (x ∷ []) h = (tt, tt)
IsSorted-is_sorted_deduped (x ∷ y ∷ keys) h = elim (Bool-cases (key_lt x y)) [
  | inl lt ↦
      let s : IsSorted (y ∷ keys) = IsSorted-is_sorted_deduped (y ∷ keys) (rw lt at h) in
      ((lt, above x y keys lt s.0), s)
  | inr ge ↦ cc (rw ge at h)
]

stored :
    (current : Ptr) (b : Bool) (keys : List Key)
    → ((if b then value (replaced (packed keys)) else length_error) >>= λ next.
        value (updated current next))
      ≡ (if b then value (some (packed keys)) else length_error)
stored current true keys = refl
stored current false keys = refl

-- What an entry that holds a sorted list of keys points to after a key is added is the packed list with
-- the key in its place; the addition throws exactly if that list would not fit 32 bits.
pub add_lem :
    {p : Ptr} {keys : List Key} (key : Key)
    → Holds p keys
    → IsKey key
    → add_secondary_index_value p key ≡ (
        if fits (insert_sorted key keys)
        then value (some (packed (insert_sorted key keys)))
        else length_error)
unfolding add_secondary_index_value
add_lem {p = none} {keys} key h k =
    rw (h.points, insert-none key k)
      (unfold insert_sorted in stored none (fits (key ∷ [])) (key ∷ []))
add_lem {p = some p} {keys} key h k =
    rw (h.points, insert_lem keys key h.all h.sorted h.small k)
      (elim (Bool-cases (has_key key keys)) [
        | inl old ↦ rw (old, insert_sorted_present key keys h.sorted old, h.small)
        | inr new ↦
            rw new
              (stored (some (packed keys)) (fits (insert_sorted key keys)) (insert_sorted key keys))
      ])

-- After removing a key the entry holds the packed list of the other keys; without the key nothing
-- changes.
pub remove_lem :
    {p : Ptr} {keys : List Key} (key : Key)
    → Holds p keys
    → remove_secondary_index_value p key
      ≡ value (if has_key key keys then some (packed (erase_key key keys)) else p)
unfolding remove_secondary_index_value
remove_lem {p = none} {keys} key h = rw (h.points, erase_null key) (unfold has_key in refl)
remove_lem {p = some p} {keys} key h =
    rw (h.points, erase_lem keys key h.all h.sorted h.small)
      (elim (Bool-cases (has_key key keys)) [ inl old ↦ rw old | inr new ↦ rw new ])
