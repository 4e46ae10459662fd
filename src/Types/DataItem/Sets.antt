-- ===== src/Types/DataItem/Sets.antt =====
-- What a reader of an index entry sees after each operation.
use lineair_db.Base.{◌≡◌, refl, sym, ap, subst, ◌∙◌, Bool, true, false, not, ◌&&◌, ◌||◌, none, some}
use lineair_db.Base.{List, [], ◌∷◌, All, Bool-cases, inl, inr, if◌then◌else◌, arith, length, ◌≤◌}
use lineair_db.Types.Outcome.{value, length_error}
use lineair_db.Types.Keys.{Key, IsKey, key_eq}
use lineair_db.Types.Records.{write_records}
use lineair_db.Types.PackedKeys.{Ptr}
use lineair_db.Types.PackedKeys.Layout.{packed, fits, IsSorted, has_key, insert_sorted, erase_key}
use lineair_db.Types.PackedKeys.Sorted.{
  has_key-insert_sorted, All-insert_sorted, insert_sorted-IsSorted, All-erase_key,
  erase_key-IsSorted, has_key-erase_key,
}
use lineair_db.Types.PackedKeys.Erase.{length-write_records-cons}
use lineair_db.Types.PackedKeys.View.{contains}
use lineair_db.Types.PackedKeys.View.Laws.{contains-packed, contains_null}
use lineair_db.Types.DataItem.{add_secondary_index_value, remove_secondary_index_value}
use lineair_db.Types.DataItem.PrimaryKeys.{Holds, add_lem, remove_lem}

Holds-packed :
    {keys : List Key}
    → All IsKey keys
    → IsSorted keys
    → fits keys ≡ true
    → Holds (some (packed keys)) keys
Holds-packed k s f = record { points = refl; all = k; sorted = s; small = f }

if_value :
    {q : Ptr} (keys : List Key) (b : Bool)
    → (if b then value (some (packed keys)) else length_error) ≡ value q
    → (b ≡ true) × (some (packed keys) ≡ q)
if_value keys true h = (refl, cc)
if_value keys false h = cc

-- An entry that held a sorted set of keys holds the same set with the new key after the addition.
pub Holds-add :
    {p q : Ptr} {keys : List Key} (key : Key)
    → Holds p keys
    → IsKey key
    → add_secondary_index_value p key ≡ value q
    → Holds q (insert_sorted key keys)
Holds-add {q} {keys} key h k e =
    let (f, same) =
      if_value {q = q} (insert_sorted key keys) (fits (insert_sorted key keys))
        (sym (add_lem key h k) ∙ e) in
    subst (λ r. Holds r (insert_sorted key keys)) same
      (Holds-packed (All-insert_sorted IsKey key keys k h.all)
        (insert_sorted-IsSorted key keys h.sorted) f)

-- `contains` on such an entry.
pub contains-Holds :
    {p : Ptr} {keys : List Key} (j : Key) → Holds p keys → contains p j ≡ value (has_key j keys)
contains-Holds {p = none} {keys} j h = rw (h.points, contains_null) (unfold has_key in refl)
contains-Holds {p = some p} {keys} j h = rw h.points (contains-packed keys j h.all h.sorted)

-- After an addition that succeeds to an entry that holds a sorted list of keys, a reader finds the new
-- key, and every other key exactly if it found it before.
pub contains-add :
    {p q : Ptr} {keys : List Key} (key j : Key)
    → Holds p keys
    → IsKey key
    → add_secondary_index_value p key ≡ value q
    → contains q j ≡ value (key_eq key j || has_key j keys)
contains-add {keys} key j h k e =
    contains-Holds j (Holds-add key h k e) ∙ ap value (has_key-insert_sorted j key keys)

-- Erasing makes no list longer.
erase_key-small :
    (key : Key) (keys : List Key)
    → length (write_records (erase_key key keys)) ≤ length (write_records keys)
unfolding erase_key
erase_key-small key [] = omega arith
erase_key-small key (x ∷ keys) = elim (Bool-cases (key_eq x key)) [
  | inl e ↦ rw e (omega (arith, length-write_records-cons x keys))
  | inr n ↦ rw n (
      omega (
        arith,
        length-write_records-cons x keys,
        length-write_records-cons x (erase_key key keys),
        erase_key-small key keys,
      ))
]

erase_key_absent :
    (key : Key) (keys : List Key) → has_key key keys ≡ false → erase_key key keys ≡ keys
unfolding erase_key has_key
erase_key_absent key [] h = refl
erase_key_absent key (x ∷ keys) h = ground (arith, erase_key_absent key keys)

-- A removal from an entry that holds a sorted list of keys ends well and leaves the list without the
-- key, sorted; a reader then finds what it found before, but for the removed key.
pub contains-remove :
    {p : Ptr} {keys : List Key} (key : Key)
    → Holds p keys
    → (q : Ptr) × (remove_secondary_index_value p key ≡ value q)
      × Holds q (erase_key key keys)
      × ((j : Key) → contains q j ≡ value (has_key j keys && not (key_eq key j)))
contains-remove {p} {keys} key h = (
  q,
  remove_lem key h,
  held,
  λ j. contains-Holds j held ∙ ap value (has_key-erase_key j key keys h.sorted),
)
  where
    q : Ptr
    q = if has_key key keys then some (packed (erase_key key keys)) else p

    held : Holds q (erase_key key keys)
    held = elim (Bool-cases (has_key key keys)) [
      | inl old ↦ rw old (
          Holds-packed (All-erase_key IsKey key keys h.all) (erase_key-IsSorted key keys h.sorted)
            (ground (arith, erase_key-small key keys, h.small)))
      | inr new ↦ rw (new, erase_key_absent key keys new) h
    ]
