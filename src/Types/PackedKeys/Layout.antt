-- ===== src/Types/PackedKeys/Layout.antt =====
-- The sorted list of keys that a packed list stands for, and the list operations that `Insert` and
-- `Erase` are compared with.
use lineair_db.Base.{ℕ, ◌-◌, ◌^◌, ◌≤◌, ◌≡◌, refl, ap, ◌∙◌, arith, leb, if◌then◌else◌}
use lineair_db.Base.{
  Bool, true, false, ◌||◌, List, [], ◌∷◌, ◌++◌, append_assoc, Bool-cases, inl, inr,
}
use lineair_db.Base.{length, length-append, take, take-append_length, All}
use lineair_db.Types.Outcome.{value}
use lineair_db.Types.Keys.{Key, IsKey, key_eq, key_lt, key_lt_irrefl, key_lt_trans, eq_of_key_eq}
use lineair_db.Types.Records.{write_records}
use lineair_db.Types.Records.RoundTrip.{write_record-shape}
use lineair_db.Types.PackedKeys.{PackedPrimaryKeys, fill, before}

-- The packed list of `keys`.
abbrev pub packed : List Key → PackedPrimaryKeys
packed keys = record {
  count = length keys;
  bytes = length (write_records keys);
  records = write_records keys;
}

-- Whether the payload of `keys` fits the field `bytes`.
abbrev pub fits : List Key → Bool
fits keys = leb (length (write_records keys)) (2 ^ 32 - 1)

-- Strictly ascending.
abbrev pub IsSorted : List Key → Type 0
IsSorted [] = Unit
IsSorted (x ∷ keys) = All (λ y. key_lt x y ≡ true) keys × IsSorted keys

unfoldable pub has_key : Key → List Key → Bool
has_key key [] = false
has_key key (x ∷ keys) = key_eq x key || has_key key keys

unfoldable pub insert_sorted : Key → List Key → List Key
insert_sorted key [] = key ∷ []
insert_sorted key (x ∷ keys) =
    if key_eq x key
    then x ∷ keys
    else (if key_lt x key then x ∷ insert_sorted key keys else key ∷ x ∷ keys)

unfoldable pub erase_key : Key → List Key → List Key
erase_key key [] = []
erase_key key (x ∷ keys) = if key_eq x key then keys else x ∷ erase_key key keys

pub write_records-append :
    (xs ys : List Key) → write_records (xs ++ ys) ≡ write_records xs ++ write_records ys
unfolding write_records
write_records-append [] ys = refl
write_records-append (x ∷ xs) ys = rw (write_records-append xs ys, append_assoc)

-- A record takes a byte at least.
pub count-le-bytes : (keys : List Key) → All IsKey keys → length keys ≤ length (write_records keys)
unfolding write_records
count-le-bytes [] k = omega arith
count-le-bytes (x ∷ keys) k =
    rw length-append (omega (arith, write_record-shape k.0, count-le-bytes keys k.1))

pub before_lem : (xs ys : List ℕ) → before (xs ++ ys) ys ≡ xs
before_lem xs ys =
    ap (λ (n : ℕ). take n (xs ++ ys)) (omega (arith, length-append xs ys))
    ∙ take-append_length xs ys

-- Stores that fill the payload exactly end well.
pub fill_lem :
    (count bytes : ℕ) (written : List ℕ)
    → length written ≡ bytes
    → fill count bytes written ≡ value (record { count = count; bytes = bytes; records = written })
unfolding fill
fill_lem count bytes written e = ground arith

-- In a list above `x` a smaller key is not found.
pub not-has_key_below :
    (key x : Key) (keys : List Key)
    → key_lt key x ≡ true
    → All (λ y. key_lt x y ≡ true) keys
    → has_key key keys ≡ false
unfolding has_key
not-has_key_below key x [] h a = refl
not-has_key_below key x (y ∷ keys) h a = elim (Bool-cases (key_eq y key)) [
  | inl e ↦ cc (key_lt_irrefl x, key_lt_trans x key x (rw (eq_of_key_eq y key e) at a.0) h)
  | inr n ↦ rw n (not-has_key_below key x keys h a.1)
]
