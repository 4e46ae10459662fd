-- ===== src/Recovery/Replay/Groups.antt =====
-- The entries of indexes that `BuildRecoverySet` of src/recovery/logger.cpp makes of the newest operations.
use lineair_db.Base.{
  ℕ, ◌≡◌, refl, ap, ◌∙◌, arith, Bool, true, false, ◌&&◌, ◌||◌, Option, none, some, List, [], ◌∷◌,
  ◌++◌, ◌==◌, if◌then◌else◌, Bool-cases, inl, inr,
}
use lineair_db.Types.Keys.{Key, key_eq, eq_of_key_eq}
use lineair_db.Types.PackedKeys.Layout.{has_key, IsSorted}
use lineair_db.Types.PackedKeys.Sorted.{has_key-insert_sorted, insert_sorted-IsSorted}
use lineair_db.Recovery.LogRecord.{LogRecord}
use lineair_db.Recovery.Replay.{
  Cell, add_raw, SecondaryOpKey, SecondaryGroupKey, group_of, op_key_eq, group_eq, fold_records,
  Group, add_to_group, group_all, sort_unique, sorted_groups, recovered_entries,
}
use lineair_db.Recovery.Replay.Newest.{Latest, find, op_key_eq_sound, newest_op, pairs_of}
use lineair_db.Recovery.Replay.Recovered.{fold_records-newest_op}
use lineair_db.Recovery.Replay.Distinct.{Apart, AllApart, replay_records-AllApart}

-- The primary keys of an entry.
unfoldable pub keys_of : SecondaryGroupKey → List Group → List Key
keys_of k [] = []
keys_of k (g ∷ groups) =
    let rest = keys_of k groups in if group_eq g.key k then g.primary_keys else rest

group_eq_sound : (a b : SecondaryGroupKey) → group_eq a b ≡ true → a ≡ b
unfolding group_eq
group_eq_sound a b h = λ i. record {
  table_name = tables i;
  index_name = indexes i;
  index_type = types i;
  secondary_key = secondaries i;
}
  where
    tables : a.table_name ≡ b.table_name
    tables = eq_of_key_eq _ _ (ground arith)

    indexes : a.index_name ≡ b.index_name
    indexes = eq_of_key_eq _ _ (ground arith)

    types : a.index_type ≡ b.index_type
    types = ground arith

    secondaries : a.secondary_key ≡ b.secondary_key
    secondaries = eq_of_key_eq _ _ (ground arith)

has_key-append :
    (pk new : Key) (keys : List Key)
    → has_key pk (keys ++ (new ∷ [])) ≡ (has_key pk keys || key_eq new pk)
unfolding has_key
has_key-append pk new [] = ground arith
has_key-append pk new (x ∷ keys) = ground (arith, has_key-append pk new keys)

false_and_or : (a b : Bool) → a ≡ false → (b || (a && b)) ≡ b
false_and_or a true h = refl
false_and_or a false h = rw h refl

add_to_group-keys_of :
    (k : SecondaryOpKey) (cell : Cell SecondaryOpKey ℕ) (groups : List Group)
    → has_key k.primary_key (keys_of (group_of k) (add_to_group cell groups))
      ≡ (has_key k.primary_key (keys_of (group_of k) groups) || op_key_eq cell.key k)
unfolding add_to_group keys_of op_key_eq has_key
add_to_group-keys_of k cell [] = elim (Bool-cases (group_eq (group_of cell.key) (group_of k))) [
  | inl e ↦ rw e (ground arith)
  | inr n ↦ rw n refl
]
add_to_group-keys_of k cell (g ∷ groups) = elim (Bool-cases (group_eq g.key (group_of cell.key))) [
  | inl e ↦
      let same : g.key ≡ group_of cell.key = group_eq_sound g.key (group_of cell.key) e in
      elim (Bool-cases (group_eq (group_of cell.key) (group_of k))) [
        | inl h ↦
            let there : group_eq g.key (group_of k) ≡ true = rw same h in
            rw (e, there, h) (has_key-append k.primary_key cell.key.primary_key g.primary_keys)
        | inr h ↦
            let there : group_eq g.key (group_of k) ≡ false = rw same h in
            rw (e, there, h) (ground arith)
      ]
  | inr n ↦ elim (Bool-cases (group_eq g.key (group_of k))) [
    | inr h ↦ rw (n, h) (add_to_group-keys_of k cell groups)
    | inl h ↦
        let here : g.key ≡ group_of k = group_eq_sound g.key (group_of k) h in
        elim (Bool-cases (group_eq (group_of cell.key) (group_of k))) [
          | inr m ↦ rw (n, h, m) (ground arith)
          | inl m ↦
              let same : group_of cell.key ≡ group_of k =
                group_eq_sound (group_of cell.key) (group_of k) m in
              absurd (cc (rw same at n))
        ]
  ]
]

-- Whether an operation of the map adds the primary key to the entry.
unfoldable adds : SecondaryOpKey → List (Cell SecondaryOpKey ℕ) → Bool
adds k [] = false
adds k (cell ∷ cells) = (op_key_eq cell.key k && cell.val == add_raw) || adds k cells

group_all-keys_of :
    (k : SecondaryOpKey) (cells : List (Cell SecondaryOpKey ℕ)) (groups : List Group)
    → has_key k.primary_key (keys_of (group_of k) (group_all cells groups))
      ≡ (has_key k.primary_key (keys_of (group_of k) groups) || adds k cells)
unfolding group_all adds
group_all-keys_of k [] groups = ground arith
group_all-keys_of k (cell ∷ cells) groups = elim (Bool-cases (cell.val == add_raw)) [
  | inl e ↦
      rw
        (
          e,
          group_all-keys_of k cells (add_to_group cell groups),
          add_to_group-keys_of k cell groups,
        )
        (ground arith)
  | inr n ↦ rw (n, group_all-keys_of k cells groups) (ground arith)
]

-- Whether what was found is an addition.
abbrev pub is_add : Option (Latest ℕ) → Bool
is_add none = false
is_add (some l) = l.val == add_raw

Apart-adds :
    (k : SecondaryOpKey) (cells : List (Cell SecondaryOpKey ℕ))
    → Apart k cells
    → adds k cells ≡ false
unfolding adds
Apart-adds k [] a = refl
Apart-adds k (cell ∷ cells) a = rw (a.0, Apart-adds k cells a.1) refl

adds-find :
    (k : SecondaryOpKey) (cells : List (Cell SecondaryOpKey ℕ))
    → AllApart cells
    → adds k cells ≡ is_add (find op_key_eq k cells)
unfolding adds find
adds-find k [] a = refl
adds-find k (cell ∷ cells) a = elim (Bool-cases (op_key_eq cell.key k)) [
  | inr n ↦ rw n (adds-find k cells a.1)
  | inl e ↦
      let same : cell.key ≡ k = op_key_eq_sound cell.key k e in
      let others : adds k cells ≡ false = Apart-adds k cells (rw same at a.0) in
      rw (e, others) (ground arith)
]

has_key-sort_unique : (pk : Key) (keys : List Key) → has_key pk (sort_unique keys) ≡ has_key pk keys
unfolding sort_unique has_key
has_key-sort_unique pk [] = refl
has_key-sort_unique pk (x ∷ keys) =
    has_key-insert_sorted pk x (sort_unique keys)
    ∙ ap (λ b. key_eq x pk || b) (has_key-sort_unique pk keys)

sort_unique-IsSorted : (keys : List Key) → IsSorted (sort_unique keys)
unfolding sort_unique
sort_unique-IsSorted [] = tt
sort_unique-IsSorted (x ∷ keys) =
    insert_sorted-IsSorted x (sort_unique keys) (sort_unique-IsSorted keys)

keys_of-sorted_groups :
    (k : SecondaryGroupKey) (groups : List Group)
    → keys_of k (sorted_groups groups) ≡ sort_unique (keys_of k groups)
unfolding keys_of sort_unique
keys_of-sorted_groups k [] = refl
keys_of-sorted_groups k (g ∷ groups) = elim (Bool-cases (group_eq g.key k)) [
  | inl e ↦ rw e refl
  | inr n ↦ rw n (keys_of-sorted_groups k groups)
]

-- After a recovery from any image and any tail of the log, the entry of an index holds a primary key
-- exactly if the newest operation on that key of that entry, in the image and the tail together, is an
-- addition, where an entry logged with all its keys adds each of them; and the keys of the entry are
-- sorted and without doubles, as `SetPrimaryKeys` asks.
pub recovered_entries-newest_op :
    (k : SecondaryOpKey) (image tail : List LogRecord)
    → (has_key k.primary_key (keys_of (group_of k) (recovered_entries image tail))
        ≡ is_add (newest_op k (pairs_of image ++ pairs_of tail) none))
      × IsSorted (keys_of (group_of k) (recovered_entries image tail))
unfolding recovered_entries fold_records keys_of has_key
recovered_entries-newest_op k image tail =
    let cells : List (Cell SecondaryOpKey ℕ) = (fold_records image tail).secondary_latest in
    let groups : List Group = group_all cells [] in
    let entry : keys_of (group_of k) (sorted_groups groups)
        ≡ sort_unique (keys_of (group_of k) groups) =
      keys_of-sorted_groups (group_of k) groups in
    let apart : AllApart cells =
      replay_records-AllApart tail _ (replay_records-AllApart image _ tt) in
    (
      ap (has_key k.primary_key) entry
          ∙ has_key-sort_unique k.primary_key (keys_of (group_of k) groups)
          ∙ group_all-keys_of k cells []
          ∙ adds-find k cells apart
          ∙ ap is_add (fold_records-newest_op k image tail),
      rw entry (sort_unique-IsSorted (keys_of (group_of k) groups)),
    )
