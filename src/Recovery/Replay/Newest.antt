-- ===== src/Recovery/Replay/Newest.antt =====
-- The newest write of each row, and the newest operation on each primary key of an index entry, win.
use lineair_db.Base.{
  ℕ, ◌≡◌, refl, ap, ◌∙◌, arith, Bool, true, false, not, ◌&&◌, ◌||◌, Option, none, some, List, [],
  ◌∷◌, ◌++◌, ◌==◌, if◌then◌else◌, Bool-cases, inl, inr,
}
use lineair_db.Types.Keys.{Key, key_eq, eq_of_key_eq}
use lineair_db.Types.TransactionId.{TransactionId, tid_lt}
use lineair_db.Recovery.LogRecord.{KeyValuePair, LogRecord}
use lineair_db.Recovery.Replay.{
  Cell, put_newest, add_raw, full_raw, RowKey, Row, SecondaryOpKey, row_key_eq, op_key_eq, is_empty,
  is_secondary_index, row_cell, op_cell, Replay, put_full, replay_pair, replay_pairs, group_eq,
  group_of,
}
use lineair_db.Types.PackedKeys.Layout.{has_key}

-- A value with its version.
pub record Latest {ℓ} (V : Type ℓ) : Type ℓ where
  pub tid : TransactionId
  pub val : V

-- The later of two writes in the order of versions; the earlier one in the log where they have one.
abbrev pub newer {ℓ} : {V : Type ℓ} → Option (Latest V) → Latest V → Option (Latest V)
newer none l = some l
newer (some old) l = if tid_lt old.tid l.tid then some l else some old

module _ {ℓ κ} {K : Type ℓ} {V : Type κ} (eq : K → K → Bool) where
  unfoldable pub find : K → List (Cell K V) → Option (Latest V)
  find k [] = none
  find k (cell ∷ cells) =
      let rest = find k cells in
      if eq cell.key k then some (record { tid = cell.tid; val = cell.val }) else rest

  pub find-put_newest :
      ((a b : K) → eq a b ≡ true → a ≡ b)
      → (k : K) (new : Cell K V) (cells : List (Cell K V))
      → find k (put_newest eq new cells) ≡ (
          if eq new.key k
          then newer (find k cells) (record { tid = new.tid; val = new.val })
          else find k cells)
  unfolding find put_newest
  find-put_newest sound k new [] = elim (Bool-cases (eq new.key k)) [
    | inl e ↦ rw e refl
    | inr n ↦ rw n refl
  ]
  find-put_newest sound k new (cell ∷ cells) = elim (Bool-cases (eq cell.key new.key)) [
    | inl e ↦
        let same : cell.key ≡ new.key = sound cell.key new.key e in
        elim (Bool-cases (eq new.key k)) [
          | inl h ↦
              let there : eq cell.key k ≡ true = rw same h in
              elim (Bool-cases (tid_lt cell.tid new.tid)) [
                | inl t ↦ rw (e, t, h, there, t) refl
                | inr t ↦ rw (e, t, h, there, t) refl
              ]
          | inr h ↦
              let there : eq cell.key k ≡ false = rw same h in
              elim (Bool-cases (tid_lt cell.tid new.tid)) [
                | inl t ↦ rw (e, t, h, there) refl
                | inr t ↦ rw (e, t, h, there) refl
              ]
        ]
    | inr n ↦ elim (Bool-cases (eq cell.key k)) [
      | inr h ↦ rw (n, h) (find-put_newest sound k new cells)
      | inl h ↦
          let here : cell.key ≡ k = sound cell.key k h in
          let other : eq new.key k ≡ false = apart cell.key new.key k h n in rw (n, h, other) refl
    ]
  ]
    where
      apart : (c n k : K) → eq c k ≡ true → eq c n ≡ false → eq n k ≡ false
      apart c n k h f = elim (Bool-cases (eq n k)) [
        | inr m ↦ m
        | inl e ↦ let same : n ≡ k = sound n k e in absurd (cc (rw same at f))
      ]

row_key_eq_sound : (a b : RowKey) → row_key_eq a b ≡ true → a ≡ b
unfolding row_key_eq
row_key_eq_sound a b h = λ i. record { table_name = tables i; key = keys i }
  where
    tables : a.table_name ≡ b.table_name
    tables = eq_of_key_eq _ _ (ground arith)

    keys : a.key ≡ b.key
    keys = eq_of_key_eq _ _ (ground arith)

pub op_key_eq_sound : (a b : SecondaryOpKey) → op_key_eq a b ≡ true → a ≡ b
unfolding op_key_eq group_eq
op_key_eq_sound a b h = λ i. record {
  table_name = tables i;
  index_name = indexes i;
  index_type = types i;
  secondary_key = secondaries i;
  primary_key = primaries i;
}
  where
    tables : a.table_name ≡ b.table_name
    tables = eq_of_key_eq _ _ (ground arith)

    indexes : a.index_name ≡ b.index_name
    indexes = eq_of_key_eq _ _ (ground arith)

    types : a.index_type ≡ b.index_type
    types = ground arith

    secondaries : a.secondary_key ≡ b.secondary_key
    secondaries = eq_of_key_eq _ _ (ground arith)

    primaries : a.primary_key ≡ b.primary_key
    primaries = eq_of_key_eq _ _ (ground arith)

-- All writes of the records, in the order of the log.
abbrev pub pairs_of : List LogRecord → List KeyValuePair
pairs_of [] = []
pairs_of (r ∷ records) = r.key_value_pairs ++ pairs_of records

-- The newest write of a row among the writes of a log.
unfoldable pub newest_row : RowKey → List KeyValuePair → Option (Latest Row) → Option (Latest Row)
newest_row k [] found = found
newest_row k (kvp ∷ pairs) found = newest_row k pairs (
    if is_secondary_index kvp
    then found
    else if row_key_eq (row_cell kvp).key k
    then newer found (record { tid = kvp.tid; val = (row_cell kvp).val })
    else found)

-- The newest operation on a primary key of an index entry.
unfoldable pub newest_op :
    SecondaryOpKey → List KeyValuePair → Option (Latest ℕ) → Option (Latest ℕ)
newest_op k [] found = found
newest_op k (kvp ∷ pairs) found = newest_op k pairs (
    if not (is_secondary_index kvp)
    then found
    else if kvp.secondary_op == full_raw
    then (if group_eq (group_of (op_cell kvp [] add_raw).key) (group_of k)
          && has_key k.primary_key kvp.primary_keys
        then newer found (record { tid = kvp.tid; val = add_raw })
        else found)
    else if not (is_empty kvp.secondary_primary_key)
        && op_key_eq (op_cell kvp kvp.secondary_primary_key kvp.secondary_op).key k
    then newer found (record { tid = kvp.tid; val = kvp.secondary_op })
    else found)

pub replay_pairs-newest_row :
    (k : RowKey) (pairs : List KeyValuePair) (r : Replay)
    → find row_key_eq k (replay_pairs pairs r).rows ≡ newest_row k pairs (find row_key_eq k r.rows)
unfolding replay_pairs newest_row replay_pair
replay_pairs-newest_row k [] r = refl
replay_pairs-newest_row k (kvp ∷ pairs) r =
    replay_pairs-newest_row k pairs (replay_pair kvp r) ∙ ap (newest_row k pairs) step
  where
    step : find row_key_eq k (replay_pair kvp r).rows ≡ (
        if is_secondary_index kvp
        then find row_key_eq k r.rows
        else if row_key_eq (row_cell kvp).key k
        then newer (find row_key_eq k r.rows) (record { tid = kvp.tid; val = (row_cell kvp).val })
        else find row_key_eq k r.rows)
    step = elim (Bool-cases (is_secondary_index kvp)) [
      | inl e ↦ rw e refl
      | inr n ↦ rw n (find-put_newest row_key_eq row_key_eq_sound k (row_cell kvp) r.rows)
    ]

tid_lt_irrefl : (t : TransactionId) → tid_lt t t ≡ false
unfolding tid_lt
tid_lt_irrefl t = ground arith

newer-newer : (found : Option (Latest ℕ)) (l : Latest ℕ) → newer (newer found l) l ≡ newer found l
newer-newer none l = rw (tid_lt_irrefl l.tid) refl
newer-newer (some old) l = elim (Bool-cases (tid_lt old.tid l.tid)) [
  | inl e ↦ rw (e, tid_lt_irrefl l.tid) refl
  | inr n ↦ rw (n, n) refl
]

abbrev pub latest_add : KeyValuePair → Latest ℕ
latest_add kvp = record { tid = kvp.tid; val = add_raw }

-- The additions of all primary keys of an entry.
pub find-put_full :
    (k : SecondaryOpKey) (kvp : KeyValuePair) (keys : List Key)
    (cells : List (Cell SecondaryOpKey ℕ))
    → find op_key_eq k (put_full kvp keys cells) ≡ (
        if group_eq (group_of (op_cell kvp [] add_raw).key) (group_of k)
          && has_key k.primary_key keys
        then newer (find op_key_eq k cells) (latest_add kvp)
        else find op_key_eq k cells)
unfolding put_full has_key op_key_eq group_eq
find-put_full k kvp [] cells =
    elim (Bool-cases (group_eq (group_of (op_cell kvp [] add_raw).key) (group_of k))) [
      | inl g ↦ rw g refl
      | inr g ↦ rw g refl
    ]
find-put_full k kvp (pk ∷ keys) cells =
    let cell : Cell SecondaryOpKey ℕ = op_cell kvp pk add_raw in
    let first = find-put_newest op_key_eq op_key_eq_sound k cell cells in
    find-put_full k kvp keys (put_newest op_key_eq cell cells)
    ∙ cases (group_eq (group_of (op_cell kvp [] add_raw).key) (group_of k))
        (key_eq pk k.primary_key) (has_key k.primary_key keys) (find op_key_eq k cells)
        (find op_key_eq k (put_newest op_key_eq cell cells)) first
  where
    cases :
        (g e m : Bool) (f f' : Option (Latest ℕ))
        → f' ≡ (if g && e then newer f (latest_add kvp) else f)
        → (if g && m then newer f' (latest_add kvp) else f')
          ≡ (if g && (e || m) then newer f (latest_add kvp) else f)
    cases false e m f f' h = h
    cases true false m f f' h = rw h refl
    cases true true false f f' h = h
    cases true true true f f' h = rw h (newer-newer f (latest_add kvp))
