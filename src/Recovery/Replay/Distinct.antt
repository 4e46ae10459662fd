-- ===== src/Recovery/Replay/Distinct.antt =====
-- The map of the operations on index entries, of src/recovery/logger.cpp, has one entry for each key.
use lineair_db.Base.{ℕ, ◌≡◌, false, List, [], ◌∷◌, All, ◌==◌, Bool-cases, inl, inr}
use lineair_db.Types.Keys.{Key}
use lineair_db.Types.TransactionId.{tid_lt}
use lineair_db.Recovery.LogRecord.{KeyValuePair, LogRecord}
use lineair_db.Recovery.Replay.{
  Cell, put_newest, add_raw, full_raw, SecondaryOpKey, op_key_eq, op_cell, is_empty,
  is_secondary_index, Replay, put_full, put_op, replay_pair, replay_pairs, replay_records,
}
use lineair_db.Recovery.Replay.Newest.{op_key_eq_sound}

-- No two operations of the map have one key.
abbrev pub Apart : SecondaryOpKey → List (Cell SecondaryOpKey ℕ) → Type 0
Apart k = All (λ cell. op_key_eq cell.key k ≡ false)

abbrev pub AllApart : List (Cell SecondaryOpKey ℕ) → Type 0
AllApart [] = Unit
AllApart (cell ∷ cells) = Apart cell.key cells × AllApart cells

put_newest-Apart :
    (k : SecondaryOpKey) (new : Cell SecondaryOpKey ℕ) (cells : List (Cell SecondaryOpKey ℕ))
    → op_key_eq new.key k ≡ false
    → Apart k cells
    → Apart k (put_newest op_key_eq new cells)
unfolding put_newest
put_newest-Apart k new [] h a = (h, tt)
put_newest-Apart k new (cell ∷ cells) h a = elim (Bool-cases (op_key_eq cell.key new.key)) [
  | inr n ↦ rw n (a.0, put_newest-Apart k new cells h a.1)
  | inl e ↦ elim (Bool-cases (tid_lt cell.tid new.tid)) [
    | inl t ↦ rw (e, t) (h, a.1)
    | inr t ↦ rw (e, t) a
  ]
]

op_key_eq_symm : (a b : SecondaryOpKey) → op_key_eq a b ≡ false → op_key_eq b a ≡ false
op_key_eq_symm a b h = elim (Bool-cases (op_key_eq b a)) [
  | inr n ↦ n
  | inl e ↦ let same : b ≡ a = op_key_eq_sound b a e in absurd (cc (rw same at h))
]

put_newest-AllApart :
    (new : Cell SecondaryOpKey ℕ) (cells : List (Cell SecondaryOpKey ℕ))
    → AllApart cells
    → AllApart (put_newest op_key_eq new cells)
unfolding put_newest
put_newest-AllApart new [] a = (tt, tt)
put_newest-AllApart new (cell ∷ cells) a = elim (Bool-cases (op_key_eq cell.key new.key)) [
  | inr n ↦ rw n (
    put_newest-Apart cell.key new cells (op_key_eq_symm cell.key new.key n) a.0,
    put_newest-AllApart new cells a.1,
  )
  | inl e ↦
      let same : cell.key ≡ new.key = op_key_eq_sound cell.key new.key e in
      elim (Bool-cases (tid_lt cell.tid new.tid)) [
        | inl t ↦ rw (e, t) (rw same at a.0, a.1)
        | inr t ↦ rw (e, t) a
      ]
]

put_full-AllApart :
    (kvp : KeyValuePair) (keys : List Key) (cells : List (Cell SecondaryOpKey ℕ))
    → AllApart cells
    → AllApart (put_full kvp keys cells)
unfolding put_full
put_full-AllApart kvp [] cells a = a
put_full-AllApart kvp (pk ∷ keys) cells a =
    put_full-AllApart kvp keys (put_newest op_key_eq (op_cell kvp pk add_raw) cells)
      (put_newest-AllApart (op_cell kvp pk add_raw) cells a)

replay_pair-AllApart :
    (kvp : KeyValuePair) (r : Replay)
    → AllApart r.secondary_latest
    → AllApart (replay_pair kvp r).secondary_latest
unfolding replay_pair put_op
replay_pair-AllApart kvp r a = elim (Bool-cases (is_secondary_index kvp)) [
  | inr n ↦ rw n a
  | inl e ↦ elim (Bool-cases (kvp.secondary_op == full_raw)) [
    | inl f ↦ rw (e, f) (put_full-AllApart kvp kvp.primary_keys r.secondary_latest a)
    | inr f ↦ elim (Bool-cases (is_empty kvp.secondary_primary_key)) [
      | inl m ↦ rw (e, f, m) a
      | inr m ↦
          rw (e, f, m)
            (put_newest-AllApart (op_cell kvp kvp.secondary_primary_key kvp.secondary_op)
              r.secondary_latest a)
    ]
  ]
]

replay_pairs-AllApart :
    (pairs : List KeyValuePair) (r : Replay)
    → AllApart r.secondary_latest
    → AllApart (replay_pairs pairs r).secondary_latest
unfolding replay_pairs
replay_pairs-AllApart [] r a = a
replay_pairs-AllApart (kvp ∷ pairs) r a =
    replay_pairs-AllApart pairs (replay_pair kvp r) (replay_pair-AllApart kvp r a)

pub replay_records-AllApart :
    (records : List LogRecord) (r : Replay)
    → AllApart r.secondary_latest
    → AllApart (replay_records records r).secondary_latest
unfolding replay_records
replay_records-AllApart [] r a = a
replay_records-AllApart (l ∷ records) r a =
    replay_records-AllApart records (replay_pairs l.key_value_pairs r)
      (replay_pairs-AllApart l.key_value_pairs r a)
