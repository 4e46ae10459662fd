-- ===== src/Recovery/Replay/Recovered.antt =====
-- What `BuildRecoverySet` of src/recovery/logger.cpp recovers, against the writes of the image and of the log.
use lineair_db.Base.{
  ℕ, ◌≡◌, refl, sym, ap, ◌∙◌, not, ◌&&◌, Option, none, List, [], ◌∷◌, ◌++◌, ◌==◌, if◌then◌else◌,
  Bool-cases, inl, inr,
}
use lineair_db.Types.PackedKeys.Layout.{has_key}
use lineair_db.Recovery.LogRecord.{KeyValuePair, LogRecord}
use lineair_db.Recovery.Replay.{
  full_raw, add_raw, RowKey, SecondaryOpKey, row_key_eq, op_key_eq, group_eq, group_of, is_empty,
  is_secondary_index, op_cell, Replay, put_op, replay_pair, replay_pairs, replay_records,
  fold_records,
}
use lineair_db.Recovery.Replay.Newest.{
  Latest, newer, find, find-put_newest, op_key_eq_sound, find-put_full, latest_add, pairs_of,
  newest_row, newest_op, replay_pairs-newest_row,
}

replay_pairs-newest_op :
    (k : SecondaryOpKey) (pairs : List KeyValuePair) (r : Replay)
    → find op_key_eq k (replay_pairs pairs r).secondary_latest
      ≡ newest_op k pairs (find op_key_eq k r.secondary_latest)
unfolding replay_pairs newest_op replay_pair put_op
replay_pairs-newest_op k [] r = refl
replay_pairs-newest_op k (kvp ∷ pairs) r =
    replay_pairs-newest_op k pairs (replay_pair kvp r) ∙ ap (newest_op k pairs) step
  where
    found : Option (Latest ℕ)
    found = find op_key_eq k r.secondary_latest

    step : find op_key_eq k (replay_pair kvp r).secondary_latest ≡ (
        if not (is_secondary_index kvp)
        then found
        else if kvp.secondary_op == full_raw
        then (if group_eq (group_of (op_cell kvp [] add_raw).key) (group_of k)
              && has_key k.primary_key kvp.primary_keys
            then newer found (latest_add kvp)
            else found)
        else if not (is_empty kvp.secondary_primary_key)
            && op_key_eq (op_cell kvp kvp.secondary_primary_key kvp.secondary_op).key k
        then newer found (record { tid = kvp.tid; val = kvp.secondary_op })
        else found)
    step = elim (Bool-cases (is_secondary_index kvp)) [
      | inr n ↦ rw n refl
      | inl e ↦ elim (Bool-cases (kvp.secondary_op == full_raw)) [
        | inl f ↦ rw (e, f) (find-put_full k kvp kvp.primary_keys r.secondary_latest)
        | inr f ↦ elim (Bool-cases (is_empty kvp.secondary_primary_key)) [
          | inl m ↦ rw (e, f, m) refl
          | inr m ↦
              rw (e, f, m)
                (find-put_newest op_key_eq op_key_eq_sound k
                  (op_cell kvp kvp.secondary_primary_key kvp.secondary_op) r.secondary_latest)
        ]
      ]
    ]

replay_pairs-append :
    (xs ys : List KeyValuePair) (r : Replay)
    → replay_pairs (xs ++ ys) r ≡ replay_pairs ys (replay_pairs xs r)
unfolding replay_pairs
replay_pairs-append [] ys r = refl
replay_pairs-append (x ∷ xs) ys r = replay_pairs-append xs ys (replay_pair x r)

replay_records-pairs_of :
    (records : List LogRecord) (r : Replay)
    → replay_records records r ≡ replay_pairs (pairs_of records) r
unfolding replay_records replay_pairs
replay_records-pairs_of [] r = refl
replay_records-pairs_of (l ∷ records) r =
    replay_records-pairs_of records (replay_pairs l.key_value_pairs r)
    ∙ sym (replay_pairs-append l.key_value_pairs (pairs_of records) r)

fold_records-pairs :
    (image tail : List LogRecord)
    → fold_records image tail
      ≡ replay_pairs (pairs_of image ++ pairs_of tail) (record { rows = []; secondary_latest = [] })
unfolding fold_records
fold_records-pairs image tail =
    replay_records-pairs_of tail (replay_records image nothing)
    ∙ ap (replay_pairs (pairs_of tail)) (replay_records-pairs_of image nothing)
    ∙ sym (replay_pairs-append (pairs_of image) (pairs_of tail) nothing)
  where
    nothing : Replay
    nothing = record { rows = []; secondary_latest = [] }

-- After a recovery from any image and any tail of the log, each row is the newest of its writes in the
-- image and the tail together, a deletion included, and the earliest logged of those with one version;
-- a row without a write is not recovered.
pub fold_records-newest_row :
    (k : RowKey) (image tail : List LogRecord)
    → find row_key_eq k (fold_records image tail).rows
      ≡ newest_row k (pairs_of image ++ pairs_of tail) none
unfolding find
fold_records-newest_row k image tail =
    ap (λ (r : Replay). find row_key_eq k r.rows) (fold_records-pairs image tail)
    ∙ replay_pairs-newest_row k (pairs_of image ++ pairs_of tail)
        (record { rows = []; secondary_latest = [] })

-- placeholder
pub fold_records-newest_op :
    (k : SecondaryOpKey) (image tail : List LogRecord)
    → find op_key_eq k (fold_records image tail).secondary_latest
      ≡ newest_op k (pairs_of image ++ pairs_of tail) none
unfolding find
fold_records-newest_op k image tail =
    ap (λ (r : Replay). find op_key_eq k r.secondary_latest) (fold_records-pairs image tail)
    ∙ replay_pairs-newest_op k (pairs_of image ++ pairs_of tail)
        (record { rows = []; secondary_latest = [] })
