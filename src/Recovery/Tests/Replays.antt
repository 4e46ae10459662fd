-- ===== src/Recovery/Tests/Replays.antt =====
-- A small log: a row written twice, and a primary key added to an index entry and removed again.
use lineair_db.Base.{ℕ, ◌≡◌, refl, none, some, List, [], ◌∷◌, ◌++◌}
use lineair_db.Types.Keys.{key_eq}
use lineair_db.Types.TransactionId.{tid_lt}
use lineair_db.Types.PackedKeys.Layout.{has_key, IsSorted}
use lineair_db.Recovery.LogRecord.{KeyValuePair, LogRecord}
use lineair_db.Recovery.Replay.{
  RowKey, SecondaryOpKey, group_of, row_key_eq, fold_records, recovered_entries, is_secondary_index,
}
use lineair_db.Recovery.Replay.Newest.{find, newest_row, newest_op, pairs_of}
use lineair_db.Recovery.Replay.Recovered.{fold_records-newest_row}
use lineair_db.Recovery.Replay.Groups.{keys_of, is_add, recovered_entries-newest_op}

abbrev row_at : ℕ → List ℕ → KeyValuePair
row_at t bytes = record {
  key = 1 ∷ [];
  buffer = bytes;
  tid = record { epoch = 3; tid = t };
  table_name = 7 ∷ [];
  index_name = [];
  index_type = 0;
  primary_keys = [];
  secondary_op = 0;
  secondary_primary_key = [];
}

abbrev op_at : ℕ → ℕ → KeyValuePair
op_at t op = record {
  key = 5 ∷ [];
  buffer = [];
  tid = record { epoch = 3; tid = t };
  table_name = 7 ∷ [];
  index_name = 8 ∷ [];
  index_type = 0;
  primary_keys = [];
  secondary_op = op;
  secondary_primary_key = 1 ∷ [];
}

abbrev image_records : List LogRecord
image_records = record { epoch = 3; key_value_pairs = row_at 2 (4 ∷ []) ∷ op_at 4 1 ∷ [] } ∷ []

abbrev tail_records : List LogRecord
tail_records =
    record { epoch = 3; key_value_pairs = row_at 8 (6 ∷ []) ∷ row_at 6 (5 ∷ []) ∷ op_at 6 2 ∷ [] }
    ∷ []

abbrev the_row : RowKey
the_row = record { table_name = 7 ∷ []; key = 1 ∷ [] }

abbrev the_op : SecondaryOpKey
the_op = record {
  table_name = 7 ∷ [];
  index_name = 8 ∷ [];
  index_type = 0;
  secondary_key = 5 ∷ [];
  primary_key = 1 ∷ [];
}

-- The newest write of the row, and not the last one.
replayed :
    newest_row the_row (pairs_of image_records ++ pairs_of tail_records) none
    ≡ some (record {
      tid = record { epoch = 3; tid = 8 };
      val = record { buffer = 6 ∷ []; index_type = 0 };
    })
unfolding newest_row is_secondary_index row_key_eq key_eq tid_lt
replayed = refl

fold_records-newest_row_example :
    find row_key_eq the_row (fold_records image_records tail_records).rows
    ≡ newest_row the_row (pairs_of image_records ++ pairs_of tail_records) none
fold_records-newest_row_example = fold_records-newest_row the_row image_records tail_records

recovered_entries-newest_op_example :
    (has_key (1 ∷ []) (keys_of (group_of the_op) (recovered_entries image_records tail_records))
      ≡ is_add (newest_op the_op (pairs_of image_records ++ pairs_of tail_records) none))
    × IsSorted (keys_of (group_of the_op) (recovered_entries image_records tail_records))
recovered_entries-newest_op_example = recovered_entries-newest_op the_op image_records tail_records
