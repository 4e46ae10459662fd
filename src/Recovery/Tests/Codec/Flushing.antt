-- ===== src/Recovery/Tests/Codec/Flushing.antt =====
-- A flush of the records of two threads, of which one is of an epoch behind the target.
use lineair_db.Base.{ℕ, ◌≡◌, refl, arith, Bool, none, some, List, [], ◌∷◌, ◌==◌}
use lineair_db.Recovery.LogRecord.{LogRecord}
use lineair_db.Recovery.Disk.{Disk, write_all_at, write_loop, sync_loop, sync_retrying, einval}
use lineair_db.Recovery.Wal.{Wal, ready, ensure_capacity_for, encode_frame, frame_header}
use lineair_db.Recovery.Word.{put_le16, put_le32}
use lineair_db.Recovery.Tests.Codec.{
  unary, list_coder, put_items, record_coder, map_coder, pair_coder, nat_coder, put_nat,
}
use lineair_db.Recovery.Wal.Append.{
  Buckets, refused, encode_loop, epochs_agree, append_group, append_in, commit_group, with_capacity,
  settle, write_group, extended,
}
use lineair_db.Recovery.Flusher.{
  carry_record, collect_node, collect, erase_through, Flushed, flush_aborted, flushed,
  flush_through,
}
use lineair_db.Recovery.Flusher.Flushes.{encode_loop-collect}
use lineair_db.Recovery.Flusher.Lossless.{FlushedBy, flush_through-lossless}

abbrev record_of : ℕ → LogRecord
record_of epoch = record { epoch = epoch; key_value_pairs = [] }

abbrev buffered : List (List LogRecord)
buffered = (record_of 5 ∷ []) ∷ (record_of 6 ∷ record_of 5 ∷ []) ∷ []

abbrev is_five : LogRecord → Bool
is_five r = r.epoch == 5

abbrev new_log : Wal
new_log = record {
  state = ready;
  write_offset = 0;
  frontier = 4;
  initialised_size = 0;
  initial_capacity = 0;
  extension_count = 0;
}

abbrev empty_disk : Disk
empty_disk = record { file = []; synced = []; script = [] }

abbrev log_of : Flushed → Wal
log_of flush_aborted = new_log
log_of (flushed w e carry d) = w

abbrev disk_of : Flushed → Disk
disk_of flush_aborted = empty_disk
disk_of (flushed w e carry d) = d

flushed_once : Flushed
unfolding flush_through
flushed_once = flush_through unary new_log 4 buffered [] 5 empty_disk

flushed_once_left :
    flush_through unary new_log 4 buffered [] 5 empty_disk
    ≡ flushed (log_of flushed_once) none ((6, record_of 6 ∷ []) ∷ []) (disk_of flushed_once)
unfolding flushed_once flush_through collect collect_node carry_record erase_through append_group
    append_in commit_group encode_loop epochs_agree with_capacity settle write_group extended
    ensure_capacity_for encode_frame frame_header put_le16 put_le32 write_all_at write_loop
    sync_loop sync_retrying unary list_coder put_items record_coder map_coder pair_coder nat_coder
    put_nat
flushed_once_left = refl

flush_through-lossless_example :
    FlushedBy unary new_log 4 5 buffered []
      (log_of flushed_once)
      none
      ((6, record_of 6 ∷ []) ∷ [])
      (disk_of flushed_once)
flush_through-lossless_example =
    flush_through-lossless unary new_log 4 buffered [] 5 empty_disk (log_of flushed_once) none
      ((6, record_of 6 ∷ []) ∷ []) (disk_of flushed_once) refl (omega arith) (omega arith) tt
      flushed_once_left

abbrev collected : Buckets
collected = (5, record_of 5 ∷ record_of 5 ∷ []) ∷ (6, record_of 6 ∷ []) ∷ []

collect-collected : collect 4 buffered [] ≡ some collected
unfolding collect collect_node carry_record
collect-collected = refl

encode_loop-collect_example :
    ¬ (encode_loop unary new_log.frontier 5 collected [] new_log.frontier ≡ refused einval)
encode_loop-collect_example =
    encode_loop-collect unary new_log 4 buffered [] collected 5 (omega arith) tt collect-collected
