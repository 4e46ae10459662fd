-- ===== src/Recovery/Wal/Append.antt =====
-- src/recovery/wal.cpp, `AppendGroup`: one frame for each bucket up to the target epoch, written as one
-- group and synced.
pub mod Acknowledged
pub mod Untouched
pub mod Encoding
use lineair_db.Base.{
  ℕ, ◌+◌, ◌*◌, max, Bool, true, false, not, ◌||◌, ◌&&◌, Option, none, some, List, [], ◌∷◌, ◌++◌,
}
use lineair_db.Base.{length, ltb, ◌==◌, if◌then◌else◌}
use lineair_db.Recovery.LogRecord.{LogRecord, MsgPack}
use lineair_db.Recovery.Disk.{
  Disk, Ran, done, failure, Io, ◌>>=◌, pure, einval, eoverflow, write_all_at, sync_retrying,
}
use lineair_db.Recovery.Wal.{
  Wal, WalState, ready, unscanned, failed_state, k_max_payload_size, encode_frame,
  ensure_capacity_for,
}

-- `std::map<EpochNumber, LogRecords>`, in the order of its keys.
abbrev pub Buckets : Type 0
Buckets = List (ℕ × List LogRecord)

-- The group that is to be written with the epoch of its last frame, or the error.
pub data Encoded : Type 0 where
  refused : ℕ → Encoded
  encoded : List ℕ → ℕ → Encoded

abbrev pub is_empty {ℓ} : {A : Type ℓ} → List A → Bool
is_empty [] = true
is_empty (x ∷ l) = false

unfoldable pub epochs_agree : ℕ → List LogRecord → Bool
epochs_agree epoch [] = true
epochs_agree epoch (r ∷ records) = r.epoch == epoch && epochs_agree epoch records

module _ (codec : MsgPack) where
  unfoldable pub encode_loop : ℕ → ℕ → Buckets → List ℕ → ℕ → Encoded
  encode_loop frontier target [] group last = encoded group last
  encode_loop frontier target ((epoch, records) ∷ buckets) group last =
      let payload = codec.pack records in
      let rest = encode_loop frontier target buckets (group ++ encode_frame epoch payload) epoch in
      if ltb target epoch
      then encoded group last
      else if is_empty records || epoch == 0
      then refused einval
      else if ltb epoch frontier
      then refused einval
      else if not (epochs_agree epoch records)
      then refused einval
      else if ltb k_max_payload_size (length payload)
      then refused eoverflow
      else rest

-- `aborted` is `std::abort`. `returned` holds the log's new state and the error, if there is one.
pub data Appended : Type 0 where
  aborted : Appended
  returned : Wal → Option ℕ → Appended

-- An I/O error leaves the end of the log unknown.
unfoldable pub settle : Wal → Ran Wal → Appended × Disk
settle w (done w' d) = (returned w' none, d)
settle w (failure e d) = (returned (record w { state = failed_state }) (some e), d)

-- Write and sync; then the new end of the log.
unfoldable pub write_group : Wal → List ℕ → ℕ → Io Wal
write_group w group last = do
  _ ← write_all_at group w.write_offset
  _ ← sync_retrying
  pure (record w {
    write_offset = w.write_offset + length group;
    initialised_size = max w.initialised_size (w.write_offset + length group);
    frontier = last;
  })

-- An extension counts once the capacity is there, also if the write behind it fails.
unfoldable pub extended : Wal → ℕ → Wal
extended w size = record w {
  initialised_size = size;
  extension_count = w.extension_count + (if size == w.initialised_size then 0 else 1);
}

unfoldable pub with_capacity : Wal → List ℕ → ℕ → Ran ℕ → Appended × Disk
with_capacity w group last (failure e d) =
    (returned (record w { state = failed_state }) (some e), d)
with_capacity w group last (done size d) =
    settle (extended w size) (write_group (extended w size) group last d)

-- A group that is refused, or empty, touches nothing.
unfoldable pub commit_group : Wal → Encoded → Disk → Appended × Disk
unfolding settle write_group with_capacity extended
commit_group w (refused e) d = (returned w (some e), d)
commit_group w (encoded [] last) d = (returned w none, d)
commit_group w (encoded (b ∷ group) last) d =
    with_capacity w (b ∷ group) last (ensure_capacity_for w w.write_offset (length (b ∷ group)) d)

unfoldable pub append_in : WalState → MsgPack → Wal → Buckets → ℕ → Disk → Appended × Disk
append_in unscanned codec w buckets target d = (aborted, d)
append_in failed_state codec w buckets target d = (aborted, d)
append_in ready codec w buckets target d =
    commit_group w (encode_loop codec w.frontier target buckets [] w.frontier) d

unfoldable pub append_group : MsgPack → Wal → Buckets → ℕ → Disk → Appended × Disk
unfolding append_in commit_group encode_loop
append_group codec w = append_in w.state codec w
