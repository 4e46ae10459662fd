-- ===== src/Recovery/Wal/Append/Acknowledged.antt =====
-- What an append that is reported as done has made durable.
use lineair_db.Base.{ℕ, zero, suc, ◌+◌, ◌≤◌, ◌≡◌, refl, sym, ap, ◌∙◌, none, some}
use lineair_db.Base.{List, [], ◌∷◌, length, take}
use lineair_db.Recovery.LogRecord.{MsgPack}
use lineair_db.Recovery.Disk.{
  Disk, Ran, done, failure, overlay, write_at, write_all_at, sync_retrying,
}
use lineair_db.Recovery.Disk.Laws.{disk_of, slice}
use lineair_db.Recovery.Disk.Ensures.{
  Ensures, Ensures-bind, Ensures-map, write_all_at-Ensures, sync_retrying-Ensures,
}
use lineair_db.Recovery.Wal.{Wal, WalState, unscanned, ready, failed_state, ensure_capacity_for}
use lineair_db.Recovery.Wal.Capacity.{ensure_capacity_for-Keeps}
use lineair_db.Recovery.Wal.Append.{
  Buckets, Encoded, refused, encoded, encode_loop, Appended, aborted, returned, settle, write_group,
  extended, with_capacity, commit_group, append_in, append_group,
}

-- A group that is on the disk: its bytes stand at the old end of the log, the file is synced, and the log
-- ends behind the group.
pub record Durable (w w' : Wal) (group : List ℕ) (last : ℕ) (d : Disk) : Type 0 where
  pub on_disk : slice w.write_offset (length group) d.file ≡ group
  pub synced : d.synced ≡ d.file
  pub offset : w'.write_offset ≡ w.write_offset + length group
  pub frontier : w'.frontier ≡ last
  pub state : w'.state ≡ w.state

-- How the append of a group ends that is neither refused nor empty.
unfoldable pub Written : Wal → List ℕ → ℕ → Appended × Disk → Type 0
Written w group last (aborted, d) = ⊥
Written w group last (returned w' (some e), d) = w'.state ≡ failed_state
Written w group last (returned w' none, d) = Durable w w' group last d

unfoldable pub Committed : Wal → Encoded → Disk → Appended × Disk → Type 0
unfolding Written
Committed w (refused e) d x = x ≡ (returned w (some e), d)
Committed w (encoded [] last) d x = x ≡ (returned w none, d)
Committed w (encoded (b ∷ group) last) d x = Written w (b ∷ group) last x

take-overlay : (bytes f : List ℕ) → take (length bytes) (overlay bytes f) ≡ bytes
take-overlay [] f = refl
take-overlay (x ∷ bytes) [] = ap (λ l. x ∷ l) (take-overlay bytes [])
take-overlay (x ∷ bytes) (c ∷ f) = ap (λ l. x ∷ l) (take-overlay bytes f)

slice-write_at :
    (f : List ℕ) (offset : ℕ) (bytes : List ℕ)
    → slice offset (length bytes) (write_at f offset bytes) ≡ bytes
slice-write_at f zero bytes = take-overlay bytes f
slice-write_at [] (suc offset) bytes = slice-write_at [] offset bytes
slice-write_at (c ∷ f) (suc offset) bytes = slice-write_at f offset bytes

write_group-Ensures :
    (w : Wal) (group : List ℕ) (last : ℕ) (d : Disk)
    → w.write_offset ≤ length d.file
    → Ensures (λ w' d'. Durable w w' group last d') (write_group w group last d)
unfolding write_group
write_group-Ensures w group last d h =
    Ensures-bind (λ _ d1. d1.file ≡ write_at d.file w.write_offset group) _
      (write_all_at group w.write_offset d) _ (write_all_at-Ensures group w.write_offset d h)
      (λ _ d1 e.
        Ensures-bind (λ _ d2. (d2.file ≡ d1.file) × (d2.synced ≡ d1.file)) _ (sync_retrying d1) _
          (sync_retrying-Ensures d1)
          (λ _ d2 s. record {
            on_disk = rw (s.0, e) (slice-write_at d.file w.write_offset group);
            synced = s.1 ∙ sym s.0;
            offset = refl;
            frontier = refl;
            state = refl;
          }))

settle-Written :
    (w w1 : Wal) (group : List ℕ) (last : ℕ) (r : Ran Wal)
    → Ensures (λ w' d'. Durable w w' group last d') r
    → Written w group last (settle w1 r)
unfolding settle Written
settle-Written w w1 group last (done w' d) h = h
settle-Written w w1 group last (failure e d) h = refl

with_capacity-Written :
    (w : Wal) (group : List ℕ) (last : ℕ) (r : Ran ℕ)
    → w.write_offset ≤ length (disk_of r).file
    → Written w group last (with_capacity w group last r)
unfolding with_capacity extended Written
with_capacity-Written w group last (failure e d) h = refl
with_capacity-Written w group last (done size d) h =
    let w1 = extended w size in
    settle-Written w w1 group last (write_group w1 group last d) (
      Ensures-map (λ w' d'. Durable w1 w' group last d') (λ w' d'. Durable w w' group last d') _
        (λ w' d' e. record {
          on_disk = e.on_disk;
          synced = e.synced;
          offset = e.offset;
          frontier = e.frontier;
          state = e.state;
        })
        (write_group-Ensures w1 group last d h))

commit_group-Committed :
    (w : Wal) (e : Encoded) (d : Disk)
    → w.write_offset ≤ w.initialised_size
    → w.write_offset ≤ length d.file
    → Committed w e d (commit_group w e d)
unfolding commit_group Committed
commit_group-Committed w (refused e) d i h = refl
commit_group-Committed w (encoded [] last) d i h = refl
commit_group-Committed w (encoded (b ∷ group) last) d i h =
    let r = ensure_capacity_for w w.write_offset (length (b ∷ group)) in
    with_capacity-Written w (b ∷ group) last (r d) (
      ((ensure_capacity_for-Keeps w.write_offset w w.write_offset (length (b ∷ group)) i).at d
          h).reaches
        h)

append_in-Committed :
    (s : WalState) (codec : MsgPack) (w : Wal) (buckets : Buckets) (target : ℕ) (d : Disk)
    → s ≡ ready
    → w.write_offset ≤ w.initialised_size
    → w.write_offset ≤ length d.file
    → Committed w
        (encode_loop codec w.frontier target buckets [] w.frontier)
        d
        (append_in s codec w buckets target d)
unfolding append_in
append_in-Committed unscanned codec w buckets target d s i h = cc
append_in-Committed failed_state codec w buckets target d s i h = cc
append_in-Committed ready codec w buckets target d s i h =
    commit_group-Committed w (encode_loop codec w.frontier target buckets [] w.frontier) d i h

-- An append to a log that is ready and that ends inside the file and inside what is initialised of it,
-- whatever the system calls do. A group that is refused, or empty, changes neither the log nor the
-- file. Any other group that is reported as done stands at the old end of the log in a file that is
-- synced, and the log then ends behind it, with the epoch of its last frame; an error leaves the log
-- failed. Nothing is aborted.
pub append_group-Committed :
    (codec : MsgPack) (w : Wal) (buckets : Buckets) (target : ℕ) (d : Disk)
    → w.state ≡ ready
    → w.write_offset ≤ w.initialised_size
    → w.write_offset ≤ length d.file
    → Committed w
        (encode_loop codec w.frontier target buckets [] w.frontier)
        d
        (append_group codec w buckets target d)
unfolding append_group
append_group-Committed codec w buckets target d s i h =
    append_in-Committed w.state codec w buckets target d s i h
