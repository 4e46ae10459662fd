-- ===== src/Recovery/Wal/Append/Untouched.antt =====
-- An append leaves the bytes before the end of the log as they are, however it ends.
use lineair_db.Base.{ℕ, ◌≤◌, ◌≡◌, refl, sym, subst, arith, List, [], ◌∷◌, length, take}
use lineair_db.Recovery.LogRecord.{MsgPack}
use lineair_db.Recovery.Disk.{Disk, Ran, done, failure, write_all_at, sync_retrying}
use lineair_db.Recovery.Disk.Laws.{disk_of}
use lineair_db.Recovery.Disk.Keeps.{
  Kept, Kept-refl, Kept-trans, Keeps, Keeps-pure, Keeps-bind, Keeps-write_all_at,
  Keeps-sync_retrying,
}
use lineair_db.Recovery.Wal.{Wal, WalState, unscanned, ready, failed_state, ensure_capacity_for}
use lineair_db.Recovery.Wal.Capacity.{ensure_capacity_for-Keeps}
use lineair_db.Recovery.Wal.Append.{
  Buckets, Encoded, refused, encoded, encode_loop, settle, write_group, extended, with_capacity,
  commit_group, append_in, append_group,
}

write_group-Keeps :
    (w : Wal) (group : List ℕ) (last : ℕ) → Keeps w.write_offset (write_group w group last)
unfolding write_group
write_group-Keeps w group last =
    Keeps-bind w.write_offset (write_all_at group w.write_offset) _
      (Keeps-write_all_at w.write_offset group w.write_offset (omega arith))
      (λ _.
        Keeps-bind w.write_offset sync_retrying _ (Keeps-sync_retrying w.write_offset)
          (λ _. Keeps-pure w.write_offset _))

settle-disk : (w : Wal) (r : Ran Wal) → (settle w r).1 ≡ disk_of r
unfolding settle
settle-disk w (done w' d) = refl
settle-disk w (failure e d) = refl

with_capacity-Kept :
    (w : Wal) (group : List ℕ) (last : ℕ) (f : List ℕ) (r : Ran ℕ)
    → w.write_offset ≤ length f
    → Kept w.write_offset f (disk_of r).file
    → Kept w.write_offset f (with_capacity w group last r).1.file
unfolding with_capacity extended
with_capacity-Kept w group last f (failure e d) h k = k
with_capacity-Kept w group last f (done size d) h k =
    let w1 = extended w size in
    subst (λ (d' : Disk). Kept w.write_offset f d'.file)
      (sym (settle-disk w1 (write_group w1 group last d)))
      (Kept-trans k ((write_group-Keeps w1 group last).at d (k.reaches h)))

commit_group-Kept :
    (w : Wal) (e : Encoded) (d : Disk)
    → w.write_offset ≤ w.initialised_size
    → w.write_offset ≤ length d.file
    → Kept w.write_offset d.file (commit_group w e d).1.file
unfolding commit_group
commit_group-Kept w (refused e) d i h = Kept-refl w.write_offset d.file
commit_group-Kept w (encoded [] last) d i h = Kept-refl w.write_offset d.file
commit_group-Kept w (encoded (b ∷ group) last) d i h =
    with_capacity-Kept w (b ∷ group) last d.file
      (ensure_capacity_for w w.write_offset (length (b ∷ group)) d) h
      ((ensure_capacity_for-Keeps w.write_offset w w.write_offset (length (b ∷ group)) i).at d h)

append_in-Kept :
    (s : WalState) (codec : MsgPack) (w : Wal) (buckets : Buckets) (target : ℕ) (d : Disk)
    → w.write_offset ≤ w.initialised_size
    → w.write_offset ≤ length d.file
    → Kept w.write_offset d.file (append_in s codec w buckets target d).1.file
unfolding append_in
append_in-Kept unscanned codec w buckets target d i h = Kept-refl w.write_offset d.file
append_in-Kept failed_state codec w buckets target d i h = Kept-refl w.write_offset d.file
append_in-Kept ready codec w buckets target d i h =
    commit_group-Kept w (encode_loop codec w.frontier target buckets [] w.frontier) d i h

-- Whatever the system calls do and however the append ends: where the log ends inside the file, and
-- inside what is initialised of it, each byte before the end of the log is what it was.
pub append_group-take :
    (codec : MsgPack) (w : Wal) (buckets : Buckets) (target : ℕ) (d : Disk)
    → w.write_offset ≤ w.initialised_size
    → w.write_offset ≤ length d.file
    → take w.write_offset (append_group codec w buckets target d).1.file
      ≡ take w.write_offset d.file
unfolding append_group
append_group-take codec w buckets target d i h =
    (append_in-Kept w.state codec w buckets target d i h).same
