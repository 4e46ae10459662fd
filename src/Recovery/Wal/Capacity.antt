-- ===== src/Recovery/Wal/Capacity.antt =====
-- What `WriteZeroesAndSync` and `EnsureCapacityFor` leave as it is.
use lineair_db.Base.{
  ℕ, zero, suc, ◌+◌, ◌-◌, ◌*◌, ◌/◌, ◌%◌, ◌≤◌, min, max, ◌&&◌, leb, ltb, ◌==◌, arith, replicate,
}
use lineair_db.Base.{if◌then◌else◌}
use lineair_db.Base.{◌≡◌, refl, Bool-cases, inl, inr, le→leb, le→ltb_false}
use lineair_db.Recovery.Disk.{Disk, done}
use lineair_db.Recovery.Disk.{write_all_at}
use lineair_db.Recovery.Disk.Keeps.{
  Keeps, Keeps-pure, Keeps-fail, Keeps-if, Keeps-bind, Keeps-write_all_at, Keeps-sync_retrying,
}
use lineair_db.Recovery.Wal.{
  Wal, k_chunk_size, zero_chunks, write_zeroes_and_sync, off_max, ensure_capacity_for,
}

zero_chunks-Keeps : (n fuel from to : ℕ) → n ≤ from → Keeps n (zero_chunks fuel from to)
unfolding zero_chunks
zero_chunks-Keeps n zero from to h = Keeps-pure n tt
zero_chunks-Keeps n (suc fuel) from to h =
    let size = min k_chunk_size (to - from) in
    Keeps-if n (leb to from) _ _ (Keeps-pure n tt) (
      Keeps-bind n (write_all_at (replicate size 0) from) _
        (Keeps-write_all_at n (replicate size 0) from h)
        (λ _. zero_chunks-Keeps n fuel (from + size) to (omega arith)))

pub write_zeroes_and_sync-Keeps :
    (n from to : ℕ) → n ≤ from → Keeps n (write_zeroes_and_sync from to)
unfolding write_zeroes_and_sync
write_zeroes_and_sync-Keeps n from to h = Keeps-if n (leb to from) _ _ (Keeps-pure n tt) (
    Keeps-bind n (zero_chunks (to - from) from to) _ (zero_chunks-Keeps n (to - from) from to h)
      (λ _. Keeps-sync_retrying n))

-- Capacity is added behind what is initialised.
pub ensure_capacity_for-Keeps :
    (n : ℕ) (w : Wal) (end_of_log group_size : ℕ)
    → n ≤ w.initialised_size
    → Keeps n (ensure_capacity_for w end_of_log group_size)
unfolding ensure_capacity_for
ensure_capacity_for-Keeps n w end_of_log group_size h =
    let needed = end_of_log + group_size in
    let units =
      max 1 (needed / w.initial_capacity + (if needed % w.initial_capacity == 0 then 0 else 1)) in
    let target = units * w.initial_capacity in
    Keeps-if n (ltb (off_max - end_of_log) group_size) _ _ (Keeps-fail n _) (
      Keeps-if n (w.initial_capacity == 0) _ _ (Keeps-pure n _) (
        Keeps-if n (leb needed w.initialised_size && leb w.initial_capacity w.initialised_size) _ _
          (Keeps-pure n _)
          (Keeps-if n (ltb (off_max / w.initial_capacity) units) _ _ (Keeps-fail n _) (
            Keeps-if n (leb target w.initialised_size) _ _ (Keeps-pure n _) (
              Keeps-bind n (write_zeroes_and_sync w.initialised_size target) _
                (write_zeroes_and_sync-Keeps n w.initialised_size target h)
                (λ _. Keeps-pure n _))))))

-- Where the capacity is there, nothing is written.
pub ensure_capacity_for_enough :
    (w : Wal) (end_of_log : ℕ) (d : Disk)
    → end_of_log ≤ off_max
    → end_of_log ≤ w.initialised_size
    → w.initial_capacity ≤ w.initialised_size
    → ensure_capacity_for w end_of_log 0 d ≡ done w.initialised_size d
unfolding ensure_capacity_for
ensure_capacity_for_enough w end_of_log d h i c =
    rw
      (
        le→ltb_false (off_max - end_of_log) 0 (omega arith),
        le→leb (end_of_log + 0) w.initialised_size (omega arith),
        le→leb w.initial_capacity w.initialised_size c,
      )
      (elim (Bool-cases (w.initial_capacity == 0)) [
        | inl none ↦ rw none refl
        | inr some ↦ rw some refl
      ])
