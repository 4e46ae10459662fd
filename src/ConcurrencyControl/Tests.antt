-- ===== src/ConcurrencyControl/Tests.antt =====
-- The round of the epoch writer.
use lineair_db.Base.{◌≡◌, refl, false, ◌≤◌, ◌+◌, All, inl, inr, [], ◌∷◌, arith}
use lineair_db.ConcurrencyControl.Epochs.{
  epoch_high_water, thread_offline, smallest_loop, get_smallest_epoch, writer_round, advances,
}
use lineair_db.ConcurrencyControl.Epochs.Advance.{IsCurrent, writer_round-advances}

-- Two threads in the epoch 7, and one that is offline.
advanced : writer_round false false 7 (7 ∷ thread_offline ∷ 7 ∷ []) ≡ advances 8
unfolding writer_round get_smallest_epoch smallest_loop
advanced = refl

writer_round-advances_example :
    (8 ≡ 7 + 1) × (8 ≤ epoch_high_water) × All (IsCurrent 7) (7 ∷ thread_offline ∷ 7 ∷ [])
writer_round-advances_example =
    writer_round-advances false false 7 8 (7 ∷ thread_offline ∷ 7 ∷ []) (omega arith)
      (inl (omega arith), (inr refl, (inl (omega arith), tt))) advanced
