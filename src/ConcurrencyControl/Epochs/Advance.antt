-- ===== src/ConcurrencyControl/Epochs/Advance.antt =====
-- The epoch does not run away from a thread that is online.
use lineair_db.Base.{◌⊎◌, zero, suc}
use lineair_db.Base.{
  ℕ, ◌+◌, ◌≤◌, ◌<◌, ◌≡◌, refl, arith, Bool, true, false, not, ◌&&◌, ◌||◌, List, [], ◌∷◌, All,
}
use lineair_db.Base.{ltb, leb, ◌==◌, if◌then◌else◌, Bool-cases, inl, inr}
use lineair_db.ConcurrencyControl.Epochs.{
  thread_offline, epoch_high_water, smallest_loop, get_smallest_epoch, waits, aborts, advances,
  writer_round,
}

smallest_loop_below :
    (least : ℕ) (epochs : List ℕ)
    → (smallest_loop least epochs ≤ least)
      × All (λ e. 1 ≤ e → smallest_loop least epochs ≤ e) epochs
unfolding smallest_loop
smallest_loop_below least [] = (omega arith, tt)
smallest_loop_below least (e ∷ epochs) =
    let (below, rest) = smallest_loop_below (if ltb 0 e && ltb e least then e else least) epochs in
    (ground (arith, below), (λ h. ground (arith, below), rest))

-- What a scan may read of a thread: an epoch up to the global one, or that the thread is offline.
abbrev pub IsPublished : ℕ → ℕ → Type 0
IsPublished old_epoch e = (e ≤ old_epoch) ⊎ (e ≡ thread_offline)

-- A thread that is not in an epoch, or is in the global one.
abbrev pub IsCurrent : ℕ → ℕ → Type 0
IsCurrent old_epoch e = (e ≡ 0) ⊎ ((e ≡ old_epoch) ⊎ (e ≡ thread_offline))

IsCurrent-at :
    (old_epoch m e : ℕ)
    → old_epoch ≤ m
    → (1 ≤ e → m ≤ e)
    → IsPublished old_epoch e
    → IsCurrent old_epoch e
IsCurrent-at old_epoch m zero g b p = inl refl
IsCurrent-at old_epoch m (suc e) g b (inl p) =
    let c : m ≤ suc e = b (omega arith) in inr (inl (omega arith))
IsCurrent-at old_epoch m (suc e) g b (inr p) = inr (inr p)

All-IsCurrent :
    (old_epoch m : ℕ) (epochs : List ℕ)
    → old_epoch ≤ m
    → All (λ e. 1 ≤ e → m ≤ e) epochs
    → All (IsPublished old_epoch) epochs
    → All (IsCurrent old_epoch) epochs
All-IsCurrent old_epoch m [] g b p = tt
All-IsCurrent old_epoch m (e ∷ epochs) g b p =
    (IsCurrent-at old_epoch m e g b.0 p.0, All-IsCurrent old_epoch m epochs g b.1 p.1)

-- The tests of a round that advances.
decide :
    (skips : Bool) (old_epoch next m : ℕ)
    → old_epoch < thread_offline
    → (if skips
        then waits
        else if m == thread_offline || m == old_epoch
        then (if leb epoch_high_water old_epoch then aborts else advances (old_epoch + 1))
        else waits)
      ≡ advances next
    → (next ≡ old_epoch + 1) × ((next ≤ epoch_high_water) × (old_epoch ≤ m))
decide true old_epoch next m small h = cc
decide false old_epoch next m small h = elim (Bool-cases (m == thread_offline || m == old_epoch)) [
  | inl gate ↦ elim (Bool-cases (leb epoch_high_water old_epoch)) [
    | inl high ↦ cc (rw (gate, high) at h)
    | inr low ↦
        let same : advances (old_epoch + 1) ≡ advances next = rw (gate, low) at h in
        let next_is : old_epoch + 1 ≡ next = cc in (omega arith, (ground arith, ground arith))
  ]
  | inr n ↦ cc (rw n at h)
]

-- Where a round of the epoch writer advances the global epoch, and each thread was read offline or in
-- an epoch up to the global one, the new epoch is the next one and does not pass the high-water mark,
-- and each thread that is in an epoch is in the one that was global before: it falls behind by one at
-- most.
pub writer_round-advances :
    (forced_wake stop : Bool) (old_epoch next : ℕ) (epochs : List ℕ)
    → old_epoch < thread_offline
    → All (IsPublished old_epoch) epochs
    → writer_round forced_wake stop old_epoch epochs ≡ advances next
    → (next ≡ old_epoch + 1) × (next ≤ epoch_high_water) × All (IsCurrent old_epoch) epochs
unfolding writer_round get_smallest_epoch
writer_round-advances forced_wake stop old_epoch next epochs small published h =
    let m : ℕ = smallest_loop thread_offline epochs in
    let (next_is, (room, gate)) =
      decide (forced_wake && not stop && leb epoch_high_water old_epoch) old_epoch next m small h in
    (
      next_is,
      room,
      All-IsCurrent old_epoch m epochs gate (smallest_loop_below thread_offline epochs).1 published,
    )
