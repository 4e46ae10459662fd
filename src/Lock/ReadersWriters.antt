-- ===== src/Lock/ReadersWriters.antt =====
-- src/lock/impl/readers_writers_lock.hpp: the lock word, and threads that take and release the lock over
-- it in any order. Each load, compare-and-exchange and store is a step of its own; a weak exchange may fail
-- for no reason. The pauses and the back-off between two tries are left out.
pub mod Exclusion
use lineair_db.Base.{
  ℕ, ◌+◌, ◌-◌, ◌/◌, ◌%◌, ◌^◌, ◌≡◌, ◌≢◌, Bool, true, false, not, ◌||◌, List, [], ◌∷◌, ◌++◌,
}
use lineair_db.Base.{ltb, leb, ◌==◌, replicate}

abbrev pub exclusively_locked : ℕ
exclusively_locked = 1

abbrev pub unlocked : ℕ
unlocked = 0

abbrev pub reader : ℕ
reader = 2

-- `~1llu`
abbrev pub readers_full : ℕ
readers_full = 2 ^ 64 - 2

unfoldable pub is_exclusively_locked : ℕ → Bool
is_exclusively_locked n = n == exclusively_locked

pub is_there_any_reader : ℕ → Bool
is_there_any_reader n = leb reader n

unfoldable pub is_there_room_for_new_readers : ℕ → Bool
is_there_room_for_new_readers n = ltb n readers_full

pub add_reader : ℕ → ℕ
add_reader n = (n + reader) % 2 ^ 64

pub sub_reader : ℕ → ℕ
sub_reader n = (n + (2 ^ 64 - reader)) % 2 ^ 64

pub get_number_of_readers : ℕ → ℕ
get_number_of_readers n = n / 2 ^ exclusively_locked

-- What a thread was given; the code does not record it.
pub data Mode : Type 0 where
  shared exclusive : Mode

-- Where a thread stands: outside; before the exchange of `TryLock`, for each of its three types; holding
-- the lock; and in `UnLock`: before the store, before the load of the loop, and before its exchange.
pub data Pc : Type 0 where
  idle : Pc
  sharing : ℕ → Pc
  excluding : Pc
  upgrading : ℕ → Pc
  holding : Mode → Pc
  clearing : Mode → Pc
  releasing : Mode → Pc
  leaving : Mode → ℕ → Pc

-- One access to the word by a thread, from a word and a place to the next ones.
pub data Move (w : ℕ) : Pc → ℕ → Pc → Type 0 where
  load_shared :
      (is_exclusively_locked w || not (is_there_room_for_new_readers w)) ≡ false
      → Move w idle w (sharing w)
  take_shared : Move w (sharing w) (add_reader w) (holding shared)
  fail_shared : {v : ℕ} → Move w (sharing v) w idle
  load_exclusive : w ≡ unlocked → Move w idle w excluding
  take_exclusive : w ≡ unlocked → Move w excluding exclusively_locked (holding exclusive)
  fail_exclusive : Move w excluding w idle
  load_upgrade : get_number_of_readers w ≡ 1 → Move w (holding shared) w (upgrading w)
  take_upgrade : Move w (upgrading w) exclusively_locked (holding exclusive)
  fail_upgrade : {v : ℕ} → Move w (upgrading v) w (holding shared)
  unlock_exclusive : {m : Mode} → is_exclusively_locked w ≡ true → Move w (holding m) w (clearing m)
  clear : {m : Mode} → Move w (clearing m) unlocked idle
  unlock_shared : {m : Mode} → is_exclusively_locked w ≡ false → Move w (holding m) w (releasing m)
  load_release : {m : Mode} → Move w (releasing m) w (leaving m w)
  leave : {m : Mode} → Move w (leaving m w) (sub_reader w) idle
  fail_leave : {m : Mode} {v : ℕ} → Move w (leaving m v) w (releasing m)

pub record System : Type 0 where
  pub lock_bit : ℕ
  pub threads : List Pc

-- Any thread moves.
pub data Step : System → System → Type 0 where
  moves :
      (before after : List Pc) {w v : ℕ} {p q : Pc}
      → Move w p v q
      → Step
          (record { lock_bit = w; threads = before ++ (p ∷ after) })
          (record { lock_bit = v; threads = before ++ (q ∷ after) })

abbrev pub initial : ℕ → System
initial n = record { lock_bit = unlocked; threads = replicate n idle }

pub data Reach (n : ℕ) : System → Type 0 where
  begins : Reach n (initial n)
  goes_on : {s t : System} → Reach n s → Step s t → Reach n t
