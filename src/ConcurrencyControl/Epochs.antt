-- ===== src/ConcurrencyControl/Epochs.antt =====
-- src/util/epoch_framework.hpp: what the epoch writer decides in one round, from the local epochs that its
-- scan of the threads has read. The waiting, the mutex and the notifications are left out.
pub mod Advance
use lineair_db.Base.{
  ℕ, ◌+◌, ◌-◌, ◌^◌, Bool, not, ◌&&◌, ◌||◌, List, [], ◌∷◌, ltb, leb, ◌==◌, if◌then◌else◌,
}

abbrev pub thread_offline : ℕ
thread_offline = 2 ^ 32 - 1

abbrev pub epoch_high_water : ℕ
epoch_high_water = 2 ^ 32 - 1 - 2 ^ 20

unfoldable pub smallest_loop : ℕ → List ℕ → ℕ
smallest_loop min_epoch [] = min_epoch
smallest_loop min_epoch (e ∷ epochs) =
    smallest_loop (if ltb 0 e && ltb e min_epoch then e else min_epoch) epochs

unfoldable pub get_smallest_epoch : List ℕ → ℕ
unfolding smallest_loop
get_smallest_epoch epochs = smallest_loop thread_offline epochs

-- How a round ends: with the global epoch as it was, with the next one, or with `std::abort`.

pub data Round : Type 0 where
  waits : Round
  aborts : Round
  advances : ℕ → Round

unfoldable pub writer_round : Bool → Bool → ℕ → List ℕ → Round
writer_round forced_wake stop old_epoch epochs =
    if forced_wake && not stop && leb epoch_high_water old_epoch
    then waits
    else if get_smallest_epoch epochs == thread_offline || get_smallest_epoch epochs == old_epoch
    then (if leb epoch_high_water old_epoch then aborts else advances (old_epoch + 1))
    else waits

-- Whether the loop of the writer ends behind a round that did not skip the rest.
pub writer_ends : Bool → List ℕ → Bool
writer_ends stop epochs = stop && get_smallest_epoch epochs == thread_offline
