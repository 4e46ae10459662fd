-- ===== src/Lock/Tests.antt =====
-- Two threads over one lock.
use lineair_db.Base.{◌+◌, ◌*◌, ◌≡◌, ◌≢◌, ◌⊎◌, refl, true, false, [], ◌∷◌, ◌++◌}
use lineair_db.Lock.ReadersWriters.{
  idle, holding, exclusive, shared, unlocked, is_exclusively_locked, is_there_any_reader,
  is_there_room_for_new_readers, add_reader, Move, System, moves, Reach, begins, goes_on,
}
use lineair_db.Lock.ReadersWriters.Exclusion.{holds, holders, Reach-exclusion, Reach-asserts}

-- The first thread has become the writer.
abbrev one_writer : System
one_writer = record { lock_bit = 1; threads = holding exclusive ∷ idle ∷ [] }

one_writer-Reach : Reach 2 one_writer
one_writer-Reach =
    goes_on (goes_on begins (moves [] (idle ∷ []) (Move.load_exclusive refl)))
      (moves [] (idle ∷ []) (Move.take_exclusive refl))

Reach-exclusion_example :
    (one_writer.lock_bit
      ≡ 2 * holders shared one_writer.threads + holders exclusive one_writer.threads)
    × ((holders exclusive one_writer.threads ≡ 0)
        ⊎ ((holders exclusive one_writer.threads ≡ 1) × (holders shared one_writer.threads ≡ 0)))
Reach-exclusion_example = Reach-exclusion one_writer-Reach

-- The second thread has become a reader.
one_reader-Reach :
    Reach 2 (record { lock_bit = add_reader 0; threads = (idle ∷ []) ++ (holding shared ∷ []) })
unfolding is_exclusively_locked is_there_room_for_new_readers
one_reader-Reach =
    goes_on (goes_on begins (moves (idle ∷ []) [] (Move.load_shared refl)))
      (moves (idle ∷ []) [] Move.take_shared)

one_share : holds shared (holding shared) ≡ 1
unfolding holds
one_share = refl

Reach-asserts_example :
    (add_reader 0 ≢ unlocked)
    × (is_there_any_reader (add_reader 0) ≡ true)
    × (is_exclusively_locked (add_reader 0) ≡ false)
Reach-asserts_example = Reach-asserts (idle ∷ []) (holding shared) [] one_reader-Reach one_share
