-- ===== src/Lock/ReadersWriters/Exclusion.antt =====
-- A writer is alone, in every order of the steps.
use lineair_db.Base.{
  false, ℕ, zero, suc, ◌+◌, ◌-◌, ◌*◌, ◌/◌, ◌^◌, ◌≤◌, ◌<◌, ◌≡◌, ◌≢◌, ◌⊎◌, inl, refl, arith,
}
use lineair_db.Base.{true, List, [], ◌∷◌, ◌++◌, All, All-append, replicate}
use lineair_db.Lock.ReadersWriters.{
  unlocked, is_exclusively_locked, is_there_any_reader, is_there_room_for_new_readers, add_reader,
  sub_reader, get_number_of_readers, Mode, shared, exclusive, Pc, idle, sharing, excluding,
  upgrading, holding, clearing, releasing, leaving, Move, System, Step, moves, Reach, begins,
  goes_on,
}
use Move.{
  load_shared, take_shared, fail_shared, load_exclusive, take_exclusive, fail_exclusive,
  load_upgrade, take_upgrade, fail_upgrade, unlock_exclusive, clear, unlock_shared, load_release,
  leave, fail_leave,
}

abbrev in_mode : Mode → Mode → ℕ
in_mode shared shared = 1
in_mode shared exclusive = 0
in_mode exclusive shared = 0
in_mode exclusive exclusive = 1

-- 1 where a thread holds the lock in the mode.
unfoldable pub holds : Mode → Pc → ℕ
holds m idle = 0
holds m (sharing v) = 0
holds m excluding = 0
holds m (upgrading v) = in_mode m shared
holds m (holding k) = in_mode m k
holds m (clearing k) = in_mode m k
holds m (releasing k) = in_mode m k
holds m (leaving k v) = in_mode m k

-- How many threads hold the lock in the mode.
pub holders : Mode → List Pc → ℕ
unfolding holds
holders m [] = 0
holders m (p ∷ threads) = holds m p + holders m threads

holders-split :
    (m : Mode) (before : List Pc) (p : Pc) (after : List Pc)
    → holders m (before ++ (p ∷ after)) ≡ holders m before + holders m after + holds m p
unfolding holders
holders-split m [] p after = omega arith
holders-split m (q ∷ before) p after = omega (arith, holders-split m before p after)

-- What a thread has tested, and that `UnLock` took the branch of the thread's mode.
IsProper : Pc → Type 0
IsProper (sharing v) = (v ≢ 1) × (v < 2 ^ 64 - 2)
IsProper (upgrading v) = v / 2 ≡ 1
IsProper (clearing m) = m ≡ exclusive
IsProper (releasing m) = m ≡ shared
IsProper (leaving m v) = m ≡ shared
IsProper _ = Unit

-- The word counts the readers in its upper 63 bits and has its lowest bit for the writer, who is alone.
record Counts (w r x : ℕ) : Type 0 where
  word : w ≡ 2 * r + x
  alone : (x ≡ 0) ⊎ ((x ≡ 1) × (r ≡ 0))
  small : w < 2 ^ 64

record IsCounted (s : System) : Type 0 where
  counts : Counts s.lock_bit (holders shared s.threads) (holders exclusive s.threads)
  proper : All IsProper s.threads

-- `r` and `x` count the other threads.
Move-Counts :
    {w v : ℕ} {p q : Pc} (r x : ℕ)
    → Move w p v q
    → IsProper p
    → Counts w (r + holds shared p) (x + holds exclusive p)
    → Counts v (r + holds shared q) (x + holds exclusive q) × IsProper q
unfolding holds IsProper is_exclusively_locked is_there_room_for_new_readers add_reader sub_reader
    get_number_of_readers
Move-Counts r x (load_shared h) i c = (c, ground arith)
Move-Counts r x take_shared i c = (
  record {
    word = ground (arith, c.word, c.alone);
    alone = ground (arith, c.word, c.alone);
    small = ground (arith, c.word, c.small);
  },
  tt,
)
Move-Counts r x fail_shared i c = (c, tt)
Move-Counts r x (load_exclusive h) i c = (c, tt)
Move-Counts r x (take_exclusive h) i c = (
  record {
    word = ground (arith, c.word, c.alone);
    alone = ground (arith, c.word, c.alone);
    small = ground arith;
  },
  tt,
)
Move-Counts r x fail_exclusive i c = (c, tt)
Move-Counts r x (load_upgrade h) i c = (c, h)
Move-Counts r x take_upgrade i c = (
  record {
    word = ground (arith, c.word, c.alone);
    alone = ground (arith, c.word, c.alone);
    small = ground arith;
  },
  tt,
)
Move-Counts r x fail_upgrade i c = (c, tt)
Move-Counts r x (unlock_exclusive {m = shared} h) i c = absurd (ground (arith, c.word, c.alone))
Move-Counts r x (unlock_exclusive {m = exclusive} h) i c = (c, refl)
Move-Counts r x (clear {m = shared}) i c = absurd (cc)
Move-Counts r x (clear {m = exclusive}) i c = (
  record {
    word = ground (arith, c.word, c.alone);
    alone = ground (arith, c.word, c.alone);
    small = ground arith;
  },
  tt,
)
Move-Counts r x (unlock_shared {m = shared} h) i c = (c, refl)
Move-Counts r x (unlock_shared {m = exclusive} h) i c = absurd (ground (arith, c.word, c.alone))
Move-Counts r x load_release i c = (c, i)
Move-Counts r x (leave {m = shared}) i c = (
  record {
    word = ground (arith, c.word, c.alone, c.small);
    alone = ground (arith, c.word, c.alone);
    small = ground arith;
  },
  tt,
)
Move-Counts r x (leave {m = exclusive}) i c = absurd (cc)
Move-Counts r x fail_leave i c = (c, i)

All-middle :
    (before : List Pc) (p : Pc) (after : List Pc)
    → All IsProper (before ++ (p ∷ after))
    → All IsProper before × (IsProper p × All IsProper after)
All-middle [] p after h = (tt, h)
All-middle (q ∷ before) p after h =
    let (b, rest) = All-middle before p after h.1 in ((h.0, b), rest)

Counts-split :
    {w : ℕ} (before : List Pc) (p : Pc) (after : List Pc)
    → Counts w (holders shared (before ++ (p ∷ after))) (holders exclusive (before ++ (p ∷ after)))
    → Counts w
        (holders shared before + holders shared after + holds shared p)
        (holders exclusive before + holders exclusive after + holds exclusive p)
Counts-split {w} before p after c =
    rw (← holders-split shared before p after, ← holders-split exclusive before p after) c

Step-IsCounted : {s t : System} → Step s t → IsCounted s → IsCounted t
Step-IsCounted (moves before after {w} {v} {p} {q} move) i =
    let (b, (here, rest)) = All-middle before p after i.proper in
    let (c, proper) =
      Move-Counts (holders shared before + holders shared after)
        (holders exclusive before + holders exclusive after) move here
        (Counts-split before p after i.counts) in
    record {
      counts = rw (holders-split shared before q after, holders-split exclusive before q after) c;
      proper = All-append IsProper before (q ∷ after) b (proper, rest);
    }

holders-replicate : (m : Mode) (n : ℕ) → holders m (replicate n idle) ≡ 0
unfolding holders holds
holders-replicate m zero = refl
holders-replicate m (suc n) = omega (arith, holders-replicate m n)

idle-IsProper : (n : ℕ) → All IsProper (replicate n idle)
unfolding IsProper
idle-IsProper zero = tt
idle-IsProper (suc n) = (tt, idle-IsProper n)

Reach-IsCounted : {n : ℕ} {s : System} → Reach n s → IsCounted s
Reach-IsCounted {n} begins = record {
  counts =
      rw (holders-replicate shared n, holders-replicate exclusive n)
        (record { word = omega arith; alone = inl refl; small = omega arith });
  proper = idle-IsProper n;
}
Reach-IsCounted (goes_on reach step) = Step-IsCounted step (Reach-IsCounted reach)

-- In every state that threads reach over one unlocked lock, in any order of their steps, the lock word
-- is twice the number of readers and one more where there is a writer; there is at most one writer, and
-- where there is one, no reader.
pub Reach-exclusion :
    {n : ℕ} {s : System}
    → Reach n s
    → (s.lock_bit ≡ 2 * holders shared s.threads + holders exclusive s.threads)
      × ((holders exclusive s.threads ≡ 0)
          ⊎ ((holders exclusive s.threads ≡ 1) × (holders shared s.threads ≡ 0)))
Reach-exclusion reach = let c = (Reach-IsCounted reach).counts in (c.word, c.alone)

-- In every state that threads reach over one unlocked lock, while a thread holds the lock as a reader,
-- the word is not unlocked, it counts a reader, and it is not exclusively locked: the asserts of an
-- upgrade and of `UnLock` hold, and `UnLock` takes the branch of a reader.
pub Reach-asserts :
    {n w : ℕ} (before : List Pc) (p : Pc) (after : List Pc)
    → Reach n (record { lock_bit = w; threads = before ++ (p ∷ after) })
    → holds shared p ≡ 1
    → (w ≢ unlocked) × (is_there_any_reader w ≡ true) × (is_exclusively_locked w ≡ false)
unfolding is_there_any_reader is_exclusively_locked
Reach-asserts {w} before p after reach h =
    let c = Counts-split before p after (Reach-IsCounted reach).counts in
    let many : 2 ≤ w = ground (arith, c.word, c.alone) in
    let even : w ≢ 1 = ground (arith, c.word, c.alone) in
    (λ e. omega arith, ground arith, ground arith)
