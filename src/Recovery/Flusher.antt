-- ===== src/Recovery/Flusher.antt =====
-- src/recovery/impl/thread_local_logger.cpp: the flush of the records that the threads have buffered.
pub mod Collected
pub mod Flushes
pub mod Lossless
use lineair_db.Base.{ℕ, Option, none, some, List, [], ◌∷◌, ◌++◌, ltb, leb, ◌==◌, if◌then◌else◌}
use lineair_db.Recovery.LogRecord.{LogRecord, MsgPack}
use lineair_db.Recovery.Disk.{Disk}
use lineair_db.Recovery.Wal.{Wal}
use lineair_db.Recovery.Wal.Append.{Buckets, Appended, aborted, returned, append_group}

-- `carry_[record.epoch].emplace_back(record)`, in a map in the order of its keys.
unfoldable pub carry_record : LogRecord → Buckets → Buckets
carry_record record' [] = (record'.epoch, record' ∷ []) ∷ []
carry_record record' ((epoch, records) ∷ carry) =
    let rest = carry_record record' carry in
    if record'.epoch == epoch
    then (epoch, records ++ (record' ∷ [])) ∷ carry
    else if ltb record'.epoch epoch
    then (record'.epoch, record' ∷ []) ∷ (epoch, records) ∷ carry
    else (epoch, records) ∷ rest

-- The records of one thread. `none` is `std::abort`, on a record of an epoch that is durable already.
unfoldable pub collect_node : ℕ → List LogRecord → Buckets → Option Buckets
collect_node durable_before [] carry = some carry
collect_node durable_before (r ∷ swapped) carry =
    let rest = collect_node durable_before swapped (carry_record r carry) in
    if leb r.epoch durable_before then none else rest

unfoldable pub collect : ℕ → List (List LogRecord) → Buckets → Option Buckets
collect durable_before [] carry = some carry
collect durable_before (node ∷ nodes) carry = elim (collect_node durable_before node carry) [
  | none ↦ none
  | some next ↦ collect durable_before nodes next
]

-- The erasure of what stands before `upper_bound(target)`.
unfoldable pub erase_through : ℕ → Buckets → Buckets
erase_through target [] = []
erase_through target ((epoch, records) ∷ carry) =
    let rest = erase_through target carry in
    if leb epoch target then rest else (epoch, records) ∷ carry

-- How a flush ends: aborted, or with the log, the error, and what is carried to the next one. The buffers
-- of the threads are empty then.
pub data Flushed : Type 0 where
  flush_aborted : Flushed
  flushed : Wal → Option ℕ → Buckets → Disk → Flushed

abbrev pub after_append : ℕ → Buckets → Appended × Disk → Flushed
after_append target carry (aborted, d) = flush_aborted
after_append target carry (returned w (some e), d) = flushed w (some e) carry d
after_append target carry (returned w none, d) = flushed w none (erase_through target carry) d

-- What follows the collection.
abbrev pub flush_carry : MsgPack → Wal → ℕ → Option Buckets → Disk → Flushed
flush_carry codec w target none d = flush_aborted
flush_carry codec w target (some carry) d =
    after_append target carry (append_group codec w carry target d)

unfoldable pub flush_through :
    MsgPack → Wal → ℕ → List (List LogRecord) → Buckets → ℕ → Disk → Flushed
flush_through codec w durable_before nodes carry target d =
    flush_carry codec w target (collect durable_before nodes carry) d
