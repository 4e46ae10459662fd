-- ===== src/Lib.antt =====
-- LineairDB: a transactional key-value engine for one machine. A write goes to a data item in memory, is
-- logged, and is acknowledged once the log is on the disk; after a crash the log is read back.
--
-- The parts of it that are modelled:
--
-- Types: the values that the engine stores, of `src/types`. `Types/Records.antt` is the varint and the
-- record of `PackedPrimaryKeys` in `src/types/packed_primary_keys.hpp`; `Types/PackedKeys.antt` is the
-- construction, `Insert` and `Erase` of such a list, and `Types/PackedKeys/View.antt` its iterator,
-- `lower_bound`, `contains` and `equals`. `Types/DataItem.antt` is what `DataItem` of
-- `src/types/data_item.hpp` does with them for the entry of a secondary index. A pointer into the
-- records is the list of the bytes from there to their end, so that a pointer behind the end does not
-- exist; an exception and a failed assert are values of `Types/Outcome.antt`. The loops run on fuel: the
-- number of bytes, or one more than the number of records, as each round takes a record. `size_t` has 64 bits and its sums wrap; a key is shorter than 2 ^ 62 bytes.
--
-- Recovery: the write-ahead log, of `src/recovery`. `Recovery/Disk.antt` is the file and the loops round
-- `pwrite`, `pread` and `fsync` of `src/recovery/wal.cpp`: a script says of each call whether it is
-- interrupted, fails, or moves a part of the bytes, and what the last sync made durable is kept beside the
-- file. `Recovery/Word.antt` and `Recovery/Crc32c.antt` are the little-endian words and the checksum of a
-- frame. `Recovery/Wal.antt` holds the state of `Wal`, its frames and its capacity, and below it `Append`
-- is `AppendGroup`, `Tail` is the search behind a damaged tail, `Scan` the loop of `ScanAndRepair`, and
-- `Recover` the hop over covered frames and the repair. Each loop's fuel is a number of bytes, and each
-- round takes a byte at least. The encoding of the log records belongs to the msgpack library: it is the
-- record `MsgPack` of `Recovery/LogRecord.antt`, with the laws that the library documents.
--
-- Lock: the readers-writers lock of a data item, of `src/lock/impl/readers_writers_lock.hpp`. In
-- `Lock/ReadersWriters.antt` each load, compare-and-exchange and store of the lock word is a step of its
-- own, of any thread, and the states that threads reach from an unlocked lock are a data type.
--
-- `Types/TransactionId.antt` is the version of a data item, of `src/types/transaction_id.hpp`, and the word
-- of `src/stateless/packed_transaction_id.hpp` in which it travels.
-- `Types/Snapshot.antt` is an entry of a transaction's read or write set, of `src/types/snapshot.hpp`.
--
-- ConcurrencyControl: the sets of versions of `src/util/32bit_set.hpp`, at the size that is used, in
-- `ConcurrencyControl/HalfWordSet.antt`, and the pivot object of `src/concurrency_control/pivot_object.hpp`
-- with its tests in `ConcurrencyControl/PivotObject.antt`; and the round of the epoch writer of
-- `src/util/epoch_framework.hpp` in `ConcurrencyControl/Epochs.antt`, on the local epochs that it has read.
-- `ConcurrencyControl/StableRead.antt` is the read of an index entry of
-- `src/concurrency_control/stable_read.hpp`.
--
-- ConcurrencyControl/Memory is the data items of `src/types/data_item.hpp` as a transaction and the other
-- threads share them. The others are a list of moves, one before each access of this thread: a move may
-- change any item, index and the global epoch, and may make a weak exchange fail; an item that this thread
-- has locked it leaves alone, save for the pivot object. When the list has ended nobody else moves. Which
-- items this thread has locked is a list beside the memory: the exchange that sets the lock bit adds an item,
-- and only the store of a version without the lock bit takes it off.
-- `ConcurrencyControl/Memory/Online.antt` is `MakeMeOnline` of `src/util/epoch_framework.hpp`, and
-- `ConcurrencyControl/Memory/Rely.antt` says what the accesses keep if the others keep it.
--
-- ConcurrencyControl/Silo is `src/concurrency_control/impl/silo_nwr.hpp`, for both of its classes: `Silo` is
-- the mode `none`, `SiloNWR` the mode that has a read set and the members of the validation of version
-- orders. `Read.antt` is `Read` and `ReadUnvalidated`, `Locking.antt` the locking of the write set and its
-- undoing, `Validation.antt` the anti-dependency validation, `Nwr.antt` is `IsOmittable`, `Pivots.antt`
-- `UpdatePivotObjects`, `Install.antt` the install and `PostProcessing`, and `Commit.antt` `Precommit` as the
-- source composes it. A loop that waits has one round more than the others have moves, and `out_of_fuel`
-- is a loop that still waits after all of them; the calls of `IsOmittable` by itself run on fuel of their
-- own. The other files below it hold proofs. `std::sort` is an insertion sort.
--
-- Recovery/Replay is `BuildRecoverySet` of `src/recovery/logger.cpp`. Its hash maps are lists of their
-- entries; the sorting and the erasure of doubles of the keys of an entry are one function.
--
-- Recovery/Flusher is `FlushThrough` of `src/recovery/impl/thread_local_logger.cpp`. The carried records are
-- buckets in the order of their epochs, as in the source's map; the buffers of the threads, which it empties,
-- are lists of records, one for each thread; the trace of the flush is left out.
--
-- A transaction's entries are validated by the pivot objects, locked in their order, validated by their
-- versions, installed and released; what it wrote becomes log records, a flush collects them, the log's
-- frames hold them, and a recovery folds them into rows and index entries. Not modelled are the opening and locking of the file, the
-- tracing and the messages, the CRC instructions of the processor, `ReadDirect` and the purge callback of the
-- protocol, and the other subsystems: two-phase locking, checkpoints, the stateless interface, the indexes and
-- the column store.
pub mod Base
pub mod Types
pub mod Recovery
pub mod Lock
pub mod ConcurrencyControl
