-- ===== src/Recovery.antt =====
-- src/recovery: the write-ahead log, its file and its checksum.
pub mod Word
pub mod Crc32c
pub mod LogRecord
pub mod Disk
pub mod Wal
pub mod Flusher
pub mod Replay
mod Tests
