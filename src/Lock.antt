-- ===== src/Lock.antt =====
-- src/lock: the locks that protect a data item.
pub mod ReadersWriters
mod Tests
