-- ===== src/Types.antt =====
-- src/types: the data that the transaction engine stores.
pub mod Outcome
pub mod Keys
pub mod TransactionId
pub mod Records
pub mod PackedKeys
pub mod DataItem
pub mod Snapshot
mod Tests
