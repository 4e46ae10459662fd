-- ===== src/ConcurrencyControl.antt =====
-- src/concurrency_control: the validation of transactions, and the epochs that they run in.
pub mod HalfWordSet
pub mod PivotObject
pub mod Epochs
pub mod StableRead
pub mod Memory
pub mod Silo
mod Tests
