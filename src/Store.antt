-- ===== src/Store.antt =====
-- internal/store: the tables, the transaction of a batch, and the operations of SQLiteStore.
pub mod Records
pub mod Types
pub mod Action
pub mod Does
pub mod Batch
pub mod Writes
pub mod Reads
pub mod Transfers
pub mod Producers
