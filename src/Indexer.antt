-- ===== src/Indexer.antt =====
-- internal/indexer/indexer.go: what a block says of addresses, balances and transfers.
pub mod Types
pub mod Tokens
pub mod Parse
pub mod Event
pub mod Block
