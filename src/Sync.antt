-- ===== src/Sync.antt =====
-- internal/sync/sync.go: applying blocks to the store, and catching up with the chain.
pub mod Process
pub mod Catchup
