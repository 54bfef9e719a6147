-- ===== src/Reconcile.antt =====
-- internal/reconcile: the comparison of the stored balances with the chain's.
pub mod Amount
pub mod Fetch
pub mod Check
pub mod Run
