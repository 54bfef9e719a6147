-- ===== src/Tests.antt =====
-- The theorems applied to concrete inputs.
pub mod Toy
pub mod Blocks
mod Texts
pub mod Stores
pub mod Backfills
pub mod Runs
pub mod Chain
pub mod Starts
mod Launches
mod Reconciles
mod Answers
mod Drills
