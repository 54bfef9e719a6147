-- ===== src/Backfill.antt =====
-- internal/backfill/backfill.go: the replay of a token's history.

pub mod Decode
pub mod Ops
pub mod Client
pub mod Collect
pub mod Apply
pub mod Effect
pub mod Run
pub mod DryRun
pub mod Live
pub mod Changes
use koinos_token_tracker.Base.{ℕ}
use koinos_token_tracker.Base.Text.{Text}

-- `sender` and `receiver` are the fields From and To.
pub record Op : Type 0 where
  pub seq : ℕ
  pub height : ℕ
  pub timestamp : ℕ
  pub tx_id : Text
  pub event_type : Text
  pub sender : Text
  pub receiver : Text
  pub value : ℕ

-- The position of a block: blockInfo.
pub record BlockInfo : Type 0 where
  pub height : ℕ
  pub timestamp : ℕ
