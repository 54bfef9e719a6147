-- ===== src/Indexer/Types.antt =====
-- The parts of a block and its receipt that the indexer reads, and the types of its result. A nil
-- pointer of the source is `none`.
use koinos_token_tracker.Base.{ℕ, Bool, Option, List}
use koinos_token_tracker.Base.Text.{Bytes, Text}
use koinos_token_tracker.Base.TextSet.{TextSet}
use koinos_token_tracker.Base.Int.{ℤ}

pub record BlockHeader : Type 0 where
  pub height : ℕ
  pub timestamp : ℕ
  pub signer : Bytes

pub record TransactionHeader : Type 0 where
  pub payer : Bytes
  pub payee : Bytes

pub record Transaction : Type 0 where
  pub id : Bytes
  pub header : Option TransactionHeader

pub record Block : Type 0 where
  pub id : Bytes
  pub header : Option BlockHeader
  pub transactions : List (Option Transaction)

-- `payload` is the field Data.
pub record EventData : Type 0 where
  pub source : Bytes
  pub name : Text
  pub payload : Bytes
  pub impacted : List Bytes

pub record TransactionReceipt : Type 0 where
  pub reverted : Bool
  pub events : List (Option EventData)

pub record BlockReceipt : Type 0 where
  pub events : List (Option EventData)
  pub transaction_receipts : List (Option TransactionReceipt)

-- `sender` and `receiver` are the fields From and To.
pub record TransferRecord : Type 0 where
  pub tx_id : Text
  pub token : Text
  pub sender : Text
  pub receiver : Text
  pub value : ℕ
  pub event_type : Text

pub record BalanceChange : Type 0 where
  pub address : Text
  pub token : Text
  pub delta : ℤ

pub record BlockResult : Type 0 where
  pub height : ℕ
  pub block_id : Bytes
  pub timestamp : ℕ
  pub signer : Text
  pub tx_count : ℕ
  pub addresses : TextSet
  pub balance_changes : List BalanceChange
  pub transfers : List TransferRecord
