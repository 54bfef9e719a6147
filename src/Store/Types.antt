-- ===== src/Store/Types.antt =====
-- The rows of internal/store/store.go and the tables of internal/store/migrations.go.
use koinos_token_tracker.Base.{ℕ, Bool, Option, none, some, List, []}
use koinos_token_tracker.Base.Text.{Text}

pub record Address : Type 0 where
  pub address : Text
  pub first_seen_height : ℕ
  pub first_seen_time : ℕ

pub record Balance : Type 0 where
  pub address : Text
  pub token : Text
  pub balance : Text
  pub updated_height : ℕ

pub record Block : Type 0 where
  pub height : ℕ
  pub block_id : Text
  pub timestamp : ℕ
  pub signer : Text
  pub tx_count : ℕ

pub record Token : Type 0 where
  pub address : Text
  pub symbol : Text
  pub decimals : ℕ
  pub total_supply : Text

pub record Backfill : Type 0 where
  pub token : Text
  pub next_seq : ℕ
  pub cutoff_height : ℕ
  pub done : Bool
  pub verified : Bool
  pub mismatches : ℕ
  pub failures : ℕ
  pub updated_at : ℕ

-- `sender` and `receiver` are the fields From and To.
pub record Transfer : Type 0 where
  pub id : ℕ
  pub height : ℕ
  pub tx_id : Text
  pub token : Text
  pub sender : Text
  pub receiver : Text
  pub value : Text
  pub event_type : Text
  pub timestamp : ℕ

pub record Stats : Type 0 where
  pub total_addresses : ℕ
  pub koin_holders : ℕ
  pub vhp_holders : ℕ
  pub last_height : ℕ
  pub last_block_id : Text

-- The one row of sync_state, which the migration inserts.
pub record SyncState : Type 0 where
  pub last_height : ℕ
  pub last_block_id : Text
  pub updated_at : ℕ

-- The tables after the migration. `next_id` is the AUTOINCREMENT counter of transfers.
pub record Db : Type 0 where
  pub sync_state : SyncState
  pub addresses : List Address
  pub balances : List Balance
  pub blocks : List Block
  pub tokens : List Token
  pub transfers : List Transfer
  pub next_id : ℕ
  pub backfills : List Backfill

-- What the schema creates in an empty file.
abbrev pub empty_db : Db
empty_db = record {
  sync_state = record { last_height = 0; last_block_id = []; updated_at = 0 };
  addresses = [];
  balances = [];
  blocks = [];
  tokens = [];
  transfers = [];
  next_id = 1;
  backfills = [];
}

-- SQLiteStore: the committed database, the transaction's copy of it while a batch is open, and
-- whether the mutex is held. `faults` says of each call of the driver, in order, whether it fails
-- (all succeed past its end), and `now` is the clock.
pub record Store : Type 0 where
  pub db : Db
  pub tx : Option Db
  pub locked : Bool
  pub koin_contract : Text
  pub vhp_contract : Text
  pub faults : List Bool
  pub now : ℕ

-- What a query or a statement sees: the batch's copy inside a batch.
abbrev pub current : Store → Db
current s = elim s.tx [ none ↦ s.db | some d ↦ d ]
