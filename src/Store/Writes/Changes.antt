-- ===== src/Store/Writes/Changes.antt =====
-- What each writing method does to the tables.
use koinos_token_tracker.Base.{ℕ}
use koinos_token_tracker.Base.Text.{Text}
use koinos_token_tracker.Store.Types.{Backfill}
use koinos_token_tracker.Store.Does.{Does, Does-context, Does-statement}
use koinos_token_tracker.Store.Writes.{
  put_sync_state, set_sync_state, put_address, upsert_address, put_first_seen, lower_first_seen,
  put_balance, set_balance, put_block, insert_block, put_token, upsert_token, put_backfill,
  upsert_backfill, put_transfer, insert_transfer, delete_balances, reset_token_balances,
  delete_transfers, delete_transfers_at_height,
}

pub Does-set_sync_state :
    (height : ℕ) (block_id : Text)
    → Does (λ _ _. tt) (put_sync_state height block_id) (set_sync_state height block_id)
unfolding set_sync_state
Does-set_sync_state height block_id = record {
  at = λ s d e.
      (Does-context "set sync state" (Does-statement (put_sync_state height block_id s.now))).at s d
        e;
}

pub Does-upsert_address :
    (address : Text) (height time : ℕ)
    → Does (λ _ _. tt) (λ _. put_address address height time) (upsert_address address height time)
unfolding upsert_address
Does-upsert_address address height time =
    Does-context "upsert address" (Does-statement (put_address address height time))

pub Does-lower_first_seen :
    (address : Text) (height time : ℕ)
    → Does
        (λ _ _. tt)
        (λ _. put_first_seen address height time)
        (lower_first_seen address height time)
unfolding lower_first_seen
Does-lower_first_seen address height time =
    Does-context "lower first seen" (Does-statement (put_first_seen address height time))

pub Does-set_balance :
    (address token balance : Text) (height : ℕ)
    → Does
        (λ _ _. tt)
        (λ _. put_balance address token balance height)
        (set_balance address token balance height)
unfolding set_balance
Does-set_balance address token balance height =
    Does-context "set balance" (Does-statement (put_balance address token balance height))

pub Does-insert_block :
    (height : ℕ) (block_id : Text) (timestamp : ℕ) (signer : Text) (tx_count : ℕ)
    → Does
        (λ _ _. tt)
        (λ _. put_block (record {
          height = height;
          block_id = block_id;
          timestamp = timestamp;
          signer = signer;
          tx_count = tx_count;
        }))
        (insert_block height block_id timestamp signer tx_count)
unfolding insert_block
Does-insert_block height block_id timestamp signer tx_count = Does-context "insert block" (
    Does-statement (
      put_block (record {
        height = height;
        block_id = block_id;
        timestamp = timestamp;
        signer = signer;
        tx_count = tx_count;
      })))

pub Does-upsert_token :
    (address symbol : Text) (decimals : ℕ) (total_supply : Text)
    → Does
        (λ _ _. tt)
        (λ _. put_token (record {
          address = address;
          symbol = symbol;
          decimals = decimals;
          total_supply = total_supply;
        }))
        (upsert_token address symbol decimals total_supply)
unfolding upsert_token
Does-upsert_token address symbol decimals total_supply = Does-context "upsert token" (
    Does-statement (
      put_token (record {
        address = address;
        symbol = symbol;
        decimals = decimals;
        total_supply = total_supply;
      })))

pub Does-insert_transfer :
    (height : ℕ) (tx_id token sender receiver value event_type : Text) (timestamp : ℕ)
    → Does
        (λ _ _. tt)
        (λ _. put_transfer height tx_id token sender receiver value event_type timestamp)
        (insert_transfer height tx_id token sender receiver value event_type timestamp)
unfolding insert_transfer
Does-insert_transfer height tx_id token sender receiver value event_type timestamp =
    Does-context "insert transfer"
      (Does-statement (put_transfer height tx_id token sender receiver value event_type timestamp))

pub Does-reset_token_balances :
    (token : Text) → Does (λ _ _. tt) (λ _. delete_balances token) (reset_token_balances token)
unfolding reset_token_balances
Does-reset_token_balances token =
    Does-context "reset token balances" (Does-statement (delete_balances token))

pub Does-delete_transfers_at_height :
    (height : ℕ)
    → Does (λ _ _. tt) (λ _. delete_transfers height) (delete_transfers_at_height height)
unfolding delete_transfers_at_height
Does-delete_transfers_at_height height =
    Does-context "delete transfers at height" (Does-statement (delete_transfers height))

pub Does-upsert_backfill :
    (b : Backfill)
    → Does (λ _ _. tt) (λ now. put_backfill (record b { updated_at = now })) (upsert_backfill b)
unfolding upsert_backfill
Does-upsert_backfill b = record {
  at = λ s d e.
      (Does-context "upsert backfill"
          (Does-statement (put_backfill (record b { updated_at = s.now })))).at
        s d e;
}
