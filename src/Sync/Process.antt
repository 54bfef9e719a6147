-- ===== src/Sync/Process.antt =====
-- ProcessAndStore and processAndStoreInternal.
pub mod Effect
pub mod Ledger
pub mod EndToEnd
use Prim.Native.String.{String}
use koinos_token_tracker.Base.{
  ℕ, ◌+◌, ◌-◌, ◌/◌, ◌%◌, Bool, Option, none, some, List, [], ◌∷◌, ltb, leb, ◌==◌, if◌then◌else◌,
}
use koinos_token_tracker.Base.Int.{ℤ, pos, negsuc, ◌+ℤ◌}
use koinos_token_tracker.Base.Text.{Bytes, Text}
use koinos_token_tracker.Decimal.{print, format_int, set_string}
use koinos_token_tracker.Config.{TokenTrackerConfig}
use koinos_token_tracker.Wire.{Wire}
use koinos_token_tracker.Indexer.Types.{
  Block, BlockReceipt, BalanceChange, TransferRecord, BlockResult,
}
use koinos_token_tracker.Indexer.Block.{process_block}
use koinos_token_tracker.Store.Types.{Store}
use koinos_token_tracker.Store.Action.{
  Error, wrap, Result, ok, err, blocked, Action, pure, context, ◌>>=◌, ◌>>◌,
}
use koinos_token_tracker.Store.Does.{for_each}
use koinos_token_tracker.Store.Batch.{in_batch}
use koinos_token_tracker.Store.Writes.{
  set_sync_state, upsert_address, set_balance, insert_block, insert_transfer, reset_token_balances,
  delete_transfers_at_height,
}
use koinos_token_tracker.Store.Reads.{get_sync_state, get_balance}

-- A lower case hexadecimal digit.
abbrev pub hex_digit : ℕ → ℕ
hex_digit n = if ltb n 10 then b'0' + n else b'a' + (n - 10)

-- hex.EncodeToString
unfoldable pub encode_hex : Bytes → Text
encode_hex [] = []
encode_hex (b ∷ bs) = hex_digit (b / 16) ∷ hex_digit (b % 16) ∷ encode_hex bs

-- A text that is no number counts as zero.
abbrev pub big_or_zero : Option ℤ → ℤ
big_or_zero none = pos 0
big_or_zero (some v) = v

-- Clamp to zero if underflow.
unfoldable pub clamp : ℤ → ℤ
clamp (pos n) = pos n
clamp (negsuc n) = pos 0

-- The balance text after a delta.
unfoldable pub adjusted : Text → ℤ → Text
unfolding set_string format_int clamp ◌+ℤ◌
adjusted current delta = format_int (clamp (big_or_zero (set_string current) +ℤ delta))

unfoldable pub apply_change : ℕ → BalanceChange → Action (Unit {0})
unfolding get_balance set_balance adjusted
apply_change height c = do
  current ← context "get balance for" (get_balance c.address c.token)
  context "set balance for" (set_balance c.address c.token (adjusted current c.delta) height)

abbrev first_or_zero : Result (ℕ × Text) → ℕ
first_or_zero (ok r) = r.0
first_or_zero _ = 0

-- lastHeight, _, _ := s.store.GetSyncState(): an error is dropped, and leaves a height of 0.
unfoldable pub last_height_or_zero : Action ℕ
unfolding get_sync_state
last_height_or_zero s = let (r, s') = get_sync_state s in (ok (first_or_zero r), s')

-- At the migration height VHP balances start anew.
unfoldable pub reset_at_migration : TokenTrackerConfig → ℕ → Action (Unit {0})
unfolding reset_token_balances
reset_at_migration cfg height =
    if height == cfg.kcs4_migration_height
    then context "reset VHP balances at migration" (reset_token_balances cfg.vhp_contract)
    else pure tt

-- Below the guard against double processing.
unfoldable pub store_result : TokenTrackerConfig → BlockResult → Action (Unit {0})
unfolding reset_at_migration for_each apply_change encode_hex print
store_result cfg r = do
  reset_at_migration cfg r.height
  for_each (λ addr. context "upsert address" (upsert_address addr r.height r.timestamp)) r.addresses
  for_each (apply_change r.height) r.balance_changes
  context "delete transfers at height" (delete_transfers_at_height r.height)
  for_each
      (λ tr. context "insert transfer at height" (
        insert_transfer r.height tr.tx_id tr.token tr.sender tr.receiver (print tr.value)
          tr.event_type r.timestamp))
      r.transfers
  context "insert block"
      (insert_block r.height (encode_hex r.block_id) r.timestamp r.signer r.tx_count)
  context "update sync state" (set_sync_state r.height (encode_hex r.block_id))

abbrev guarded : TokenTrackerConfig → BlockResult → ℕ → Action (Unit {0})
guarded cfg r last_height = if leb r.height last_height then pure tt else store_result cfg r

unfoldable pub process_result : TokenTrackerConfig → Option BlockResult → Action (Unit {0})
process_result cfg none = pure tt
process_result cfg (some r) = last_height_or_zero >>= guarded cfg r

unfoldable pub process_and_store_internal :
    Wire → TokenTrackerConfig → Option Block → Option BlockReceipt → Action (Unit {0})
unfolding process_block process_result last_height_or_zero store_result
process_and_store_internal w cfg block receipt =
    process_result cfg (process_block w (some cfg) block receipt)

unfoldable pub process_and_store :
    Wire → TokenTrackerConfig → Option Block → Option BlockReceipt → Action (Unit {0})
unfolding in_batch process_and_store_internal
process_and_store w cfg block receipt =
    in_batch (wrap "begin batch") (process_and_store_internal w cfg block receipt)
      (wrap "commit batch")
