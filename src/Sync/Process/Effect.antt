-- ===== src/Sync/Process/Effect.antt =====
-- What processing a block does to the tables, as one function of them: internal/sync/sync.go against
-- that function.
use koinos_token_tracker.Base.{
  ℕ, ◌≡◌, refl, false, Option, none, some, leb, ◌==◌, if◌then◌else◌, arith, ap,
}
use koinos_token_tracker.Decimal.{print}
use koinos_token_tracker.Config.{TokenTrackerConfig}
use koinos_token_tracker.Wire.{Wire}
use koinos_token_tracker.Indexer.Types.{
  Block, BlockReceipt, BalanceChange, TransferRecord, BlockResult,
}
use koinos_token_tracker.Indexer.Block.{process_block}
use koinos_token_tracker.Store.Types.{Db, Store, Block as BlockRow}
use koinos_token_tracker.Store.Action.{wrap, ok, next_fault}
use koinos_token_tracker.Store.Does.{
  Does, Does-pure, Does-context, Does-query, Does-bind, Does-for_each, Does-if, fold_each, Ends,
  Ends-then,
}
use koinos_token_tracker.Store.Batch.Lock.{Settles, opened, in_batch-Settles}
use koinos_token_tracker.Store.Writes.{
  put_sync_state, put_address, put_balance, put_block, put_transfer, delete_balances,
  delete_transfers,
}
use koinos_token_tracker.Store.Writes.Changes.{
  Does-set_sync_state, Does-upsert_address, Does-set_balance, Does-insert_block,
  Does-insert_transfer, Does-reset_token_balances, Does-delete_transfers_at_height,
}
use koinos_token_tracker.Store.Reads.{balance_of, get_balance}
use koinos_token_tracker.Sync.Process.{
  adjusted, apply_change, encode_hex, last_height_or_zero, reset_at_migration, store_result,
  process_result, process_and_store_internal, process_and_store,
}

-- A balance change: the balance read is adjusted and written back.
unfoldable pub change_balance : ℕ → BalanceChange → ℕ → Db → Db
change_balance height c now d =
    put_balance c.address c.token (adjusted (balance_of c.address c.token d) c.delta) height d

abbrev pub record_transfer : BlockResult → TransferRecord → ℕ → Db → Db
record_transfer r tr now =
    put_transfer r.height tr.tx_id tr.token tr.sender tr.receiver (print tr.value) tr.event_type
      r.timestamp

abbrev pub block_row : BlockResult → BlockRow
block_row r = record {
  height = r.height;
  block_id = encode_hex r.block_id;
  timestamp = r.timestamp;
  signer = r.signer;
  tx_count = r.tx_count;
}

-- The balances of VHP are dropped at the migration height.
unfoldable pub migrated : TokenTrackerConfig → ℕ → Db → Db
migrated cfg height d =
    if height == cfg.kcs4_migration_height then delete_balances cfg.vhp_contract d else d

-- The tables before the transfers are written: migration, addresses, balances.
unfoldable pub with_balances : TokenTrackerConfig → BlockResult → ℕ → Db → Db
unfolding migrated
with_balances cfg r now d = fold_each (change_balance r.height) r.balance_changes now (
    fold_each (λ a now. put_address a r.height r.timestamp) r.addresses now
      (migrated cfg r.height d))

unfoldable pub block_effect : TokenTrackerConfig → BlockResult → ℕ → Db → Db
unfolding with_balances
block_effect cfg r now d = put_sync_state r.height (encode_hex r.block_id) now (
    put_block (block_row r) (
      fold_each (record_transfer r) r.transfers now
        (delete_transfers r.height (with_balances cfg r now d))))

Does-reset_at_migration :
    (cfg : TokenTrackerConfig) (height : ℕ)
    → Does (λ _ _. tt) (λ _. migrated cfg height) (reset_at_migration cfg height)
unfolding reset_at_migration migrated
Does-reset_at_migration cfg height =
    Does-if (height == cfg.kcs4_migration_height)
      (Does-context "reset VHP balances at migration" (Does-reset_token_balances cfg.vhp_contract))
      (Does-pure tt)

pub Does-apply_change :
    (height : ℕ) (c : BalanceChange)
    → Does (λ _ _. tt) (change_balance height c) (apply_change height c)
unfolding apply_change change_balance get_balance
Does-apply_change height c =
    Does-bind
      (Does-context "get balance for"
        (Does-context "get balance" (Does-query (balance_of c.address c.token))))
      (λ current.
        Does-context "set balance for"
          (Does-set_balance c.address c.token (adjusted current c.delta) height))

Does-store_result :
    (cfg : TokenTrackerConfig) (r : BlockResult)
    → Does (λ _ _. tt) (block_effect cfg r) (store_result cfg r)
unfolding store_result block_effect
Does-store_result cfg r = Does-bind (Does-reset_at_migration cfg r.height) λ _.
    Does-bind
      (Does-for_each
        (λ a. Does-context "upsert address" (Does-upsert_address a r.height r.timestamp))
        r.addresses)
      λ _. Does-bind (Does-for_each (Does-apply_change r.height) r.balance_changes) λ _.
        Does-bind
          (Does-context "delete transfers at height" (Does-delete_transfers_at_height r.height))
          λ _.
            Does-bind
              (Does-for_each
                (λ tr. Does-context "insert transfer at height" (
                  Does-insert_transfer r.height tr.tx_id tr.token tr.sender tr.receiver
                    (print tr.value) tr.event_type r.timestamp))
                r.transfers)
              λ _.
                Does-bind
                  (Does-context "insert block" (
                    Does-insert_block r.height (encode_hex r.block_id) r.timestamp r.signer
                      r.tx_count))
                  λ _.
                    Does-context "update sync state"
                      (Does-set_sync_state r.height (encode_hex r.block_id))

-- The last height that the guard compares with: 0 if the driver fails that read.
abbrev pub seen_height : Store → Db → ℕ
seen_height s d = if (next_fault s.faults).0 then 0 else d.sync_state.last_height

last_height_or_zero-eq :
    (s : Store) (d : Db)
    → s.tx ≡ some d
    → last_height_or_zero s ≡ (ok (seen_height s d), record s { faults = (next_fault s.faults).1 })
unfolding last_height_or_zero
last_height_or_zero-eq s d e = ground arith

-- The tables after a block: as before if there is no result or the height is not above `last`.
unfoldable pub guarded_effect : TokenTrackerConfig → Option BlockResult → ℕ → ℕ → Db → Db
guarded_effect cfg none last now d = d
guarded_effect cfg (some r) last now d = if leb r.height last then d else block_effect cfg r now d

pub process_result-Ends :
    (cfg : TokenTrackerConfig) (o : Option BlockResult) (s : Store) (d : Db)
    → s.tx ≡ some d
    → Ends s tt (guarded_effect cfg o (seen_height s d) s.now d) (process_result cfg o s)
unfolding process_result guarded_effect
process_result-Ends cfg none s d e = (Does-pure tt).at s d e
process_result-Ends cfg (some r) s d e =
    let s' : Store = record s { faults = (next_fault s.faults).1 } in
    rw (last_height_or_zero-eq s d e) (
      Ends-then s s' _ tt _
        (record { db = refl; locked = refl; now = refl; koin = refl; vhp = refl })
        (λ z. ap (λ fs. (next_fault fs).1) z)
        ((Does-if (leb r.height (seen_height s d)) (Does-pure tt) (Does-store_result cfg r)).at s' d
          e))

-- ProcessAndStore, begun outside a batch, either returns with the tables as the block leaves them,
-- or returns an error with the tables as they were; it leaves no transaction open and the mutex
-- free either way, never waits, and fails only if the driver does. The block leaves the tables
-- alone if its height is not above the last height read.
pub process_and_store-Settles :
    (w : Wire) (cfg : TokenTrackerConfig) (block : Option Block) (receipt : Option BlockReceipt)
    (s : Store)
    → s.locked ≡ false
    → s.tx ≡ none
    → Settles s
        (guarded_effect cfg
          (process_block w (some cfg) block receipt)
          (seen_height (opened s) s.db)
          s.now
          s.db)
        (process_and_store w cfg block receipt s)
unfolding process_and_store process_and_store_internal
process_and_store-Settles w cfg block receipt s l t =
    in_batch-Settles (wrap "begin batch") (wrap "commit batch")
      (process_and_store_internal w cfg block receipt) s _ l t
      (process_result-Ends cfg (process_block w (some cfg) block receipt) (opened s) s.db refl)
