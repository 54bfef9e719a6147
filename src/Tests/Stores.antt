-- ===== src/Tests/Stores.antt =====
-- The theorems on the store, the processing of blocks and the catch-up, at concrete inputs.
use koinos_token_tracker.Base.{
  ℕ, ◌≤◌, ◌≡◌, ◌≢◌, refl, inl, true, false, none, some, [], ◌∷◌, arith, if◌then◌else◌, ◌==◌,
}
use koinos_token_tracker.Base.Int.{◌+ℤ◌}
use koinos_token_tracker.Base.Text.{codes, text_eq, contains, has_prefix}
use koinos_token_tracker.Base.TextSet.{member, add}
use koinos_token_tracker.Base.Iterate.{iterate}
use koinos_token_tracker.Base.Table.{find}
use koinos_token_tracker.Config.{is_extra}
use koinos_token_tracker.Decimal.{print, set_string}
use koinos_token_tracker.Indexer.Event.Moves.{net_transfers}
use koinos_token_tracker.Indexer.Block.{
  result_of, process_block, found_in, note_block, note_transactions, note_changes, process_events,
  process_receipt, process_receipts, process_block_receipt, tx_id_at,
}
use koinos_token_tracker.Indexer.Tokens.{normalize_token, is_token_event, affects_balance}
use koinos_token_tracker.Indexer.Parse.{
  encode_addr, transfer_field, party_field, transfer_round, party_round, parse_transfer_event,
  parse_burn_event,
}
use koinos_token_tracker.Indexer.Event.{
  note_address, process_event, dispatch, names_event, note_impacted, add_transfer, add_burn,
  change_of, is_unusable,
}
use koinos_token_tracker.Store.Types.{Db, Store, empty_db}
use koinos_token_tracker.Store.Action.{ok, err, blocked, message}
use koinos_token_tracker.Store.Batch.{begin_batch, commit_batch, rollback_batch, close}
use koinos_token_tracker.Store.Batch.Lock.{IsLocked, Settles, opened, batch_calls-IsLocked}
use koinos_token_tracker.Store.Reads.{balance_of}
use koinos_token_tracker.Sync.Process.{process_and_store}
use koinos_token_tracker.Sync.Process.Effect.{
  guarded_effect, seen_height, process_and_store-Settles,
}
use koinos_token_tracker.Sync.Process.Ledger.{amount, Covers, HasCanonicalBalances}
use koinos_token_tracker.Sync.Process.EndToEnd.{
  process_and_store-canonical, process_and_store-ledger,
}
use koinos_token_tracker.Sync.Catchup.{HeadInfo, Chain, sync_to_head, target_of}
use koinos_token_tracker.Sync.Catchup.Ends.{IsIdle, sync_to_head-IsIdle}
use koinos_token_tracker.Sync.Catchup.Total.{sync_to_head-some}
use koinos_token_tracker.Tests.Toy.{toy}
use koinos_token_tracker.Tests.Blocks.{alice, koin, config, block, receipt}

-- Alice holds 40 KOIN, and the driver's first calls succeed, the third one fails.
abbrev pub funded : Db
funded = record empty_db {
  balances =
      record {
        address = codes "alice";
        token = codes "K";
        balance = codes "40";
        updated_height = 1;
      }
      ∷ [];
}

abbrev pub store : Store
store = record {
  db = funded;
  tx = none;
  locked = false;
  koin_contract = codes "K";
  vhp_contract = codes "V";
  faults = [];
  now = 1000;
}

abbrev pub faulty : Store
faulty = record store { faults = false ∷ false ∷ true ∷ [] }

funded-canonical : HasCanonicalBalances funded
unfolding print
funded-canonical = ((40, refl), tt)

process_and_store-Settles_example :
    Settles faulty
      (guarded_effect config
        (process_block toy (some config) (some block) (some receipt))
        (seen_height (opened faulty) faulty.db)
        faulty.now
        faulty.db)
      (process_and_store toy config (some block) (some receipt) faulty)
process_and_store-Settles_example =
    process_and_store-Settles toy config (some block) (some receipt) faulty refl refl

process_and_store-canonical_example :
    HasCanonicalBalances (process_and_store toy config (some block) (some receipt) faulty).1.db
process_and_store-canonical_example =
    process_and_store-canonical toy config (some block) (some receipt) faulty refl refl
      funded-canonical

Covers-paid :
    Covers alice koin
      (amount alice koin funded)
      (result_of toy config block (some receipt)).balance_changes
unfolding net_transfers result_of found_in note_block note_transactions note_address note_changes
    process_events process_receipt process_receipts process_block_receipt tx_id_at process_event
    dispatch names_event contains has_prefix text_eq is_token_event affects_balance normalize_token
    is_extra member add note_impacted add_transfer add_burn change_of is_unusable encode_addr
    parse_transfer_event parse_burn_event transfer_round transfer_field party_round party_field
    iterate ◌+ℤ◌ balance_of set_string find
Covers-paid = (omega arith, (omega arith, (omega arith, tt)))

process_and_store-ledger_example :
    let x = process_and_store toy config (some block) (some receipt) store in
    (x.0 ≡ ok tt)
    × (amount alice koin x.1.db
        ≡ amount alice koin funded
          +ℤ net_transfers alice koin (result_of toy config block (some receipt)).transfers)
process_and_store-ledger_example =
    process_and_store-ledger toy config block (some receipt) store alice koin refl refl refl
      (omega arith) refl (inl (omega arith)) Covers-paid

batch_calls-IsLocked_example :
    IsLocked (begin_batch faulty).1
    × IsLocked (commit_batch faulty).1
    × IsLocked (rollback_batch faulty).1
    × IsLocked (close faulty).1
    × ((d : Db) → faulty.tx ≡ some d → begin_batch faulty ≡ (blocked, faulty))
    × ((begin_batch faulty).0 ≢ err (message "batch already in progress"))
batch_calls-IsLocked_example = batch_calls-IsLocked faulty refl

-- A chain whose head is at 1500, of which the block store knows the block above.
abbrev pub chain : Chain
chain = record {
  get_head_info = λ n. some (record { height = 1600; block_id = []; lib = 1500 });
  get_blocks = λ n head from count.
      some (if n == 1 then record { block = some block; receipt = some receipt } ∷ [] else []);
  is_cancelled = λ n. false;
}

sync_to_head-IsIdle_example : IsIdle toy config chain (sync_to_head toy config chain 3 store).1
sync_to_head-IsIdle_example =
    sync_to_head-IsIdle toy config chain 3 store (refl, refl, funded-canonical)

chain-bounded : (n : ℕ) (i : HeadInfo) → chain.get_head_info n ≡ some i → target_of i ≤ 1500
unfolding target_of
chain-bounded n i e = ground arith

sync_to_head-some_example : (sync_to_head toy config chain 3 store).0 ≢ none
sync_to_head-some_example =
    sync_to_head-some toy config chain 1500 2 store chain-bounded (omega arith) (omega arith)
