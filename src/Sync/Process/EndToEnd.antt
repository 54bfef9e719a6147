-- ===== src/Sync/Process/EndToEnd.antt =====
-- ProcessAndStore from the block to the balances in the tables.
use mathlib.Core.Path.{subst}
use koinos_token_tracker.Base.{
  ◌<◌, ◌≡◌, refl, sym, ◌∙◌, ap, ◌⊎◌, inl, inr, false, Option, none, some, [], ◌==◌, arith, is_empty,
}
use koinos_token_tracker.Base.Int.{◌+ℤ◌}
use koinos_token_tracker.Base.Text.{Text, text_eq}
use koinos_token_tracker.Config.{TokenTrackerConfig}
use koinos_token_tracker.Wire.{Wire}
use koinos_token_tracker.Indexer.Types.{Block, BlockReceipt}
use koinos_token_tracker.Indexer.Event.Moves.{net_transfers}
use koinos_token_tracker.Indexer.Block.{header_height, result_of, process_block}
use koinos_token_tracker.Indexer.Block.Balanced.{result_of-IsBalanced}
use koinos_token_tracker.Store.Types.{Db, Store}
use koinos_token_tracker.Store.Action.{Result, ok, err, blocked}
use koinos_token_tracker.Store.Batch.Lock.{Settles, opened}
use koinos_token_tracker.Sync.Process.{process_and_store}
use koinos_token_tracker.Sync.Process.Effect.{
  block_effect, guarded_effect, seen_height, process_and_store-Settles,
}
use koinos_token_tracker.Sync.Process.Ledger.{
  amount, Covers, amount-block_effect, HasCanonicalBalances, guarded_effect-canonical,
}

-- With no fault of the driver a batch is committed.
Settles-quiet :
    (s : Store) (d : Db) (r : Result (Unit {0})) (s' : Store)
    → s.faults ≡ []
    → Settles s d (r, s')
    → (r ≡ ok tt) × (s'.db ≡ d)
Settles-quiet s d (ok _) s' quiet h = (refl, h.0)
Settles-quiet s d (err e) s' quiet h = absurd (h.3 quiet)
Settles-quiet s d blocked s' quiet h = absurd h

Settles-canonical :
    (s : Store) (d : Db) (r : Result (Unit {0})) (s' : Store)
    → HasCanonicalBalances s.db
    → HasCanonicalBalances d
    → Settles s d (r, s')
    → HasCanonicalBalances s'.db
Settles-canonical s d (ok _) s' h k x = subst HasCanonicalBalances (sym x.0) k
Settles-canonical s d (err e) s' h k x = subst HasCanonicalBalances (sym x.0) h
Settles-canonical s d blocked s' h k x = absurd x

-- Begun outside a batch on tables whose balances are all decimal texts of natural numbers,
-- ProcessAndStore leaves such tables, whatever the block, the receipt and the driver's faults.
pub process_and_store-canonical :
    (w : Wire) (cfg : TokenTrackerConfig) (block : Option Block) (receipt : Option BlockReceipt)
    (s : Store)
    → s.locked ≡ false
    → s.tx ≡ none
    → HasCanonicalBalances s.db
    → HasCanonicalBalances (process_and_store w cfg block receipt s).1.db
process_and_store-canonical w cfg block receipt s l t h =
    let x = process_and_store w cfg block receipt s in
    Settles-canonical s _ x.0 x.1 h
      (guarded_effect-canonical cfg (process_block w (some cfg) block receipt)
        (seen_height (opened s) s.db) s.now s.db h)
      (process_and_store-Settles w cfg block receipt s l t)

module _ (w : Wire) (cfg : TokenTrackerConfig) (b : Block) (receipt : Option BlockReceipt)
    (s : Store) where
  effect-above :
      s.faults ≡ []
      → s.db.sync_state.last_height < header_height b.header
      → guarded_effect cfg
          (process_block w (some cfg) (some b) receipt)
          (seen_height (opened s) s.db)
          s.now
          s.db
        ≡ block_effect cfg (result_of w cfg b receipt) s.now s.db
  unfolding guarded_effect process_block result_of
  effect-above quiet above = ground arith

  apart-of_below :
      (t : Text)
      → (header_height b.header < cfg.kcs4_migration_height) ⊎ (text_eq cfg.vhp_contract t ≡ false)
      → (((result_of w cfg b receipt).height == cfg.kcs4_migration_height) ≡ false)
        ⊎ (text_eq cfg.vhp_contract t ≡ false)
  unfolding result_of
  apart-of_below t (inl h) = inl (ground arith)
  apart-of_below t (inr h) = inr h

-- With no fault of the driver, a block above the last height is processed without an error, and
-- then the balance of an address in a token is what it was, plus what the block's transfer records
-- of the token say the address received, less what they say it sent. This supposes that no change
-- on the way takes the balance below zero, and that the token is another than VHP or the block is
-- below the migration height.
pub process_and_store-ledger :
    (w : Wire) (cfg : TokenTrackerConfig) (b : Block) (receipt : Option BlockReceipt) (s : Store)
    (a t : Text)
    → s.locked ≡ false
    → s.tx ≡ none
    → s.faults ≡ []
    → s.db.sync_state.last_height < header_height b.header
    → is_empty a ≡ false
    → (header_height b.header < cfg.kcs4_migration_height) ⊎ (text_eq cfg.vhp_contract t ≡ false)
    → Covers a t (amount a t s.db) (result_of w cfg b receipt).balance_changes
    → let x = process_and_store w cfg (some b) receipt s in
      (x.0 ≡ ok tt)
      × (amount a t x.1.db
          ≡ amount a t s.db +ℤ net_transfers a t (result_of w cfg b receipt).transfers)
process_and_store-ledger w cfg b receipt s a t l t0 quiet above named below covers =
    let x = process_and_store w cfg (some b) receipt s in
    let done =
      Settles-quiet s _ x.0 x.1 quiet (process_and_store-Settles w cfg (some b) receipt s l t0) in
    (
      done.0,
      ap (amount a t) (done.1 ∙ effect-above w cfg b receipt s quiet above)
          ∙ (amount-block_effect a t cfg (result_of w cfg b receipt) s.now s.db
                (apart-of_below w cfg b receipt s t below) covers
              ∙ ap (λ v. amount a t s.db +ℤ v)
                  (result_of-IsBalanced w cfg b receipt a t named below)),
    )
