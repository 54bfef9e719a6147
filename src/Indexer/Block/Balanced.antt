-- ===== src/Indexer/Block/Balanced.antt =====
-- The balance changes of a block against its transfer records (ProcessBlock).
use koinos_token_tracker.Base.{◌<◌, ◌≡◌, refl, ◌⊎◌, false, Option, is_empty}
use koinos_token_tracker.Base.Text.{Text, text_eq}
use koinos_token_tracker.Config.{TokenTrackerConfig}
use koinos_token_tracker.Wire.{Wire}
use koinos_token_tracker.Indexer.Types.{Block, BlockReceipt}
use koinos_token_tracker.Indexer.Event.Moves.{
  IsBalanced, net_changes, net_transfers, process_event-IsBalanced,
}
use koinos_token_tracker.Indexer.Block.{
  nothing_found, header_height, note_block, found_in, result_of,
}
use koinos_token_tracker.Indexer.Block.Induction.{process_block_receipt-keeps}

-- For every address, the changes that a block makes to its balance in a token add up to what the
-- block's transfer records of that token say it received, less what they say it sent. The token is
-- another than VHP, or the block is below the migration height (from there on events of the old VHP
-- contract leave records and no changes).
pub result_of-IsBalanced :
    (w : Wire) (cfg : TokenTrackerConfig) (b : Block) (receipt : Option BlockReceipt) (a t : Text)
    → is_empty a ≡ false
    → (header_height b.header < cfg.kcs4_migration_height) ⊎ (text_eq cfg.vhp_contract t ≡ false)
    → let r = result_of w cfg b receipt in
      net_changes a t r.balance_changes ≡ net_transfers a t r.transfers
unfolding result_of found_in
result_of-IsBalanced w cfg b receipt a t named below =
    process_block_receipt-keeps w cfg (header_height b.header) (IsBalanced a t)
      (λ ev tx_id f.
        process_event-IsBalanced w cfg a t ev tx_id (header_height b.header) f named below)
      b.transactions receipt (record nothing_found { addresses = note_block w b })
      (unfold net_changes net_transfers in refl)
