-- ===== src/Indexer/Block/Reverted.antt =====
-- Reverted transactions in ProcessBlock.
use koinos_token_tracker.Base.{
  ℕ, suc, ◌≡◌, refl, ap, ◌∙◌, Option, none, some, List, [], ◌∷◌, map, arith, if◌then◌else◌,
}
use koinos_token_tracker.Config.{TokenTrackerConfig}
use koinos_token_tracker.Wire.{Wire}
use koinos_token_tracker.Indexer.Types.{Transaction, Block, TransactionReceipt, BlockReceipt}
use koinos_token_tracker.Indexer.Event.{Found}
use koinos_token_tracker.Indexer.Block.{
  process_receipt, process_receipts, process_block_receipt, found_in, result_of,
}

-- A reverted transaction's receipt, emptied.
abbrev pub without_reverted : Option TransactionReceipt → Option TransactionReceipt
without_reverted none = none
without_reverted (some r) = if r.reverted then none else some r

abbrev pub drop_reverted : BlockReceipt → BlockReceipt
drop_reverted r = record r { transaction_receipts = map without_reverted r.transaction_receipts }

module _ (w : Wire) (cfg : TokenTrackerConfig) (txs : List (Option Transaction)) (height : ℕ) where
  process_receipt-without_reverted :
      (i : ℕ) (r : Option TransactionReceipt) (f : Found)
      → process_receipt w cfg txs height i (without_reverted r) f
        ≡ process_receipt w cfg txs height i r f
  unfolding process_receipt
  process_receipt-without_reverted i none f = refl
  process_receipt-without_reverted i (some r) f = ground arith

  process_receipts-without_reverted :
      (i : ℕ) (rs : List (Option TransactionReceipt)) (f : Found)
      → process_receipts w cfg txs height i (map without_reverted rs) f
        ≡ process_receipts w cfg txs height i rs f
  unfolding process_receipts
  process_receipts-without_reverted i [] f = refl
  process_receipts-without_reverted i (r ∷ rs) f =
      process_receipts-without_reverted (suc i) rs _
      ∙ ap (process_receipts w cfg txs height (suc i) rs) (process_receipt-without_reverted i r f)

-- The result of a block is the same, addresses and all, with the receipts of the reverted
-- transactions taken out.
pub result_of-drop_reverted :
    (w : Wire) (cfg : TokenTrackerConfig) (b : Block) (r : BlockReceipt)
    → result_of w cfg b (some (drop_reverted r)) ≡ result_of w cfg b (some r)
unfolding result_of found_in process_block_receipt
result_of-drop_reverted w cfg b r = rw process_receipts-without_reverted
