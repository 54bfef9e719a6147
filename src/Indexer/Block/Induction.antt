-- ===== src/Indexer/Block/Induction.antt =====
-- What every event keeps holds of what a whole receipt leaves.
use koinos_token_tracker.Base.{ℕ, suc, Option, none, some, List, [], ◌∷◌, inl, inr, Bool-cases}
use koinos_token_tracker.Base.Text.{Text}
use koinos_token_tracker.Config.{TokenTrackerConfig}
use koinos_token_tracker.Wire.{Wire}
use koinos_token_tracker.Indexer.Types.{Transaction, EventData, TransactionReceipt, BlockReceipt}
use koinos_token_tracker.Indexer.Event.{Found, process_event}
use koinos_token_tracker.Indexer.Block.{
  process_events, tx_id_at, process_receipt, process_receipts, process_block_receipt,
}

module _ {ℓ} (w : Wire) (cfg : TokenTrackerConfig) (height : ℕ) (P : Found → Type ℓ)
    (keep : (ev : Option EventData) (tx_id : Text) (f : Found)
      → P f
      → P (process_event w cfg ev tx_id height f)) where
  process_events-keeps :
      (tx_id : Text) (evs : List (Option EventData)) (f : Found)
      → P f
      → P (process_events w cfg tx_id height evs f)
  unfolding process_events
  process_events-keeps tx_id [] f h = h
  process_events-keeps tx_id (ev ∷ evs) f h =
      process_events-keeps tx_id evs (process_event w cfg ev tx_id height f) (keep ev tx_id f h)

  process_receipt-keeps :
      (txs : List (Option Transaction)) (i : ℕ) (r : Option TransactionReceipt) (f : Found)
      → P f
      → P (process_receipt w cfg txs height i r f)
  unfolding process_receipt
  process_receipt-keeps txs i none f h = h
  process_receipt-keeps txs i (some r) f h = elim (Bool-cases r.reverted) [
    | inl e ↦ rw e h
    | inr e ↦ rw e (process_events-keeps (tx_id_at w txs i) r.events f h)
  ]

  process_receipts-keeps :
      (txs : List (Option Transaction)) (i : ℕ) (rs : List (Option TransactionReceipt)) (f : Found)
      → P f
      → P (process_receipts w cfg txs height i rs f)
  unfolding process_receipts
  process_receipts-keeps txs i [] f h = h
  process_receipts-keeps txs i (r ∷ rs) f h =
      process_receipts-keeps txs (suc i) rs (process_receipt w cfg txs height i r f)
        (process_receipt-keeps txs i r f h)

  pub process_block_receipt-keeps :
      (txs : List (Option Transaction)) (r : Option BlockReceipt) (f : Found)
      → P f
      → P (process_block_receipt w cfg txs height r f)
  unfolding process_block_receipt
  process_block_receipt-keeps txs none f h = h
  process_block_receipt-keeps txs (some r) f h =
      process_receipts-keeps txs 0 r.transaction_receipts _ (process_events-keeps [] r.events f h)
