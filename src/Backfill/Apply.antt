-- ===== src/Backfill/Apply.antt =====
-- apply: one page of history in one batch.
use koinos_token_tracker.Base.{ℕ, List, [], ◌∷◌, is_empty, if◌then◌else◌}
use koinos_token_tracker.Base.Int.{ℤ}
use koinos_token_tracker.Base.Text.{Text, codes, text_eq}
use koinos_token_tracker.Decimal.{print}
use koinos_token_tracker.Indexer.Event.{int64, neg_int64}
use koinos_token_tracker.Store.Types.{Backfill}
use koinos_token_tracker.Store.Action.{Action, pure, ◌>>=◌, ◌>>◌}
use koinos_token_tracker.Store.Does.{for_each}
use koinos_token_tracker.Store.Batch.{in_batch}
use koinos_token_tracker.Store.Writes.{
  lower_first_seen, set_balance, insert_transfer, upsert_backfill,
}
use koinos_token_tracker.Store.Reads.{get_balance}
use koinos_token_tracker.Sync.Process.{adjusted}
use koinos_token_tracker.Backfill.{Op}

module _ (token : Text) where
  -- The closure `adjust`, which clamps like the live processor.
  unfoldable pub adjust : Text → ℤ → ℕ → Action (Unit {0})
  unfolding get_balance set_balance adjusted
  adjust addr delta height =
      if is_empty addr
      then pure tt
      else get_balance addr token >>= λ cur. set_balance addr token (adjusted cur delta) height

  unfoldable pub lower : Op → Text → Action (Unit {0})
  unfolding lower_first_seen
  lower op a = if is_empty a then pure tt else lower_first_seen a op.height op.timestamp

  -- The switch on the operation's type.
  unfoldable pub adjust_op : Op → Action (Unit {0})
  unfolding adjust
  adjust_op op =
      if text_eq op.event_type (codes "transfer")
      then (adjust op.sender (neg_int64 (int64 op.value)) op.height
          >> adjust op.receiver (int64 op.value) op.height)
      else if text_eq op.event_type (codes "mint")
      then adjust op.receiver (int64 op.value) op.height
      else if text_eq op.event_type (codes "burn")
      then adjust op.sender (neg_int64 (int64 op.value)) op.height
      else pure tt

  unfoldable pub apply_op : Op → Action (Unit {0})
  unfolding for_each lower adjust_op insert_transfer
  apply_op op = do
    for_each (lower op) (op.sender ∷ op.receiver ∷ [])
    adjust_op op
    insert_transfer op.height op.tx_id token op.sender op.receiver (print op.value) op.event_type
        op.timestamp

  -- The operations of a page, then the record of the progress.
  unfoldable pub apply_page : List Op → Backfill → Action (Unit {0})
  unfolding for_each apply_op upsert_backfill
  apply_page ops progress = for_each apply_op ops >> upsert_backfill progress

  unfoldable pub apply : List Op → Backfill → Action (Unit {0})
  unfolding in_batch apply_page
  apply ops progress = in_batch (λ e. e) (apply_page ops progress) (λ e. e)
