-- ===== src/Backfill/Effect.antt =====
-- What a page of history does to the tables, as one function of them, and apply against it.
use koinos_token_tracker.Base.{ℕ, ◌≡◌, refl, false, none, List, [], ◌∷◌, is_empty, if◌then◌else◌}
use koinos_token_tracker.Base.Int.{ℤ}
use koinos_token_tracker.Base.Text.{Text, codes, text_eq}
use koinos_token_tracker.Decimal.{print}
use koinos_token_tracker.Indexer.Event.{int64, neg_int64}
use koinos_token_tracker.Store.Types.{Backfill, Db, Store}
use koinos_token_tracker.Store.Does.{
  Does, Does-pure, Does-context, Does-query, Does-bind, Does-for_each, Does-if, fold_each,
}
use koinos_token_tracker.Store.Batch.Lock.{Settles, opened, in_batch-Settles}
use koinos_token_tracker.Store.Writes.{put_first_seen, put_balance, put_backfill, put_transfer}
use koinos_token_tracker.Store.Writes.Changes.{
  Does-lower_first_seen, Does-set_balance, Does-insert_transfer, Does-upsert_backfill,
}
use koinos_token_tracker.Store.Reads.{balance_of, get_balance}
use koinos_token_tracker.Sync.Process.{adjusted}
use koinos_token_tracker.Backfill.{Op}
use koinos_token_tracker.Backfill.Apply.{adjust, lower, adjust_op, apply_op, apply_page, apply}

module _ (token : Text) where
  abbrev pub adjust_effect : Text → ℤ → ℕ → ℕ → Db → Db
  adjust_effect addr delta height now d =
      if is_empty addr
      then d
      else put_balance addr token (adjusted (balance_of addr token d) delta) height d

  abbrev pub lower_effect : Op → Text → ℕ → Db → Db
  lower_effect op a now d = if is_empty a then d else put_first_seen a op.height op.timestamp d

  abbrev pub adjust_op_effect : Op → ℕ → Db → Db
  adjust_op_effect op now d =
      if text_eq op.event_type (codes "transfer")
      then adjust_effect op.receiver (int64 op.value) op.height now
          (adjust_effect op.sender (neg_int64 (int64 op.value)) op.height now d)
      else if text_eq op.event_type (codes "mint")
      then adjust_effect op.receiver (int64 op.value) op.height now d
      else if text_eq op.event_type (codes "burn")
      then adjust_effect op.sender (neg_int64 (int64 op.value)) op.height now d
      else d

  unfoldable pub op_effect : Op → ℕ → Db → Db
  op_effect op now d =
      put_transfer op.height op.tx_id token op.sender op.receiver (print op.value) op.event_type
        op.timestamp
        (adjust_op_effect op now (fold_each (lower_effect op) (op.sender ∷ op.receiver ∷ []) now d))

  -- A page's operations, and its progress record with the time of the write.
  unfoldable pub page_effect : List Op → Backfill → ℕ → Db → Db
  unfolding op_effect
  page_effect ops progress now d =
      put_backfill (record progress { updated_at = now }) (fold_each op_effect ops now d)

  Does-adjust :
      (addr : Text) (delta : ℤ) (height : ℕ)
      → Does (λ _ _. tt) (adjust_effect addr delta height) (adjust token addr delta height)
  unfolding adjust get_balance
  Does-adjust addr delta height = Does-if (is_empty addr) (Does-pure tt) (
      Does-bind (Does-context "get balance" (Does-query (balance_of addr token)))
        (λ cur. Does-set_balance addr token (adjusted cur delta) height))

  Does-adjust_op : (op : Op) → Does (λ _ _. tt) (adjust_op_effect op) (adjust_op token op)
  unfolding adjust_op
  Does-adjust_op op =
      Does-if (text_eq op.event_type (codes "transfer"))
        (Does-bind (Does-adjust op.sender (neg_int64 (int64 op.value)) op.height)
          (λ _. Does-adjust op.receiver (int64 op.value) op.height))
        (Does-if (text_eq op.event_type (codes "mint"))
          (Does-adjust op.receiver (int64 op.value) op.height)
          (Does-if (text_eq op.event_type (codes "burn"))
            (Does-adjust op.sender (neg_int64 (int64 op.value)) op.height) (Does-pure tt)))

  Does-lower : (op : Op) (a : Text) → Does (λ _ _. tt) (lower_effect op a) (lower token op a)
  unfolding lower
  Does-lower op a =
      Does-if (is_empty a) (Does-pure tt) (Does-lower_first_seen a op.height op.timestamp)

  Does-apply_op : (op : Op) → Does (λ _ _. tt) (op_effect op) (apply_op token op)
  unfolding apply_op op_effect
  Does-apply_op op = Does-bind (Does-for_each (Does-lower op) (op.sender ∷ op.receiver ∷ [])) λ _.
      Does-bind (Does-adjust_op op) λ _.
        Does-insert_transfer op.height op.tx_id token op.sender op.receiver (print op.value)
          op.event_type op.timestamp

  Does-apply_page :
      (ops : List Op) (progress : Backfill)
      → Does (λ _ _. tt) (page_effect ops progress) (apply_page token ops progress)
  unfolding apply_page page_effect
  Does-apply_page ops progress =
      Does-bind (Does-for_each Does-apply_op ops) (λ _. Does-upsert_backfill progress)

  -- A page of history is applied with its progress record or not at all: begun outside a batch,
  -- `apply` either returns with both written, or returns an error with the tables as they were. It
  -- leaves no batch open and the mutex free either way, never waits, and fails only if the driver
  -- does.
  pub apply-Settles :
      (ops : List Op) (progress : Backfill) (s : Store)
      → s.locked ≡ false
      → s.tx ≡ none
      → Settles s (page_effect ops progress s.now s.db) (apply token ops progress s)
  unfolding apply
  apply-Settles ops progress s l t =
      in_batch-Settles (λ e. e) (λ e. e) (apply_page token ops progress) s _ l t
        ((Does-apply_page ops progress).at (opened s) s.db refl)
