-- ===== src/Backfill/Changes.antt =====
-- The balances after the replay of an operation, as the balance changes that it stands for.
use koinos_token_tracker.Base.{
  ℕ, ◌≡◌, refl, ◌∙◌, inl, inr, true, List, [], ◌∷◌, ◌++◌, is_empty, Bool-cases, if◌then◌else◌,
}
use koinos_token_tracker.Base.Int.{ℤ}
use koinos_token_tracker.Base.Text.{Text, codes, text_eq}
use koinos_token_tracker.Indexer.Types.{BalanceChange}
use koinos_token_tracker.Indexer.Event.{int64, neg_int64, Context, change_of}
use koinos_token_tracker.Store.Types.{Db}
use koinos_token_tracker.Store.Does.{fold_each, fold_each-same}
use koinos_token_tracker.Store.Writes.{put_first_seen, put_balance, put_transfer}
use koinos_token_tracker.Store.Reads.{balance_of}
use koinos_token_tracker.Sync.Process.{adjusted}
use koinos_token_tracker.Sync.Process.Effect.{change_balance}
use koinos_token_tracker.Backfill.{Op}
use koinos_token_tracker.Backfill.Effect.{adjust_effect, lower_effect, adjust_op_effect, op_effect}

fold_each-append :
    {A : Type 0} (f : A → ℕ → Db → Db) (xs ys : List A) (now : ℕ) (d : Db)
    → fold_each f (xs ++ ys) now d ≡ fold_each f ys now (fold_each f xs now d)
unfolding fold_each
fold_each-append f [] ys now d = refl
fold_each-append f (x ∷ xs) ys now d = fold_each-append f xs ys now (f x now d)

put_balance-balances :
    (a t b : Text) (height : ℕ) (d d' : Db)
    → d.balances ≡ d'.balances
    → (put_balance a t b height d).balances ≡ (put_balance a t b height d').balances
unfolding put_balance
put_balance-balances a t b height d d' e = rw e

pub balance_of-balances :
    (a t : Text) (d d' : Db) → d.balances ≡ d'.balances → balance_of a t d ≡ balance_of a t d'
unfolding balance_of
balance_of-balances a t d d' e = rw e

change_balance-balances :
    (height now : ℕ) (c : BalanceChange) (d d' : Db)
    → d.balances ≡ d'.balances
    → (change_balance height c now d).balances ≡ (change_balance height c now d').balances
unfolding change_balance
change_balance-balances height now c d d' e = rw (balance_of-balances c.address c.token d d' e) (
    put_balance-balances c.address c.token (adjusted (balance_of c.address c.token d') c.delta)
      height d d' e)

module _ (token : Text) where
  -- The changes of balance that an operation stands for.
  unfoldable pub live_changes : Op → List BalanceChange
  unfolding change_of
  live_changes op =
      let x : Context = record { tx_id = op.tx_id; token = token; update_balance = true } in
      if text_eq op.event_type (codes "transfer")
      then change_of x op.sender (neg_int64 (int64 op.value))
        ++ change_of x op.receiver (int64 op.value)
      else if text_eq op.event_type (codes "mint")
      then change_of x op.receiver (int64 op.value)
      else if text_eq op.event_type (codes "burn")
      then change_of x op.sender (neg_int64 (int64 op.value))
      else []

  abbrev live_op : Op → ℕ → Db → Db
  live_op op = fold_each (change_balance op.height) (live_changes op)

  abbrev live : Op → Context
  live op = record { tx_id = op.tx_id; token = token; update_balance = true }

  adjust-live :
      (op : Op) (addr : Text) (delta : ℤ) (now : ℕ) (d d' : Db)
      → d.balances ≡ d'.balances
      → (adjust_effect token addr delta op.height now d).balances
        ≡ (fold_each (change_balance op.height) (change_of (live op) addr delta) now d').balances
  unfolding change_of fold_each
  adjust-live op addr delta now d d' e = elim (Bool-cases (is_empty addr)) [
    | inl h ↦ rw (h, fold_each) e
    | inr h ↦
        rw (h, fold_each)
          (unfold change_balance in
            rw (balance_of-balances addr token d d' e) (
              put_balance-balances addr token (adjusted (balance_of addr token d') delta) op.height
                d d' e))
  ]

  adjust_op-live :
      (op : Op) (now : ℕ) (d d' : Db)
      → d.balances ≡ d'.balances
      → (adjust_op_effect token op now d).balances ≡ (live_op op now d').balances
  unfolding live_changes fold_each
  adjust_op-live op now d d' e = elim (Bool-cases (text_eq op.event_type (codes "transfer"))) [
    | inl h ↦ rw h (
        rw (fold_each-append (change_balance op.height) _ _ now d') (
          adjust-live op op.receiver (int64 op.value) now _ _
            (adjust-live op op.sender (neg_int64 (int64 op.value)) now d d' e)))
    | inr h ↦ elim (Bool-cases (text_eq op.event_type (codes "mint"))) [
      | inl k ↦ rw (h, k) (adjust-live op op.receiver (int64 op.value) now d d' e)
      | inr k ↦ elim (Bool-cases (text_eq op.event_type (codes "burn"))) [
        | inl m ↦ rw (h, k, m) (adjust-live op op.sender (neg_int64 (int64 op.value)) now d d' e)
        | inr m ↦ rw (h, k, m, fold_each) e
      ]
    ]
  ]

  pub lower-balances :
      (op : Op) (a : Text) (now : ℕ) (d : Db)
      → (lower_effect token op a now d).balances ≡ d.balances
  lower-balances op a now d = elim (Bool-cases (is_empty a)) [
    | inl e ↦ rw e
    | inr e ↦ rw e (unfold put_first_seen in refl)
  ]

  pub op-live :
      (op : Op) (now : ℕ) (d d' : Db)
      → d.balances ≡ d'.balances
      → (op_effect token op now d).balances ≡ (live_op op now d').balances
  unfolding op_effect put_transfer
  op-live op now d d' e = adjust_op-live op now _ d' (
      fold_each-same (λ d. d.balances) (lower_effect token op) now
        (λ a d. lower-balances op a now d) (op.sender ∷ op.receiver ∷ []) d
      ∙ e)
