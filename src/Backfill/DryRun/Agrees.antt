-- ===== src/Backfill/DryRun/Agrees.antt =====
-- The dry run's map against the balances that apply stores.
use koinos_token_tracker.Base.{
  ℕ, ◌≡◌, refl, sym, ◌∙◌, ap, inl, inr, false, none, List, [], ◌∷◌, is_empty, Bool-cases,
}
use koinos_token_tracker.Base.Int.{ℤ, ◌+ℤ◌}
use koinos_token_tracker.Base.Text.{Text, codes, text_eq, text_eq_refl}
use koinos_token_tracker.Decimal.{set_string}
use koinos_token_tracker.Decimal.RoundTrip.{set_string-format_int}
use koinos_token_tracker.Indexer.Event.{int64, neg_int64}
use koinos_token_tracker.Store.Types.{Backfill, Db, Store}
use koinos_token_tracker.Store.Action.{Result, ok, err, blocked}
use koinos_token_tracker.Store.Batch.Lock.{Settles}
use koinos_token_tracker.Store.Does.{fold_each, fold_each-same}
use koinos_token_tracker.Store.Writes.{put_transfer, put_backfill}
use koinos_token_tracker.Store.Reads.{balance_of}
use koinos_token_tracker.Store.Reads.Balances.{balance_of-put_balance}
use koinos_token_tracker.Sync.Process.{adjusted, big_or_zero, clamp}
use koinos_token_tracker.Sync.Process.Ledger.{amount}
use koinos_token_tracker.Backfill.{Op}
use koinos_token_tracker.Backfill.Apply.{apply}
use koinos_token_tracker.Backfill.Effect.{
  adjust_effect, adjust_op_effect, lower_effect, op_effect, page_effect, apply-Settles,
}
use koinos_token_tracker.Backfill.Changes.{balance_of-balances, lower-balances}
use koinos_token_tracker.Backfill.DryRun.{Holdings, add, add_op, add_page}

-- The map and the table give every address the same number of the token.
abbrev pub Agrees : Text → Holdings → Db → Type 0
Agrees token b d = (a : Text) → big_or_zero (b a) ≡ amount a token d

module _ (token : Text) where
  amount-adjusted :
      (addr : Text) (delta : ℤ) (d : Db)
      → big_or_zero (set_string (adjusted (balance_of addr token d) delta))
        ≡ clamp (amount addr token d +ℤ delta)
  unfolding adjusted
  amount-adjusted addr delta d =
      ap big_or_zero (set_string-format_int (clamp (amount addr token d +ℤ delta)))

  add-Agrees :
      (addr : Text) (delta : ℤ) (height now : ℕ) (b : Holdings) (d : Db)
      → Agrees token b d
      → Agrees token (add addr delta b) (adjust_effect token addr delta height now d)
  unfolding add
  add-Agrees addr delta height now b d same a = elim (Bool-cases (is_empty addr)) [
    | inl e ↦ rw e (same a)
    | inr e ↦ elim (Bool-cases (text_eq addr a)) [
      | inl h ↦
          rw
            (
              e,
              h,
              balance_of-put_balance addr token (adjusted (balance_of addr token d) delta) height d
                  a token,
              h,
              text_eq_refl token,
            )
            (rw (amount-adjusted addr delta d, same addr) refl)
      | inr h ↦
          rw
            (
              e,
              h,
              balance_of-put_balance addr token (adjusted (balance_of addr token d) delta) height d
                  a token,
              h,
            )
            (same a)
    ]
  ]

  add_op-Agrees :
      (op : Op) (now : ℕ) (b : Holdings) (d : Db)
      → Agrees token b d
      → Agrees token (add_op op b) (adjust_op_effect token op now d)
  unfolding add_op
  add_op-Agrees op now b d same = elim (Bool-cases (text_eq op.event_type (codes "transfer"))) [
    | inl h ↦ rw h (
        add-Agrees op.receiver (int64 op.value) op.height now _ _
          (add-Agrees op.sender (neg_int64 (int64 op.value)) op.height now b d same))
    | inr h ↦ elim (Bool-cases (text_eq op.event_type (codes "mint"))) [
      | inl k ↦ rw (h, k) (add-Agrees op.receiver (int64 op.value) op.height now b d same)
      | inr k ↦ elim (Bool-cases (text_eq op.event_type (codes "burn"))) [
        | inl m ↦
            rw (h, k, m) (add-Agrees op.sender (neg_int64 (int64 op.value)) op.height now b d same)
        | inr m ↦ rw (h, k, m) same
      ]
    ]
  ]

  -- Agreement looks at the balances only.
  Agrees-balances :
      (b : Holdings) (d d' : Db) → d'.balances ≡ d.balances → Agrees token b d → Agrees token b d'
  Agrees-balances b d d' e same a =
      same a ∙ ap (λ t. big_or_zero (set_string t)) (sym (balance_of-balances a token d' d e))

  op-Agrees :
      (op : Op) (now : ℕ) (b : Holdings) (d : Db)
      → Agrees token b d
      → Agrees token (add_op op b) (op_effect token op now d)
  unfolding op_effect put_transfer
  op-Agrees op now b d same =
      let lowered = fold_each (lower_effect token op) (op.sender ∷ op.receiver ∷ []) now d in
      Agrees-balances (add_op op b) (adjust_op_effect token op now lowered) _ refl (
        add_op-Agrees op now b lowered (
          Agrees-balances b d lowered
            (fold_each-same (λ d. d.balances) (lower_effect token op) now
              (λ a d. lower-balances token op a now d) (op.sender ∷ op.receiver ∷ []) d)
            same))

  ops-Agrees :
      (ops : List Op) (now : ℕ) (b : Holdings) (d : Db)
      → Agrees token b d
      → Agrees token (add_page ops b) (fold_each (op_effect token) ops now d)
  unfolding add_page fold_each
  ops-Agrees [] now b d same = same
  ops-Agrees (op ∷ ops) now b d same =
      ops-Agrees ops now (add_op op b) (op_effect token op now d) (op-Agrees op now b d same)

  page-Agrees :
      (ops : List Op) (progress : Backfill) (now : ℕ) (b : Holdings) (d : Db)
      → Agrees token b d
      → Agrees token (add_page ops b) (page_effect token ops progress now d)
  unfolding page_effect put_backfill
  page-Agrees ops progress now b d same =
      Agrees-balances (add_page ops b) (fold_each (op_effect token) ops now d) _ refl
        (ops-Agrees ops now b d same)

  -- The map goes with a page that was applied, and stays with one that was not.
  abbrev pub KeepsUp : List Op → Holdings → Result (Unit {0}) × Store → Type 0
  KeepsUp ops b (ok _, s) = Agrees token (add_page ops b) s.db
  KeepsUp ops b (err e, s) = Agrees token b s.db
  KeepsUp ops b (blocked, s) = ⊥

  settled-KeepsUp :
      (ops : List Op) (progress : Backfill) (b : Holdings) (s : Store) (r : Result (Unit {0}))
      (s' : Store)
      → Agrees token b s.db
      → Settles s (page_effect token ops progress s.now s.db) (r, s')
      → KeepsUp ops b (r, s')
  settled-KeepsUp ops progress b s (ok _) s' same h =
      Agrees-balances (add_page ops b) _ s'.db (ap (λ d. d.balances) h.0)
        (page-Agrees ops progress s.now b s.db same)
  settled-KeepsUp ops progress b s (err e) s' same h =
      Agrees-balances b s.db s'.db (ap (λ d. d.balances) h.0) same
  settled-KeepsUp ops progress b s blocked s' same h = h

  -- What the dry run computes is what the backfill stores. Let the dry run's map give every address
  -- the number that the balances give it in the token, outside a batch. If `apply` then commits a
  -- page, the map and the balances agree again after the dry run's steps on that page; if it
  -- returns an error, the map before the page still agrees with the balances.
  pub apply-KeepsUp :
      (ops : List Op) (progress : Backfill) (b : Holdings) (s : Store)
      → s.locked ≡ false
      → s.tx ≡ none
      → Agrees token b s.db
      → KeepsUp ops b (apply token ops progress s)
  apply-KeepsUp ops progress b s l t same =
      settled-KeepsUp ops progress b s (apply token ops progress s).0 (apply token ops progress s).1
        same (apply-Settles token ops progress s l t)
