-- ===== src/Backfill/Live.antt =====
-- apply of internal/backfill against the live processor's balance changes.
use koinos_token_tracker.Base.{
  ℕ, ◌≡◌, refl, sym, ap, ◌∙◌, ◌⊎◌, inl, inr, true, false, none, some, List, [], ◌∷◌, All, map,
  is_empty, arith,
}
use koinos_token_tracker.Base.Text.{Text, codes, text_eq}
use koinos_token_tracker.Wire.{Wire}
use koinos_token_tracker.Config.{TokenTrackerConfig, is_extra}
use koinos_token_tracker.Indexer.Types.{EventData}
use koinos_token_tracker.Indexer.Tokens.{is_token_event, affects_balance, normalize_token}
use koinos_token_tracker.Indexer.Parse.{
  encode_addr, parse_transfer_event, parse_mint_event, parse_burn_event,
}
use koinos_token_tracker.Indexer.Event.{
  Found, Context, is_unusable, add_transfer, add_mint, add_burn, names_event, dispatch,
  process_event,
}
use koinos_token_tracker.Indexer.Block.{nothing_found}
use koinos_token_tracker.Store.Types.{Backfill, Db, Store}
use koinos_token_tracker.Store.Action.{Action, Result, ok, err, blocked, wrap}
use koinos_token_tracker.Store.Batch.{in_batch}
use koinos_token_tracker.Store.Batch.Lock.{Settles, opened, in_batch-Settles}
use koinos_token_tracker.Store.Does.{Does, Does-for_each, for_each, fold_each}
use koinos_token_tracker.Store.Writes.{put_backfill}
use koinos_token_tracker.Sync.Process.{apply_change}
use koinos_token_tracker.Sync.Process.Effect.{change_balance, Does-apply_change}
use koinos_token_tracker.Backfill.{Op}
use koinos_token_tracker.Backfill.Apply.{apply}
use koinos_token_tracker.Store.Producers.Answered.{calm}
use koinos_token_tracker.Backfill.Effect.{op_effect, page_effect, apply-Settles}
use koinos_token_tracker.Backfill.Changes.{live_changes, op-live}

module _ (w : Wire) (cfg : TokenTrackerConfig) (token : Text) where
  -- The configuration tracks the token, which is none of the two old contracts.
  abbrev pub IsTracked : Type 0
  IsTracked =
      (is_empty token ≡ false)
      × (is_extra cfg token ≡ true)
      × (text_eq token cfg.old_koin_contract ≡ false)
      × (text_eq token cfg.old_vhp_contract ≡ false)

  abbrev pub IsTransfer : Op → EventData → Type 0
  IsTransfer op ev =
      (op.event_type ≡ codes "transfer")
      × (names_event ev.name (codes "transfer_event") ≡ true)
      × (encode_addr w (parse_transfer_event w ev.payload).sender ≡ op.sender)
      × (encode_addr w (parse_transfer_event w ev.payload).receiver ≡ op.receiver)
      × ((parse_transfer_event w ev.payload).value ≡ op.value)

  abbrev pub IsMint : Op → EventData → Type 0
  IsMint op ev =
      (op.event_type ≡ codes "mint")
      × (names_event ev.name (codes "transfer_event") ≡ false)
      × (names_event ev.name (codes "mint_event") ≡ true)
      × (encode_addr w (parse_mint_event w ev.payload).party ≡ op.receiver)
      × ((parse_mint_event w ev.payload).value ≡ op.value)

  abbrev pub IsBurn : Op → EventData → Type 0
  IsBurn op ev =
      (op.event_type ≡ codes "burn")
      × (names_event ev.name (codes "transfer_event") ≡ false)
      × (names_event ev.name (codes "mint_event") ≡ false)
      × (names_event ev.name (codes "burn_event") ≡ true)
      × (encode_addr w (parse_burn_event w ev.payload).party ≡ op.sender)
      × ((parse_burn_event w ev.payload).value ≡ op.value)

  -- The block's event is the token's and reads as the operation, whose amount is usable.
  abbrev pub Tells : Op → EventData → Type 0
  Tells op ev =
      (encode_addr w ev.source ≡ token)
      × (is_unusable op.value ≡ false)
      × (IsTransfer op ev ⊎ (IsMint op ev ⊎ IsBurn op ev))

  -- What the live indexer does to the balances for the event in a block of the operation's height.
  abbrev pub live_event : Op × EventData → Action (Unit {0})
  live_event (op, ev) =
      for_each (apply_change op.height)
        (process_event w cfg (some ev) op.tx_id op.height nothing_found).changes

  abbrev live_context : Op → Context
  live_context op = record { tx_id = op.tx_id; token = token; update_balance = true }

  dispatch-changes :
      (op : Op) (ev : EventData) (f : Found)
      → f.changes ≡ []
      → Tells op ev
      → (dispatch w (live_context op) ev f).changes ≡ live_changes token op
  unfolding dispatch live_changes add_transfer add_mint add_burn text_eq
  dispatch-changes op ev f e (source, usable, inl (kind, named, sender, receiver, value)) =
      rw (kind, named, sender, receiver, value, usable, e) refl
  dispatch-changes op ev f e (source, usable, inr (inl (kind, other, named, receiver, value))) =
      rw (kind, other, named, receiver, value, usable, e) refl
  dispatch-changes op ev f e
        (source, usable, inr (inr (kind, other, another, named, sender, value))) =
      rw (kind, other, another, named, sender, value, usable, e) refl

  tracked-context :
      (height : ℕ)
      → IsTracked
      → (is_token_event cfg token ≡ true)
        × (normalize_token cfg token ≡ token)
        × (affects_balance cfg token height ≡ true)
  unfolding is_token_event normalize_token affects_balance
  tracked-context height (full, extra, not_koin, not_vhp) =
      (ground (arith, full, extra), rw (not_koin, not_vhp) refl, ground (arith, extra, not_vhp))

  process_event-changes :
      (op : Op) (ev : EventData)
      → IsTracked
      → Tells op ev
      → (process_event w cfg (some ev) op.tx_id op.height nothing_found).changes
        ≡ live_changes token op
  unfolding process_event
  process_event-changes op ev tracked told =
      let (own, same, moves) = tracked-context op.height tracked in
      rw (told.0, own, same, moves) (dispatch-changes op ev _ refl told)

  abbrev live_effect : Op × EventData → ℕ → Db → Db
  live_effect (op, ev) =
      fold_each (change_balance op.height)
        (process_event w cfg (some ev) op.tx_id op.height nothing_found).changes

  -- The events one after another, in a batch.
  abbrev pub live_events : List (Op × EventData) → Action (Unit {0})
  live_events ps = in_batch (wrap "begin batch") (for_each live_event ps) (wrap "commit batch")

  live_events-Settles :
      (ps : List (Op × EventData)) (s : Store)
      → s.locked ≡ false
      → s.tx ≡ none
      → Settles s (fold_each live_effect ps s.now s.db) (live_events ps s)
  live_events-Settles ps s l t =
      let each : (p : Op × EventData) → Does (λ _ _. tt) (live_effect p) (live_event p) =
        λ p. Does-for_each (Does-apply_change p.0.height) _ in
      in_batch-Settles (wrap "begin batch") (wrap "commit batch") (for_each live_event ps) s _ l t
        ((Does-for_each each ps).at (opened s) s.db refl)

  live_effect-balances :
      (p : Op × EventData) (now : ℕ) (d d' : Db)
      → IsTracked
      → Tells p.0 p.1
      → d.balances ≡ d'.balances
      → (op_effect token p.0 now d).balances ≡ (live_effect p now d').balances
  live_effect-balances p now d d' tracked told e =
      rw (process_event-changes p.0 p.1 tracked told) (op-live token p.0 now d d' e)

  ops-live :
      (ps : List (Op × EventData)) (now : ℕ) (d d' : Db)
      → IsTracked
      → All (λ p. Tells p.0 p.1) ps
      → d.balances ≡ d'.balances
      → (fold_each (op_effect token) (map (λ p. p.0) ps) now d).balances
        ≡ (fold_each live_effect ps now d').balances
  unfolding fold_each
  ops-live [] now d d' tracked told e = e
  ops-live (p ∷ ps) now d d' tracked told e =
      ops-live ps now (op_effect token p.0 now d) (live_effect p now d') tracked told.1
        (live_effect-balances p now d d' tracked told.0 e)

  page-live :
      (ps : List (Op × EventData)) (progress : Backfill) (now : ℕ) (d : Db)
      → IsTracked
      → All (λ p. Tells p.0 p.1) ps
      → (page_effect token (map (λ p. p.0) ps) progress now d).balances
        ≡ (fold_each live_effect ps now d).balances
  unfolding page_effect put_backfill
  page-live ps progress now d tracked told = ops-live ps now d d tracked told refl

  settled :
      (s : Store) (d : Db) (x : Result (Unit {0}) × Store)
      → Settles s d x
      → x.0 ≡ ok tt
      → x.1.db ≡ d
  settled s d (ok _, s') h e = h.0
  settled s d (err z, s') h e = cc
  settled s d (blocked, s') h e = absurd h

  succeeds :
      (s : Store) (d : Db) (x : Result (Unit {0}) × Store)
      → Settles s d x
      → s.faults ≡ []
      → x.0 ≡ ok tt
  succeeds s d (ok _, s') h e = refl
  succeeds s d (err z, s') h e = absurd (h.3 e)
  succeeds s d (blocked, s') h e = absurd h

  -- Replaying history gives the balances of live indexing. Let a page hold the operations of some
  -- events of a tracked token, as the live indexer's parsers read them, with usable amounts. If
  -- `apply`, begun outside a batch, commits the page, then the balances are the ones that
  -- processEvent and the balance changes of ProcessAndStore leave for the same events from the same
  -- tables, one event after another at its height. Where the driver does not fail both return.
  pub apply-live :
      (ps : List (Op × EventData)) (progress : Backfill) (s : Store)
      → IsTracked
      → All (λ p. Tells p.0 p.1) ps
      → s.locked ≡ false
      → s.tx ≡ none
      → ((apply token (map (λ p. p.0) ps) progress s).0 ≡ ok tt
          → (apply token (map (λ p. p.0) ps) progress s).1.db.balances
            ≡ (live_events ps (calm s)).1.db.balances)
        × ((apply token (map (λ p. p.0) ps) progress (calm s)).0 ≡ ok tt)
        × ((live_events ps (calm s)).0 ≡ ok tt)
  apply-live ps progress s tracked told l t =
      let replayed = apply-Settles token (map (λ p. p.0) ps) progress s l t in
      let seen = live_events-Settles ps (calm s) l t in
      let returned = succeeds (calm s) _ _ seen refl in
      (
        λ e.
            ap (λ d. d.balances) (settled s _ _ replayed e)
            ∙ page-live ps progress s.now s.db tracked told
            ∙ sym (ap (λ d. d.balances) (settled (calm s) _ _ seen returned)),
        succeeds (calm s) _ _ (apply-Settles token (map (λ p. p.0) ps) progress (calm s) l t) refl,
        returned,
      )
