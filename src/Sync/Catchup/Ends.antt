-- ===== src/Sync/Catchup/Ends.antt =====
-- The invariant of the store around SyncToHead.
use koinos_token_tracker.Base.{
  ℕ, zero, suc, ◌≡◌, refl, false, Option, none, some, List, [], ◌∷◌, inl, inr, ltb, Bool-cases,
}
use koinos_token_tracker.Config.{TokenTrackerConfig}
use koinos_token_tracker.Wire.{Wire}
use koinos_token_tracker.Indexer.Block.{process_block}
use koinos_token_tracker.Store.Types.{Db, Store}
use koinos_token_tracker.Store.Action.{message, wrap, Result, ok, err, blocked}
use koinos_token_tracker.Store.Does.{Does-pure, Ends-context, Kept, Kept-then, for_each}
use koinos_token_tracker.Store.Batch.Lock.{Settles, opened, in_batch-Settles}
use koinos_token_tracker.Store.Reads.{get_sync_state}
use koinos_token_tracker.Sync.Process.{process_result, process_and_store_internal}
use koinos_token_tracker.Sync.Process.Effect.{guarded_effect, seen_height, process_result-Ends}
use koinos_token_tracker.Sync.Process.Ledger.{HasCanonicalBalances, guarded_effect-canonical}
use koinos_token_tracker.Sync.Catchup.{
  HeadInfo, BlockItem, Chain, Progress, count_of, Next, leave, go_on, process_items, on_items,
  sync_round, sync_loop, start_of, from_head, from_state, sync_to_head,
}

module _ (w : Wire) (cfg : TokenTrackerConfig) (chain : Chain) where
  process_items-Kept :
      (items : List BlockItem) (s : Store) (d : Db)
      → s.tx ≡ some d
      → HasCanonicalBalances d
      → Kept HasCanonicalBalances s (process_items w cfg chain items s)
  unfolding process_items for_each process_and_store_internal
  process_items-Kept [] s d e p = (d, p, (Does-pure tt).at s d e)
  process_items-Kept (i ∷ items) s d e p =
      let o = process_block w (some cfg) i.block i.receipt in
      let x = process_result cfg o s in
      let d' = guarded_effect cfg o (seen_height s d) s.now d in
      Kept-then HasCanonicalBalances (process_items w cfg chain items) s d' _ x.1
        (process_items-Kept items) (guarded_effect-canonical cfg o (seen_height s d) s.now d p)
        (Ends-context "process block at height" s tt d' x.0 x.1 (process_result-Ends cfg o s d e))

  -- No batch is open, the mutex is free, and the balances are decimal texts of natural numbers.
  abbrev pub IsIdle : Store → Type 0
  IsIdle s = (s.locked ≡ false) × (s.tx ≡ none) × HasCanonicalBalances s.db

  Settles-IsIdle :
      (s : Store) (d : Db) (r : Result (Unit {0})) (s' : Store)
      → HasCanonicalBalances s.db
      → HasCanonicalBalances d
      → Settles s d (r, s')
      → IsIdle s'
  Settles-IsIdle s d (ok _) s' h k x = (x.2, x.1, rw x.0 k)
  Settles-IsIdle s d (err e) s' h k x = (x.2, x.1, rw x.0 h)
  Settles-IsIdle s d blocked s' h k x = absurd x

  on_items-IsIdle :
      (p : Progress) (items : List BlockItem) (s : Store)
      → IsIdle s
      → IsIdle (on_items w cfg chain p items s).1
  unfolding on_items
  on_items-IsIdle p [] s h = h
  on_items-IsIdle p (i ∷ items) s h =
      let (d, k, e) = process_items-Kept (i ∷ items) (opened s) s.db refl h.2 in
      Settles-IsIdle s d _ _ h.2 k (
        in_batch-Settles (wrap "begin batch at height") (wrap "commit batch at height")
          (process_items w cfg chain (i ∷ items)) s d h.0 h.1 e)

  fetched-IsIdle :
      (p : Progress) (o : Option (List BlockItem)) (s : Store)
      → IsIdle s
      → IsIdle
          (elim o as (λ _. Next × Store) [
            | none ↦ (leave (err (message "fetch blocks at height")), s)
            | some items ↦ on_items w cfg chain p items s
          ]).1
  fetched-IsIdle p none s h = h
  fetched-IsIdle p (some items) s h = on_items-IsIdle p items s h

  sync_round-IsIdle : (p : Progress) (s : Store) → IsIdle s → IsIdle (sync_round w cfg chain p s).1
  unfolding sync_round
  sync_round-IsIdle p s h = elim (Bool-cases (ltb p.target_height p.current_height)) [
    | inl e ↦ rw e h
    | inr e ↦ elim (Bool-cases (chain.is_cancelled p.round)) [
      | inl c ↦ rw (e, c) h
      | inr c ↦
          rw (e, c)
            (fetched-IsIdle p
              (chain.get_blocks p.round p.head_block_id p.current_height (count_of p)) s h)
    ]
  ]

  after_round-IsIdle :
      (fuel : ℕ) (n : Next) (s : Store)
      → ((p : Progress) → IsIdle (sync_loop w cfg chain fuel p s).1)
      → IsIdle s
      → IsIdle
          (elim n as (λ _. Option (Result (Unit {0})) × Store) [
            | leave r ↦ (some r, s)
            | go_on p' ↦ sync_loop w cfg chain fuel p' s
          ]).1
  after_round-IsIdle fuel (leave r) s k h = h
  after_round-IsIdle fuel (go_on p) s k h = k p

  sync_loop-IsIdle :
      (fuel : ℕ) (p : Progress) (s : Store) → IsIdle s → IsIdle (sync_loop w cfg chain fuel p s).1
  unfolding sync_loop
  sync_loop-IsIdle zero p s h = h
  sync_loop-IsIdle (suc fuel) p s h =
      let i = sync_round-IsIdle p s h in
      after_round-IsIdle fuel (sync_round w cfg chain p s).0 (sync_round w cfg chain p s).1
        (λ p'. sync_loop-IsIdle fuel p' (sync_round w cfg chain p s).1 i) i

  from_head-IsIdle :
      (fuel last_height : ℕ) (o : Option HeadInfo) (s : Store)
      → IsIdle s
      → IsIdle (from_head w cfg chain fuel last_height o s).1
  from_head-IsIdle fuel last_height none s h = h
  from_head-IsIdle fuel last_height (some i) s h =
      sync_loop-IsIdle fuel (start_of w cfg chain last_height i) s h

  from_state-IsIdle :
      (fuel : ℕ) (r : Result (ℕ × List ℕ)) (s : Store)
      → IsIdle s
      → IsIdle (from_state w cfg chain fuel r s).1
  from_state-IsIdle fuel (ok r) s h = from_head-IsIdle fuel r.0 (chain.get_head_info 0) s h
  from_state-IsIdle fuel (err e) s h = h
  from_state-IsIdle fuel blocked s h = h

  -- However SyncToHead ends, and after any number of rounds, no batch is open, the mutex is free,
  -- and the balances are still decimal texts of natural numbers, if all that held before it.
  pub sync_to_head-IsIdle :
      (fuel : ℕ) (s : Store) → IsIdle s → IsIdle (sync_to_head w cfg chain fuel s).1
  unfolding sync_to_head get_sync_state
  sync_to_head-IsIdle fuel s h = from_state-IsIdle fuel (get_sync_state s).0 (get_sync_state s).1 h
