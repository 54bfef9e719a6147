-- ===== src/Sync/Catchup/Total.antt =====
-- The termination of SyncToHead's loop.
use koinos_token_tracker.Base.{
  ℕ, zero, suc, ◌+◌, ◌*◌, ◌^◌, ◌≤◌, ◌<◌, ◌≡◌, ◌≢◌, refl, Option, none, some, List, [], ◌∷◌, arith,
  inl, inr, ltb, Bool-cases, Option-cases,
}
use koinos_token_tracker.Config.{TokenTrackerConfig}
use koinos_token_tracker.Wire.{Wire}
use koinos_token_tracker.Store.Types.{Store}
use koinos_token_tracker.Store.Action.{message, wrap, Result, ok, err, blocked}
use koinos_token_tracker.Store.Batch.{in_batch}
use koinos_token_tracker.Store.Reads.{get_sync_state}
use koinos_token_tracker.Sync.Catchup.{
  HeadInfo, BlockItem, Chain, Progress, target_of, advance, count_of, Next, leave, go_on,
  process_items, refresh, on_empty, after_batch, on_items, sync_round, sync_loop, start_of,
  from_head, from_state, sync_to_head,
}

further :
    {top : ℕ} (h h' fuel : ℕ)
    → top + 1000 < 2 ^ 64
    → h ≤ top
    → h' ≡ advance h
    → top < h + 1000 * suc fuel
    → top < h' + 1000 * fuel
further h h' fuel fits le eq enough = omega arith

module _ (w : Wire) (cfg : TokenTrackerConfig) (chain : Chain) (top : ℕ) where
  -- If the loop goes on after the round at `p`, it goes on a batch further, and not above `top`.
  abbrev Advances : Progress → Next → Type 0
  Advances p (leave r) = Unit {0}
  Advances p (go_on p') = (p'.current_height ≡ advance p.current_height) × (p'.target_height ≤ top)

  module _
      (bounded : (n : ℕ) (i : HeadInfo) → chain.get_head_info n ≡ some i → target_of i ≤ top) where
    refresh-Advances : (p : Progress) → Advances p (refresh w cfg chain p)
    unfolding refresh
    refresh-Advances p = elim (Option-cases (chain.get_head_info p.round)) [
      | inl e ↦ rw (e, Advances) tt
      | inr (i, e) ↦ elim (Bool-cases (ltb (target_of i) p.current_height)) [
        | inl c ↦ rw (e, c, Advances) tt
        | inr c ↦ rw (e, c, Advances) (refl, bounded p.round i e)
      ]
    ]

    on_empty-Advances : (p : Progress) → p.target_height ≤ top → Advances p (on_empty w cfg chain p)
    unfolding on_empty
    on_empty-Advances p h = elim (Bool-cases (ltb 5 (p.empty_retries + 1))) [
      | inl c ↦ rw (c, Advances) (refresh-Advances p)
      | inr c ↦ rw (c, Advances) (refl, h)
    ]

    after_batch-Advances :
        (p : Progress) (r : Result (Unit {0}))
        → p.target_height ≤ top
        → Advances p (after_batch w cfg chain p r)
    after_batch-Advances p (ok _) h = (refl, h)
    after_batch-Advances p (err e) h = tt
    after_batch-Advances p blocked h = tt

    fetched-Advances :
        (p : Progress) (o : Option (List BlockItem)) (s : Store)
        → p.target_height ≤ top
        → Advances p
            (elim o as (λ _. Next × Store) [
              | none ↦ (leave (err (message "fetch blocks at height")), s)
              | some items ↦ on_items w cfg chain p items s
            ]).0
    unfolding on_items
    fetched-Advances p none s h = tt
    fetched-Advances p (some []) s h = on_empty-Advances p h
    fetched-Advances p (some (i ∷ items)) s h =
        after_batch-Advances p
          (in_batch (wrap "begin batch at height") (process_items w cfg chain (i ∷ items))
            (wrap "commit batch at height") s).0
          h

    -- The loop goes on only from a height within its target.
    abbrev Goes : Progress → Next → Type 0
    Goes p (leave r) = Unit {0}
    Goes p (go_on p') =
        (p.current_height ≤ p.target_height)
        × (p'.current_height ≡ advance p.current_height)
        × (p'.target_height ≤ top)

    Advances-Goes :
        (p : Progress) (n : Next) → p.current_height ≤ p.target_height → Advances p n → Goes p n
    Advances-Goes p (leave r) le a = tt
    Advances-Goes p (go_on p') le a = (le, a.0, a.1)

    sync_round-Goes :
        (p : Progress) (s : Store) → p.target_height ≤ top → Goes p (sync_round w cfg chain p s).0
    unfolding sync_round
    sync_round-Goes p s h = elim (Bool-cases (ltb p.target_height p.current_height)) [
      | inl e ↦ rw (e, Goes) tt
      | inr e ↦ elim (Bool-cases (chain.is_cancelled p.round)) [
        | inl c ↦ rw (e, c, Goes) tt
        | inr c ↦
            rw (e, c)
              (Advances-Goes p _ (ground arith) (
                fetched-Advances p
                  (chain.get_blocks p.round p.head_block_id p.current_height (count_of p)) s h))
      ]
    ]

    after_round-some :
        (fuel : ℕ) (p : Progress) (n : Next) (s : Store)
        → Goes p n
        → ((p' : Progress)
            → p.current_height ≤ p.target_height
            → p'.current_height ≡ advance p.current_height
            → p'.target_height ≤ top
            → (sync_loop w cfg chain fuel p' s).0 ≢ none)
        → (elim n as (λ _. Option (Result (Unit {0})) × Store) [
          | leave r ↦ (some r, s)
          | go_on p' ↦ sync_loop w cfg chain fuel p' s
        ]).0
          ≢ none
    after_round-some fuel p (leave r) s a k = λ e. cc
    after_round-some fuel p (go_on p') s a k = k p' a.0 a.1 a.2

    sync_loop-some :
        top + 1000 < 2 ^ 64
        → (fuel : ℕ) (p : Progress) (s : Store) → p.target_height ≤ top
        → top < p.current_height + 1000 * fuel
        → (sync_loop w cfg chain (suc fuel) p s).0 ≢ none
    unfolding sync_loop
    sync_loop-some fits zero p s h enough =
        after_round-some zero p (sync_round w cfg chain p s).0 (sync_round w cfg chain p s).1
          (sync_round-Goes p s h) (λ p' le eq h'. absurd (omega arith))
    sync_loop-some fits (suc fuel) p s h enough =
        after_round-some (suc fuel) p (sync_round w cfg chain p s).0 (sync_round w cfg chain p s).1
          (sync_round-Goes p s h)
          (λ p' le eq h'.
            sync_loop-some fits fuel p' (sync_round w cfg chain p s).1 h'
              (further p.current_height p'.current_height fuel fits (omega arith) eq enough))

    from_head-some :
        (fuel last_height : ℕ) (o : Option HeadInfo) (s : Store)
        → top + 1000 < 2 ^ 64
        → top < 1000 * fuel
        → ((i : HeadInfo) → o ≡ some i → target_of i ≤ top)
        → (from_head w cfg chain (suc fuel) last_height o s).0 ≢ none
    from_head-some fuel last_height none s fits enough h = λ e. cc
    from_head-some fuel last_height (some i) s fits enough h =
        sync_loop-some fits fuel (start_of w cfg chain last_height i) s (h i refl) (omega arith)

    from_state-some :
        (fuel : ℕ) (r : Result (ℕ × List ℕ)) (s : Store)
        → top + 1000 < 2 ^ 64
        → top < 1000 * fuel
        → (from_state w cfg chain (suc fuel) r s).0 ≢ none
    from_state-some fuel (ok r) s fits enough =
        from_head-some fuel r.0 (chain.get_head_info 0) s fits enough (bounded 0)
    from_state-some fuel (err e) s fits enough = λ e. cc
    from_state-some fuel blocked s fits enough = λ e. cc

-- SyncToHead returns within a round for every 1000 heights up to the highest target that the head
-- information ever names, and one more, as long as heights stay a batch below 2 ^ 64.
pub sync_to_head-some :
    (w : Wire) (cfg : TokenTrackerConfig) (chain : Chain) (top fuel : ℕ) (s : Store)
    → ((n : ℕ) (i : HeadInfo) → chain.get_head_info n ≡ some i → target_of i ≤ top)
    → top + 1000 < 2 ^ 64
    → top < 1000 * fuel
    → (sync_to_head w cfg chain (suc fuel) s).0 ≢ none
unfolding sync_to_head
sync_to_head-some w cfg chain top fuel s bounded fits enough =
    from_state-some w cfg chain top bounded fuel (get_sync_state s).0 (get_sync_state s).1 fits
      enough
