-- ===== src/Startup/Launch/Prepared.antt =====
-- The records before the wait for the backfills.
use mathlib.Core.Path.{subst}
use koinos_token_tracker.Base.{◌≡◌, refl, sym, List, [], ◌∷◌, All}
use koinos_token_tracker.Base.Text.{Text, codes}
use koinos_token_tracker.Config.{TokenTrackerConfig}
use koinos_token_tracker.Wire.{Wire}
use koinos_token_tracker.Store.Types.{Backfill, Store}
use koinos_token_tracker.Store.Action.{ok, Action, pure, continue, ◌>>=◌}
use koinos_token_tracker.Store.Does.{for_each}
use koinos_token_tracker.Store.Records.{put_record, Has, put_record-Has}
use koinos_token_tracker.Store.Writes.{upsert_token}
use koinos_token_tracker.Backfill.Decode.{Codecs}
use koinos_token_tracker.Startup.{
  trim_space, register_token, register_tracked_tokens, load_extra_tokens,
}
use koinos_token_tracker.Startup.Replay.Checked.{IsFree}
use koinos_token_tracker.Startup.Replay.Keeps.{IsKept}
use koinos_token_tracker.Startup.Launch.{Flags, Outside, seed_tokens, prepare}
use koinos_token_tracker.Startup.Launch.Registered.{
  continue-ok, continue-IsKept, IsRegistered, upsert_token-IsKept, register_tracked-IsKept,
  load_extra_tokens-IsKept,
}
use koinos_token_tracker.Startup.Launch.Tracked.{Anything, register_tracked-IsRegistered}

module _ (w : Wire) (k : Codecs) (outside : Outside) (flags : Flags)
    (cfg : TokenTrackerConfig) where
  open outside use {is_contract_address, token_info}

  abbrev register_all : Action (Unit {0})
  register_all = for_each (register_token is_contract_address token_info cfg) flags.track_tokens

  abbrev load_config : Action TokenTrackerConfig
  load_config = load_extra_tokens cfg >>= λ x. pure x.0

  module _ (P : List Backfill → Type 0)
      (keep : (b : Backfill) (rows : List Backfill) → P rows → P (put_record b rows)) where
    seed-IsKept : (s : Store) → IsKept P keep s → IsKept P keep (seed_tokens cfg s).1
    seed-IsKept s h =
        continue-IsKept is_contract_address token_info cfg P keep
          (upsert_token cfg.koin_contract (codes "KOIN") 8 [] s).0
          (λ _. upsert_token cfg.vhp_contract (codes "VHP") 8 []) _
          (upsert_token-IsKept is_contract_address token_info cfg P keep cfg.koin_contract
            (codes "KOIN") 8 s h)
          (λ _ s.
            upsert_token-IsKept is_contract_address token_info cfg P keep cfg.vhp_contract
              (codes "VHP") 8 s)

    load-IsKept : (s : Store) → IsKept P keep s → IsKept P keep (load_config s).1
    load-IsKept s h =
        continue-IsKept is_contract_address token_info cfg P keep (load_extra_tokens cfg s).0
          (λ x. pure x.0) _ (load_extra_tokens-IsKept is_contract_address token_info cfg P keep s h)
          (λ _ s h. h)

    pub prepare-IsKept :
        (s : Store) → IsKept P keep s → IsKept P keep (prepare w k outside flags cfg s).1
    unfolding prepare register_tracked_tokens
    prepare-IsKept s h =
        continue-IsKept is_contract_address token_info cfg P keep (seed_tokens cfg s).0 _ _
          (seed-IsKept s h)
          λ _ s h.
            continue-IsKept is_contract_address token_info cfg P keep (register_all s).0
              (λ _. load_config) _
              (register_tracked-IsKept is_contract_address token_info cfg P keep flags.track_tokens
                s h)
              (λ _ s. load-IsKept s)

  -- The two steps before the configuration.
  prepare-steps :
      (s : Store) (cfg' : TokenTrackerConfig)
      → (prepare w k outside flags cfg s).0 ≡ ok cfg'
      → let s₁ = (seed_tokens cfg s).1 in
        ((register_all s₁).0 ≡ ok tt)
        × (prepare w k outside flags cfg s ≡ load_config (register_all s₁).1)
  unfolding prepare register_tracked_tokens
  prepare-steps s cfg' e =
      let (u, seeded, rest) =
        continue-ok (seed_tokens cfg s).0 (λ _. register_all >>= λ _. load_config)
          (seed_tokens cfg s).1 cfg' e in
      let s₁ = (seed_tokens cfg s).1 in
      let (v, registered, loaded) =
        continue-ok (register_all s₁).0 (λ _. load_config) (register_all s₁).1 cfg' rest in
      (registered, rw (seeded, continue) (rw (registered, continue) refl))

  All-kept :
      (s s' : Store) (given : List Text)
      → ((a : Text) → Has a s.db.backfills → Has a s'.db.backfills)
      → All (IsRegistered is_contract_address token_info cfg s.db) given
      → All (IsRegistered is_contract_address token_info cfg s'.db) given
  All-kept s s' [] keep h = tt
  All-kept s s' (g ∷ rest) keep h = (λ x. keep (trim_space g) (h.0 x), All-kept s s' rest keep h.1)

  pub prepare-IsRegistered :
      (s : Store) (cfg' : TokenTrackerConfig)
      → IsFree s
      → (prepare w k outside flags cfg s).0 ≡ ok cfg'
      → All
          (IsRegistered is_contract_address token_info cfg (prepare w k outside flags cfg s).1.db)
          flags.track_tokens
  prepare-IsRegistered s cfg' free e =
      let s₁ = (seed_tokens cfg s).1 in
      let s₂ = (register_all s₁).1 in
      let free₁ = (seed-IsKept Anything (λ b rows h. tt) s (free, tt)).0 in
      let free₂ =
        (register_tracked-IsKept is_contract_address token_info cfg Anything (λ b rows h. tt)
          flags.track_tokens s₁ (free₁, tt)).0 in
      let steps = prepare-steps s cfg' e in
      subst (λ x. All (IsRegistered is_contract_address token_info cfg x.1.db) flags.track_tokens)
        (sym steps.1)
        (All-kept s₂ (load_config s₂).1 flags.track_tokens
          (λ a h. (load-IsKept (Has a) (put_record-Has a) s₂ (free₂, h)).1)
          (register_tracked-IsRegistered is_contract_address token_info cfg flags.track_tokens s₁
            free₁ steps.0))
