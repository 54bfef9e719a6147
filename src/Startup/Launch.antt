-- ===== src/Startup/Launch.antt =====
-- main from the open database to the historical sync.
pub mod Registered
pub mod Tracked
pub mod Repaired
pub mod Prepared
pub mod Waited
pub mod Complete
use koinos_token_tracker.Base.{ℕ, zero, suc, Bool, true, false, ◌||◌, Option, List, []}
use koinos_token_tracker.Base.Text.{Text, codes, text_eq}
use koinos_token_tracker.Config.{TokenTrackerConfig}
use koinos_token_tracker.Wire.{Wire}
use koinos_token_tracker.Store.Types.{Store}
use koinos_token_tracker.Store.Action.{Error, Result, ok, err, blocked, Action, pure, ◌>>=◌, ◌>>◌}
use koinos_token_tracker.Store.Writes.{upsert_token}
use koinos_token_tracker.Backfill.Decode.{Codecs}
use koinos_token_tracker.Backfill.Run.{RunError}
use koinos_token_tracker.Startup.{
  TokenInfo, register_tracked_tokens, load_extra_tokens, repair_backfilled_tx_ids,
}
use koinos_token_tracker.Startup.Replay.{
  ReplayEnd, all_replayed, stopped, interrupted, unlisted, never_returns, fuel_ended, World,
  run_backfills,
}

-- The flags that the start reads.
pub record Flags : Type 0 where
  pub track_tokens : List Text
  pub rest_url : Text
  pub fallback_url : Text

-- What the start meets outside: base58.Decode's answer on a contract's address, the REST node's on
-- a token, the nodes in each try of the replay, and whether the context is over after a failed try
-- and in the minute after it.
pub record Outside : Type 0 where
  pub is_contract_address : Text → Bool
  pub token_info : Text → Option TokenInfo
  pub world : ℕ → World
  pub is_over : ℕ → Bool
  pub is_over_waiting : ℕ → Bool

-- How the wait for the backfills ends. The last is for the fuel's end.
pub data Wait : Type 0 where
  replayed : Wait
  over : Wait
  hangs : Wait
  waits_on : Wait

-- How main comes to the historical sync, or ends before it: with an error and exit code 1, when the
-- context is over, or in a call that never returns.
pub data Entry : Type 0 where
  starts_sync : TokenTrackerConfig → Entry
  start_failed : Error → Entry
  shut_down : Entry
  start_hangs : Entry
  still_waiting : Entry

abbrev pub seed_tokens : TokenTrackerConfig → Action (Unit {0})
seed_tokens cfg =
    upsert_token cfg.koin_contract (codes "KOIN") 8 []
    >> upsert_token cfg.vhp_contract (codes "VHP") 8 []

module _ (w : Wire) (k : Codecs) (outside : Outside) (flags : Flags)
    (cfg : TokenTrackerConfig) where
  -- The seeds, the registration and the configuration that tracks the database's tokens.
  unfoldable pub prepare : Action TokenTrackerConfig
  unfolding upsert_token register_tracked_tokens load_extra_tokens
  prepare = do
    seed_tokens cfg
    register_tracked_tokens outside.is_contract_address outside.token_info cfg flags.track_tokens
    x ← load_extra_tokens cfg
    pure x.0

  abbrev pub retry : (Store → Wait × Store) → ℕ → Store → Wait × Store
  retry next n s = elim (outside.is_over n || outside.is_over_waiting n) [
    | true ↦ (over, s)
    | false ↦ next s
  ]

  abbrev pub after_try : (Store → Wait × Store) → ℕ → ReplayEnd × Store → Wait × Store
  after_try next n (all_replayed, s) = (replayed, s)
  after_try next n (stopped token seq e, s) = retry next n s
  after_try next n (interrupted, s) = retry next n s
  after_try next n (unlisted e, s) = retry next n s
  after_try next n (never_returns, s) = (hangs, s)
  after_try next n (fuel_ended, s) = (waits_on, s)

  -- The loop around runBackfills; `n` counts the tries, of which each replay has `rounds` of fuel.
  unfoldable pub wait_for_backfills : ℕ → ℕ → ℕ → Store → Wait × Store
  unfolding run_backfills
  wait_for_backfills rounds zero n s = (waits_on, s)
  wait_for_backfills rounds (suc fuel) n s = after_try (wait_for_backfills rounds fuel (suc n)) n (
      run_backfills w k (outside.world n) cfg.koin_contract flags.rest_url flags.fallback_url rounds
        s)

  abbrev pub after_wait : TokenTrackerConfig → Wait × Store → Entry × Store
  after_wait cfg' (replayed, s) = (starts_sync cfg', s)
  after_wait cfg' (over, s) = (shut_down, s)
  after_wait cfg' (hangs, s) = (start_hangs, s)
  after_wait cfg' (waits_on, s) = (still_waiting, s)

  abbrev pub after_prepare : ℕ → ℕ → Result TokenTrackerConfig × Store → Entry × Store
  after_prepare rounds fuel (ok cfg', s) =
      after_wait cfg' (wait_for_backfills rounds fuel 0 (repair_backfilled_tx_ids w s))
  after_prepare rounds fuel (err e, s) = (start_failed e, s)
  after_prepare rounds fuel (blocked, s) = (start_hangs, s)

  unfoldable pub launch : ℕ → ℕ → Store → Entry × Store
  unfolding prepare wait_for_backfills repair_backfilled_tx_ids
  launch rounds fuel s = after_prepare rounds fuel (prepare s)
