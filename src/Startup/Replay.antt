-- ===== src/Startup/Replay.antt =====
-- runBackfills and verifyBackfill.
pub mod Others
pub mod Checked
pub mod Keeps
pub mod Rounds
pub mod Complete
use koinos_token_tracker.Base.{ℕ, suc, Bool, true, false, Option, none, some, List, [], ◌∷◌}
use koinos_token_tracker.Base.Text.{Text}
use koinos_token_tracker.Wire.{Wire}
use koinos_token_tracker.Store.Types.{Backfill, Store}
use koinos_token_tracker.Store.Action.{Error, Result, ok, err, blocked}
use koinos_token_tracker.Store.Writes.{upsert_backfill}
use koinos_token_tracker.Store.Reads.{get_backfill, list_backfills}
use koinos_token_tracker.Backfill.Decode.{Codecs}
use koinos_token_tracker.Backfill.Client.{Net}
use koinos_token_tracker.Backfill.Run.{
  Ending, finished, failed, stuck, out_of_fuel, RunError, RunResult, run,
}
use koinos_token_tracker.Reconcile.Check.{
  Rpc, CheckResult, is_verified, CheckEnd, checked_all, check_token,
}

-- How runBackfills ends: without an error, with the error of a replay at a cursor, of the context,
-- or of the list of records; in a call that never returns; or at the end of a replay's fuel.
pub data ReplayEnd : Type 0 where
  all_replayed : ReplayEnd
  stopped : Text → ℕ → RunError → ReplayEnd
  interrupted : ReplayEnd
  unlisted : Error → ReplayEnd
  never_returns : ReplayEnd
  fuel_ended : ReplayEnd

abbrev pub checked_record : CheckResult → Backfill → Backfill
checked_record r bf = record bf {
  verified = is_verified r;
  mismatches = r.mismatches;
  failures = r.failures;
}

-- What the nodes answer, and whether the context is over, in the round of each record.
pub record World : Type 0 where
  pub net : ℕ → Net
  pub rpc : ℕ → Rpc

module _ (w : Wire) (k : Codecs) (world : World) where
  -- The record of the outcome; an error is only logged.
  abbrev pub record_check : CheckResult → Result (Option Backfill) × Store → Store
  record_check r (ok (some bf), s) = (upsert_backfill (checked_record r bf) s).1
  record_check r (ok none, s) = s
  record_check r (err e, s) = s
  record_check r (blocked, s) = s

  abbrev pub after_check : Text → CheckEnd × Store → Store
  after_check token (checked_all r, s) = record_check r (get_backfill token s)
  after_check token (CheckEnd.interrupted r, s) = s
  after_check token (CheckEnd.no_holders e, s) = s
  after_check token (CheckEnd.stuck, s) = s

  unfoldable pub verify_backfill : ℕ → Text → Store → Store
  unfolding check_token get_backfill upsert_backfill is_verified
  verify_backfill n token s = after_check token (check_token w (world.rpc n) token s)

  module _ (ref rest_url fallback_url : Text) (fuel : ℕ) where
    abbrev pub verify_unless : ℕ → Backfill → Store → Store
    verify_unless n bf s = elim bf.verified [ true ↦ s | false ↦ verify_backfill n bf.token s ]

    -- The rest of a round, by how Run ended.
    abbrev pub after_run :
        (Store → ReplayEnd × Store) → ℕ → Backfill → Ending × RunResult × Store → ReplayEnd × Store
    after_run next n bf (finished, r, s) = next (verify_unless n bf s)
    after_run next n bf (failed e, r, s) = (stopped bf.token r.last_seq e, s)
    after_run next n bf (stuck, r, s) = (never_returns, s)
    after_run next n bf (out_of_fuel, r, s) = (fuel_ended, s)

    abbrev pub replay_unless :
        Bool → (Store → ReplayEnd × Store) → ℕ → Backfill → Store → ReplayEnd × Store
    replay_unless true next n bf s = next (verify_unless n bf s)
    replay_unless false next n bf s =
        after_run next n bf (run (world.net n) w k bf.token ref fuel rest_url fallback_url s)

    -- The loop over the records; `n` counts the rounds.
    unfoldable pub replay : List Backfill → ℕ → Store → ReplayEnd × Store
    unfolding verify_backfill run
    replay [] n s = (all_replayed, s)
    replay (bf ∷ rest) n s = elim ((world.net n).is_cancelled 0) [
      | true ↦ (interrupted, s)
      | false ↦ replay_unless bf.done (replay rest (suc n)) n bf s
    ]

    abbrev pub replay_listed : Result (List Backfill) × Store → ReplayEnd × Store
    replay_listed (ok pending, s) = replay pending 0 s
    replay_listed (err e, s) = (unlisted e, s)
    replay_listed (blocked, s) = (never_returns, s)

    unfoldable pub run_backfills : Store → ReplayEnd × Store
    unfolding list_backfills replay
    run_backfills s = replay_listed (list_backfills s)
