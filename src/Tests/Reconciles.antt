-- ===== src/Tests/Reconciles.antt =====
-- The theorems on the reconciliation, at concrete inputs.
use koinos_token_tracker.Base.{ℕ, ◌+◌, ◌*◌, ◌≤◌, ◌≡◌, refl, [], ◌∷◌, none, some, All, length, arith}
use koinos_token_tracker.Base.Text.{Text, codes, text_eq, has_prefix}
use koinos_token_tracker.Store.Types.{Store}
use koinos_token_tracker.Store.Action.{ok}
use koinos_token_tracker.Store.Reads.{get_addresses, get_sync_state}
use koinos_token_tracker.Sync.Process.{last_height_or_zero}
use koinos_token_tracker.Base.Sort.{sort}
use koinos_token_tracker.Reconcile.Amount.{decimal_to_satoshis}
use koinos_token_tracker.Reconcile.Fetch.{
  Reply, answered, fetch_balance, fetch_balance_with_retry, attempts,
}
use koinos_token_tracker.Reconcile.Run.{
  Going, started, BalanceUpdate, feeding, closed, receiving, read_page, received, finished, flushed,
  flush, reads, closes, sends, takes, answers, receives, finishes, Reach, here, next, verdict,
}
use koinos_token_tracker.Reconcile.Run.Flushed.{Stems}
use koinos_token_tracker.Reconcile.Run.Reconciled.{IsReconciled}
use koinos_token_tracker.Reconcile.Run.Returned.{run-IsReconciled, run-Stems}
use koinos_token_tracker.Reconcile.Run.Moves.{CanMove, run-CanMove}
use koinos_token_tracker.Reconcile.Run.Bound.{moves, run-ends}
use koinos_token_tracker.Tests.Stores.{funded, store}

-- Alice has half a VHP, which no event told of.
abbrev known : Store
known = record store {
  db = record funded {
    addresses = record { address = codes "alice"; first_seen_height = 1; first_seen_time = 1 } ∷ [];
  };
}

abbrev replies : Text → ℕ → Reply
replies a n = answered 200 (some (codes "1.5"))

abbrev vhp : Text
vhp = codes "V"

abbrev g0 : Going
g0 = record {
  total = 1;
  last_height = 0;
  feeder = feeding;
  offset = 0;
  pending = [];
  work = [];
  in_hand = [];
  channel = [];
  buf = [];
  writer = receiving;
  store = known;
  checked = 0;
  fetch_errors = 0;
  written = 0;
}

starts : started known ≡ ok g0
unfolding started get_addresses get_sync_state last_height_or_zero sort
starts = refl

abbrev read : Going
read = read_page g0

abbrev answer : BalanceUpdate
answer = record { address = codes "alice"; token = vhp; balance = codes "150000000" }

-- The page is sent, taken and answered, and the answer waits in the writer's buffer.
abbrev buffered : Going
buffered = received answer (record read { pending = []; checked = 1 })

reaches_buffered : Reach replies vhp g0 buffered
unfolding read_page get_addresses sort fetch_balance_with_retry fetch_balance attempts
    decimal_to_satoshis received text_eq has_prefix
reaches_buffered =
    next
      (next
        (next
          (next (next here (reads refl refl (omega arith)))
            (sends (codes "alice") [] refl (omega arith)))
          (takes (codes "alice") [] refl (omega arith)))
        (answers [] (codes "alice") [] (codes "150000000") refl refl (omega arith)))
      (receives answer [] refl refl)

abbrev done : Going
done = finished (record buffered { feeder = closed })

reaches_done : Reach replies vhp g0 done
unfolding read_page get_addresses sort received
reaches_done =
    next (next reaches_buffered (closes refl refl (omega arith)))
      (finishes refl refl refl refl refl)

returned : verdict done ≡ some (ok tt)
unfolding read_page get_addresses sort received finished flushed flush
returned = refl

run-IsReconciled_example :
    All (λ r. IsReconciled replies vhp known.db done.store.db r.address) known.db.addresses
run-IsReconciled_example =
    run-IsReconciled replies vhp known g0 done (refl, refl) starts reaches_done returned

run-Stems_example : Stems replies vhp known.db done.store.db (codes "alice") vhp
run-Stems_example =
    run-Stems replies vhp known g0 done (codes "alice") vhp (refl, refl) starts reaches_done

waits : verdict buffered ≡ none
unfolding read_page get_addresses sort received
waits = refl

run-CanMove_example : CanMove replies vhp known.db buffered
run-CanMove_example =
    run-CanMove replies vhp known g0 buffered (refl, refl) starts reaches_buffered waits

run-ends_example : moves replies vhp known.db reaches_done ≤ 6 * length known.db.addresses + 2
run-ends_example = run-ends replies vhp known g0 done (refl, refl) starts reaches_done
