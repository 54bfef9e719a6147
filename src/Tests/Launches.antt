-- ===== src/Tests/Launches.antt =====
-- The theorems on the start of the program up to the historical sync, at concrete inputs.
use koinos_token_tracker.Base.{◌≡◌, refl, false, true, [], ◌∷◌, ◌<◌, none, inl, inr, arith}
use koinos_token_tracker.Base.Table.{find, upsert}
use koinos_token_tracker.Base.Text.{codes, text_eq}
use koinos_token_tracker.Store.Types.{Store}
use koinos_token_tracker.Store.Action.{ok}
use koinos_token_tracker.Backfill.Client.{new_client}
use koinos_token_tracker.Startup.{repair_backfilled_tx_ids}
use koinos_token_tracker.Startup.Launch.{Flags, Outside, starts_sync, prepare, launch}
use koinos_token_tracker.Startup.Launch.Waited.{HasHistory, failures, AllReplayed}
use koinos_token_tracker.Startup.Launch.Complete.{launch-IsComplete, launch-starts_sync}
use koinos_token_tracker.Tests.Toy.{toy}
use koinos_token_tracker.Tests.Blocks.{config}
use koinos_token_tracker.Tests.Backfills.{toy_codecs}
use koinos_token_tracker.Tests.Runs.{pending, tracked}
use koinos_token_tracker.Tests.Starts.{world}

abbrev flags : Flags
flags = record { track_tokens = codes " T" ∷ []; rest_url = codes "n/"; fallback_url = [] }

abbrev outside : Outside
outside = record {
  is_contract_address = λ a. true;
  token_info = λ a. none;
  world = λ n. world;
  is_over = λ n. false;
  is_over_waiting = λ n. false;
}

-- The list of the records fails once, and the second try replays the history.
abbrev troubled : Store
troubled = record tracked {
  faults = false ∷ false ∷ false ∷ false ∷ false ∷ false ∷ false ∷ false ∷ true ∷ [];
}

launched : (launch toy toy_codecs outside flags config 3 2 troubled).0 ≡ starts_sync config
unfolding launch new_client upsert find text_eq
launched = refl

launch-IsComplete_example :
    HasHistory (codes "T") (launch toy toy_codecs outside flags config 3 2 troubled).1.db
unfolding text_eq
launch-IsComplete_example =
    launch-IsComplete toy toy_codecs outside flags config 3 2 (codes "T") config troubled
      (refl, refl) (tt, tt) (inr (inl refl, refl)) launched

-- The history is replayed but not verified, and the list of the records fails once.
abbrev replayed_once : Store
replayed_once = record tracked {
  db = record tracked.db { backfills = record pending { done = true } ∷ [] };
  faults = false ∷ false ∷ false ∷ false ∷ true ∷ true ∷ [];
}

prepared : (prepare toy toy_codecs outside flags config replayed_once).0 ≡ ok config
unfolding prepare upsert find text_eq
prepared = refl

one_failure :
    failures
      (repair_backfilled_tx_ids toy
        (prepare toy toy_codecs outside flags config replayed_once).1).faults
    < 2
unfolding prepare repair_backfilled_tx_ids upsert find text_eq
one_failure = omega arith

all_done :
    AllReplayed toy toy_codecs outside flags config 3
      (prepare toy toy_codecs outside flags config replayed_once).1.db.backfills
unfolding prepare upsert find text_eq
all_done = (refl, tt)

launch-starts_sync_example :
    (launch toy toy_codecs outside flags config 3 2 replayed_once).0 ≡ starts_sync config
launch-starts_sync_example =
    launch-starts_sync toy toy_codecs outside flags config 3 2 config replayed_once (refl, refl)
      prepared all_done (λ n. refl, λ n m. refl) one_failure
