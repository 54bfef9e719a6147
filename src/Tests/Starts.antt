-- ===== src/Tests/Starts.antt =====
-- The theorems on the start of the program, at concrete inputs.
use koinos_token_tracker.Base.{◌≡◌, refl, some, [], ◌∷◌, All}
use koinos_token_tracker.Base.Table.{find}
use koinos_token_tracker.Base.Text.{codes, text_eq}
use koinos_token_tracker.Backfill.Client.{new_client}
use koinos_token_tracker.Backfill.Run.Cursor.{record_in}
use koinos_token_tracker.Startup.Replay.{all_replayed, World, run_backfills}
use koinos_token_tracker.Startup.Replay.Checked.{IsDone}
use koinos_token_tracker.Startup.Replay.Complete.{run_backfills-IsDone}
use koinos_token_tracker.Tests.Toy.{toy}
use koinos_token_tracker.Tests.Backfills.{toy_codecs}
use koinos_token_tracker.Tests.Runs.{net, pending, tracked}
use koinos_token_tracker.Tests.Chain.{rpc}

abbrev pub world : World
world = record { net = λ n. net; rpc = λ n. rpc }

tracked-keyed : All (λ bf. record_in bf.token tracked.db ≡ some bf) tracked.db.backfills
unfolding find text_eq
tracked-keyed = (refl, tt)

replayed :
    (run_backfills toy toy_codecs world (codes "K") (codes "n/") [] 3 tracked).0 ≡ all_replayed
unfolding run_backfills new_client
replayed = refl

run_backfills-IsDone_example :
    All
      (IsDone (run_backfills toy toy_codecs world (codes "K") (codes "n/") [] 3 tracked).1.db)
      (pending ∷ [])
run_backfills-IsDone_example =
    run_backfills-IsDone toy toy_codecs world (codes "K") (codes "n/") [] 3 tracked (refl, refl)
      tracked-keyed replayed
