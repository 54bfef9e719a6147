-- ===== src/Tests/Runs.antt =====
-- The theorems on the client and the replay of a whole history, at concrete inputs.
use koinos_token_tracker.Base.{
  ℕ, ◌≡◌, ◌≢◌, ◌≤◌, refl, true, none, some, List, [], ◌∷◌, if◌then◌else◌, leb, arith,
}
use koinos_token_tracker.Base.Text.{Bytes, Text, codes, text_eq}
use koinos_token_tracker.Store.Types.{Backfill, Store}
use koinos_token_tracker.Base.Table.{find}
use koinos_token_tracker.Store.Action.{ok, query}
use koinos_token_tracker.Store.Reads.{get_backfill}
use koinos_token_tracker.Backfill.Client.{
  new_client, HistoryEntry, BlockResponse, answered, Net, Client, block_of,
}
use koinos_token_tracker.Backfill.Client.Anchored.{IsAnchored, Ends}
use koinos_token_tracker.Backfill.Client.Canonical.{
  ContainedIn, IsCanonicalOf, block_of-IsCanonical,
}
use koinos_token_tracker.Backfill.Run.{run, out_of_fuel, finished}
use koinos_token_tracker.Backfill.Run.Complete.{LastPage, run-LastPage}
use koinos_token_tracker.Backfill.Run.Cursor.{LeavesRecord, run-LeavesRecord}
use koinos_token_tracker.Backfill.Run.Deadline.{run-Returns}
use koinos_token_tracker.Tests.Toy.{toy}
use koinos_token_tracker.Tests.Stores.{store, funded}
use koinos_token_tracker.Tests.Backfills.{toy_codecs, minted, progress}

-- Node "n", whose history of "T" has a block at height 12 with a mint and a transaction in block "b"
-- at height 31; a transaction is in the blocks "f" and "b", of which the node names "B" at 31. The
-- bodies stand for what they decode to: 1 a page, 2 a transaction, 3 block "f", 4 block "b".
abbrev body : Text → Bytes
body url =
    if text_eq url
      (codes "n/v1/account/T/history?ascending=true&irreversible=true&limit=100&sequence_number=4")
    then b'[' ∷ []
    else if text_eq url (codes "n/v1/transaction/t?return_receipt=false")
    then 2 ∷ []
    else if text_eq url (codes "n/v1/block/f")
    then 3 ∷ []
    else 4 ∷ []

abbrev pub entry : HistoryEntry
entry = record {
  seq_num = codes "4";
  trx = none;
  block = some (record { height = codes "12"; timestamp = codes "77"; events = minted ∷ [] });
}

abbrev entry' : HistoryEntry
entry' = record {
  seq_num = codes "5";
  trx = some (record { id = codes "t"; events = minted ∷ [] });
  block = none;
}

abbrev fork : BlockResponse
fork = record { block_id = codes "f"; block_height = codes "31"; timestamp = codes "90" }

abbrev main_block : BlockResponse
main_block = record { block_id = codes "B"; block_height = codes "31"; timestamp = codes "91" }

abbrev pub net : Net
net = record {
  reply = λ t url. answered 200 (body url);
  is_cancelled = λ t. leb 50 t;
  path_escape = λ t. t;
  trim_space = λ b. b;
  json_raw = λ b. some b;
  json_page = λ b. some (entry ∷ entry' ∷ []);
  json_tx = λ b. some (codes "f" ∷ codes "b" ∷ []);
  json_block = λ b. if text_eq b (3 ∷ []) then some fork else some main_block;
}

abbrev client : Client
client = record { rest = codes "n"; fallback = []; blocks = []; canon = []; time = 0 }

client-IsAnchored : IsAnchored net (codes "n") [] 0 client
client-IsAnchored = (refl, refl, tt, tt, omega arith)

block_of-IsCanonical_example :
    Ends net
      (codes "n")
      []
      0
      (λ b.
        (ids : List Text) × (ContainedIn net (codes "n") [] 0 (codes "t") ids
          × IsCanonicalOf net (codes "n") [] 0 ids b))
      (block_of net (codes "t") client)
block_of-IsCanonical_example =
    block_of-IsCanonical net (codes "n") [] 0 (codes "t") client client-IsAnchored

abbrev pub pending : Backfill
pending = record progress { next_seq = 4 }

abbrev pub tracked : Store
tracked = record store { db = record funded { backfills = pending ∷ [] } }

pending-read : get_backfill (codes "T") tracked ≡ (ok (some pending), tracked)
unfolding get_backfill query find text_eq
pending-read = refl

run-finished :
    (run net toy toy_codecs (codes "T") (codes "K") 3 (codes "n/") [] tracked).0 ≡ finished
unfolding run new_client
run-finished = refl

run-LastPage_example : LastPage net toy toy_codecs (codes "T") (codes "K") (codes "n") [] pending
run-LastPage_example =
    run-LastPage net toy toy_codecs (codes "T") (codes "K") (codes "n/") [] 3 tracked tracked
      pending pending-read refl run-finished

run-LeavesRecord_example :
    LeavesRecord
      (codes "T")
      net
      toy
      toy_codecs
      (codes "K")
      (run net toy toy_codecs (codes "T") (codes "K") 3 (codes "n/") [] tracked)
run-LeavesRecord_example =
    run-LeavesRecord (codes "T") net toy toy_codecs (codes "K") 3 (codes "n/") [] tracked tracked
      pending refl refl pending-read

cancelled_late : (t : ℕ) → 50 ≤ t → net.is_cancelled t ≡ true
cancelled_late t h = ground arith

run-Returns_example :
    (run net toy toy_codecs (codes "T") (codes "K") 51 (codes "n/") [] tracked).0 ≢ out_of_fuel
run-Returns_example =
    run-Returns net toy toy_codecs (codes "T") (codes "K") (codes "n/") [] 50 tracked cancelled_late
