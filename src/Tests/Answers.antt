-- ===== src/Tests/Answers.antt =====
-- The theorems on the API's answers, at concrete requests.
use koinos_token_tracker.Base.{
  ℕ, ◌+◌, Bool, false, ◌||◌, filter, length, ◌≡◌, refl, some, List, [], ◌∷◌, if◌then◌else◌,
}
use koinos_token_tracker.Base.Text.{Text, codes, text_eq}
use koinos_token_tracker.Store.Reads.{get_blocks}
use koinos_token_tracker.Decimal.{parse_uint}
use koinos_token_tracker.Api.{Request, blocks_body, moved_to, query_uint64}
use koinos_token_tracker.Api.Handlers.{handle_blocks, send_blocks}
use koinos_token_tracker.Api.Routes.{prefix, legacy_prefix, serve_mux, serve}
use koinos_token_tracker.Api.Routes.Answers.{serve-ServedAt}
use koinos_token_tracker.Api.Routes.Legacy.{at, IsAlike, serve-IsAlike}
use koinos_token_tracker.Store.Types.{Block, Transfer, Store}
use koinos_token_tracker.Store.Action.{ok, query}
use koinos_token_tracker.Base.Table.{find, upsert}
use koinos_token_tracker.Base.TextSet.{add, member}
use koinos_token_tracker.Base.Sort.{page, sort}
use koinos_token_tracker.Store.Transfers.{is_newer, is_from, is_to, get_transfers_by_address}
use koinos_token_tracker.Store.Transfers.Union.{get_transfers_by_address-page}
use koinos_token_tracker.Store.Producers.{
  Producer, group_by_signer, put_signers, put_holders, producer_of, producers_of, get_producers,
}
use koinos_token_tracker.Store.Producers.Answered.{calm, IsAnswer, get_producers-IsAnswer}
use koinos_token_tracker.Api.ReadOnly.{ServedAt}
use koinos_token_tracker.Tests.Stores.{funded, store, faulty}

abbrev asked : Text → Text
asked key =
    if text_eq key (codes "limit")
    then codes "5000"
    else if text_eq key (codes "from")
    then codes "7"
    else if text_eq key (codes "to")
    then codes "5007"
    else []

abbrev request : Request
request = record {
  method = codes "GET";
  path = codes "/v1/token-tracker/transfers/recent";
  raw_query = codes "limit=5000&from=7&to=5007";
  query = asked;
}

wide_range : (handle_blocks request store).0 ≡ some (200, blocks_body 7 1007 [])
unfolding handle_blocks send_blocks query_uint64 get_blocks parse_uint text_eq
wide_range = refl

serve-ServedAt_example : ServedAt faulty (serve request faulty).outcome
serve-ServedAt_example = serve-ServedAt request faulty

-- A path that is a prefix of a pattern but for its slash.
serve-IsAlike_example :
    IsAlike
      (codes "GET")
      (codes "limit=5000")
      asked
      (codes "holders")
      (λ s.
        (serve
          (at (codes "GET") (codes "limit=5000") asked (codes "holders") legacy_prefix)
          s).outcome)
      (λ s.
        (serve (at (codes "GET") (codes "limit=5000") asked (codes "holders") prefix) s).outcome)
    × ((s : Store)
        → (serve
            (at (codes "GET") (codes "limit=5000") asked (codes "holders") legacy_prefix)
            s).headers
          ≡ (serve
              (at (codes "GET") (codes "limit=5000") asked (codes "holders") prefix)
              s).headers)
serve-IsAlike_example = serve-IsAlike (codes "GET") (codes "limit=5000") asked (codes "holders")

moves :
    (serve (at (codes "GET") (codes "limit=5000") asked (codes "holders") prefix) faulty).outcome
    ≡ (some (301, moved_to (codes "/v1/token-tracker/holders/") (codes "limit=5000")), faulty)
unfolding serve serve_mux find text_eq
moves = refl

abbrev sealed : Block
sealed = record {
  height = 9;
  block_id = codes "b9";
  timestamp = 900;
  signer = codes "alice";
  tx_count = 0;
}

abbrev producing : Store
producing = record faulty {
  db = record funded {
    blocks = sealed ∷ record sealed { height = 1; timestamp = 100; signer = codes "bob" } ∷ [];
    balances =
        record {
          address = codes "carol";
          token = codes "V";
          balance = codes "7";
          updated_height = 1;
        }
        ∷ [];
  };
}

produced : get_producers 5 (calm producing) ≡ (
  ok (
    record {
      address = codes "alice";
      vhp_balance = codes "0";
      blocks_24h = 1;
      last_block_time = 900;
    }
        ∷ record {
          address = codes "carol";
          vhp_balance = codes "7";
          blocks_24h = 0;
          last_block_time = 0;
        }
        ∷ [],
    1,
  ),
  calm producing,
)
unfolding get_producers group_by_signer put_signers put_holders producers_of producer_of query find
    upsert add text_eq member
produced = refl

get_producers-IsAnswer_example :
    (rows : List Producer) × (total : ℕ) × (get_producers 5 (calm producing)
      ≡ (ok (rows, total), calm producing))
    × IsAnswer 5 producing rows total
get_producers-IsAnswer_example = get_producers-IsAnswer 5 producing

abbrev paid : Transfer
paid = record {
  id = 1;
  height = 5;
  tx_id = [];
  token = codes "K";
  sender = codes "alice";
  receiver = codes "bob";
  value = codes "3";
  event_type = codes "transfer";
  timestamp = 0;
}

-- Alice pays Bob, herself, and is paid.
abbrev paying : Store
paying = record store {
  db = record funded {
    transfers =
        paid
        ∷ record paid { id = 2; height = 6; receiver = codes "alice" }
        ∷ record paid { id = 3; height = 6; sender = codes "bob"; receiver = codes "alice" }
        ∷ [];
  };
}

get_transfers_by_address-page_example :
    (total : ℕ) × (capped : Bool) × (get_transfers_by_address (codes "alice") 2 1 (calm paying) ≡ (
      ok (
        page 2 1 (
            sort is_newer (
              filter
                (λ r. is_from (codes "alice") r || is_to (codes "alice") r)
                paying.db.transfers)),
        total,
        capped,
      ),
      calm paying,
    ))
    × (capped ≡ false
        → total
          ≡ length (filter (is_from (codes "alice")) paying.db.transfers)
            + length (filter (is_to (codes "alice")) paying.db.transfers))
get_transfers_by_address-page_example =
    get_transfers_by_address-page (codes "alice") 2 1 paying
      ((refl, (refl, tt)), ((refl, tt), (tt, tt)))
