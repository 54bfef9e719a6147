-- ===== src/Store/Reads.antt =====
-- The queries of internal/store/sqlite.go on all tables but transfers. LIMIT and OFFSET are not
-- negative here.
pub mod Balances
pub mod Holders
use koinos_token_tracker.Base.{
  ℕ, Bool, ◌&&◌, not, Option, none, some, List, filter, length, ltb, leb, ◌==◌,
}
use koinos_token_tracker.Base.Table.{find}
use koinos_token_tracker.Base.Sort.{page, sort}
use koinos_token_tracker.Base.Text.{Text, codes, text_eq}
use koinos_token_tracker.Decimal.Order.{decimal_ltb, text_ltb}
use koinos_token_tracker.Store.Types.{Address, Balance, Block, Token, Backfill, Stats, Db, Store}
use koinos_token_tracker.Store.Action.{Action, context, query, pure, ◌>>=◌}
use koinos_token_tracker.Store.Writes.{is_balance_of}

unfoldable pub get_sync_state : Action (ℕ × Text)
unfolding query
get_sync_state =
    context "get sync state" (query (λ d. (d.sync_state.last_height, d.sync_state.last_block_id)))

unfoldable pub get_address : Text → Action (Option Address)
unfolding query find
get_address address =
    context "get address" (query (λ d. find (λ r. text_eq r.address address) d.addresses))

-- SELECT COUNT(*), then ORDER BY first_seen_height DESC LIMIT ? OFFSET ?
unfoldable pub get_addresses : ℕ → ℕ → Action (List Address × ℕ)
unfolding query sort
get_addresses limit offset = do
  total ← context "count addresses" (query (λ d. length d.addresses))
  rows ← context "list addresses" (
      query (λ d.
        page limit offset (sort (λ a b. ltb b.first_seen_height a.first_seen_height) d.addresses)))
  pure (rows, total)

abbrev pub balance_or_zero : Option Balance → Text
balance_or_zero none = codes "0"
balance_or_zero (some r) = r.balance

-- What GetBalance reads: a row that is not there is a balance of "0".
unfoldable pub balance_of : Text → Text → Db → Text
unfolding find
balance_of address token d = balance_or_zero (find (is_balance_of address token) d.balances)

unfoldable pub get_balance : Text → Text → Action Text
unfolding query balance_of
get_balance address token = context "get balance" (query (balance_of address token))

unfoldable pub get_balances : Text → Action (List Balance)
unfolding query
get_balances address =
    context "get balances" (query (λ d. filter (λ r. text_eq r.address address) d.balances))

-- WHERE token = ? AND balance != '0'
abbrev pub is_holder : Text → Balance → Bool
is_holder token r = text_eq r.token token && not (text_eq r.balance (codes "0"))

-- ORDER BY LENGTH(balance) DESC, balance DESC
abbrev pub holds_more : Balance → Balance → Bool
holds_more a b = decimal_ltb b.balance a.balance

unfoldable pub get_top_holders : Text → ℕ → ℕ → Action (List Balance × ℕ)
unfolding query
get_top_holders token limit offset = do
  total ← context "count holders" (query (λ d. length (filter (is_holder token) d.balances)))
  rows ←
      context "top holders"
        (query (λ d. page limit offset (sort holds_more (filter (is_holder token) d.balances))))
  pure (rows, total)

unfoldable pub get_block : ℕ → Action (Option Block)
unfolding query find
get_block height = context "get block" (query (λ d. find (λ r. r.height == height) d.blocks))

-- WHERE height >= ? AND height <= ? ORDER BY height
unfoldable pub get_blocks : ℕ → ℕ → Action (List Block)
unfolding query sort
get_blocks from to = context "get blocks" (
    query (λ d.
      sort (λ a b. ltb a.height b.height)
        (filter (λ r. leb from r.height && leb r.height to) d.blocks)))

unfoldable pub get_token : Text → Action (Option Token)
unfolding query find
get_token address =
    context "get token" (query (λ d. find (λ r. text_eq r.address address) d.tokens))

unfoldable pub get_all_tokens : Action (List Token)
unfolding query
get_all_tokens = context "get all tokens" (query (λ d. d.tokens))

unfoldable pub get_backfill : Text → Action (Option Backfill)
unfolding query find
get_backfill token =
    context "get backfill" (query (λ d. find (λ r. text_eq r.token token) d.backfills))

-- ORDER BY token
unfoldable pub list_backfills : Action (List Backfill)
unfolding query sort
list_backfills =
    context "list backfills" (query (λ d. sort (λ a b. text_ltb a.token b.token) d.backfills))

unfoldable pub get_stats : Action Stats
unfolding query
get_stats s =
    (do
      total ← context "count addresses" (query (λ d. length d.addresses))
      koin ←
          context "count koin holders"
            (query (λ d. length (filter (is_holder s.koin_contract) d.balances)))
      vhp ←
          context "count vhp holders"
            (query (λ d. length (filter (is_holder s.vhp_contract) d.balances)))
      state ← context "get sync state for stats" (query (λ d. d.sync_state))
      pure (record {
        total_addresses = total;
        koin_holders = koin;
        vhp_holders = vhp;
        last_height = state.last_height;
        last_block_id = state.last_block_id;
      }))
      s
