-- ===== src/Api/Handlers.antt =====
-- The handlers of internal/api/handlers.go.
use koinos_token_tracker.Base.{
  ℕ, ◌+◌, ◌-◌, Bool, true, ◌&&◌, ◌||◌, not, Option, none, some, List, is_empty, length, map, ltb,
  ◌==◌, if◌then◌else◌,
}
use mathlib.Core.List.{reverse}
use koinos_token_tracker.Base.Table.{find}
use koinos_token_tracker.Base.Text.{Text, codes, text_eq}
use koinos_token_tracker.Backfill.Decode.{is_base58}
use koinos_token_tracker.Store.Types.{Address, Token, Backfill}
use koinos_token_tracker.Store.Reads.{
  get_sync_state, get_address, get_addresses, get_balances, get_top_holders, get_blocks,
  get_all_tokens, list_backfills, get_stats,
}
use koinos_token_tracker.Store.Transfers.{
  get_transfers_by_address, get_recent_transfers, get_recent_transfers_filtered,
}
use koinos_token_tracker.Store.Producers.{get_producers}
use koinos_token_tracker.Api.{
  Request, query_int, query_uint64, extract_path_param, is_valid_base58, clamp_offset, clamp_limit,
  TokenOut, status_body, stats_body, addresses_body, address_body, holders_body, blocks_body,
  recent_body, transfers_body, tokens_body, producers_body, Handler, respond, refuse, ask, only_get,
  with_param,
}

unfoldable pub handle_status : Request → Handler
unfolding get_sync_state get_stats text_eq
handle_status r = only_get r (
    ask get_sync_state
      λ state. ask get_stats λ stats. respond 200 (status_body state.0 state.1 stats))

unfoldable pub handle_stats : Request → Handler
unfolding get_stats get_all_tokens text_eq
handle_stats r =
    only_get r
      (ask get_stats λ stats. ask get_all_tokens λ tokens. respond 200 (stats_body stats tokens))

unfoldable pub handle_addresses : Request → Handler
unfolding get_addresses query_int clamp_offset text_eq
handle_addresses r =
    let limit = clamp_limit 1000 (query_int r (codes "limit") 50) in
    let offset = clamp_offset (query_int r (codes "offset") 0) in
    only_get r
      (ask (get_addresses limit offset) λ x. respond 200 (addresses_body x.1 limit offset x.0))

abbrev pub with_address : Text → Option Address → Handler
with_address addr none = refuse 404 "address not found"
with_address addr (some a) =
    ask (get_balances addr)
      λ rows. respond 200 (address_body a (map (λ b. (b.token, b.balance)) rows))

unfoldable pub handle_address : Request → Handler
unfolding get_address get_balances extract_path_param text_eq
handle_address r = only_get r (
    with_param "invalid address" (extract_path_param r 4)
      λ addr. ask (get_address addr) (with_address addr))

unfoldable pub handle_holders : Request → Handler
unfolding get_top_holders extract_path_param query_int clamp_offset text_eq
handle_holders r =
    let limit = clamp_limit 1000 (query_int r (codes "limit") 50) in
    let offset = clamp_offset (query_int r (codes "offset") 0) in
    only_get r (
      with_param "invalid token address" (extract_path_param r 4) λ token.
        ask (get_top_holders token limit offset)
          λ x. respond 200 (holders_body token x.1 limit offset x.0))

-- The checks of the range, and the answer.
unfoldable pub send_blocks : ℕ → ℕ → Handler
unfolding get_blocks
send_blocks from to =
    if ltb to from
    then refuse 400 "from must be <= to"
    else let last = if ltb 1000 (to - from) then from + 1000 else to in
      ask (get_blocks from last) λ rows. respond 200 (blocks_body from last rows)

unfoldable pub handle_blocks : Request → Handler
unfolding get_sync_state query_uint64 send_blocks text_eq
handle_blocks r =
    let from = query_uint64 r (codes "from") 0 in
    let to = query_uint64 r (codes "to") 0 in
    only_get r (
      if to == 0
      then ask get_sync_state
          (λ state. send_blocks (if ltb 49 state.0 then state.0 - 49 else from) state.0)
      else send_blocks from to)

-- The answer about the recent transfers, with the filters that passed the checks.
abbrev pub send_recent : ℕ → Text → Text → Handler
send_recent limit token event_type =
    ask
      (if is_empty token
        then get_recent_transfers limit
        else get_recent_transfers_filtered token event_type limit)
      λ rows. respond 200 (recent_body limit rows token event_type)

abbrev pub is_event_type : Text → Bool
is_event_type t =
    text_eq t (codes "transfer") || text_eq t (codes "mint") || text_eq t (codes "burn")

unfoldable pub recent : Text → Text → ℕ → Handler
unfolding get_recent_transfers get_recent_transfers_filtered text_eq is_base58
recent token event_type limit =
    if not (is_empty token) && (ltb 50 (length token) || not (is_valid_base58 token))
    then refuse 400 "invalid token address"
    else if not (is_empty event_type) && not (is_event_type event_type)
    then refuse 400 "invalid type (transfer, mint or burn)"
    else if not (is_empty event_type) && is_empty token
    then refuse 400 "type requires token"
    else send_recent limit token event_type

unfoldable pub handle_transfers : Request → Handler
unfolding get_transfers_by_address extract_path_param query_int clamp_offset recent text_eq
handle_transfers r =
    let limit = clamp_limit 500 (query_int r (codes "limit") 50) in
    let offset = clamp_offset (query_int r (codes "offset") 0) in
    only_get r (
      with_param "invalid address" (extract_path_param r 4) λ q.
        if text_eq q (codes "recent")
        then recent (r.query (codes "token")) (r.query (codes "type")) limit
        else ask (get_transfers_by_address q limit offset)
            (λ x. respond 200 (transfers_body q x.1 x.2 limit offset x.0)))

-- A token is indexed unless it has a record that is not done. The map keeps the last record of a token.
abbrev pub token_out : Token → Option Backfill → TokenOut
token_out t none = record { token = t; is_indexed = true; backfill = none }
token_out t (some b) = record { token = t; is_indexed = b.done; backfill = some b }

abbrev pub tokens_out : List Backfill → List Token → List TokenOut
tokens_out backfills tokens =
    map (λ t. token_out t (find (λ b. text_eq b.token t.address) (reverse backfills))) tokens

unfoldable pub handle_tokens : Request → Handler
unfolding get_all_tokens list_backfills find text_eq
handle_tokens r = only_get r (
    ask get_all_tokens λ tokens.
      ask list_backfills λ backfills. respond 200 (tokens_body (tokens_out backfills tokens)))

-- 24 hours of blocks, 3 seconds each
unfoldable pub handle_producers : Request → Handler
unfolding get_producers text_eq
handle_producers r =
    only_get r (ask (get_producers 28800) λ x. respond 200 (producers_body x.0 x.1))
