-- ===== src/Store/Transfers.antt =====
-- The queries of internal/store/sqlite.go on the transfers, and the repair of transaction ids.
pub mod Numbered
pub mod Union
use koinos_token_tracker.Base.{
  ℕ, suc, ◌+◌, ◌-◌, Bool, ◌&&◌, ◌||◌, not, List, [], ◌∷◌, ◌++◌, map, filter, any, take, length,
  is_empty, ltb, leb, ◌==◌, if◌then◌else◌,
}
use koinos_token_tracker.Base.Sort.{page, sort}
use Prim.Native.Nat.{min}
use koinos_token_tracker.Base.Text.{Text, codes, text_eq, has_prefix}
use koinos_token_tracker.Store.Types.{Transfer, Db}
use koinos_token_tracker.Store.Action.{
  message, Result, ok, err, blocked, Action, context, query, statement, pure, fail, ◌>>=◌,
}
use koinos_token_tracker.Store.Reads.{get_sync_state}

-- ORDER BY height DESC, id DESC
abbrev pub is_newer : Transfer → Transfer → Bool
is_newer a b = ltb b.height a.height || ((a.height == b.height) && ltb b.id a.id)

abbrev pub count_cap : ℕ
count_cap = 10001

-- The newest rows of one side, LIMIT per.
abbrev pub newest : ℕ → (Transfer → Bool) → Db → List Transfer
newest per side d = take per (sort is_newer (filter side d.transfers))

abbrev has_id : ℕ → Transfer → Bool
has_id id r = r.id == id

-- UNION drops a row that both sides give; rows of one table are equal exactly if their ids are.
unfoldable pub union : List Transfer → List Transfer → List Transfer
union xs ys = xs ++ filter (λ r. not (any (has_id r.id) xs)) ys

abbrev pub is_from : Text → Transfer → Bool
is_from address r = text_eq r.sender address

abbrev pub is_to : Text → Transfer → Bool
is_to address r = text_eq r.receiver address

-- The rows, the total, and whether a side's count met its cap.
unfoldable pub get_transfers_by_address : Text → ℕ → ℕ → Action (List Transfer × ℕ × Bool)
unfolding query union sort
get_transfers_by_address address limit offset = do
  from_count ←
      context "count from transfers"
        (query (λ d. min (length (filter (is_from address) d.transfers)) count_cap))
  to_count ←
      context "count to transfers"
        (query (λ d. min (length (filter (is_to address) d.transfers)) count_cap))
  let total = from_count + to_count
  let capped = leb count_cap from_count || leb count_cap to_count
  let per = limit + offset
  rows ← context "get transfers by address" (
      query (λ d.
        page limit offset
          (sort is_newer (union (newest per (is_from address) d) (newest per (is_to address) d)))))
  pure (rows, total, capped)

unfoldable pub get_transfers_by_token : Text → ℕ → ℕ → Action (List Transfer × ℕ)
unfolding query sort
get_transfers_by_token token limit offset = do
  total ←
      context "count transfers"
        (query (λ d. length (filter (λ r. text_eq r.token token) d.transfers)))
  rows ← context "get transfers by token" (
      query
        (λ d. page limit offset (sort is_newer (filter (λ r. text_eq r.token token) d.transfers))))
  pure (rows, total)

unfoldable pub get_recent_transfers : ℕ → Action (List Transfer)
unfolding query sort
get_recent_transfers limit =
    context "get recent transfers" (query (λ d. take limit (sort is_newer d.transfers)))

-- RecentFilterWindow
abbrev pub recent_filter_window : ℕ
recent_filter_window = 100000

abbrev pub since_of : ℕ → ℕ
since_of head = if ltb recent_filter_window head then head - recent_filter_window else 0

-- token = ? AND height >= ?, and event_type = ? if one is asked for
unfoldable pub is_recent : Text → Text → ℕ → Transfer → Bool
is_recent token event_type since r =
    text_eq r.token token
    && (leb since r.height && (is_empty event_type || text_eq r.event_type event_type))

-- The deadline of the query's context does not expire here.
unfoldable pub get_recent_transfers_filtered : Text → Text → ℕ → Action (List Transfer)
unfolding query sort is_recent get_sync_state
get_recent_transfers_filtered token event_type limit =
    if is_empty token then fail (message "get recent transfers filtered: token is required") else do
      state ← context "get recent transfers filtered" get_sync_state
      context "get recent transfers filtered" (
          query (λ d.
            take limit
              (sort is_newer (filter (is_recent token event_type (since_of state.0)) d.transfers))))

-- UPDATE transfers SET tx_id = ? WHERE id = ?
unfoldable pub put_tx_id : ℕ → Text → Db → Db
put_tx_id id tx_id d = record d {
  transfers = map (λ r. if r.id == id then record r { tx_id = tx_id } else r) d.transfers;
}

-- tx_id LIKE '0x%', where x is of either case
abbrev pub is_hex_id : Text → Bool
is_hex_id t = has_prefix t (codes "0x") || has_prefix t (codes "0X")

-- The loop over the rows that were read, with the number converted so far.
unfoldable pub convert_rows : (Text → Result Text) → ℕ → List (ℕ × Text) → Action ℕ
unfolding put_tx_id statement
convert_rows conv i [] s = (ok i, s)
convert_rows conv i ((id, tx_id) ∷ todo) s = elim (conv tx_id) [
  | ok t ↦
      (let (r, s') = context "update tx id" (statement (put_tx_id id t)) s in
        elim r [
          | ok _ ↦ convert_rows conv (suc i) todo s'
          | err e ↦ (err e, s')
          | blocked ↦ (blocked, s')
        ])
  | err e ↦ (err e, s)
  | blocked ↦ (blocked, s)
]

-- ConvertHexTxIDs; the count beside an error is dropped.
unfoldable pub convert_hex_tx_ids : Text → (Text → Result Text) → Action ℕ
unfolding query convert_rows
convert_hex_tx_ids token conv = do
  todo ← context "hex tx ids" (
      query (λ d.
        map (λ r. (r.id, r.tx_id))
          (filter (λ r. text_eq r.token token && is_hex_id r.tx_id) d.transfers)))
  convert_rows conv 0 todo
