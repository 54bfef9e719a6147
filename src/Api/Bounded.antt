-- ===== src/Api/Bounded.antt =====
-- The handlers' answers.
use koinos_token_tracker.Base.{
  ℕ, ◌+◌, ◌-◌, ◌≤◌, ◌&&◌, ◌||◌, not, is_empty, length, ltb, ◌==◌, if◌then◌else◌, arith, inl, inr,
  Bool-cases,
}
use koinos_token_tracker.Base.Text.{Text, codes, text_eq}
use koinos_token_tracker.Store.Types.{Store}
use koinos_token_tracker.Store.Action.{Action}
use koinos_token_tracker.Store.Reads.{get_sync_state, get_addresses, get_top_holders, get_blocks}
use koinos_token_tracker.Store.Transfers.{
  get_transfers_by_address, get_recent_transfers, get_recent_transfers_filtered,
}
use koinos_token_tracker.Api.{
  Request, query_int, query_uint64, is_valid_base58, extract_path_param, max_offset, recent_body,
  transfers_body, holders_body, blocks_body, addresses_body, clamp_offset, clamp_limit, Handler,
  respond, ask, only_get, with_param,
}
use koinos_token_tracker.Api.Handlers.{
  handle_addresses, handle_holders, send_blocks, handle_blocks, send_recent, is_event_type, recent,
  handle_transfers,
}
use koinos_token_tracker.Api.Fetched.{
  Anything, get_sync_state-GetsAt, FewRows, get_top_holders-GetsAt, get_addresses-GetsAt, InSpan,
  get_blocks-GetsAt, get_transfers_by_address-GetsAt, get_recent_transfers-GetsAt,
  get_recent_transfers_filtered-GetsAt,
}
use koinos_token_tracker.Api.ReadOnly.{
  after-ServedAt, GetsAt, ServedAt, Serves, Serves-respond, Serves-refuse, Serves-if,
  Serves-with_param,
}

clamp_limit_le : (top limit : ℕ) → clamp_limit top limit ≤ top
clamp_limit_le top limit = ground arith

clamp_offset_le : (offset : ℕ) → clamp_offset offset ≤ max_offset
unfolding clamp_offset
clamp_offset_le offset = ground arith

pub ask-ServedAt :
    {A : Type 0} (P : A → Type 0) (m : Action A) (k : A → Handler) (s : Store)
    → GetsAt P s (m s)
    → ((a : A) → P a → Serves (k a))
    → ServedAt s (ask m k s)
ask-ServedAt P m k s h hk = after-ServedAt P s (m s).0 (m s).1 k h hk

holders-Serves :
    (token : Text) (limit offset : ℕ)
    → limit ≤ 1000
    → offset ≤ max_offset
    → Serves (
        ask
          (get_top_holders token limit offset)
          (λ x. respond 200 (holders_body token x.1 limit offset x.0)))
holders-Serves token limit offset l o = record {
  at = λ s.
      ask-ServedAt (FewRows limit) (get_top_holders token limit offset) _ s
        (get_top_holders-GetsAt token limit offset s)
        (λ x few. Serves-respond 200 (holders_body token x.1 limit offset x.0) (l, o, few));
}

send_blocks-Serves : (from to : ℕ) → Serves (send_blocks from to)
unfolding send_blocks
send_blocks-Serves from to =
    Serves-if (ltb to from) (λ _. Serves-refuse 400 "from must be <= to")
      λ order.
        let last = if ltb 1000 (to - from) then from + 1000 else to in
        record {
          at = λ s.
              ask-ServedAt (InSpan from last) (get_blocks from last) _ s
                (get_blocks-GetsAt from last s)
                (λ rows inside.
                  Serves-respond 200 (blocks_body from last rows)
                    (ground arith, ground arith, inside));
        }

addresses-Serves :
    (limit offset : ℕ)
    → limit ≤ 1000
    → offset ≤ max_offset
    → Serves
        (ask (get_addresses limit offset) (λ x. respond 200 (addresses_body x.1 limit offset x.0)))
addresses-Serves limit offset l o = record {
  at = λ s.
      ask-ServedAt (FewRows limit) (get_addresses limit offset) _ s
        (get_addresses-GetsAt limit offset s)
        (λ x few. Serves-respond 200 (addresses_body x.1 limit offset x.0) (l, o, few));
}

send_recent-Serves :
    (limit : ℕ) (token event_type : Text)
    → limit ≤ 500
    → Serves (send_recent limit token event_type)
send_recent-Serves limit token event_type l = elim (Bool-cases (is_empty token)) [
  | inl e ↦ rw e (record {
    at = λ s.
        ask-ServedAt (λ rows. length rows ≤ limit) (get_recent_transfers limit) _ s
          (get_recent_transfers-GetsAt limit s)
          (λ rows few. Serves-respond 200 (recent_body limit rows token event_type) (l, few));
  })
  | inr e ↦ rw e (record {
    at = λ s.
        ask-ServedAt (λ rows. length rows ≤ limit)
          (get_recent_transfers_filtered token event_type limit) _ s
          (get_recent_transfers_filtered-GetsAt token event_type limit s)
          (λ rows few. Serves-respond 200 (recent_body limit rows token event_type) (l, few));
  })
]

recent-Serves :
    (token event_type : Text) (limit : ℕ) → limit ≤ 500 → Serves (recent token event_type limit)
unfolding recent
recent-Serves token event_type limit l =
    elim (Bool-cases
      (not (is_empty token) && (ltb 50 (length token) || not (is_valid_base58 token)))) [
        | inl e ↦ rw e (Serves-refuse 400 "invalid token address")
        | inr e ↦
            rw e (elim (Bool-cases (not (is_empty event_type) && not (is_event_type event_type))) [
              | inl f ↦ rw f (Serves-refuse 400 "invalid type (transfer, mint or burn)")
              | inr f ↦ rw f (elim (Bool-cases (not (is_empty event_type) && is_empty token)) [
                | inl g ↦ rw g (Serves-refuse 400 "type requires token")
                | inr g ↦ rw g (send_recent-Serves limit token event_type l)
              ])
            ])
      ]

transfers-Serves :
    (q : Text) (limit offset : ℕ)
    → limit ≤ 500
    → offset ≤ max_offset
    → Serves (
        ask
          (get_transfers_by_address q limit offset)
          (λ x. respond 200 (transfers_body q x.1 x.2 limit offset x.0)))
transfers-Serves q limit offset l o = record {
  at = λ s.
      ask-ServedAt (λ x. length x.0 ≤ limit) (get_transfers_by_address q limit offset) _ s
        (get_transfers_by_address-GetsAt q limit offset s)
        (λ x few. Serves-respond 200 (transfers_body q x.1 x.2 limit offset x.0) (l, o, few));
}

pub only_get-Serves : (r : Request) (h : Handler) → Serves h → Serves (only_get r h)
only_get-Serves r h served =
    Serves-if (text_eq r.method (codes "GET")) (λ _. served)
      (λ _. Serves-refuse 405 "method not allowed")

head_blocks-Serves :
    (from : ℕ)
    → Serves (
        ask get_sync_state
          (λ state. send_blocks (if ltb 49 state.0 then state.0 - 49 else from) state.0))
head_blocks-Serves from = record {
  at = λ s.
      ask-ServedAt Anything get_sync_state _ s (get_sync_state-GetsAt s)
        (λ state _. send_blocks-Serves (if ltb 49 state.0 then state.0 - 49 else from) state.0);
}

module _ (r : Request) where
  abbrev limit_of : ℕ → ℕ
  limit_of top = clamp_limit top (query_int r (codes "limit") 50)

  abbrev offset_of : ℕ
  offset_of = clamp_offset (query_int r (codes "offset") 0)

  limit_le : (top : ℕ) → limit_of top ≤ top
  limit_le top = clamp_limit_le top (query_int r (codes "limit") 50)

  offset_le : offset_of ≤ max_offset
  offset_le = clamp_offset_le (query_int r (codes "offset") 0)

  pub handle_addresses-Serves : Serves (handle_addresses r)
  unfolding handle_addresses
  handle_addresses-Serves =
      only_get-Serves r
        (ask (get_addresses (limit_of 1000) offset_of)
          (λ x. respond 200 (addresses_body x.1 (limit_of 1000) offset_of x.0)))
        (addresses-Serves (limit_of 1000) offset_of (limit_le 1000) offset_le)

  abbrev holders_of : Text → Handler
  holders_of token =
      ask (get_top_holders token (limit_of 1000) offset_of)
        (λ x. respond 200 (holders_body token x.1 (limit_of 1000) offset_of x.0))

  pub handle_holders-Serves : Serves (handle_holders r)
  unfolding handle_holders
  handle_holders-Serves =
      only_get-Serves r (with_param "invalid token address" (extract_path_param r 4) holders_of) (
        Serves-with_param {k = holders_of} "invalid token address" (extract_path_param r 4)
          (λ token. holders-Serves token (limit_of 1000) offset_of (limit_le 1000) offset_le))

  pub handle_blocks-Serves : Serves (handle_blocks r)
  unfolding handle_blocks
  handle_blocks-Serves =
      let from = query_uint64 r (codes "from") 0 in
      let to = query_uint64 r (codes "to") 0 in
      only_get-Serves r
        (if to == 0
          then ask get_sync_state
              (λ state. send_blocks (if ltb 49 state.0 then state.0 - 49 else from) state.0)
          else send_blocks from to)
        (Serves-if (to == 0) (λ _. head_blocks-Serves from) (λ _. send_blocks-Serves from to))

  abbrev transfers_of : Text → Handler
  transfers_of q =
      if text_eq q (codes "recent")
      then recent (r.query (codes "token")) (r.query (codes "type")) (limit_of 500)
      else ask (get_transfers_by_address q (limit_of 500) offset_of)
          (λ x. respond 200 (transfers_body q x.1 x.2 (limit_of 500) offset_of x.0))

  pub handle_transfers-Serves : Serves (handle_transfers r)
  unfolding handle_transfers
  handle_transfers-Serves =
      only_get-Serves r (with_param "invalid address" (extract_path_param r 4) transfers_of) (
        Serves-with_param {k = transfers_of} "invalid address" (extract_path_param r 4) λ q.
          Serves-if (text_eq q (codes "recent"))
            (λ _.
              recent-Serves (r.query (codes "token")) (r.query (codes "type")) (limit_of 500)
                (limit_le 500))
            (λ _. transfers-Serves q (limit_of 500) offset_of (limit_le 500) offset_le))

  -- The handlers of the addresses, the holders, the blocks and the transfers answer every request,
  -- also when the database fails, and leave the tables, the transaction and the mutex as they were.
  -- An answer has no more rows than its limit, which is at most 1000 (500 for transfers), from an
  -- offset of at most 100000; blocks come from a range of at most 1001 heights and lie in it.
  pub handlers-ServedAt :
      (s : Store)
      → ServedAt s (handle_addresses r s)
        × ServedAt s (handle_holders r s)
        × ServedAt s (handle_blocks r s)
        × ServedAt s (handle_transfers r s)
  handlers-ServedAt s = (
    handle_addresses-Serves.at s,
    handle_holders-Serves.at s,
    handle_blocks-Serves.at s,
    handle_transfers-Serves.at s,
  )
