-- ===== src/Api.antt =====
-- internal/api/handlers.go: a request, its parameters, and what a handler answers.
pub mod Handlers
pub mod ReadOnly
pub mod Fetched
pub mod Bounded
pub mod Gets
pub mod Routes
use Prim.Native.String.{String}
use koinos_token_tracker.Base.{
  ℕ, zero, suc, ◌+◌, ◌-◌, ◌^◌, Bool, true, false, ◌&&◌, ◌||◌, not, Option, none, some, List, [],
  ◌∷◌, is_empty, length, get_elem?, map, ltb, leb, ◌==◌, if◌then◌else◌,
}
use koinos_token_tracker.Base.Int.{ℤ, pos, negsuc}
use koinos_token_tracker.Base.Table.{find}
use koinos_token_tracker.Base.Text.{Text, codes, text_eq}
use koinos_token_tracker.Decimal.{set_string, parse_uint}
use koinos_token_tracker.Backfill.Decode.{is_base58, all_of}
use koinos_token_tracker.Store.Types.{
  Address, Balance, Block, Token, Backfill, Transfer, Stats, Store,
}
use koinos_token_tracker.Store.Producers.{Producer}
use koinos_token_tracker.Store.Action.{Error, Result, ok, err, blocked, Action}
use koinos_token_tracker.Store.Reads.{
  get_sync_state, get_address, get_addresses, get_balances, get_top_holders, get_blocks,
  get_all_tokens, list_backfills, get_stats,
}
use koinos_token_tracker.Store.Transfers.{
  get_transfers_by_address, get_recent_transfers, get_recent_transfers_filtered,
  recent_filter_window,
}

-- http.Request; `raw_query` is its URL's query, and `query` the Get of that.
pub record Request : Type 0 where
  pub method : Text
  pub path : Text
  pub raw_query : Text
  pub query : Text → Text

abbrev pub max_offset : ℕ
max_offset = 100000

-- strconv.Atoi, with the error and the negative numbers answered by the default
abbrev pub natural_or : ℕ → Option ℤ → ℕ
natural_or default none = default
natural_or default (some (negsuc n)) = default
natural_or default (some (pos n)) = if leb n (2 ^ 63 - 1) then n else default

unfoldable pub query_int : Request → Text → ℕ → ℕ
unfolding set_string
query_int r key default =
    if is_empty (r.query key) then default else natural_or default (set_string (r.query key))

unfoldable pub query_uint64 : Request → Text → ℕ → ℕ
unfolding parse_uint
query_uint64 r key default =
    if is_empty (r.query key)
    then default
    else let (n, fine) = parse_uint (r.query key) in if fine then n else default

-- strings.Split(s, "/"), the first part and the others
unfoldable pub split_slashes : Text → Text × List Text
split_slashes [] = ([], [])
split_slashes (c ∷ s) =
    let (first, others) = split_slashes s in
    if c == b'/' then ([], first ∷ others) else (c ∷ first, others)

-- validBase58: ^[1-9A-HJ-NP-Za-km-z]+$
abbrev pub is_valid_base58 : Text → Bool
is_valid_base58 s = not (is_empty s) && all_of is_base58 s

abbrev pub valid_part : Option Text → Option Text
valid_part none = none
valid_part (some part) =
    if is_empty part
    then none
    else if ltb 50 (length part) || not (is_valid_base58 part)
    then none
    else some part

unfoldable pub extract_path_param : Request → ℕ → Option Text
unfolding split_slashes is_base58
extract_path_param r index =
    let (first, others) = split_slashes r.path in valid_part (get_elem? (first ∷ others) index)

unfoldable pub clamp_offset : ℕ → ℕ
clamp_offset offset = if ltb max_offset offset then max_offset else offset

abbrev pub clamp_limit : ℕ → ℕ → ℕ
clamp_limit top limit = if ltb top limit then top else limit

-- The bodies: the JSON ones, the constant texts and pages, and what net/http sends by itself.
pub record TokenOut : Type 0 where
  pub token : Token
  pub is_indexed : Bool
  pub backfill : Option Backfill

pub data Body : Type 0 where
  error_body : String → Body
  status_body : ℕ → Text → Stats → Body
  stats_body : Stats → List Token → Body
  addresses_body : ℕ → ℕ → ℕ → List Address → Body
  address_body : Address → List (Text × Text) → Body
  holders_body : Text → ℕ → ℕ → ℕ → List Balance → Body
  blocks_body : ℕ → ℕ → List Block → Body
  recent_body : ℕ → List Transfer → Text → Text → Body
  transfers_body : Text → ℕ → Bool → ℕ → ℕ → List Transfer → Body
  tokens_body : List TokenOut → Body
  producers_body : List Producer → ℕ → Body
  spec_page : Body
  docs_page : Body
  explorer_page : Body
  not_found_page : Body
  moved_to : Text → Text → Body
  no_body : Body

-- The status and the body; `none` is a call of the store that never returns.
abbrev pub Handler : Type 0
Handler = Store → Option (ℕ × Body) × Store

abbrev pub respond : ℕ → Body → Handler
respond status body s = (some (status, body), s)

abbrev pub refuse : ℕ → String → Handler
refuse status text = respond status (error_body text)

module _ {A : Type 0} where
  abbrev pub after : (A → Handler) → Result A → Handler
  after k (ok a) = k a
  after k (err e) = refuse 500 "internal server error"
  after k blocked = λ s. (none, s)

  abbrev pub ask : Action A → (A → Handler) → Handler
  ask m k s = let (r, s') = m s in after k r s'

abbrev pub only_get : Request → Handler → Handler
only_get r h = if text_eq r.method (codes "GET") then h else refuse 405 "method not allowed"

abbrev pub with_param : String → Option Text → (Text → Handler) → Handler
with_param text none k = refuse 400 text
with_param text (some p) k = k p
