-- ===== src/Startup.antt =====
-- cmd/koinos-token-tracker/main.go: the tracked tokens and their backfills.
pub mod Replay
pub mod Launch
use koinos_token_tracker.Base.{
  ℕ, zero, suc, Bool, true, false, ◌&&◌, ◌||◌, not, Option, none, some, List, [], ◌∷◌, is_empty,
  filter, leb, ◌==◌, if◌then◌else◌,
}
use mathlib.Core.List.{reverse}
use koinos_token_tracker.Base.Int.{ℤ, pos, negsuc}
use koinos_token_tracker.Base.Text.{Text, text_eq}
use koinos_token_tracker.Config.{TokenTrackerConfig, set_extra_tokens}
use koinos_token_tracker.Wire.{Wire}
use koinos_token_tracker.Store.Types.{Token, Backfill, Store}
use koinos_token_tracker.Store.Action.{
  Error, message, Result, ok, err, blocked, Action, pure, fail, ◌>>=◌, ◌>>◌,
}
use koinos_token_tracker.Store.Does.{for_each}
use koinos_token_tracker.Store.Batch.{in_batch, begin_batch, commit_batch, rollback_batch}
use koinos_token_tracker.Store.Writes.{upsert_token, upsert_backfill}
use koinos_token_tracker.Store.Reads.{get_sync_state, get_all_tokens, get_backfill, list_backfills}
use koinos_token_tracker.Store.Transfers.{convert_hex_tx_ids}
use koinos_token_tracker.Backfill.Decode.{tx_id_base58}
use koinos_token_tracker.Backfill.Client.{Net}
use koinos_token_tracker.Backfill.Run.{Ending, finished, failed, out_of_fuel, RunError, run}
use koinos_token_tracker.Reconcile.Check.{
  Rpc, CheckResult, is_verified, CheckEnd, checked_all, interrupted, no_holders, check_token,
}

-- What the command line's registration reads from outside: base58.Decode of the right length, and
-- the answer of koinos-rest about a token.
pub record TokenInfo : Type 0 where
  pub symbol : Text
  pub decimals : ℤ

abbrev pub is_space : ℕ → Bool
is_space c = (leb 9 c && leb c 13) || (c == 32)

abbrev pub drop_spaces : Text → Text
drop_spaces [] = []
drop_spaces (c ∷ s) = let rest = drop_spaces s in if is_space c then rest else c ∷ s

-- strings.TrimSpace on ASCII
abbrev pub trim_space : Text → Text
trim_space s = reverse (drop_spaces (reverse (drop_spaces s)))

-- fetchTokenInfo's check of the answer: the number of decimals, if it is a token.
abbrev pub decimals_of : ℤ → Option ℕ
decimals_of (pos n) = if leb n 30 then some n else none
decimals_of (negsuc n) = none

unfoldable pub fetch_token_info : Option TokenInfo → Option (Text × ℕ)
fetch_token_info none = none
fetch_token_info (some i) =
    if is_empty i.symbol
    then none
    else elim (decimals_of i.decimals) [ none ↦ none | some n ↦ some (i.symbol, n) ]

module _ (is_contract_address : Text → Bool) (token_info : Text → Option TokenInfo)
    (cfg : TokenTrackerConfig) where
  abbrev pub fresh_backfill : Text → ℕ → Backfill
  fresh_backfill addr head = record {
    token = addr;
    next_seq = 0;
    cutoff_height = head;
    done = false;
    verified = false;
    mismatches = 0;
    failures = 0;
    updated_at = 0;
  }

  -- The body of the batch.
  unfoldable pub register : Text → Text → ℕ → Action (Unit {0})
  unfolding get_sync_state upsert_token upsert_backfill
  register addr symbol decimals = get_sync_state >>= λ state.
      upsert_token addr symbol decimals [] >> upsert_backfill (fresh_backfill addr state.0)

  abbrev pub register_with : Text → Option (Text × ℕ) → Action (Unit {0})
  register_with addr none = fail (message "token info")
  register_with addr (some (symbol, decimals)) =
      in_batch (λ e. e) (register addr symbol decimals) (λ e. e)

  abbrev pub register_new : Text → Option Backfill → Action (Unit {0})
  register_new addr (some bf) = pure tt
  register_new addr none = register_with addr (fetch_token_info (token_info addr))

  unfoldable pub register_token : Text → Action (Unit {0})
  unfolding get_backfill fetch_token_info register
  register_token given =
      let addr = trim_space given in
      if is_empty addr || text_eq addr cfg.koin_contract || text_eq addr cfg.vhp_contract
      then pure tt
      else if text_eq addr cfg.old_koin_contract || text_eq addr cfg.old_vhp_contract
      then fail (message "legacy KOIN/VHP contract")
      else if not (is_contract_address addr)
      then fail (message "not a Koinos contract address")
      else get_backfill addr >>= register_new addr

  unfoldable pub register_tracked_tokens : List Text → Action (Unit {0})
  unfolding for_each register_token
  register_tracked_tokens addrs = for_each register_token addrs

-- loadExtraTokens: the configuration with the other tokens of the database, and their addresses.
abbrev pub extras_of : TokenTrackerConfig → List Token → List Text
extras_of cfg [] = []
extras_of cfg (t ∷ ts) =
    let rest = extras_of cfg ts in
    if text_eq t.address cfg.koin_contract || text_eq t.address cfg.vhp_contract
    then rest
    else t.address ∷ rest

unfoldable pub load_extra_tokens : TokenTrackerConfig → Action (TokenTrackerConfig × List Text)
unfolding get_all_tokens set_extra_tokens
load_extra_tokens cfg = get_all_tokens >>= λ tokens.
    pure (set_extra_tokens cfg (extras_of cfg tokens), extras_of cfg tokens)

-- repairBackfilledTxIDs. A round says whether the loop goes on: only an error of BeginBatch ends it.
abbrev pub converted : Option Text → Result Text
converted none = err (message "transaction id")
converted (some id) = ok id

module _ (w : Wire) where
  abbrev pub closed : Result ℕ × Store → Bool × Store
  closed (ok n, s) = (true, (commit_batch s).1)
  closed (err e, s) = (true, (rollback_batch s).1)
  closed (blocked, s) = (false, s)

  abbrev pub repair_in : Text → Result (Unit {0}) × Store → Bool × Store
  repair_in token (ok _, s) =
      closed (convert_hex_tx_ids token (λ id. converted (tx_id_base58 w id)) s)
  repair_in token (err e, s) = (false, s)
  repair_in token (blocked, s) = (false, s)

  unfoldable pub repair_all : List Backfill → Store → Store
  unfolding begin_batch commit_batch rollback_batch convert_hex_tx_ids tx_id_base58
  repair_all [] s = s
  repair_all (bf ∷ rest) s =
      let (goes_on, s') = repair_in bf.token (begin_batch s) in
      elim goes_on [ true ↦ repair_all rest s' | false ↦ s' ]

  unfoldable pub repair_backfilled_tx_ids : Store → Store
  unfolding list_backfills repair_all
  repair_backfilled_tx_ids s =
      let (r, s') = list_backfills s in
      elim r [ ok recs ↦ repair_all recs s' | err e ↦ s' | blocked ↦ s' ]
