-- ===== src/Tests/Chain.antt =====
-- The theorems on the comparison with the chain, at concrete inputs.
use koinos_token_tracker.Base.{
  ◌≡◌, ◌≤◌, ◌<◌, ◌+◌, ◌*◌, ◌^◌, refl, true, false, none, some, [], ◌∷◌, ◌==◌, if◌then◌else◌, length,
  All, arith,
}
use koinos_token_tracker.Base.Sort.{sort}
use koinos_token_tracker.Base.Text.{codes, text_eq}
use koinos_token_tracker.Decimal.{print}
use koinos_token_tracker.Store.Types.{current}
use koinos_token_tracker.Store.Action.{query}
use koinos_token_tracker.Store.Reads.{get_top_holders}
use koinos_token_tracker.Store.Reads.Holders.{holders_of}
use koinos_token_tracker.Backfill.Client.{answered}
use koinos_token_tracker.Reconcile.Amount.{decimal_to_satoshis}
use koinos_token_tracker.Reconcile.Amount.Read.{coins, decimal_to_satoshis-coins}
use koinos_token_tracker.Reconcile.Check.{
  Rpc, CheckResult, checked_all, is_verified, check_token, check_holders, compared, balance_of, ask,
  decode_uint64_field1,
}
use koinos_token_tracker.Reconcile.Check.Verified.{Agrees, check_token-Agrees}
use koinos_token_tracker.Tests.Toy.{toy}
use koinos_token_tracker.Tests.Stores.{store}

decimal_to_satoshis-coins_example :
    decimal_to_satoshis (coins 147242 54875823) ≡ print (147242 * 10 ^ 8 + 54875823)
decimal_to_satoshis-coins_example = decimal_to_satoshis-coins 147242 54875823 (omega arith)

-- A node that fails once and then says 40 of everyone, in the toy format.
abbrev pub rpc : Rpc
rpc = record {
  reply = λ t body. if t == 1 then answered 500 [] else answered 200 [];
  is_cancelled = λ t. false;
  request = λ token args. [];
  owner_args = λ owner. owner;
  base58_decode = λ t. some t;
  json_response = λ b. some (record { result = some (codes "CCg"); error = none });
  base64_url = λ t. some (8 ∷ 40 ∷ []);
  base64_std = λ t. none;
}

abbrev agreed : CheckResult
agreed = record { checked = 1; mismatches = 0; failures = 0; details = [] }

checked : (check_token toy rpc (codes "K") store).0 ≡ checked_all agreed
unfolding check_token get_top_holders query sort text_eq check_holders compared balance_of ask
    decode_uint64_field1 print
checked = refl

few : length (holders_of (codes "K") (current store)) ≤ 2 ^ 30
unfolding text_eq
few = omega arith

verified : is_verified agreed ≡ true
unfolding is_verified
verified = refl

check_token-Agrees_example :
    (0 < length (holders_of (codes "K") (current store)))
    × All (Agrees toy rpc (codes "K")) (holders_of (codes "K") (current store))
check_token-Agrees_example =
    check_token-Agrees toy rpc (codes "K") store agreed checked verified few
