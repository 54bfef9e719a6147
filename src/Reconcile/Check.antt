-- ===== src/Reconcile/Check.antt =====
-- CheckToken: BalanceOf, the reading of its answer, and the loop over the holders.
pub mod Verified
use koinos_token_tracker.Base.{
  ℕ, zero, suc, ◌+◌, ◌^◌, Bool, true, false, ◌&&◌, not, Option, none, some, List, [], ◌∷◌, ◌++◌,
  is_empty, length, drop, ltb, leb, ◌==◌, if◌then◌else◌,
}
use koinos_token_tracker.Base.Text.{Bytes, Text, text_eq}
use koinos_token_tracker.Decimal.{print}
use koinos_token_tracker.Wire.{Wire, WireType, varint, bytes, fixed32, fixed64}
use koinos_token_tracker.Store.Types.{Balance, Store}
use koinos_token_tracker.Store.Action.{Error, Result, ok, err, blocked}
use koinos_token_tracker.Store.Reads.{get_top_holders}
use koinos_token_tracker.Backfill.Client.{Reply, unmade, broken, answered}
use koinos_token_tracker.Backfill.Decode.{pad_b64}

-- The answer of the JSON-RPC call; a nil pointer is `none`.
pub record RpcResponse : Type 0 where
  pub result : Option Text
  pub error : Option Text

-- net/http, encoding/json, encoding/base64, base58.Decode and the context. `request` is the body for
-- a contract and the arguments' bytes, and `owner_args` appends field 1 with protowire.
pub record Rpc : Type 0 where
  pub reply : ℕ → Bytes → Reply
  pub is_cancelled : ℕ → Bool
  pub request : Text → Bytes → Bytes
  pub owner_args : Bytes → Bytes
  pub base58_decode : Text → Option Bytes
  pub json_response : Bytes → Option RpcResponse
  pub base64_url : Text → Option Bytes
  pub base64_std : Text → Option Bytes

abbrev pub short : ℕ → Bytes → Option Bytes
short n b = if ltb (length b) n then none else some (drop n b)

-- The value and the bytes left.
abbrev pub Field : Type 0
Field = Option (ℕ × Bytes)

module _ (w : Wire) where
  abbrev pub skipped : ℕ → Option Bytes → Field
  skipped value none = none
  skipped value (some b) = some (value, b)

  -- The switch on the wire type, behind the tag.
  unfoldable pub field1 : ℕ → WireType → ℕ → Bytes → Field
  field1 num typ value b = elim typ [
    | varint ↦ elim (w.consume_varint b) [
      | none ↦ none
      | some (v, n) ↦ some (if num == 1 then v else value, drop n b)
    ]
    | bytes ↦ elim (w.consume_bytes b) [ none ↦ none | some (v, n) ↦ some (value, drop n b) ]
    | fixed32 ↦ skipped value (short 4 b)
    | fixed64 ↦ skipped value (short 8 b)
    | _ ↦ none
  ]

  -- The loop on fuel, one round for a byte.
  unfoldable pub fields1 : ℕ → ℕ → Bytes → Option ℕ
  unfolding field1
  fields1 zero value b = some value
  fields1 (suc fuel) value b = if is_empty b then some value else elim (w.consume_tag b) [
    | none ↦ none
    | some (num, typ, n) ↦ elim (field1 num typ value (drop n b)) [
      | none ↦ none
      | some (value', b') ↦ fields1 fuel value' b'
    ]
  ]

  unfoldable pub decode_uint64_field1 : Bytes → Option ℕ
  unfolding fields1
  decode_uint64_field1 b = fields1 (length b) 0 b

  module _ (rpc : Rpc) where
    abbrev pub payload_of : Text → Option ℕ
    payload_of s = elim (rpc.base64_url (pad_b64 s)) [
      | some b ↦ decode_uint64_field1 b
      | none ↦ elim (rpc.base64_std (pad_b64 s)) [ some b ↦ decode_uint64_field1 b | none ↦ none ]
    ]

    abbrev pub answer_of : Option RpcResponse → Option ℕ
    answer_of none = none
    answer_of (some r) = elim r.error [
      | some message ↦ none
      | none ↦ elim r.result [ none ↦ none | some s ↦ payload_of s ]
    ]

    -- The attempts left; all but the first wait, unless the context ends.
    unfoldable pub ask : Bytes → ℕ → Bool → ℕ → Option ℕ × ℕ
    unfolding decode_uint64_field1 pad_b64
    ask body zero first t = (none, t)
    ask body (suc left) first t = elim (not first && rpc.is_cancelled t) [
      | true ↦ (none, suc t)
      | false ↦ elim (rpc.reply t body) [
        | unmade ↦ (none, suc t)
        | broken ↦ ask body left false (suc t)
        | answered status raw ↦ elim (status == 200) [
          | true ↦ (answer_of (rpc.json_response raw), suc t)
          | false ↦ ask body left false (suc t)
        ]
      ]
    ]

    unfoldable pub balance_of : Text → Text → ℕ → Option ℕ × ℕ
    unfolding ask
    balance_of token address t = elim (rpc.base58_decode address) [
      | none ↦ (none, t)
      | some owner ↦ ask (rpc.request token (rpc.owner_args owner)) 3 true t
    ]

-- A line of Details.
pub data Detail : Type 0 where
  lookup_failed : Text → Detail
  differs : Text → Text → ℕ → Detail

pub record CheckResult : Type 0 where
  pub checked : ℕ
  pub mismatches : ℕ
  pub failures : ℕ
  pub details : List Detail

-- The method Verified.
unfoldable pub is_verified : CheckResult → Bool
is_verified r = ltb 0 r.checked && r.failures == 0 && r.mismatches == 0

-- How CheckToken ends: with a result, with a result and the context's error, without one, or in a
-- call of the store that never returns.
pub data CheckEnd : Type 0 where
  checked_all : CheckResult → CheckEnd
  interrupted : CheckResult → CheckEnd
  no_holders : Error → CheckEnd
  stuck : CheckEnd

abbrev pub detailed : Detail → CheckResult → CheckResult
detailed d r = if ltb (length r.details) 20 then record r { details = r.details ++ d ∷ [] } else r

-- What one answer adds to the result.
unfoldable pub compared : Balance → Option ℕ → CheckResult → CheckResult
unfolding text_eq print
compared h none r = detailed (lookup_failed h.address) (record r { failures = r.failures + 1 })
compared h (some chain) r =
    if text_eq (print chain) h.balance
    then r
    else detailed (differs h.address h.balance chain) (record r { mismatches = r.mismatches + 1 })

module _ (w : Wire) (rpc : Rpc) (token : Text) where
  -- The loop over the holders.
  unfoldable pub check_holders : List Balance → CheckResult → ℕ → CheckEnd
  unfolding balance_of compared
  check_holders [] r t = checked_all r
  check_holders (h ∷ hs) r t = elim (rpc.is_cancelled t) [
    | true ↦ interrupted r
    | false ↦
        let (chain, t') = balance_of w rpc token h.address (suc t) in
        check_holders hs (compared h chain r) t'
  ]

  abbrev pub empty_check : List Balance → CheckResult
  empty_check hs = record { checked = length hs; mismatches = 0; failures = 0; details = [] }

  abbrev pub of_holders : Result (List Balance × ℕ) × Store → CheckEnd × Store
  of_holders (err e, s) = (no_holders e, s)
  of_holders (blocked, s) = (stuck, s)
  of_holders (ok (hs, total), s) = (check_holders hs (empty_check hs) 0, s)

  unfoldable pub check_token : Store → CheckEnd × Store
  unfolding get_top_holders check_holders
  check_token s = of_holders (get_top_holders token (2 ^ 30) 0 s)
