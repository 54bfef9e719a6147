-- ===== src/Backfill/Decode.antt =====
-- The events of a history: eventType, decodeEvent, decodeRawTokenEvent, padB64, parseSeq and
-- TxIDBase58. encoding/json, encoding/base64 and bytes.TrimSpace are parameters.
pub mod Strict
pub mod TxId
use koinos_token_tracker.Base.{
  ℕ, zero, suc, ◌+◌, ◌-◌, ◌*◌, ◌%◌, Bool, true, false, ◌&&◌, ◌||◌, not, Option, none, some, List,
  [], ◌∷◌, ◌++◌, is_empty, length, drop, ltb, leb, ◌==◌, if◌then◌else◌,
}
use mathlib.Core.List.{reverse}
use koinos_token_tracker.Base.Text.{Bytes, Text, codes, text_eq, has_prefix, has_suffix}
use koinos_token_tracker.Decimal.{print, parse_uint}
use koinos_token_tracker.Wire.{WireType, Wire, is_varint, is_bytes}

-- eventData: `sender` and `receiver` are the fields From and To.
pub record EventFields : Type 0 where
  pub sender : Text
  pub receiver : Text
  pub value : Text

-- What the standard library decodes; `none` is an error. `consume_field_value` is of protowire.
pub record Codecs : Type 0 where
  pub trim_space : Bytes → Bytes
  pub json_object : Bytes → Option EventFields
  pub json_string : Bytes → Option Text
  pub base64_url : Text → Option Bytes
  pub base64_std : Text → Option Bytes
  pub consume_field_value : ℕ → WireType → Bytes → Option ℕ

unfoldable pub parse_seq : Text → ℕ
unfolding parse_uint
parse_seq s = if is_empty s then 0 else (parse_uint s).0

unfoldable pub event_type : Text → Text
unfolding has_suffix
event_type name =
    if has_suffix name (codes "transfer_event")
    then codes "transfer"
    else if has_suffix name (codes "mint_event")
    then codes "mint"
    else if has_suffix name (codes "burn_event")
    then codes "burn"
    else []

abbrev drop_pads : Text → Text
drop_pads [] = []
drop_pads (c ∷ s) = let rest = drop_pads s in if c == b'=' then rest else c ∷ s

-- strings.Repeat("=", n)
abbrev pads : ℕ → Text
pads zero = []
pads (suc n) = b'=' ∷ pads n

-- The padding is cut off and made up to a multiple of four.
unfoldable pub pad_b64 : Text → Text
pad_b64 s = let cut = reverse (drop_pads (reverse s)) in cut ++ pads ((4 - length cut % 4) % 4)

-- The data left, addrs[1], addrs[2], and nums[1] to nums[3].
pub record RawLoop : Type 0 where
  pub rest : Bytes
  pub addr1 : Bytes
  pub addr2 : Bytes
  pub num1 : ℕ
  pub num2 : ℕ
  pub num3 : ℕ

abbrev set_addr : ℕ → Bytes → RawLoop → RawLoop
set_addr num v s =
    if num == 1 then record s { addr1 = v } else if num == 2 then record s { addr2 = v } else s

abbrev set_num : ℕ → ℕ → RawLoop → RawLoop
set_num num v s =
    if num == 1
    then record s { num1 = v }
    else if num == 2
    then record s { num2 = v }
    else if num == 3
    then record s { num3 = v }
    else s

module _ (w : Wire) (k : Codecs) where
  -- The switch on the wire type, behind the tag. `none` is an error.
  unfoldable pub raw_field : ℕ → WireType → RawLoop → Option RawLoop
  raw_field num wt s =
      if is_bytes wt
      then elim (w.consume_bytes s.rest) [
        | none ↦ none
        | some (v, n) ↦ some (record (set_addr num v s) { rest = drop n s.rest })
      ]
      else if is_varint wt
      then elim (w.consume_varint s.rest) [
        | none ↦ none
        | some (v, n) ↦ some (record (set_num num v s) { rest = drop n s.rest })
      ]
      else elim (k.consume_field_value num wt s.rest) [
        | none ↦ none
        | some n ↦ some (record s { rest = drop n s.rest })
      ]

  -- A round of the loop, with data left.
  unfoldable pub raw_round : RawLoop → Option RawLoop
  unfolding raw_field
  raw_round s = elim (w.consume_tag s.rest) [
    | none ↦ none
    | some (num, wt, n) ↦ raw_field num wt (record s { rest = drop n s.rest })
  ]

  -- The loop on fuel, one round for a byte.
  unfoldable pub raw_loop : ℕ → RawLoop → Option RawLoop
  unfolding raw_round
  raw_loop zero s = some s
  raw_loop (suc fuel) s =
      if is_empty s.rest
      then some s
      else elim (raw_round s) [ none ↦ none | some s' ↦ raw_loop fuel s' ]

  -- The closure `enc`.
  unfoldable pub enc : Bytes → Text
  enc [] = []
  enc (b ∷ bs) = w.encode (b ∷ bs)

  abbrev raw_result : Text → RawLoop → Option (Text × Text × ℕ)
  raw_result typ s =
      if text_eq typ (codes "transfer")
      then some (enc s.addr1, enc s.addr2, s.num3)
      else if text_eq typ (codes "mint")
      then some ([], enc s.addr1, s.num2)
      else if text_eq typ (codes "burn")
      then some (enc s.addr1, [], s.num2)
      else none

  unfoldable pub decode_raw_token_event : Text → Bytes → Option (Text × Text × ℕ)
  unfolding raw_loop enc
  decode_raw_token_event typ raw =
      elim (raw_loop (length raw)
        (record { rest = raw; addr1 = []; addr2 = []; num1 = 0; num2 = 0; num3 = 0 })) [
          | none ↦ none
          | some s ↦ raw_result typ s
        ]

  -- URL encoding first, then standard encoding.
  abbrev base64_either : Text → Option Bytes
  base64_either s = elim (k.base64_url s) [ none ↦ k.base64_std s | some raw ↦ some raw ]

  abbrev decode_payload : Text → Bytes → Option EventFields
  decode_payload typ raw = elim (decode_raw_token_event typ raw) [
    | none ↦ none
    | some (f, t, v) ↦ some (record { sender = f; receiver = t; value = print v })
  ]

  -- The data that the node left as a base64 text.
  abbrev decode_text : Text → Text → Option EventFields
  decode_text typ b64 =
      if is_empty b64
      then none
      else elim (base64_either (pad_b64 b64)) [ none ↦ none | some raw ↦ decode_payload typ raw ]

  unfoldable pub decode_event : Text → Bytes → Option EventFields
  unfolding decode_raw_token_event pad_b64 print
  decode_event typ payload =
      let trimmed = k.trim_space payload in
      if has_prefix trimmed (codes "{")
      then k.json_object trimmed
      else elim (k.json_string trimmed) [ none ↦ none | some b64 ↦ decode_text typ b64 ]

abbrev is_between : ℕ → ℕ → ℕ → Bool
is_between lo hi c = leb lo c && leb c hi

-- [0-9a-fA-F]
unfoldable pub is_hex : ℕ → Bool
is_hex c = is_between b'0' b'9' c || is_between b'a' b'f' c || is_between b'A' b'F' c

-- [1-9A-HJ-NP-Za-km-z]
unfoldable pub is_base58 : ℕ → Bool
is_base58 c =
    is_between b'1' b'9' c
    || is_between b'A' b'H' c
    || is_between b'J' b'N' c
    || is_between b'P' b'Z' c
    || is_between b'a' b'k' c
    || is_between b'm' b'z' c

abbrev pub all_of : (ℕ → Bool) → Text → Bool
all_of test [] = true
all_of test (c ∷ s) = test c && all_of test s

-- validBase58: ^[1-9A-HJ-NP-Za-km-z]{20,50}$
unfoldable pub valid_base58 : Text → Bool
unfolding is_base58
valid_base58 s = is_between 20 50 (length s) && all_of is_base58 s

-- hexTxID: ^0x1220[0-9a-fA-F]{64}$
unfoldable pub is_hex_tx_id : Text → Bool
unfolding has_prefix is_hex
is_hex_tx_id s = has_prefix s (codes "0x1220") && (length s == 70) && all_of is_hex (drop 6 s)

unfoldable pub hex_value : ℕ → ℕ
hex_value c = if leb c b'9' then c - b'0' else if leb c b'F' then c - b'A' + 10 else c - b'a' + 10

-- hex.DecodeString on digits
unfoldable pub decode_hex : Text → Bytes
unfolding hex_value
decode_hex (a ∷ b ∷ s) = (hex_value a * 16 + hex_value b) ∷ decode_hex s
decode_hex _ = []

-- hexTxID has made sure of the digits, so that the error of DecodeString does not come up.
unfoldable pub tx_id_base58 : Wire → Text → Option Text
unfolding is_hex_tx_id decode_hex
tx_id_base58 w id = if is_hex_tx_id id then some (w.encode (decode_hex (drop 2 id))) else none
