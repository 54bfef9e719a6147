-- ===== src/Indexer/Parse.antt =====
-- The protobuf payloads of token events: parseTransferEvent, parseMintEvent, parseBurnEvent,
-- consumeUnknownField and encodeAddr. A malformed payload ends a loop with what was read so far.
pub mod Ends
pub mod Encoded
use koinos_token_tracker.Base.{
  ℕ, Bool, ◌&&◌, Option, none, some, [], ◌∷◌, ◌==◌, length, drop, if◌then◌else◌,
}
use koinos_token_tracker.Base.Text.{Bytes, Text}
use koinos_token_tracker.Base.Iterate.{iterate}
use koinos_token_tracker.Wire.{WireType, varint, fixed64, bytes, fixed32, is_varint, is_bytes, Wire}

-- The variables that a loop assigns: the data left, and the named results.
pub record TransferLoop : Type 0 where
  pub rest : Bytes
  pub sender : Bytes
  pub receiver : Bytes
  pub value : ℕ

pub record PartyLoop : Type 0 where
  pub rest : Bytes
  pub party : Bytes
  pub value : ℕ

abbrev pub taken {ℓ} : {A : Type ℓ} → Option (A × ℕ) → Option ℕ
taken none = none
taken (some (_, n)) = some n

module _ (w : Wire) where
  -- encodeAddr
  unfoldable pub encode_addr : Bytes → Text
  encode_addr [] = []
  encode_addr (b ∷ raw) = w.encode (b ∷ raw)

  -- consumeUnknownField; `none` is -1.
  unfoldable pub consume_unknown_field : WireType → Bytes → Option ℕ
  consume_unknown_field varint b = taken (w.consume_varint b)
  consume_unknown_field fixed32 b = taken (w.consume_fixed32 b)
  consume_unknown_field fixed64 b = taken (w.consume_fixed64 b)
  consume_unknown_field bytes b = taken (w.consume_bytes b)
  consume_unknown_field _ b = none

  -- The switch of parseTransferEvent, behind the tag. `none` is a return.
  unfoldable pub transfer_field : ℕ → WireType → TransferLoop → Option TransferLoop
  unfolding consume_unknown_field
  transfer_field num typ s =
      if (num == 1) && is_bytes typ
      then elim (w.consume_bytes s.rest) [
        | none ↦ none
        | some (v, vn) ↦ some (record s { sender = v; rest = drop vn s.rest })
      ]
      else if (num == 2) && is_bytes typ
      then elim (w.consume_bytes s.rest) [
        | none ↦ none
        | some (v, vn) ↦ some (record s { receiver = v; rest = drop vn s.rest })
      ]
      else if (num == 3) && is_varint typ
      then elim (w.consume_varint s.rest) [
        | none ↦ none
        | some (v, vn) ↦ some (record s { value = v; rest = drop vn s.rest })
      ]
      else elim (consume_unknown_field typ s.rest) [
        | none ↦ none
        | some n ↦ some (record s { rest = drop n s.rest })
      ]

  -- One round of the loop: `none` when no data is left, and at a return.
  unfoldable pub transfer_round : TransferLoop → Option TransferLoop
  transfer_round s = elim s.rest [
    | [] ↦ none
    | b ∷ bs ↦ elim (w.consume_tag s.rest) [
      | none ↦ none
      | some (num, typ, n) ↦ transfer_field num typ (record s { rest = drop n s.rest })
    ]
  ]

  -- parseTransferEvent. A round takes a byte at least, so there are no more than bytes.
  unfoldable pub parse_transfer_event : Bytes → TransferLoop
  unfolding transfer_round transfer_field iterate
  parse_transfer_event payload =
      iterate (length payload) transfer_round
        (record { rest = payload; sender = []; receiver = []; value = 0 })

  -- The switch that parseMintEvent and parseBurnEvent share.
  unfoldable pub party_field : ℕ → WireType → PartyLoop → Option PartyLoop
  unfolding consume_unknown_field
  party_field num typ s =
      if (num == 1) && is_bytes typ
      then elim (w.consume_bytes s.rest) [
        | none ↦ none
        | some (v, vn) ↦ some (record s { party = v; rest = drop vn s.rest })
      ]
      else if (num == 2) && is_varint typ
      then elim (w.consume_varint s.rest) [
        | none ↦ none
        | some (v, vn) ↦ some (record s { value = v; rest = drop vn s.rest })
      ]
      else elim (consume_unknown_field typ s.rest) [
        | none ↦ none
        | some n ↦ some (record s { rest = drop n s.rest })
      ]

  unfoldable pub party_round : PartyLoop → Option PartyLoop
  party_round s = elim s.rest [
    | [] ↦ none
    | b ∷ bs ↦ elim (w.consume_tag s.rest) [
      | none ↦ none
      | some (num, typ, n) ↦ party_field num typ (record s { rest = drop n s.rest })
    ]
  ]

  -- parseMintEvent, where the party is the receiver
  unfoldable pub parse_mint_event : Bytes → PartyLoop
  unfolding party_round party_field iterate
  parse_mint_event payload =
      iterate (length payload) party_round (record { rest = payload; party = []; value = 0 })

  -- parseBurnEvent, where the party is the sender
  unfoldable pub parse_burn_event : Bytes → PartyLoop
  unfolding party_round party_field iterate
  parse_burn_event payload =
      iterate (length payload) party_round (record { rest = payload; party = []; value = 0 })
