-- ===== src/Backfill/Ops.antt =====
-- opsOf: the operations of one entry of a token's history. An error is `none`.
pub mod Usable
use koinos_token_tracker.Base.{
  ℕ, Bool, true, false, ◌&&◌, ◌||◌, not, Option, none, some, List, [], ◌∷◌, is_empty, ltb, ◌==◌,
  if◌then◌else◌,
}
use koinos_token_tracker.Base.Text.{Bytes, Text, codes, text_eq}
use koinos_token_tracker.Decimal.{parse_uint}
use koinos_token_tracker.Indexer.Event.{max_safe_value}
use koinos_token_tracker.Wire.{Wire}
use koinos_token_tracker.Backfill.{Op, BlockInfo}
use koinos_token_tracker.Backfill.Decode.{
  Codecs, EventFields, event_type, decode_event, valid_base58, tx_id_base58,
}

-- An event of a history; `payload` is the field Data.
pub record HistoryEvent : Type 0 where
  pub source : Text
  pub name : Text
  pub payload : Bytes

-- What a round of the loop does: return the error, go on, or append first.
pub data Round : Type 0 where
  failed : Round
  skipped : Round
  appended : Op → Round

-- from != "" && !validBase58.MatchString(from)
abbrev pub is_malformed : Text → Bool
is_malformed addr = not (is_empty addr) && not (valid_base58 addr)

module _ (w : Wire) (k : Codecs) (token : Text) (seq : ℕ) (b : BlockInfo) (tx_id : Text) where
  abbrev pub id_of : Option Text
  id_of = if is_empty tx_id then some [] else tx_id_base58 w tx_id

  abbrev pub op_of : Text → Text → Text → ℕ → Round
  op_of typ from_addr to_addr value = elim id_of [
    | none ↦ failed
    | some id ↦ appended (record {
      seq = seq;
      height = b.height;
      timestamp = b.timestamp;
      tx_id = id;
      event_type = typ;
      sender = from_addr;
      receiver = to_addr;
      value = value;
    })
  ]

  -- The switch on the type, and the transaction's id.
  unfoldable pub by_type : Text → Text → Text → ℕ → Round
  unfolding tx_id_base58
  by_type typ from_addr to_addr value =
      if text_eq typ (codes "transfer")
      then if is_empty from_addr && is_empty to_addr
        then skipped
        else op_of typ from_addr to_addr value
      else if text_eq typ (codes "mint")
      then if is_empty to_addr then skipped else op_of typ [] to_addr value
      else if text_eq typ (codes "burn")
      then if is_empty from_addr then skipped else op_of typ from_addr [] value
      else op_of typ from_addr to_addr value

  -- The checks of the decoded fields.
  unfoldable pub checked : Text → EventFields → Round
  unfolding parse_uint valid_base58 by_type
  checked typ f =
      let (value, fine) = parse_uint f.value in
      if not fine || ltb max_safe_value value
      then failed
      else if value == 0
      then skipped
      else if is_malformed f.sender || is_malformed f.receiver
      then failed
      else by_type typ f.sender f.receiver value

  unfoldable pub round_of : HistoryEvent → Round
  unfolding event_type decode_event checked
  round_of ev =
      if not (text_eq ev.source token)
      then skipped
      else if is_empty (event_type ev.name)
      then skipped
      else elim (decode_event w k (event_type ev.name) ev.payload) [
        | none ↦ failed
        | some f ↦ checked (event_type ev.name) f
      ]

  abbrev pub prepend : Round → Option (List Op) → Option (List Op)
  prepend failed rest = none
  prepend skipped rest = rest
  prepend (appended op) rest = elim rest [ none ↦ none | some ops ↦ some (op ∷ ops) ]

  unfoldable pub ops_of : List HistoryEvent → Option (List Op)
  unfolding round_of
  ops_of [] = some []
  ops_of (ev ∷ events) = prepend (round_of ev) (ops_of events)
