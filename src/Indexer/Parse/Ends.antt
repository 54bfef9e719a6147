-- ===== src/Indexer/Parse/Ends.antt =====
-- The termination of the loops of parseTransferEvent, parseMintEvent and parseBurnEvent.
use koinos_token_tracker.Base.{
  ℕ, ◌≤◌, ◌<◌, ◌≡◌, none, some, [], inl, inr, arith, length, drop, length-drop, Option-cases,
}
use koinos_token_tracker.Base.Text.{Bytes}
use koinos_token_tracker.Base.Iterate.{iterate-ends}
use koinos_token_tracker.Wire.{WireType, Wire, IsWire}
use koinos_token_tracker.Indexer.Parse.{
  TransferLoop, PartyLoop, transfer_field, transfer_round, parse_transfer_event, party_field,
  party_round, parse_mint_event, parse_burn_event,
}

module _ (w : Wire) where
  transfer_field-le :
      (num : ℕ) (typ : WireType) (s t : TransferLoop)
      → transfer_field w num typ s ≡ some t
      → length t.rest ≤ length s.rest
  unfolding transfer_field
  transfer_field-le num typ s t h = grind (arith, length-drop)

  pub transfer_round-falls :
      (s t : TransferLoop) → IsWire w → transfer_round w s ≡ some t → length t.rest < length s.rest
  unfolding transfer_round
  transfer_round-falls s t laws h = elim (Option-cases (w.consume_tag s.rest)) [
    | inl e ↦ ground arith
    | inr ((num, typ, n), e) ↦ ground (
      arith,
      transfer_field-le num typ (record s { rest = drop n s.rest }) t,
      laws.tag_advances s.rest num typ n e,
      length-drop n s.rest,
    )
  ]

  party_field-le :
      (num : ℕ) (typ : WireType) (s t : PartyLoop)
      → party_field w num typ s ≡ some t
      → length t.rest ≤ length s.rest
  unfolding party_field
  party_field-le num typ s t h = grind (arith, length-drop)

  pub party_round-falls :
      (s t : PartyLoop) → IsWire w → party_round w s ≡ some t → length t.rest < length s.rest
  unfolding party_round
  party_round-falls s t laws h = elim (Option-cases (w.consume_tag s.rest)) [
    | inl e ↦ ground arith
    | inr ((num, typ, n), e) ↦ ground (
      arith,
      party_field-le num typ (record s { rest = drop n s.rest }) t,
      laws.tag_advances s.rest num typ n e,
      length-drop n s.rest,
    )
  ]

  -- The three parsing loops end by their own tests, an end of the data or a return, for every
  -- payload: one more round is refused from the state that they stop at.
  pub parse_events_end :
      (payload : Bytes)
      → IsWire w
      → (transfer_round w (parse_transfer_event w payload) ≡ none)
        × (party_round w (parse_mint_event w payload) ≡ none)
        × (party_round w (parse_burn_event w payload) ≡ none)
  unfolding parse_transfer_event parse_mint_event parse_burn_event
  parse_events_end payload laws = (
    iterate-ends (transfer_round w) (λ s. length s.rest) (λ s t. transfer_round-falls s t laws)
        (length payload) (record { rest = payload; sender = []; receiver = []; value = 0 })
        (omega arith),
    iterate-ends (party_round w) (λ s. length s.rest) (λ s t. party_round-falls s t laws)
        (length payload) (record { rest = payload; party = []; value = 0 }) (omega arith),
    iterate-ends (party_round w) (λ s. length s.rest) (λ s t. party_round-falls s t laws)
        (length payload) (record { rest = payload; party = []; value = 0 }) (omega arith),
  )
