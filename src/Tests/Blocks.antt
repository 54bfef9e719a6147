-- ===== src/Tests/Blocks.antt =====
-- The theorems on the indexer, at a block with a transfer, a burn of VHP and a reverted mint.
use koinos_token_tracker.Base.{◌≡◌, refl, inl, true, false, none, some, [], ◌∷◌, arith, All}
use koinos_token_tracker.Base.Int.{negsuc, ◌+ℤ◌}
use koinos_token_tracker.Base.Text.{Text, codes, text_eq, contains, has_prefix}
use koinos_token_tracker.Base.TextSet.{member, add, IsDistinct}
use koinos_token_tracker.Config.{TokenTrackerConfig, is_extra}
use koinos_token_tracker.Indexer.Types.{Block, EventData, BlockReceipt}
use koinos_token_tracker.Indexer.Tokens.{normalize_token, is_token_event, affects_balance}
use koinos_token_tracker.Indexer.Parse.{
  encode_addr, transfer_field, party_field, transfer_round, party_round, parse_transfer_event,
  parse_mint_event, parse_burn_event,
}
use koinos_token_tracker.Indexer.Parse.Encoded.{
  encode_transfer, encode_party, parse_transfer_event-encode, parse_party_events-encode,
}
use koinos_token_tracker.Indexer.Parse.Ends.{parse_events_end}
use koinos_token_tracker.Indexer.Event.Moves.{net_changes, net_transfers}
use koinos_token_tracker.Indexer.Event.Sound.{IsSound}
use koinos_token_tracker.Indexer.Block.{
  result_of, found_in, note_block, note_transactions, note_changes, process_events, process_receipt,
  process_receipts, process_block_receipt, tx_id_at,
}
use koinos_token_tracker.Base.Iterate.{iterate}
use koinos_token_tracker.Indexer.Event.{
  note_address, process_event, dispatch, names_event, note_impacted, add_transfer, add_burn,
  change_of, is_unusable,
}
use koinos_token_tracker.Indexer.Block.Balanced.{result_of-IsBalanced}
use koinos_token_tracker.Indexer.Block.Addresses.{result_of-IsSound}
use koinos_token_tracker.Indexer.Block.Reverted.{drop_reverted, result_of-drop_reverted}
use koinos_token_tracker.Tests.Toy.{toy, toy-IsWire, toy_encoder}

abbrev pub alice : Text
alice = codes "alice"

abbrev pub bob : Text
bob = codes "bob"

abbrev pub koin : Text
koin = codes "K"

abbrev pub config : TokenTrackerConfig
config = record {
  koin_contract = codes "K";
  vhp_contract = codes "V";
  old_koin_contract = codes "OK";
  old_vhp_contract = codes "OV";
  kcs4_migration_height = 100;
  extra_tokens = [];
}

abbrev pub paid : EventData
paid = record {
  source = codes "K";
  name = codes "token.transfer_event";
  payload = encode_transfer toy toy_encoder (codes "alice") (codes "bob") 30;
  impacted = codes "alice" ∷ codes "bob" ∷ [];
}

abbrev pub burnt : EventData
burnt = record {
  source = codes "V";
  name = codes "token.burn_event";
  payload = encode_party toy toy_encoder (codes "bob") 2;
  impacted = [];
}

abbrev pub minted : EventData
minted = record {
  source = codes "K";
  name = codes "token.mint_event";
  payload = encode_party toy toy_encoder (codes "bob") 1000;
  impacted = [];
}

abbrev pub block : Block
block = record {
  id = 7 ∷ 171 ∷ [];
  header = some (record { height = 5; timestamp = 99; signer = codes "producer" });
  transactions =
      some
        (record { id = codes "t1"; header = some (record { payer = codes "alice"; payee = [] }) })
      ∷ some (record { id = codes "t2"; header = none })
      ∷ [];
}

abbrev pub receipt : BlockReceipt
receipt = record {
  events = some burnt ∷ none ∷ [];
  transaction_receipts =
      some (record { reverted = false; events = some paid ∷ [] })
      ∷ some (record { reverted = true; events = some minted ∷ [] })
      ∷ [];
}

result_of-IsBalanced_example :
    let r = result_of toy config block (some receipt) in
    net_changes alice koin r.balance_changes ≡ net_transfers alice koin r.transfers
result_of-IsBalanced_example =
    result_of-IsBalanced toy config block (some receipt) alice koin refl (inl (omega arith))

result_of-IsSound_example :
    let r = result_of toy config block (some receipt) in
    IsDistinct r.addresses
    × All IsSound r.balance_changes
    × All (λ c. member c.address r.addresses ≡ true) r.balance_changes
result_of-IsSound_example = result_of-IsSound toy config block (some receipt)

result_of-drop_reverted_example :
    result_of toy config block (some (drop_reverted receipt))
    ≡ result_of toy config block (some receipt)
result_of-drop_reverted_example = result_of-drop_reverted toy config block receipt

parse_transfer_event-encode_example :
    parse_transfer_event toy (encode_transfer toy toy_encoder alice bob 30)
    ≡ record { rest = []; sender = alice; receiver = bob; value = 30 }
parse_transfer_event-encode_example =
    parse_transfer_event-encode toy toy_encoder toy-IsWire alice bob 30 (omega arith)

parse_party_events-encode_example :
    (parse_mint_event toy (encode_party toy toy_encoder bob 2)
      ≡ record { rest = []; party = bob; value = 2 })
    × (parse_burn_event toy (encode_party toy toy_encoder bob 2)
        ≡ record { rest = []; party = bob; value = 2 })
parse_party_events-encode_example =
    parse_party_events-encode toy toy_encoder toy-IsWire bob 2 (omega arith)

parse_events_end_example :
    (transfer_round toy (parse_transfer_event toy minted.payload) ≡ none)
    × (party_round toy (parse_mint_event toy minted.payload) ≡ none)
    × (party_round toy (parse_burn_event toy minted.payload) ≡ none)
parse_events_end_example = parse_events_end toy minted.payload toy-IsWire

-- What the block comes to.
transfer_values :
    net_transfers alice koin (result_of toy config block (some receipt)).transfers ≡ negsuc 29
unfolding net_transfers result_of found_in note_block note_transactions note_address note_changes
    process_events process_receipt process_receipts process_block_receipt tx_id_at process_event
    dispatch names_event contains has_prefix text_eq is_token_event affects_balance normalize_token
    is_extra member add note_impacted add_transfer add_burn change_of is_unusable encode_addr
    parse_transfer_event parse_burn_event transfer_round transfer_field party_round party_field
    iterate ◌+ℤ◌
transfer_values = refl
