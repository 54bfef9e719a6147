-- ===== src/Indexer/Event.antt =====
-- processEvent: the addresses, balance changes and transfer records of one event.
pub mod Moves
pub mod Sound
use koinos_token_tracker.Base.{
  ℕ, suc, ◌-◌, ◌^◌, Bool, true, false, ◌&&◌, ◌||◌, not, Option, none, some, List, [], ◌∷◌, ◌++◌,
  is_empty, ltb, ◌==◌, if◌then◌else◌,
}
use koinos_token_tracker.Base.Int.{ℤ, pos, negsuc, neg, pos_part, neg_part}
use koinos_token_tracker.Base.Text.{Bytes, Text, codes, text_eq, contains, has_prefix}
use koinos_token_tracker.Base.TextSet.{TextSet, add}
use koinos_token_tracker.Config.{TokenTrackerConfig}
use koinos_token_tracker.Wire.{Wire}
use koinos_token_tracker.Indexer.Types.{EventData, TransferRecord, BalanceChange}
use koinos_token_tracker.Indexer.Tokens.{is_token_event, affects_balance, normalize_token}
use koinos_token_tracker.Indexer.Parse.{
  TransferLoop, PartyLoop, encode_addr, parse_transfer_event, parse_mint_event, parse_burn_event,
}

abbrev pub max_safe_value : ℕ
max_safe_value = 2 ^ 63 - 1

-- int64(v) of a uint64 v: the upper half of the range wraps to the negative numbers.
abbrev pub int64 : ℕ → ℤ
int64 v = if ltb v (2 ^ 63) then pos v else negsuc (2 ^ 64 - v - 1)

-- -x on int64, where the least number is its own negation.
abbrev pub neg_int64 : ℤ → ℤ
neg_int64 x = if neg_part x == 2 ^ 63 then x else neg x

-- What processEvent appends to: the map and the two slices.
pub record Found : Type 0 where
  pub addresses : TextSet
  pub changes : List BalanceChange
  pub transfers : List TransferRecord

-- if addr != "" { addrSet[addr] = struct{}{} }
unfoldable pub note_address : Text → TextSet → TextSet
note_address addr s = if is_empty addr then s else add addr s

-- What the three cases of the switch share: the event's token, whether it moves balances, and the
-- transaction.
pub record Context : Type 0 where
  pub tx_id : Text
  pub token : Text
  pub update_balance : Bool

-- if updateBalance { if addr != "" { *changes = append(*changes, …) } }
unfoldable pub change_of : Context → Text → ℤ → List BalanceChange
change_of x addr delta =
    if x.update_balance && not (is_empty addr)
    then record { address = addr; token = x.token; delta = delta } ∷ []
    else []

-- value == 0 || value > maxSafeValue
unfoldable pub is_unusable : ℕ → Bool
is_unusable value = (value == 0) || ltb max_safe_value value

unfoldable pub add_transfer : Context → Text → Text → ℕ → Found → Found
unfolding is_unusable change_of
add_transfer x from_addr to_addr value f = if is_unusable value then f else record f {
  changes =
      f.changes
      ++ (change_of x from_addr (neg_int64 (int64 value)) ++ change_of x to_addr (int64 value));
  transfers =
      f.transfers
      ++ record {
        tx_id = x.tx_id;
        token = x.token;
        sender = from_addr;
        receiver = to_addr;
        value = value;
        event_type = codes "transfer";
      }
        ∷ [];
}

unfoldable pub add_mint : Context → Text → ℕ → Found → Found
unfolding is_unusable change_of
add_mint x to_addr value f = if is_unusable value then f else record f {
  changes = f.changes ++ change_of x to_addr (int64 value);
  transfers =
      f.transfers
      ++ record {
        tx_id = x.tx_id;
        token = x.token;
        sender = [];
        receiver = to_addr;
        value = value;
        event_type = codes "mint";
      }
        ∷ [];
}

unfoldable pub add_burn : Context → Text → ℕ → Found → Found
unfolding is_unusable change_of
add_burn x from_addr value f = if is_unusable value then f else record f {
  changes = f.changes ++ change_of x from_addr (neg_int64 (int64 value));
  transfers =
      f.transfers
      ++ record {
        tx_id = x.tx_id;
        token = x.token;
        sender = from_addr;
        receiver = [];
        value = value;
        event_type = codes "burn";
      }
        ∷ [];
}

-- strings.Contains(name, word) || name == "koinos.contracts.token." + word
unfoldable pub names_event : Text → Text → Bool
unfolding contains
names_event name word = contains name word || text_eq name (codes "koinos.contracts.token." ++ word)

module _ (w : Wire) where
  unfoldable pub note_impacted : List Bytes → TextSet → TextSet
  unfolding note_address
  note_impacted [] s = s
  note_impacted (imp ∷ imps) s = note_impacted imps (note_address (encode_addr w imp) s)

  -- The switch on the event's name.
  unfoldable pub dispatch : Context → EventData → Found → Found
  unfolding names_event
  dispatch x ev f =
      if names_event ev.name (codes "transfer_event")
      then (let r = parse_transfer_event w ev.payload in
          add_transfer x (encode_addr w r.sender) (encode_addr w r.receiver) r.value f)
      else if names_event ev.name (codes "mint_event")
      then (let r = parse_mint_event w ev.payload in add_mint x (encode_addr w r.party) r.value f)
      else if names_event ev.name (codes "burn_event")
      then (let r = parse_burn_event w ev.payload in add_burn x (encode_addr w r.party) r.value f)
      else f

  unfoldable pub process_event : TokenTrackerConfig → Option EventData → Text → ℕ → Found → Found
  process_event cfg none tx_id height f = f
  process_event cfg (some ev) tx_id height f =
      let source = encode_addr w ev.source in
      let seen = record f {
        addresses = note_impacted ev.impacted (note_address source f.addresses);
      } in
      if is_token_event cfg source
      then dispatch
          (record {
            tx_id = tx_id;
            token = normalize_token cfg source;
            update_balance = affects_balance cfg source height;
          })
          ev seen
      else seen
