-- ===== src/Store/Writes.antt =====
-- The statements of internal/store/sqlite.go that write, and the meaning of each SQL text on the
-- tables.
pub mod Changes
use koinos_token_tracker.Base.{
  ℕ, suc, Bool, ◌&&◌, not, List, [], ◌∷◌, ◌++◌, filter, ltb, ◌==◌, if◌then◌else◌,
}
use koinos_token_tracker.Base.Text.{Text, text_eq}
use koinos_token_tracker.Base.Table.{upsert}
use koinos_token_tracker.Store.Types.{
  Address, Balance, Block, Token, Backfill, Transfer, SyncState, Db, Store,
}
use koinos_token_tracker.Store.Action.{Action, context, statement}

-- UPDATE sync_state SET … WHERE id = 1
unfoldable pub put_sync_state : ℕ → Text → ℕ → Db → Db
put_sync_state height block_id now d = record d {
  sync_state = record { last_height = height; last_block_id = block_id; updated_at = now };
}

unfoldable pub set_sync_state : ℕ → Text → Action (Unit {0})
unfolding put_sync_state statement
set_sync_state height block_id s =
    context "set sync state" (statement (put_sync_state height block_id s.now)) s

-- INSERT INTO addresses … ON CONFLICT(address) DO NOTHING
unfoldable pub put_address : Text → ℕ → ℕ → Db → Db
unfolding upsert
put_address address height time d = record d {
  addresses =
      upsert (λ r. text_eq r.address address)
        (record { address = address; first_seen_height = height; first_seen_time = time }) (λ r. r)
        d.addresses;
}

unfoldable pub upsert_address : Text → ℕ → ℕ → Action (Unit {0})
unfolding put_address statement
upsert_address address height time =
    context "upsert address" (statement (put_address address height time))

-- DO UPDATE SET … WHERE excluded.first_seen_height < addresses.first_seen_height
unfoldable pub put_first_seen : Text → ℕ → ℕ → Db → Db
unfolding upsert
put_first_seen address height time d = record d {
  addresses =
      upsert (λ r. text_eq r.address address)
        (record { address = address; first_seen_height = height; first_seen_time = time })
        (λ r.
          if ltb height r.first_seen_height
          then record r { first_seen_height = height; first_seen_time = time }
          else r)
        d.addresses;
}

unfoldable pub lower_first_seen : Text → ℕ → ℕ → Action (Unit {0})
unfolding put_first_seen statement
lower_first_seen address height time =
    context "lower first seen" (statement (put_first_seen address height time))

abbrev pub is_balance_of : Text → Text → Balance → Bool
is_balance_of address token r = text_eq r.address address && text_eq r.token token

-- INSERT INTO balances … ON CONFLICT(address, token) DO UPDATE SET balance, updated_height
unfoldable pub put_balance : Text → Text → Text → ℕ → Db → Db
unfolding upsert
put_balance address token balance height d = record d {
  balances =
      upsert (is_balance_of address token)
        (record { address = address; token = token; balance = balance; updated_height = height })
        (λ r. record r { balance = balance; updated_height = height }) d.balances;
}

unfoldable pub set_balance : Text → Text → Text → ℕ → Action (Unit {0})
unfolding put_balance statement
set_balance address token balance height =
    context "set balance" (statement (put_balance address token balance height))

-- INSERT INTO blocks … ON CONFLICT(height) DO UPDATE SET …
unfoldable pub put_block : Block → Db → Db
unfolding upsert
put_block b d = record d { blocks = upsert (λ r. r.height == b.height) b (λ r. b) d.blocks }

unfoldable pub insert_block : ℕ → Text → ℕ → Text → ℕ → Action (Unit {0})
unfolding put_block statement
insert_block height block_id timestamp signer tx_count = context "insert block" (
    statement (
      put_block (record {
        height = height;
        block_id = block_id;
        timestamp = timestamp;
        signer = signer;
        tx_count = tx_count;
      })))

-- INSERT INTO tokens … ON CONFLICT(address) DO UPDATE SET …
unfoldable pub put_token : Token → Db → Db
unfolding upsert
put_token t d = record d { tokens = upsert (λ r. text_eq r.address t.address) t (λ r. t) d.tokens }

unfoldable pub upsert_token : Text → Text → ℕ → Text → Action (Unit {0})
unfolding put_token statement
upsert_token address symbol decimals total_supply = context "upsert token" (
    statement (
      put_token (record {
        address = address;
        symbol = symbol;
        decimals = decimals;
        total_supply = total_supply;
      })))

-- INSERT INTO token_backfill … ON CONFLICT(token) DO UPDATE SET …
unfoldable pub put_backfill : Backfill → Db → Db
unfolding upsert
put_backfill b d = record d {
  backfills = upsert (λ r. text_eq r.token b.token) b (λ r. b) d.backfills;
}

-- updated_at is the time of the write, whatever the record says.
unfoldable pub upsert_backfill : Backfill → Action (Unit {0})
unfolding put_backfill statement
upsert_backfill b s =
    context "upsert backfill" (statement (put_backfill (record b { updated_at = s.now }))) s

-- INSERT INTO transfers: the id comes from the counter.
unfoldable pub put_transfer : ℕ → Text → Text → Text → Text → Text → Text → ℕ → Db → Db
put_transfer height tx_id token sender receiver value event_type timestamp d = record d {
  transfers =
      d.transfers
      ++ record {
        id = d.next_id;
        height = height;
        tx_id = tx_id;
        token = token;
        sender = sender;
        receiver = receiver;
        value = value;
        event_type = event_type;
        timestamp = timestamp;
      }
        ∷ [];
  next_id = suc d.next_id;
}

unfoldable pub insert_transfer : ℕ → Text → Text → Text → Text → Text → Text → ℕ → Action (Unit {0})
unfolding put_transfer statement
insert_transfer height tx_id token sender receiver value event_type timestamp =
    context "insert transfer"
      (statement (put_transfer height tx_id token sender receiver value event_type timestamp))

-- DELETE FROM balances WHERE token = ?
unfoldable pub delete_balances : Text → Db → Db
delete_balances token d = record d {
  balances = filter (λ r. not (text_eq r.token token)) d.balances;
}

unfoldable pub reset_token_balances : Text → Action (Unit {0})
unfolding delete_balances statement
reset_token_balances token = context "reset token balances" (statement (delete_balances token))

-- DELETE FROM transfers WHERE height = ?
unfoldable pub delete_transfers : ℕ → Db → Db
delete_transfers height d = record d {
  transfers = filter (λ r. not (r.height == height)) d.transfers;
}

unfoldable pub delete_transfers_at_height : ℕ → Action (Unit {0})
unfolding delete_transfers statement
delete_transfers_at_height height =
    context "delete transfers at height" (statement (delete_transfers height))
