-- ===== src/Indexer/Block.antt =====
-- ProcessBlock: one block and its receipt. The Go map of addresses is a list without repetition,
-- and its iteration order is the order of insertion here.
pub mod Induction
pub mod Balanced
pub mod Reverted
pub mod Addresses
use koinos_token_tracker.Base.{
  ℕ, suc, ◌+◌, Bool, ◌||◌, Option, none, some, List, [], ◌∷◌, length, get_elem?, is_empty,
  if◌then◌else◌,
}
use koinos_token_tracker.Base.Text.{Bytes, Text}
use koinos_token_tracker.Base.TextSet.{TextSet, add}
use koinos_token_tracker.Config.{TokenTrackerConfig}
use koinos_token_tracker.Wire.{Wire}
use koinos_token_tracker.Indexer.Types.{
  BlockHeader, Transaction, TransactionHeader, Block, EventData, TransactionReceipt, BlockReceipt,
  BalanceChange, BlockResult,
}
use koinos_token_tracker.Indexer.Parse.{encode_addr}
use koinos_token_tracker.Indexer.Event.{Found, note_address, process_event}

abbrev pub nothing_found : Found
nothing_found = record { addresses = []; changes = []; transfers = [] }

-- The changes' addresses join the set.
unfoldable pub note_changes : List BalanceChange → TextSet → TextSet
note_changes [] s = s
note_changes (c ∷ cs) s = note_changes cs (note_address c.address s)

-- The header's height, timestamp and signer; the zero values without a header.
abbrev pub header_height : Option BlockHeader → ℕ
header_height none = 0
header_height (some h) = h.height

abbrev pub header_timestamp : Option BlockHeader → ℕ
header_timestamp none = 0
header_timestamp (some h) = h.timestamp

module _ (w : Wire) where
  abbrev pub header_signer : Option BlockHeader → Text
  header_signer none = []
  header_signer (some h) = encode_addr w h.signer

  abbrev note_header : Option TransactionHeader → TextSet → TextSet
  note_header none s = s
  note_header (some h) s =
      note_address (encode_addr w h.payee) (note_address (encode_addr w h.payer) s)

  abbrev note_transaction : Option Transaction → TextSet → TextSet
  note_transaction none s = s
  note_transaction (some tx) s = note_header tx.header s

  -- The payers and the payees.
  unfoldable pub note_transactions : List (Option Transaction) → TextSet → TextSet
  note_transactions [] s = s
  note_transactions (tx ∷ txs) s = note_transactions txs (note_transaction tx s)

  unfoldable pub process_events :
      TokenTrackerConfig → Text → ℕ → List (Option EventData) → Found → Found
  process_events cfg tx_id height [] f = f
  process_events cfg tx_id height (ev ∷ evs) f =
      process_events cfg tx_id height evs (process_event w cfg ev tx_id height f)

  abbrev id_of : Option (Option Transaction) → Text
  id_of none = []
  id_of (some none) = []
  id_of (some (some tx)) = encode_addr w tx.id

  -- The id of the block's i-th transaction, blank if there is none.
  unfoldable pub tx_id_at : List (Option Transaction) → ℕ → Text
  tx_id_at txs i = id_of (get_elem? txs i)

  -- One round of the loop over the transaction receipts: none and reverted ones are passed over.
  unfoldable pub process_receipt :
      TokenTrackerConfig
      → List (Option Transaction)
      → ℕ
      → ℕ
      → Option TransactionReceipt
      → Found
      → Found
  process_receipt cfg txs height i none f = f
  process_receipt cfg txs height i (some r) f =
      if r.reverted then f else process_events cfg (tx_id_at txs i) height r.events f

  unfoldable pub process_receipts :
      TokenTrackerConfig
      → List (Option Transaction)
      → ℕ
      → ℕ
      → List (Option TransactionReceipt)
      → Found
      → Found
  process_receipts cfg txs height i [] f = f
  process_receipts cfg txs height i (r ∷ rs) f =
      process_receipts cfg txs height (suc i) rs (process_receipt cfg txs height i r f)

  -- The part under `receipt != nil`.
  unfoldable pub process_block_receipt :
      TokenTrackerConfig → List (Option Transaction) → ℕ → Option BlockReceipt → Found → Found
  process_block_receipt cfg txs height none f = f
  process_block_receipt cfg txs height (some r) f =
      process_receipts cfg txs height 0 r.transaction_receipts
        (process_events cfg [] height r.events f)

  -- The addresses in the block's header and its transactions' headers.
  unfoldable pub note_block : Block → TextSet
  note_block b = note_transactions b.transactions (note_address (header_signer b.header) [])

  unfoldable pub found_in : TokenTrackerConfig → Block → Option BlockReceipt → Found
  found_in cfg b receipt =
      process_block_receipt cfg b.transactions (header_height b.header) receipt
        (record nothing_found { addresses = note_block b })

  unfoldable pub result_of : TokenTrackerConfig → Block → Option BlockReceipt → BlockResult
  result_of cfg b receipt =
      let f = found_in cfg b receipt in
      record {
        height = header_height b.header;
        block_id = b.id;
        timestamp = header_timestamp b.header;
        signer = header_signer b.header;
        tx_count = length b.transactions;
        addresses = note_changes f.changes f.addresses;
        balance_changes = f.changes;
        transfers = f.transfers;
      }

  unfoldable pub process_block :
      Option TokenTrackerConfig → Option Block → Option BlockReceipt → Option BlockResult
  unfolding result_of
  process_block cfg none receipt = none
  process_block none (some b) receipt = none
  process_block (some cfg) (some b) receipt = some (result_of cfg b receipt)
