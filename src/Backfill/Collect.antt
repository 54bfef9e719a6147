-- ===== src/Backfill/Collect.antt =====
-- Page and Collect: one page of a token's history, resolved. An error is `none`.
pub mod Within
use koinos_token_tracker.Base.{
  ℕ, Bool, true, false, Option, none, some, List, [], ◌∷◌, ◌++◌, is_empty, length, ltb,
  if◌then◌else◌,
}
use koinos_token_tracker.Base.Text.{Text}
use koinos_token_tracker.Decimal.{parse_uint}
use koinos_token_tracker.Wire.{Wire}
use koinos_token_tracker.Backfill.{Op, BlockInfo}
use koinos_token_tracker.Backfill.Decode.{Codecs, parse_seq}
use koinos_token_tracker.Backfill.Ops.{HistoryEvent, ops_of}
use koinos_token_tracker.Backfill.Client.{
  HistoryTrx, HistoryBlock, HistoryEntry, Net, Client, Ask, ◌>>=◌, parsed_uint, history, block_of,
}

-- PageSize, which nothing but a test assigns.
abbrev pub page_size : ℕ
page_size = 100

-- `stopped` is 0 while no entry is above the cutoff; `at_end` is the field End.
pub record Page : Type 0 where
  pub entries : ℕ
  pub ops : List Op
  pub last_seq : ℕ
  pub stopped : ℕ
  pub at_end : Bool

-- What the switch on an entry sets: b, txID and events.
pub record Placed : Type 0 where
  pub position : BlockInfo
  pub tx_id : Text
  pub events : List HistoryEvent

abbrev pub block_at : HistoryBlock → Option ℕ → Option (Option Placed)
block_at b none = none
block_at b (some h) = some (
    some (record {
      position = record { height = h; timestamp = (parse_uint b.timestamp).0 };
      tx_id = [];
      events = b.events;
    }))

module _ (net : Net) where
  abbrev pub place_trx : HistoryTrx → Ask (Option Placed)
  place_trx t =
      if is_empty t.id
      then (λ c. (none, c))
      else block_of net t.id >>= λ b c.
          (some (some (record { position = b; tx_id = t.id; events = t.events })), c)

  -- The switch; `some none` is its default case, which goes on with the next entry.
  unfoldable pub place : HistoryEntry → Ask (Option Placed)
  unfolding parse_uint block_of
  place e c = elim e.block [
    | some b ↦ (block_at b (parsed_uint b.height), c)
    | none ↦ elim e.trx [ some t ↦ place_trx t c | none ↦ (some none, c) ]
  ]

  module _ (w : Wire) (k : Codecs) (token : Text) (cutoff : ℕ) where
    abbrev pub added : Page → ℕ → Option (List Op) → Option Page
    added p seq none = none
    added p seq (some ops) = some (record p { ops = p.ops ++ ops; last_seq = seq })

    -- The rest of an entry's round, and whether the loop goes on: an entry above the cutoff ends it.
    unfoldable pub take_placed : ℕ → Placed → Page → Option Page × Bool
    unfolding ops_of
    take_placed seq x p =
        if ltb cutoff x.position.height
        then (some (record p { stopped = x.position.height }), false)
        else (added p seq (ops_of w k token seq x.position x.tx_id x.events), true)

    -- The loop over the entries.
    unfoldable pub collect_entries : List HistoryEntry → Page → Ask Page
    unfolding place take_placed parse_seq
    collect_entries [] p c = (some p, c)
    collect_entries (e ∷ es) p c =
        let (placed, c') = place e c in
        elim placed [
          | none ↦ (none, c')
          | some none ↦ collect_entries es p c'
          | some (some x) ↦
              let (r, goes_on) = take_placed (parse_seq e.seq_num) x p in
              elim r [
                | none ↦ (none, c')
                | some p' ↦ elim goes_on [ true ↦ collect_entries es p' c' | false ↦ (some p', c') ]
              ]
        ]

    abbrev pub empty_page : List HistoryEntry → Page
    empty_page es = record {
      entries = length es;
      ops = [];
      last_seq = 0;
      stopped = 0;
      at_end = ltb (length es) page_size;
    }

    unfoldable pub collect : ℕ → Ask Page
    unfolding history collect_entries
    collect seq = history net token seq page_size >>= λ es. collect_entries es (empty_page es)
