-- ===== src/Sync/Catchup.antt =====
-- SyncToHead: batches of blocks up to the last irreversible one. The chain's and the block store's
-- answers, and the cancellation of the context, are functions of the round of the loop.
pub mod Ends
pub mod Skips
pub mod Total
use koinos_token_tracker.Base.{
  ℕ, zero, suc, ◌+◌, ◌-◌, ◌%◌, ◌^◌, Bool, Option, none, some, List, [], ◌∷◌, is_empty, ltb, ◌==◌,
  if◌then◌else◌,
}
use koinos_token_tracker.Base.Text.{Bytes}
use koinos_token_tracker.Config.{TokenTrackerConfig}
use koinos_token_tracker.Wire.{Wire}
use koinos_token_tracker.Indexer.Types.{Block, BlockReceipt}
use koinos_token_tracker.Store.Types.{Store}
use koinos_token_tracker.Store.Action.{
  Error, message, wrap, Result, ok, err, blocked, Action, context, ◌>>=◌, ◌>>◌,
}
use koinos_token_tracker.Store.Does.{for_each}
use koinos_token_tracker.Store.Batch.{in_batch}
use koinos_token_tracker.Store.Reads.{get_sync_state}
use koinos_token_tracker.Sync.Process.{process_and_store_internal}

abbrev pub batch_size : ℕ
batch_size = 1000

-- What GetHeadInfo returns.
pub record HeadInfo : Type 0 where
  pub height : ℕ
  pub block_id : Bytes
  pub lib : ℕ

pub record BlockItem : Type 0 where
  pub block : Option Block
  pub receipt : Option BlockReceipt

-- The node over AMQP; `none` is an error. Round 0 is before the loop. `get_blocks` is given the
-- round, the head block, the first height and the number of blocks.
pub record Chain : Type 0 where
  pub get_head_info : ℕ → Option HeadInfo
  pub get_blocks : ℕ → Bytes → ℕ → ℕ → Option (List BlockItem)
  pub is_cancelled : ℕ → Bool

-- The variables of the loop.
pub record Progress : Type 0 where
  pub current_height : ℕ
  pub target_height : ℕ
  pub head_block_id : Bytes
  pub empty_retries : ℕ
  pub round : ℕ

-- The last irreversible block, or the head if that is not known.
unfoldable pub target_of : HeadInfo → ℕ
target_of i = if i.lib == 0 then i.height else i.lib

-- currentHeight += batchSize, on uint64
abbrev pub advance : ℕ → ℕ
advance h = (h + batch_size) % 2 ^ 64

-- count := batchSize, or what remains if that is less
unfoldable pub count_of : Progress → ℕ
count_of p =
    let remaining = p.target_height - p.current_height + 1 in
    if ltb remaining batch_size then remaining else batch_size

-- How a round ends: the loop is left with a result, or goes on (after the post statement).
pub data Next : Type 0 where
  leave : Result (Unit {0}) → Next
  go_on : Progress → Next

module _ (w : Wire) (cfg : TokenTrackerConfig) (chain : Chain) where
  unfoldable pub process_items : List BlockItem → Action (Unit {0})
  unfolding for_each process_and_store_internal
  process_items =
      for_each (λ i.
        context "process block at height" (process_and_store_internal w cfg i.block i.receipt))

  -- The head is asked for anew.
  unfoldable pub refresh : Progress → Next
  unfolding target_of
  refresh p = elim (chain.get_head_info p.round) [
    | none ↦ leave (err (message "refresh head info"))
    | some i ↦
        (if ltb (target_of i) p.current_height
          then leave (ok tt)
          else go_on (record p {
            current_height = advance p.current_height;
            target_height = target_of i;
            head_block_id = i.block_id;
            empty_retries = 0;
            round = suc p.round;
          }))
  ]

  -- No block was returned: `continue` runs the post statement too.
  unfoldable pub on_empty : Progress → Next
  unfolding refresh
  on_empty p =
      if ltb 5 (p.empty_retries + 1)
      then refresh p
      else go_on (record p {
        current_height = advance p.current_height;
        empty_retries = p.empty_retries + 1;
        round = suc p.round;
      })

  abbrev pub after_batch : Progress → Result (Unit {0}) → Next
  after_batch p (ok _) = go_on (record p {
    current_height = advance p.current_height;
    empty_retries = 0;
    round = suc p.round;
  })
  after_batch p (err e) = leave (err e)
  after_batch p blocked = leave blocked

  unfoldable pub on_items : Progress → List BlockItem → Store → Next × Store
  unfolding on_empty in_batch process_items
  on_items p [] s = (on_empty p, s)
  on_items p (i ∷ items) s =
      let (r, s') =
        in_batch (wrap "begin batch at height") (process_items (i ∷ items))
          (wrap "commit batch at height") s in
      (after_batch p r, s')

  -- One round of the loop.
  unfoldable pub sync_round : Progress → Store → Next × Store
  unfolding on_items count_of
  sync_round p s =
      if ltb p.target_height p.current_height
      then (leave (ok tt), s)
      else if chain.is_cancelled p.round
      then (leave (err (message "context cancelled during sync")), s)
      else elim (chain.get_blocks p.round p.head_block_id p.current_height (count_of p)) [
        | none ↦ (leave (err (message "fetch blocks at height")), s)
        | some items ↦ on_items p items s
      ]

  -- The loop on fuel; `none` means that the fuel ran out.
  unfoldable pub sync_loop : ℕ → Progress → Store → Option (Result (Unit {0})) × Store
  sync_loop zero p s = (none, s)
  sync_loop (suc fuel) p s =
      let (n, s') = sync_round p s in
      elim n [ leave r ↦ (some r, s') | go_on p' ↦ sync_loop fuel p' s' ]

  -- startHeight := lastHeight + 1, on uint64
  abbrev pub start_of : ℕ → HeadInfo → Progress
  start_of last_height i = record {
    current_height = if last_height == 0 then 1 else (last_height + 1) % 2 ^ 64;
    target_height = target_of i;
    head_block_id = i.block_id;
    empty_retries = 0;
    round = 1;
  }

  abbrev pub from_head : ℕ → ℕ → Option HeadInfo → Store → Option (Result (Unit {0})) × Store
  from_head fuel last_height none s = (some (err (message "get head info")), s)
  from_head fuel last_height (some i) s = sync_loop fuel (start_of last_height i) s

  abbrev pub from_state : ℕ → Result (ℕ × List ℕ) → Store → Option (Result (Unit {0})) × Store
  from_state fuel (ok r) s = from_head fuel r.0 (chain.get_head_info 0) s
  from_state fuel (err e) s = (some (err (wrap "get sync state" e)), s)
  from_state fuel blocked s = (some blocked, s)

  unfoldable pub sync_to_head : ℕ → Store → Option (Result (Unit {0})) × Store
  unfolding get_sync_state sync_loop sync_round target_of
  sync_to_head fuel s = let (r, s') = get_sync_state s in from_state fuel r s'
