-- ===== src/Sync/Catchup/Skips.antt =====
-- What the loop does when no block is returned.
use koinos_token_tracker.Base.{ℕ, suc, ◌+◌, ◌≤◌, ◌<◌, ◌≡◌, false, some, [], arith}
use koinos_token_tracker.Config.{TokenTrackerConfig}
use koinos_token_tracker.Wire.{Wire}
use koinos_token_tracker.Store.Types.{Store}
use koinos_token_tracker.Sync.Catchup.{
  Chain, Progress, advance, count_of, on_items, on_empty, sync_round, sync_loop,
}

-- When a round's answer is empty and the retry limit is not met, the loop goes on 1000 heights
-- further with the store as it was: the heights of the empty answer are not asked for again.
pub sync_loop-empty :
    (w : Wire) (cfg : TokenTrackerConfig) (chain : Chain) (fuel : ℕ) (p : Progress) (s : Store)
    → p.current_height ≤ p.target_height
    → chain.is_cancelled p.round ≡ false
    → chain.get_blocks p.round p.head_block_id p.current_height (count_of p) ≡ some []
    → p.empty_retries < 5
    → sync_loop w cfg chain (suc fuel) p s
      ≡ sync_loop w cfg chain fuel
          (record p {
            current_height = advance p.current_height;
            empty_retries = p.empty_retries + 1;
            round = suc p.round;
          })
          s
unfolding sync_loop sync_round on_items on_empty
sync_loop-empty w cfg chain fuel p s within alive empty few = ground arith
