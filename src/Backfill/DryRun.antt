-- ===== src/Backfill/DryRun.antt =====
-- DryRun: the whole history on a map of balances, without a database. The loop runs on fuel.
pub mod Agrees
pub mod Deadline
use koinos_token_tracker.Base.{
  ℕ, zero, suc, ◌+◌, ◌%◌, ◌^◌, Bool, true, false, Option, none, some, List, [], ◌∷◌, is_empty,
  length, ltb, if◌then◌else◌,
}
use koinos_token_tracker.Base.Int.{ℤ, ◌+ℤ◌}
use koinos_token_tracker.Base.Text.{Text, codes, text_eq}
use koinos_token_tracker.Decimal.{max_uint64}
use koinos_token_tracker.Wire.{Wire}
use koinos_token_tracker.Indexer.Event.{int64, neg_int64}
use koinos_token_tracker.Sync.Process.{big_or_zero, clamp}
use koinos_token_tracker.Backfill.{Op}
use koinos_token_tracker.Backfill.Decode.{Codecs}
use koinos_token_tracker.Backfill.Client.{Net, Client, tick, new_client}
use koinos_token_tracker.Backfill.Collect.{Page, collect}
use koinos_token_tracker.Backfill.Run.{
  RunResult, RunError, cancelled, collect_failed, Ending, finished, failed, out_of_fuel, counted,
}

-- The map `balances`; an address that is not in it has `none`.
abbrev pub Holdings : Type 0
Holdings = Text → Option ℤ

-- The closure `add`.
unfoldable pub add : Text → ℤ → Holdings → Holdings
unfolding clamp ◌+ℤ◌ text_eq
add addr delta b = if is_empty addr then b else λ a.
    if text_eq addr a then some (clamp (big_or_zero (b addr) +ℤ delta)) else b a

-- The switch on the operation's type.
unfoldable pub add_op : Op → Holdings → Holdings
unfolding add
add_op op b =
    if text_eq op.event_type (codes "transfer")
    then add op.receiver (int64 op.value) (add op.sender (neg_int64 (int64 op.value)) b)
    else if text_eq op.event_type (codes "mint")
    then add op.receiver (int64 op.value) b
    else if text_eq op.event_type (codes "burn")
    then add op.sender (neg_int64 (int64 op.value)) b
    else b

unfoldable pub add_page : List Op → Holdings → Holdings
unfolding add_op
add_page [] b = b
add_page (op ∷ ops) b = add_page ops (add_op op b)

-- next cursor, like Run
abbrev pub next_cursor : Page → ℕ
next_cursor page = (page.last_seq + 1) % 2 ^ 64

abbrev pub tallied : RunResult → Page → RunResult
tallied r page =
    let r' = counted r page in
    if ltb 0 page.entries then record r' { last_seq = next_cursor page } else r'

abbrev pub nothing_yet : RunResult
nothing_yet = record { entries = 0; ops = 0; done = false; last_seq = 0; stopped_at = 0 }

-- How it ends, the balances and the result.
abbrev pub Dry : Type 0
Dry = Ending × Holdings × RunResult

module _ (net : Net) (w : Wire) (k : Codecs) (token : Text) where
  abbrev pub dry_page :
      (ℕ → RunResult → Client → Holdings → Dry) → RunResult → Client → Holdings → Page → Dry
  dry_page next_round r c b page = elim page.at_end [
    | true ↦ (finished, add_page page.ops b, record (tallied r page) { done = true })
    | false ↦ next_round (next_cursor page) (tallied r page) c (add_page page.ops b)
  ]

  unfoldable pub dry_loop : ℕ → ℕ → RunResult → Client → Holdings → Dry
  unfolding collect add_page
  dry_loop zero seq r c b = (out_of_fuel, b, r)
  dry_loop (suc fuel) seq r c b = elim (net.is_cancelled c.time) [
    | true ↦ (failed cancelled, b, r)
    | false ↦
        let (page, c') = collect net w k token max_uint64 seq (tick c) in
        elim page [
          | none ↦ (failed collect_failed, b, r)
          | some p ↦ dry_page (dry_loop fuel) r c' b p
        ]
  ]

  unfoldable pub dry_run : ℕ → Text → Text → Dry
  unfolding dry_loop new_client
  dry_run fuel rest_url fallback_url =
      dry_loop fuel 0 nothing_yet (new_client rest_url fallback_url 0) (λ a. none)
