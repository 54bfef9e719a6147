-- ===== src/Backfill/Run.antt =====
-- Run: the pages of a token's history, applied one by one. The loop runs on fuel.
pub mod Complete
pub mod Cursor
pub mod Deadline
use koinos_token_tracker.Base.{
  ℕ, zero, suc, ◌+◌, ◌%◌, ◌^◌, Bool, true, false, ◌&&◌, not, Option, none, some, List, [], ◌∷◌,
  length, ltb, leb, if◌then◌else◌,
}
use koinos_token_tracker.Base.Text.{Text}
use koinos_token_tracker.Wire.{Wire}
use koinos_token_tracker.Store.Types.{Backfill, Store}
use koinos_token_tracker.Store.Action.{Error, Result, ok, err, blocked}
use koinos_token_tracker.Store.Reads.{get_backfill}
use koinos_token_tracker.Backfill.Decode.{Codecs}
use koinos_token_tracker.Backfill.Client.{Net, Client, tick, new_client, history_height}
use koinos_token_tracker.Backfill.Collect.{Page, collect}
use koinos_token_tracker.Backfill.Apply.{apply}

-- The struct Result. `ops` counts the operations.
pub record RunResult : Type 0 where
  pub entries : ℕ
  pub ops : ℕ
  pub done : Bool
  pub last_seq : ℕ
  pub stopped_at : ℕ

pub data RunError : Type 0 where
  store_failed : Error → RunError
  not_registered : RunError
  cancelled : RunError
  collect_failed : RunError
  height_unknown : RunError
  height_below : ℕ → RunError

-- How Run ends: without an error, with one, or in a call of the store that never returns. The last
-- is for the fuel's end.
pub data Ending : Type 0 where
  finished : Ending
  failed : RunError → Ending
  stuck : Ending
  out_of_fuel : Ending

-- What the check of a short page says: done, covered and lagErr.
pub record Tail : Type 0 where
  pub is_done : Bool
  pub covered : Bool
  pub lag : Option RunError

-- The variables of the loop: seq, covered and res.
pub record Loop : Type 0 where
  pub seq : ℕ
  pub covered : Bool
  pub result : RunResult

abbrev pub next_seq : ℕ → Page → ℕ
next_seq seq page =
    if ltb 0 page.entries && leb seq page.last_seq then (page.last_seq + 1) % 2 ^ 64 else seq

abbrev pub counted : RunResult → Page → RunResult
counted r page = record r { entries = r.entries + page.entries; ops = r.ops + length page.ops }

abbrev pub from_height : ℕ → Option ℕ → Tail
from_height cutoff none = record { is_done = false; covered = false; lag = some height_unknown }
from_height cutoff (some h) =
    if ltb h cutoff
    then record { is_done = false; covered = false; lag = some (height_below h) }
    else record { is_done = false; covered = true; lag = none }

module _ (net : Net) (w : Wire) (k : Codecs) (token ref : Text) where
  unfoldable pub tail_of : Page → Bool → ℕ → Client → Tail × Client
  unfolding history_height
  tail_of page covered cutoff c =
      if ltb 0 page.stopped
      then (record { is_done = true; covered = covered; lag = none }, c)
      else if not page.at_end
      then (record { is_done = false; covered = covered; lag = none }, c)
      else if covered
      then (record { is_done = true; covered = true; lag = none }, c)
      else let (h, c') = history_height net ref c in (from_height cutoff h, c')

  abbrev pub progress_of : Backfill → ℕ → Bool → Backfill
  progress_of bf next done = record bf { next_seq = next; done = done }

  abbrev pub Ended : Type 0
  Ended = Ending × RunResult × Store

  -- After apply: the error of the history's lag, the end, or the next round.
  abbrev pub after_apply :
      (Loop → Client → Store → Ended)
      → Loop
      → Page
      → Tail
      → Client
      → Result (Unit {0}) × Store
      → Ended
  after_apply next_round l page tail c (err e, s) =
      (failed (store_failed e), counted l.result page, s)
  after_apply next_round l page tail c (blocked, s) = (stuck, counted l.result page, s)
  after_apply next_round l page tail c (ok _, s) =
      let next = next_seq l.seq page in
      let res = record (counted l.result page) { last_seq = next } in
      elim tail.lag [
        | some e ↦ (failed e, res, s)
        | none ↦ elim tail.is_done [
          | true ↦ (finished, record res { done = true; stopped_at = page.stopped }, s)
          | false ↦ next_round (record { seq = next; covered = tail.covered; result = res }) c s
        ]
      ]

  -- The part of a round after Collect.
  unfoldable pub with_page :
      (Loop → Client → Store → Ended) → Backfill → Loop → Page → Client → Store → Ended
  unfolding tail_of apply
  with_page next_round bf l page c s =
      let (tail, c') = tail_of page l.covered bf.cutoff_height c in
      after_apply next_round l page tail c'
        (apply token page.ops (progress_of bf (next_seq l.seq page) tail.is_done) s)

  unfoldable pub run_loop : ℕ → Backfill → Loop → Client → Store → Ended
  unfolding collect with_page
  run_loop zero bf l c s = (out_of_fuel, l.result, s)
  run_loop (suc fuel) bf l c s = elim (net.is_cancelled c.time) [
    | true ↦ (failed cancelled, l.result, s)
    | false ↦
        let (r, c') = collect net w k token bf.cutoff_height l.seq (tick c) in
        elim r [
          | none ↦ (failed collect_failed, l.result, s)
          | some page ↦ with_page (run_loop fuel bf) bf l page c' s
        ]
  ]

  abbrev pub empty_result : RunResult
  empty_result = record { entries = 0; ops = 0; done = false; last_seq = 0; stopped_at = 0 }

  -- The rest of Run on a record, by whether it is done.
  abbrev pub resume : ℕ → Text → Text → Backfill → Store → Bool → Ended
  resume fuel rest_url fallback_url bf s true =
      (finished, record empty_result { last_seq = bf.next_seq; done = true }, s)
  resume fuel rest_url fallback_url bf s false =
      run_loop fuel bf
        (record {
          seq = bf.next_seq;
          covered = false;
          result = record empty_result { last_seq = bf.next_seq };
        })
        (new_client rest_url fallback_url 0) s

  abbrev pub from_record : ℕ → Text → Text → Result (Option Backfill) × Store → Ended
  from_record fuel rest_url fallback_url (err e, s) = (failed (store_failed e), empty_result, s)
  from_record fuel rest_url fallback_url (blocked, s) = (stuck, empty_result, s)
  from_record fuel rest_url fallback_url (ok none, s) = (failed not_registered, empty_result, s)
  from_record fuel rest_url fallback_url (ok (some bf), s) =
      resume fuel rest_url fallback_url bf s bf.done

  unfoldable pub run : ℕ → Text → Text → Store → Ended
  unfolding get_backfill run_loop
  run fuel rest_url fallback_url s = from_record fuel rest_url fallback_url (get_backfill token s)
