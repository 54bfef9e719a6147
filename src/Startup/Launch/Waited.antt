-- ===== src/Startup/Launch/Waited.antt =====
-- The loop around runBackfills.
use koinos_token_tracker.Base.{
  ℕ, zero, suc, ◌<◌, ◌≡◌, ◌≢◌, refl, sym, ◌⊎◌, true, false, none, ◌||◌, some, List, [], ◌∷◌, All,
  ◌+◌, Bool, if◌then◌else◌, arith, inl, inr, Bool-cases,
}
use mathlib.Core.Path.{subst}
use koinos_token_tracker.Base.Text.{Text}
use koinos_token_tracker.Base.Sort.Rows.{sort-All}
use koinos_token_tracker.Decimal.Order.{text_ltb}
use koinos_token_tracker.Store.Action.{driver, wrap, query, next_fault}
use koinos_token_tracker.Store.Reads.{list_backfills}
use koinos_token_tracker.Config.{TokenTrackerConfig}
use koinos_token_tracker.Wire.{Wire}
use koinos_token_tracker.Store.Types.{Backfill, Db, Store}
use koinos_token_tracker.Store.Records.{
  find_record, put_record, IsKeyed, IsKeyed-found, put_record-IsKeyed, Has, put_record-Has,
  All-found,
}
use koinos_token_tracker.Backfill.Decode.{Codecs}
use koinos_token_tracker.Startup.Replay.{
  ReplayEnd, all_replayed, stopped, interrupted, unlisted, never_returns, fuel_ended, World, replay,
  run_backfills,
}
use koinos_token_tracker.Startup.Replay.Checked.{IsFree}
use koinos_token_tracker.Startup.Replay.Complete.{run_backfills-IsDone}
use koinos_token_tracker.Startup.Replay.Keeps.{run_backfills-IsKept}
use koinos_token_tracker.Startup.Launch.{
  Flags, Outside, Wait, replayed, over, hangs, waits_on, retry, after_try, wait_for_backfills,
}

-- The token's history is replayed: it has a record, which says done.
abbrev pub HasHistory : Text → Db → Type 0
HasHistory token d = (b : Backfill) × ((find_record token d.backfills ≡ some b) × (b.done ≡ true))

-- How many calls the schedule still fails.
abbrev pub failures : List Bool → ℕ
failures [] = 0
failures (b ∷ bs) = (if b then 1 else 0) + failures bs

failures-rest :
    (bs : List Bool) → (next_fault bs).0 ≡ true → failures (next_fault bs).1 < failures bs
failures-rest [] h = cc
failures-rest (b ∷ bs) h = rw h (omega arith)

over-replayed : over ≢ replayed
over-replayed z = cc

hangs-replayed : hangs ≢ replayed
hangs-replayed z = cc

waits_on-replayed : waits_on ≢ replayed
waits_on-replayed z = cc

module _ (w : Wire) (k : Codecs) (outside : Outside) (flags : Flags) (cfg : TokenTrackerConfig)
    (rounds : ℕ) where
  abbrev pub tried : ℕ → Store → ReplayEnd × Store
  tried n s =
      run_backfills w k (outside.world n) cfg.koin_contract flags.rest_url flags.fallback_url rounds
        s

  retry-HasHistory :
      (token : Text) (next : Store → Wait × Store) (n : ℕ) (s : Store)
      → ((next s).0 ≡ replayed → HasHistory token (next s).1.db)
      → (retry w k outside flags cfg next n s).0 ≡ replayed
      → HasHistory token (retry w k outside flags cfg next n s).1.db
  retry-HasHistory token next n s h e =
      elim (Bool-cases (outside.is_over n || outside.is_over_waiting n)) [
        | inl x ↦ absurd (over-replayed (rw (x, retry) at e))
        | inr x ↦ rw (x, retry) (h (rw (x, retry) at e))
      ]

  after_try-HasHistory :
      (token : Text) (next : Store → Wait × Store) (n : ℕ) (x : ReplayEnd × Store)
      → (x.0 ≡ all_replayed → HasHistory token x.1.db)
      → ((next x.1).0 ≡ replayed → HasHistory token (next x.1).1.db)
      → (after_try w k outside flags cfg next n x).0 ≡ replayed
      → HasHistory token (after_try w k outside flags cfg next n x).1.db
  after_try-HasHistory token next n (all_replayed, s) now h e = now refl
  after_try-HasHistory token next n (stopped t q z, s) now h e = retry-HasHistory token next n s h e
  after_try-HasHistory token next n (interrupted, s) now h e = retry-HasHistory token next n s h e
  after_try-HasHistory token next n (unlisted z, s) now h e = retry-HasHistory token next n s h e
  after_try-HasHistory token next n (never_returns, s) now h e = absurd (hangs-replayed e)
  after_try-HasHistory token next n (fuel_ended, s) now h e = absurd (waits_on-replayed e)

  tried-HasHistory :
      (token : Text) (n : ℕ) (s : Store)
      → IsFree s
      → IsKeyed s.db.backfills
      → Has token s.db.backfills
      → (tried n s).0 ≡ all_replayed
      → HasHistory token (tried n s).1.db
  tried-HasHistory token n s free keyed has e =
      All-found (λ t. HasHistory t (tried n s).1.db) token s.db.backfills
        (run_backfills-IsDone w k (outside.world n) cfg.koin_contract flags.rest_url
          flags.fallback_url rounds s free (IsKeyed-found s.db.backfills keyed) e)
        has

  -- A token that has a record when the wait begins has its history replayed when the wait ends well.
  pub wait-HasHistory :
      (token : Text) (fuel n : ℕ) (s : Store)
      → IsFree s
      → IsKeyed s.db.backfills
      → Has token s.db.backfills
      → (wait_for_backfills w k outside flags cfg rounds fuel n s).0 ≡ replayed
      → HasHistory token (wait_for_backfills w k outside flags cfg rounds fuel n s).1.db
  unfolding wait_for_backfills
  wait-HasHistory token zero n s free keyed has e = absurd (waits_on-replayed e)
  wait-HasHistory token (suc fuel) n s free keyed has e =
      let kept =
        λ (P : List Backfill → Type 0)
            (keep : (b : Backfill) (rows : List Backfill) → P rows → P (put_record b rows))
            (h : P s.db.backfills).
          run_backfills-IsKept P keep w k (outside.world n) cfg.koin_contract flags.rest_url
            flags.fallback_url rounds s (free, h) in
      after_try-HasHistory token (wait_for_backfills w k outside flags cfg rounds fuel (suc n)) n
        (tried n s) (tried-HasHistory token n s free keyed has)
        (wait-HasHistory token fuel (suc n) (tried n s).1 (kept IsKeyed put_record-IsKeyed keyed).0
          (kept IsKeyed put_record-IsKeyed keyed).1 (kept (Has token) (put_record-Has token) has).1)
        e

  after_try-done :
      (next : Store → Wait × Store) (n : ℕ) (x : ReplayEnd × Store)
      → x.0 ≡ all_replayed
      → (after_try w k outside flags cfg next n x).0 ≡ replayed
  after_try-done next n (all_replayed, s) e = refl
  after_try-done next n (stopped t q z, s) e = cc
  after_try-done next n (interrupted, s) e = cc
  after_try-done next n (unlisted z, s) e = cc
  after_try-done next n (never_returns, s) e = cc
  after_try-done next n (fuel_ended, s) e = cc

  -- The context goes on, in and after every try and before every record.
  abbrev pub IsLive : Type 0
  IsLive =
      ((n : ℕ) → (outside.is_over n || outside.is_over_waiting n) ≡ false)
      × ((n m : ℕ) → ((outside.world n).net m).is_cancelled 0 ≡ false)

  abbrev pub AllReplayed : List Backfill → Type 0
  AllReplayed bfs = All (λ b. b.done ≡ true) bfs

  replay-done :
      (world : World) (bfs : List Backfill) (m : ℕ) (s : Store)
      → ((m : ℕ) → (world.net m).is_cancelled 0 ≡ false)
      → AllReplayed bfs
      → (replay w k world cfg.koin_contract flags.rest_url flags.fallback_url rounds bfs m s).0
        ≡ all_replayed
  unfolding replay
  replay-done world [] m s alive done = refl
  replay-done world (bf ∷ rest) m s alive done =
      rw (alive m, done.0, replay) (replay-done world rest (suc m) _ alive done.1)

  -- A try fails only if the driver fails the list of the records, and then the tables are the same.
  tried-ends :
      (n : ℕ) (s : Store)
      → IsLive
      → s.tx ≡ none
      → AllReplayed s.db.backfills
      → ((tried n s).0 ≡ all_replayed)
        ⊎ ((tried n s ≡ (unlisted (wrap "list backfills" driver), (list_backfills s).1))
            × ((list_backfills s).1.db ≡ s.db)
            × ((list_backfills s).1.tx ≡ none)
            × (failures (list_backfills s).1.faults < failures s.faults))
  unfolding run_backfills list_backfills query
  tried-ends n s live closed done = elim (Bool-cases (next_fault s.faults).0) [
    | inl x ↦
        inr (
          rw (x, run_backfills, list_backfills, query) refl,
          refl,
          closed,
          failures-rest s.faults x,
        )
    | inr x ↦ inl (
        rw (x, closed, run_backfills, list_backfills, query)
          (replay-done (outside.world n) _ 0 _ (live.1 n)
            (sort-All (λ b. b.done ≡ true) (λ a b. text_ltb a.token b.token) s.db.backfills done)))
  ]

  pub wait-replayed :
      (fuel n : ℕ) (s : Store)
      → IsLive
      → s.tx ≡ none
      → AllReplayed s.db.backfills
      → failures s.faults < fuel
      → (wait_for_backfills w k outside flags cfg rounds fuel n s).0 ≡ replayed
  unfolding wait_for_backfills
  wait-replayed zero n s live closed done lt = absurd (omega (arith, lt))
  wait-replayed (suc fuel) n s live closed done lt = elim (tried-ends n s live closed done) [
    | inl e ↦
        after_try-done (wait_for_backfills w k outside flags cfg rounds fuel (suc n)) n (tried n s)
          e
    | inr (e, same, closed', less) ↦
        rw (e, after_try, retry, live.0 n)
          (wait-replayed fuel (suc n) (list_backfills s).1 live closed'
            (subst (λ d. AllReplayed d.backfills) (sym same) done) (omega (arith, lt, less)))
  ]
