-- ===== src/Startup/Replay/Complete.antt =====
-- The records after runBackfills.
use mathlib.Core.Path.{subst}
use koinos_token_tracker.Base.{
  ℕ, ◌≡◌, ◌≢◌, refl, sym, Bool, true, false, none, some, List, [], ◌∷◌, inl, inr, Bool-cases, All,
}
use koinos_token_tracker.Base.Text.{Text}
use koinos_token_tracker.Base.Sort.{sort}
use koinos_token_tracker.Base.Sort.Rows.{All-sort, sort-All}
use koinos_token_tracker.Decimal.Order.{text_ltb}
use koinos_token_tracker.Wire.{Wire}
use koinos_token_tracker.Store.Types.{Backfill, Db, Store}
use koinos_token_tracker.Store.Action.{Error, driver, wrap, ok, query, next_fault}
use koinos_token_tracker.Store.Reads.{list_backfills}
use koinos_token_tracker.Backfill.Decode.{Codecs}
use koinos_token_tracker.Backfill.Run.Cursor.{record_in}
use koinos_token_tracker.Startup.Replay.{
  ReplayEnd, all_replayed, unlisted, World, replay, replay_listed, run_backfills,
}
use koinos_token_tracker.Startup.Replay.Checked.{IsDone, All-IsDone, IsFree, HasRecord}
use koinos_token_tracker.Startup.Replay.Rounds.{IsListed, replay-Replayed}

unlisted-replayed : {e : Error} → unlisted e ≢ all_replayed
unlisted-replayed z = cc

module _ (w : Wire) (k : Codecs) (world : World) (ref rest_url fallback_url : Text) (fuel : ℕ) where
  abbrev pub by_token : Backfill → Backfill → Bool
  by_token a b = text_ltb a.token b.token

  abbrev AllDone : List Backfill → ReplayEnd × Store → Type 0
  AllDone bfs x = x.0 ≡ all_replayed → All (λ bf. HasRecord true bf.token x.1.db) bfs

  listed-AllDone :
      (s : Store) (bfs : List Backfill)
      → IsFree s
      → All (IsListed w k world ref rest_url fallback_url fuel s.db) bfs
      → AllDone bfs
          (replay_listed w k world ref rest_url fallback_url fuel (ok (sort by_token bfs), s))
  listed-AllDone s bfs free h e =
      let x = replay w k world ref rest_url fallback_url fuel (sort by_token bfs) 0 s in
      All-sort (λ bf. HasRecord true bf.token x.1.db) by_token bfs
        (replay-Replayed w k world ref rest_url fallback_url fuel (sort by_token bfs) 0 s free
          (sort-All (IsListed w k world ref rest_url fallback_url fuel s.db) by_token bfs h) e).1

  list_backfills-failed :
      (s : Store)
      → (next_fault s.faults).0 ≡ true
      → run_backfills w k world ref rest_url fallback_url fuel s
        ≡ (unlisted (wrap "list backfills" driver), (list_backfills s).1)
  unfolding run_backfills list_backfills query
  list_backfills-failed s x = rw (x, run_backfills, list_backfills, query) refl

  list_backfills-read :
      (s : Store)
      → s.tx ≡ none
      → (next_fault s.faults).0 ≡ false
      → run_backfills w k world ref rest_url fallback_url fuel s
        ≡ replay_listed w k world ref rest_url fallback_url fuel
            (ok (sort by_token s.db.backfills), (list_backfills s).1)
  unfolding run_backfills list_backfills query
  list_backfills-read s closed x = rw (x, closed, run_backfills, list_backfills, query) refl

  own-IsListed :
      (d : Db) (bfs : List Backfill)
      → All (λ bf. record_in bf.token d ≡ some bf) bfs
      → All (IsListed w k world ref rest_url fallback_url fuel d) bfs
  own-IsListed d [] h = tt
  own-IsListed d (bf ∷ bfs) h = ((bf, (h.0, λ e. e)), own-IsListed d bfs h.1)

  list_backfills-IsFree :
      (s : Store)
      → IsFree s
      → All (IsListed w k world ref rest_url fallback_url fuel s.db) s.db.backfills
      → IsFree (list_backfills s).1
        × All
            (IsListed w k world ref rest_url fallback_url fuel (list_backfills s).1.db)
            s.db.backfills
  unfolding list_backfills query
  list_backfills-IsFree s free h = (free, h)

  run_backfills-AllDone :
      (s : Store)
      → IsFree s
      → All (λ bf. record_in bf.token s.db ≡ some bf) s.db.backfills
      → AllDone s.db.backfills (run_backfills w k world ref rest_url fallback_url fuel s)
  run_backfills-AllDone s free h = elim (Bool-cases (next_fault s.faults).0) [
    | inl x ↦
        subst (AllDone s.db.backfills) (sym (list_backfills-failed s x))
          (λ e. absurd (unlisted-replayed e))
    | inr x ↦
        let (free', h') = list_backfills-IsFree s free (own-IsListed s.db s.db.backfills h) in
        subst (AllDone s.db.backfills) (sym (list_backfills-read s free.1 x))
          (listed-AllDone (list_backfills s).1 s.db.backfills free' h')
  ]

  -- If runBackfills, begun outside a batch, returns without an error, then every token that had a
  -- record has one that says done. The tokens of the records are all different before, as the
  -- table's primary key has it.
  pub run_backfills-IsDone :
      (s : Store)
      → IsFree s
      → All (λ bf. record_in bf.token s.db ≡ some bf) s.db.backfills
      → (run_backfills w k world ref rest_url fallback_url fuel s).0 ≡ all_replayed
      → All (IsDone (run_backfills w k world ref rest_url fallback_url fuel s).1.db) s.db.backfills
  run_backfills-IsDone s free h e =
      All-IsDone (run_backfills w k world ref rest_url fallback_url fuel s).1.db s.db.backfills
        (run_backfills-AllDone s free h e)
