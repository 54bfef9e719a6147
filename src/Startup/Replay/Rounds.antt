-- ===== src/Startup/Replay/Rounds.antt =====
-- The records after the rounds of runBackfills.
use mathlib.Core.Path.{subst}
use koinos_token_tracker.Base.{
  ℕ, suc, ◌≡◌, ◌≢◌, refl, sym, ◌∙◌, Bool, true, false, some, List, [], ◌∷◌, ap, ◌⊎◌, inl, inr,
  Bool-cases, All,
}
use koinos_token_tracker.Base.Text.{Text, text_eq, text_eq_iff}
use koinos_token_tracker.Wire.{Wire}
use koinos_token_tracker.Store.Types.{Backfill, Db, Store}
use koinos_token_tracker.Store.Action.{Error, driver, wrap, ok, err, query, next_fault}
use koinos_token_tracker.Store.Reads.{get_backfill}
use koinos_token_tracker.Backfill.Decode.{Codecs}
use koinos_token_tracker.Backfill.Run.{
  Ending, finished, failed, stuck, out_of_fuel, RunError, store_failed, RunResult, run,
}
use koinos_token_tracker.Backfill.Run.Cursor.{
  record_in, is_finished, get_backfill-IsRecorded, run-LeavesRecord,
}
use koinos_token_tracker.Startup.Replay.{
  ReplayEnd, all_replayed, interrupted, World, verify_unless, after_run, replay_unless, replay,
}
use koinos_token_tracker.Startup.Replay.Others.{run-Leaves}
use koinos_token_tracker.Startup.Replay.Checked.{IsFree, HasRecord, verify_backfill-Fine}

failed-finished : {e : RunError} → failed e ≢ finished
failed-finished z = cc

get_backfill-read :
    (token : Text) (s : Store)
    → IsFree s
    → HasRecord false token s.db
    → ((e : Error) × (s' : Store) × (get_backfill token s ≡ (err e, s')))
      ⊎ ((bf : Backfill) × (s' : Store) × (get_backfill token s ≡ (ok (some bf), s')))
unfolding get_backfill query
get_backfill-read token s free h = elim (Bool-cases (next_fault s.faults).0) [
  | inl x ↦
      inl (wrap "get backfill" driver, (get_backfill token s).1, rw (x, get_backfill, query) refl)
  | inr x ↦ inr (h.0, (get_backfill token s).1, rw (x, free.1, get_backfill, query, h.1.0) refl)
]

module _ (w : Wire) (k : Codecs) (world : World) (ref rest_url fallback_url : Text) (fuel : ℕ) where
  abbrev ran : ℕ → Text → Store → Ending × RunResult × Store
  ran n token s = run (world.net n) w k token ref fuel rest_url fallback_url s

  ran-failed :
      (n : ℕ) (token : Text) (s s' : Store) (x : Error)
      → get_backfill token s ≡ (err x, s')
      → (ran n token s).0 ≡ failed (store_failed x)
  unfolding run
  ran-failed n token s s' x read = rw (read, run) refl

  -- A round that ends with the token's record done, and no record lost or opened again.
  abbrev Step : Text → Store → Store → Type 0
  Step token s s' =
      IsFree s'
      × HasRecord true token s'.db
      × ((t : Bool) (a : Text) → HasRecord t a s.db → HasRecord t a s'.db)

  run-Step :
      (n : ℕ) (token : Text) (s : Store)
      → IsFree s
      → HasRecord false token s.db
      → (ran n token s).0 ≡ finished
      → Step token s (ran n token s).2
  run-Step n token s free h e = elim (get_backfill-read token s free h) [
    | inl (x, s', read) ↦ absurd (failed-finished (sym (ran-failed n token s s' x read) ∙ e))
    | inr (bf, s', read) ↦
        let named = (get_backfill-IsRecorded token s s' bf free.0 free.1 read).0 in
        let left =
          run-LeavesRecord token (world.net n) w k ref fuel rest_url fallback_url s s' bf free.0
            free.1 read in
        let (b, at) = left.0.2 in
        let done = at.2 ∙ ap is_finished e in
        (
          (left.0.0, left.0.1),
          (b, (at.0, λ _. done)),
          λ t a old. elim (Bool-cases (text_eq token a)) [
            | inl same ↦ (
              b,
              (
                subst (λ z. record_in z (ran n token s).2.db ≡ some b)
                    ((text_eq_iff token a).0 same) at.0,
                λ _. done,
              ),
            )
            | inr differ ↦ (
              old.0,
              (
                (run-Leaves token a differ (some old.0) (world.net n) w k ref fuel rest_url
                    fallback_url s s' bf read named (free.0, free.1, old.1.0)).2,
                old.1.1,
              ),
            )
          ],
        )
  ]

  verify-Step :
      (n : ℕ) (bf : Backfill) (s s' : Store)
      → Step bf.token s s'
      → Step bf.token s (verify_unless w k world ref rest_url fallback_url fuel n bf s')
  verify-Step n bf s s' x = elim (Bool-cases bf.verified) [
    | inl v ↦ rw v x
    | inr v ↦
        let keep = λ (t : Bool) (a : Text) (h : HasRecord t a s'.db).
          verify_backfill-Fine t a w k world n bf.token s' (x.0, h) in
        rw v (
          (keep true bf.token x.1).0,
          (keep true bf.token x.1).1,
          λ t a h. (keep t a (x.2 t a h)).1,
        )
  ]

  -- The record is in the tables, and says done if the listed one does.
  abbrev pub IsListed : Db → Backfill → Type 0
  IsListed d bf = HasRecord bf.done bf.token d

  abbrev Replayed : List Backfill → Store → ReplayEnd × Store → Type 0
  Replayed pending s x =
      x.0 ≡ all_replayed
      → IsFree x.1
        × All (λ bf. HasRecord true bf.token x.1.db) pending
        × ((t : Bool) (a : Text) → HasRecord t a s.db → HasRecord t a x.1.db)

  All-kept :
      (s s' : Store) (bfs : List Backfill)
      → ((t : Bool) (a : Text) → HasRecord t a s.db → HasRecord t a s'.db)
      → All (IsListed s.db) bfs
      → All (IsListed s'.db) bfs
  All-kept s s' [] keep h = tt
  All-kept s s' (bf ∷ bfs) keep h = (keep bf.done bf.token h.0, All-kept s s' bfs keep h.1)

  after_Step :
      (n : ℕ) (bf : Backfill) (rest : List Backfill) (s s' : Store)
      → Step bf.token s s'
      → All (IsListed s.db) rest
      → ((s : Store)
          → IsFree s
          → All (IsListed s.db) rest
          → Replayed rest s (replay w k world ref rest_url fallback_url fuel rest (suc n) s))
      → Replayed (bf ∷ rest) s (
          replay w k world ref rest_url fallback_url fuel rest
            (suc n)
            (verify_unless w k world ref rest_url fallback_url fuel n bf s'))
  after_Step n bf rest s s' x h next e =
      let s'' = verify_unless w k world ref rest_url fallback_url fuel n bf s' in
      let y = verify-Step n bf s s' x in
      let z = next s'' y.0 (All-kept s s'' rest y.2 h) e in
      (z.0, (z.2 true bf.token y.1, z.1), λ t a old. z.2 t a (y.2 t a old))

  after_run-Replayed :
      (n : ℕ) (bf : Backfill) (rest : List Backfill) (s : Store) (x : Ending × RunResult × Store)
      → (x.0 ≡ finished → Step bf.token s x.2)
      → All (IsListed s.db) rest
      → ((s : Store)
          → IsFree s
          → All (IsListed s.db) rest
          → Replayed rest s (replay w k world ref rest_url fallback_url fuel rest (suc n) s))
      → Replayed (bf ∷ rest) s (
          after_run w k world ref rest_url fallback_url fuel
            (replay w k world ref rest_url fallback_url fuel rest (suc n))
            n
            bf
            x)
  after_run-Replayed n bf rest s (finished, r, s') step h next =
      after_Step n bf rest s s' (step refl) h next
  after_run-Replayed n bf rest s (failed x, r, s') step h next = λ e. cc
  after_run-Replayed n bf rest s (stuck, r, s') step h next = λ e. cc
  after_run-Replayed n bf rest s (out_of_fuel, r, s') step h next = λ e. cc

  unless-Replayed :
      (done : Bool) (n : ℕ) (bf : Backfill) (rest : List Backfill) (s : Store)
      → IsFree s
      → HasRecord done bf.token s.db
      → All (IsListed s.db) rest
      → ((s : Store)
          → IsFree s
          → All (IsListed s.db) rest
          → Replayed rest s (replay w k world ref rest_url fallback_url fuel rest (suc n) s))
      → Replayed (bf ∷ rest) s (
          replay_unless w k world ref rest_url fallback_url fuel done
            (replay w k world ref rest_url fallback_url fuel rest (suc n))
            n
            bf
            s)
  unless-Replayed true n bf rest s free at h next =
      after_Step n bf rest s s (free, at, λ t a old. old) h next
  unless-Replayed false n bf rest s free at h next =
      after_run-Replayed n bf rest s (ran n bf.token s) (run-Step n bf.token s free at) h next

  replay-cancelled :
      (bf : Backfill) (rest : List Backfill) (n : ℕ) (s : Store)
      → (world.net n).is_cancelled 0 ≡ true
      → replay w k world ref rest_url fallback_url fuel (bf ∷ rest) n s ≡ (interrupted, s)
  unfolding replay
  replay-cancelled bf rest n s x = rw (x, replay) refl

  replay-round :
      (bf : Backfill) (rest : List Backfill) (n : ℕ) (s : Store)
      → (world.net n).is_cancelled 0 ≡ false
      → replay w k world ref rest_url fallback_url fuel (bf ∷ rest) n s
        ≡ replay_unless w k world ref rest_url fallback_url fuel bf.done
            (replay w k world ref rest_url fallback_url fuel rest (suc n))
            n
            bf
            s
  unfolding replay
  replay-round bf rest n s x = rw (x, replay) refl

  pub replay-Replayed :
      (pending : List Backfill) (n : ℕ) (s : Store)
      → IsFree s
      → All (IsListed s.db) pending
      → Replayed pending s (replay w k world ref rest_url fallback_url fuel pending n s)
  unfolding replay
  replay-Replayed [] n s free h = λ e. (free, tt, λ t a old. old)
  replay-Replayed (bf ∷ rest) n s free h = elim (Bool-cases ((world.net n).is_cancelled 0)) [
    | inl x ↦ subst (Replayed (bf ∷ rest) s) (sym (replay-cancelled bf rest n s x)) (λ e. cc)
    | inr x ↦
        subst (Replayed (bf ∷ rest) s) (sym (replay-round bf rest n s x))
          (unless-Replayed bf.done n bf rest s free h.0 h.1 (λ s. replay-Replayed rest (suc n) s))
  ]
