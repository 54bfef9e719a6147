-- ===== src/Startup/Replay/Keeps.antt =====
-- What the replay and the check of a token keep of the records, however they end.
use koinos_token_tracker.Base.{
  ℕ, zero, suc, refl, sym, Bool, true, false, Option, none, some, List, [], ◌∷◌, ap, inl, inr,
  Bool-cases, Option-cases,
}
use mathlib.Core.Path.{subst}
use koinos_token_tracker.Base.Text.{Text}
use koinos_token_tracker.Wire.{Wire}
use koinos_token_tracker.Store.Types.{Backfill, Db, Store}
use koinos_token_tracker.Store.Action.{Result, ok, err, blocked, query, statement, next_fault}
use koinos_token_tracker.Store.Records.{put_record}
use koinos_token_tracker.Store.Does.{fold_each-same}
use koinos_token_tracker.Store.Batch.Lock.{Settles}
use koinos_token_tracker.Store.Writes.{put_backfill, upsert_backfill}
use koinos_token_tracker.Store.Reads.{get_top_holders, get_backfill, list_backfills}
use koinos_token_tracker.Backfill.{Op}
use koinos_token_tracker.Backfill.Decode.{Codecs}
use koinos_token_tracker.Backfill.Client.{Net, Client, tick}
use koinos_token_tracker.Backfill.Collect.{Page, collect}
use koinos_token_tracker.Backfill.Effect.{op_effect, page_effect, apply-Settles}
use koinos_token_tracker.Backfill.Run.{
  Ending, finished, failed, stuck, out_of_fuel, RunResult, Loop, Tail, next_seq, tail_of,
  progress_of, Ended, after_apply, with_page, run_loop, resume, from_record, run,
}
use koinos_token_tracker.Reconcile.Check.{Rpc, CheckResult, CheckEnd, checked_all, check_token}
use koinos_token_tracker.Startup.Replay.{
  ReplayEnd, World, checked_record, record_check, after_check, verify_backfill, verify_unless,
  after_run, replay_unless, replay, replay_listed, run_backfills,
}
use koinos_token_tracker.Startup.Replay.Others.{op_effect-backfills}
use koinos_token_tracker.Startup.Replay.Checked.{IsFree}

module _ (P : List Backfill → Type 0)
    (keep : (b : Backfill) (rows : List Backfill) → P rows → P (put_record b rows)) where
  -- No batch is open, the mutex is free, and the records are as `P` says.
  abbrev pub IsKept : Store → Type 0
  IsKept s = IsFree s × P s.db.backfills

  put_backfill-kept : (b : Backfill) (d : Db) → P d.backfills → P (put_backfill b d).backfills
  unfolding put_backfill
  put_backfill-kept b d h = keep b d.backfills h

  pub Settles-IsKept :
      (s : Store) (d : Db) (x : Result (Unit {0}) × Store)
      → P d.backfills
      → IsKept s
      → Settles s d x
      → IsKept x.1
  Settles-IsKept s d (ok _, s') p h x = ((x.2, x.1), subst P (ap (λ d. d.backfills) (sym x.0)) p)
  Settles-IsKept s d (err e, s') p h x = ((x.2, x.1), subst P (ap (λ d. d.backfills) (sym x.0)) h.1)
  Settles-IsKept s d (blocked, s') p h x = absurd x

  pub upsert_backfill-IsKept :
      (b : Backfill) (s : Store) → IsKept s → IsKept (upsert_backfill b s).1
  unfolding upsert_backfill statement
  upsert_backfill-IsKept b s h = elim (Bool-cases (next_fault s.faults).0) [
    | inl x ↦ rw (x, upsert_backfill) h
    | inr x ↦
        rw (x, h.0.1, upsert_backfill)
          ((h.0.0, refl), put_backfill-kept (record b { updated_at = s.now }) s.db h.1)
  ]

  pub get_backfill-IsKept : (token : Text) (s : Store) → IsKept s → IsKept (get_backfill token s).1
  unfolding get_backfill query
  get_backfill-IsKept token s h = h

  module _ (net : Net) (w : Wire) (k : Codecs) (token ref : Text) where
    page_effect-kept :
        (ops : List Op) (p : Backfill) (now : ℕ) (d : Db)
        → P d.backfills
        → P (page_effect token ops p now d).backfills
    unfolding page_effect
    page_effect-kept ops p now d h =
        put_backfill-kept (record p { updated_at = now }) _
          (subst P
            (sym (
              fold_each-same (λ d. d.backfills) (op_effect token) now
                (λ op d. op_effect-backfills token op now d) ops d))
            h)

    after_apply-IsKept :
        (next_round : Loop → Client → Store → Ended net w k token ref) (l : Loop) (page : Page)
        (tail : Tail) (c : Client) (r : Result (Unit {0})) (s : Store)
        → ((l : Loop) (s : Store) → IsKept s → IsKept (next_round l c s).2)
        → IsKept s
        → IsKept (after_apply net w k token ref next_round l page tail c (r, s)).2
    after_apply-IsKept next_round l page tail c (err e) s next h = h
    after_apply-IsKept next_round l page tail c blocked s next h = h
    after_apply-IsKept next_round l page tail c (ok _) s next h = elim (Option-cases tail.lag) [
      | inr (e, i) ↦ rw (i, after_apply) h
      | inl i ↦ elim (Bool-cases tail.is_done) [
        | inl d ↦ rw (i, d, after_apply) h
        | inr d ↦ rw (i, d, after_apply) (next _ s h)
      ]
    ]

    with_page-IsKept :
        (next_round : Loop → Client → Store → Ended net w k token ref) (bf : Backfill) (l : Loop)
        (page : Page) (c : Client) (s : Store)
        → ((l : Loop) (c : Client) (s : Store) → IsKept s → IsKept (next_round l c s).2)
        → IsKept s
        → IsKept (with_page net w k token ref next_round bf l page c s).2
    unfolding with_page
    with_page-IsKept next_round bf l page c s next h =
        let (tail, c') = tail_of net w k token ref page l.covered bf.cutoff_height c in
        let p = progress_of net w k token ref bf (next_seq l.seq page) tail.is_done in
        after_apply-IsKept next_round l page tail c' _ _ (λ l s. next l c' s)
          (Settles-IsKept s (page_effect token page.ops p s.now s.db) _
            (page_effect-kept page.ops p s.now s.db h.1) h
            (apply-Settles token page.ops p s h.0.0 h.0.1))

    run_loop-IsKept :
        (fuel : ℕ) (bf : Backfill) (l : Loop) (c : Client) (s : Store)
        → IsKept s
        → IsKept (run_loop net w k token ref fuel bf l c s).2
    unfolding run_loop
    run_loop-IsKept zero bf l c s h = h
    run_loop-IsKept (suc fuel) bf l c s h = elim (Bool-cases (net.is_cancelled c.time)) [
      | inl x ↦ rw (x, run_loop) h
      | inr x ↦ elim (Option-cases (collect net w k token bf.cutoff_height l.seq (tick c)).0) [
        | inl n ↦ rw (x, n, run_loop) h
        | inr (page, n) ↦
            rw (x, n, run_loop)
              (with_page-IsKept (run_loop net w k token ref fuel bf) bf l page _ s
                (λ l c s. run_loop-IsKept fuel bf l c s) h)
      ]
    ]

    resume-IsKept :
        (fuel : ℕ) (rest_url fallback_url : Text) (bf : Backfill) (s : Store) (done : Bool)
        → IsKept s
        → IsKept (resume net w k token ref fuel rest_url fallback_url bf s done).2
    resume-IsKept fuel rest_url fallback_url bf s true h = h
    resume-IsKept fuel rest_url fallback_url bf s false h = run_loop-IsKept fuel bf _ _ s h

    from_record-IsKept :
        (fuel : ℕ) (rest_url fallback_url : Text) (r : Result (Option Backfill)) (s : Store)
        → IsKept s
        → IsKept (from_record net w k token ref fuel rest_url fallback_url (r, s)).2
    from_record-IsKept fuel rest_url fallback_url (ok (some bf)) s h =
        resume-IsKept fuel rest_url fallback_url bf s bf.done h
    from_record-IsKept fuel rest_url fallback_url (ok none) s h = h
    from_record-IsKept fuel rest_url fallback_url (err e) s h = h
    from_record-IsKept fuel rest_url fallback_url blocked s h = h

    pub run-IsKept :
        (fuel : ℕ) (rest_url fallback_url : Text) (s : Store)
        → IsKept s
        → IsKept (run net w k token ref fuel rest_url fallback_url s).2
    unfolding run
    run-IsKept fuel rest_url fallback_url s h =
        from_record-IsKept fuel rest_url fallback_url (get_backfill token s).0 _
          (get_backfill-IsKept token s h)

  module _ (w : Wire) (k : Codecs) (world : World) where
    check_token-IsKept :
        (rpc : Rpc) (token : Text) (s : Store) → IsKept s → IsKept (check_token w rpc token s).1
    unfolding check_token get_top_holders query
    check_token-IsKept rpc token s h = elim (Bool-cases (next_fault s.faults).0) [
      | inl x ↦ rw (x, check_token, get_top_holders, query) h
      | inr x ↦ elim (Bool-cases (next_fault (next_fault s.faults).1).0) [
        | inl y ↦ rw (x, y, check_token, get_top_holders, query) h
        | inr y ↦ rw (x, y, check_token, get_top_holders, query) h
      ]
    ]

    record_check-IsKept :
        (r : CheckResult) (x : Result (Option Backfill)) (s : Store)
        → IsKept s
        → IsKept (record_check w k world r (x, s))
    record_check-IsKept r (ok (some bf)) s h = upsert_backfill-IsKept (checked_record r bf) s h
    record_check-IsKept r (ok none) s h = h
    record_check-IsKept r (err e) s h = h
    record_check-IsKept r blocked s h = h

    after_check-IsKept :
        (token : Text) (x : CheckEnd) (s : Store)
        → IsKept s
        → IsKept (after_check w k world token (x, s))
    after_check-IsKept token (checked_all r) s h =
        record_check-IsKept r (get_backfill token s).0 _ (get_backfill-IsKept token s h)
    after_check-IsKept token (CheckEnd.interrupted r) s h = h
    after_check-IsKept token (CheckEnd.no_holders e) s h = h
    after_check-IsKept token CheckEnd.stuck s h = h

    module _ (ref rest_url fallback_url : Text) (fuel : ℕ) where
      verify_unless-IsKept :
          (n : ℕ) (bf : Backfill) (s : Store)
          → IsKept s
          → IsKept (verify_unless w k world ref rest_url fallback_url fuel n bf s)
      unfolding verify_backfill
      verify_unless-IsKept n bf s h = elim (Bool-cases bf.verified) [
        | inl v ↦ rw v h
        | inr v ↦
            rw v (after_check-IsKept bf.token _ _ (check_token-IsKept (world.rpc n) bf.token s h))
      ]

      after_run-IsKept :
          (next : Store → ReplayEnd × Store) (n : ℕ) (bf : Backfill)
          (x : Ending × RunResult × Store)
          → ((s : Store) → IsKept s → IsKept (next s).1)
          → IsKept x.2
          → IsKept (after_run w k world ref rest_url fallback_url fuel next n bf x).1
      after_run-IsKept next n bf (finished, r, s) step h = step _ (verify_unless-IsKept n bf s h)
      after_run-IsKept next n bf (failed e, r, s) step h = h
      after_run-IsKept next n bf (stuck, r, s) step h = h
      after_run-IsKept next n bf (out_of_fuel, r, s) step h = h

      replay_unless-IsKept :
          (done : Bool) (next : Store → ReplayEnd × Store) (n : ℕ) (bf : Backfill) (s : Store)
          → ((s : Store) → IsKept s → IsKept (next s).1)
          → IsKept s
          → IsKept (replay_unless w k world ref rest_url fallback_url fuel done next n bf s).1
      replay_unless-IsKept true next n bf s step h = step _ (verify_unless-IsKept n bf s h)
      replay_unless-IsKept false next n bf s step h =
          after_run-IsKept next n bf _ step
            (run-IsKept (world.net n) w k bf.token ref fuel rest_url fallback_url s h)

      replay-IsKept :
          (pending : List Backfill) (n : ℕ) (s : Store)
          → IsKept s
          → IsKept (replay w k world ref rest_url fallback_url fuel pending n s).1
      unfolding replay
      replay-IsKept [] n s h = h
      replay-IsKept (bf ∷ rest) n s h = elim (Bool-cases ((world.net n).is_cancelled 0)) [
        | inl x ↦ rw (x, replay) h
        | inr x ↦
            rw (x, replay)
              (replay_unless-IsKept bf.done
                (replay w k world ref rest_url fallback_url fuel rest (suc n)) n bf s
                (λ s. replay-IsKept rest (suc n) s) h)
      ]

      replay_listed-IsKept :
          (x : Result (List Backfill)) (s : Store)
          → IsKept s
          → IsKept (replay_listed w k world ref rest_url fallback_url fuel (x, s)).1
      replay_listed-IsKept (ok pending) s h = replay-IsKept pending 0 s h
      replay_listed-IsKept (err e) s h = h
      replay_listed-IsKept blocked s h = h

      list_backfills-IsKept : (s : Store) → IsKept s → IsKept (list_backfills s).1
      unfolding list_backfills query
      list_backfills-IsKept s h = h

      pub run_backfills-IsKept :
          (s : Store)
          → IsKept s
          → IsKept (run_backfills w k world ref rest_url fallback_url fuel s).1
      unfolding run_backfills
      run_backfills-IsKept s h =
          replay_listed-IsKept (list_backfills s).0 _ (list_backfills-IsKept s h)
