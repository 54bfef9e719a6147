-- ===== src/Backfill/Run/Cursor.antt =====
-- The record that Run leaves.
use mathlib.Core.Path.{subst}
use koinos_token_tracker.Base.{
  ℕ, zero, suc, ◌≡◌, ◌≢◌, refl, ◌∙◌, Bool, true, false, Option, none, some, List, [], ◌∷◌, ap, ltb,
  inl, inr, Bool-cases, Option-cases,
}
use koinos_token_tracker.Base.Text.{Text, text_eq, text_eq_iff, text_eq_refl}
use koinos_token_tracker.Base.Table.{find, merged, find-upsert_self}
use koinos_token_tracker.Wire.{Wire}
use koinos_token_tracker.Store.Types.{Backfill, Db, Store}
use koinos_token_tracker.Store.Action.{query, next_fault, Error, Result, ok, err, blocked}
use koinos_token_tracker.Store.Batch.Lock.{Settles}
use koinos_token_tracker.Store.Writes.{put_backfill}
use koinos_token_tracker.Store.Reads.{get_backfill}
use koinos_token_tracker.Backfill.Decode.{Codecs}
use koinos_token_tracker.Backfill.{Op}
use koinos_token_tracker.Backfill.Ops.Usable.{none-some, some_inj}
use koinos_token_tracker.Backfill.Client.{Net, Client, tick}
use koinos_token_tracker.Backfill.Collect.{Page, collect}
use koinos_token_tracker.Backfill.Effect.{page_effect, apply-Settles}
use koinos_token_tracker.Backfill.Run.{
  Ending, finished, failed, stuck, out_of_fuel, RunError, Loop, Tail, from_height, next_seq,
  tail_of, progress_of, Ended, after_apply, with_page, run_loop, resume, run,
}

abbrev pub is_finished : Ending → Bool
is_finished finished = true
is_finished (failed e) = false
is_finished stuck = false
is_finished out_of_fuel = false

module _ (token : Text) where
  abbrev pub record_in : Db → Option Backfill
  record_in d = find (λ r. text_eq r.token token) d.backfills

  -- No batch is open, the mutex is free, and the token's record has this cursor and says this of
  -- being done.
  abbrev pub IsRecorded : ℕ → Bool → Store → Type 0
  IsRecorded seq done s =
      (s.locked ≡ false)
      × (s.tx ≡ none)
      × ((b : Backfill) × ((record_in s.db ≡ some b) × (b.next_seq ≡ seq) × (b.done ≡ done)))

  merged_same : (o : Option Backfill) (b : Backfill) → merged o b (λ r. b) ≡ b
  merged_same none b = refl
  merged_same (some r) b = refl

  pub record_in-put_self :
      (b : Backfill) (d : Db) → b.token ≡ token → record_in (put_backfill b d) ≡ some b
  unfolding put_backfill
  record_in-put_self b d e =
      subst (λ t. find (λ r. text_eq r.token t) (put_backfill b d).backfills ≡ some b) e
        (find-upsert_self (λ r. text_eq r.token b.token) b (λ r. b) d.backfills
            (text_eq_refl b.token) (λ r _. text_eq_refl b.token)
          ∙ ap some (merged_same _ b))

  record_in-page_effect :
      (ops : List Op) (p : Backfill) (now : ℕ) (d : Db)
      → p.token ≡ token
      → record_in (page_effect token ops p now d) ≡ some (record p { updated_at = now })
  unfolding page_effect
  record_in-page_effect ops p now d e = record_in-put_self (record p { updated_at = now }) _ e

  err-ok : {A : Type 0} {x : Error} {a : A} → err x ≢ ok a
  err-ok z = cc

  ok_inj : {A : Type 0} {a b : A} → ok a ≡ ok b → a ≡ b
  ok_inj z = cc

  find-some :
      (rs : List Backfill) (b : Backfill)
      → find (λ r. text_eq r.token token) rs ≡ some b
      → b.token ≡ token
  unfolding find
  find-some [] b e = absurd (none-some e)
  find-some (r ∷ rs) b e = elim (Bool-cases (text_eq r.token token)) [
    | inl x ↦
        subst (λ r. r.token ≡ token) (some_inj (rw (x, find) at e))
          ((text_eq_iff r.token token).0 x)
    | inr x ↦ find-some rs b (rw (x, find) at e)
  ]

  pub get_backfill-IsRecorded :
      (s s' : Store) (bf : Backfill)
      → s.locked ≡ false
      → s.tx ≡ none
      → get_backfill token s ≡ (ok (some bf), s')
      → (bf.token ≡ token) × IsRecorded bf.next_seq bf.done s'
  unfolding get_backfill query
  get_backfill-IsRecorded s s' bf free closed e = elim (Bool-cases (next_fault s.faults).0) [
    | inl bad ↦ absurd (err-ok (ap (λ x. x.0) (rw (bad, closed, get_backfill) at e)))
    | inr good ↦
        let read = rw (good, closed, get_backfill, query) at e in
        let found = ok_inj (ap (λ x. x.0) read) in
        (
          find-some s.db.backfills bf found,
          subst (IsRecorded bf.next_seq bf.done) (ap (λ x. x.1) read)
              (free, refl, (bf, (found, refl, refl))),
        )
  ]

  module _ (net : Net) (w : Wire) (k : Codecs) (ref : Text) where
    abbrev pub LeavesRecord : Ended net w k token ref → Type 0
    LeavesRecord (e, r, s) =
        IsRecorded r.last_seq (is_finished e) s × (e ≢ stuck) × (r.done ≡ is_finished e)

    -- An error of the history's lag leaves the record undone.
    abbrev LagIsOpen : Tail → Type 0
    LagIsOpen tail = (e : RunError) → tail.lag ≡ some e → tail.is_done ≡ false

    from_height-LagIsOpen : (cutoff : ℕ) (o : Option ℕ) → LagIsOpen (from_height cutoff o)
    from_height-LagIsOpen cutoff none e h = refl
    from_height-LagIsOpen cutoff (some n) e h = elim (Bool-cases (ltb n cutoff)) [
      | inl z ↦ rw z refl
      | inr z ↦ rw z refl
    ]

    tail_of-LagIsOpen :
        (page : Page) (covered : Bool) (cutoff : ℕ) (c : Client)
        → LagIsOpen (tail_of net w k token ref page covered cutoff c).0
    unfolding tail_of
    tail_of-LagIsOpen page covered cutoff c = elim (Bool-cases (ltb 0 page.stopped)) [
      | inl x ↦ rw (x, tail_of) (λ e h. absurd (none-some h))
      | inr x ↦ elim (Bool-cases page.at_end) [
        | inr y ↦ rw (x, y, tail_of) (λ e h. refl)
        | inl y ↦ elim (Bool-cases covered) [
          | inl z ↦ rw (x, y, z, tail_of) (λ e h. absurd (none-some h))
          | inr z ↦ rw (x, y, z, tail_of) (from_height-LagIsOpen cutoff _)
        ]
      ]
    ]

    stored :
        (bf : Backfill) (l : Loop) (page : Page) (tail : Tail) (s s' : Store) (done : Bool)
        → bf.token ≡ token
        → tail.is_done ≡ done
        → Settles s
            (page_effect token page.ops
              (progress_of net w k token ref bf (next_seq l.seq page) tail.is_done)
              s.now
              s.db)
            (ok tt, s')
        → IsRecorded (next_seq l.seq page) done s'
    stored bf l page tail s s' done t same x = (
      x.2,
      x.1,
      (
        record bf { next_seq = next_seq l.seq page; done = tail.is_done; updated_at = s.now },
        (ap record_in x.0 ∙ record_in-page_effect page.ops _ s.now s.db t, refl, same),
      ),
    )

    after_apply-LeavesRecord :
        (next_round : Loop → Client → Store → Ended net w k token ref) (bf : Backfill) (l : Loop)
        (page : Page) (tail : Tail) (c : Client) (s : Store) (x : Result (Unit {0}) × Store)
        → bf.token ≡ token
        → LagIsOpen tail
        → ((l : Loop) (s : Store)
            → IsRecorded l.result.last_seq false s
            → l.result.done ≡ false
            → LeavesRecord (next_round l c s))
        → IsRecorded l.result.last_seq false s
        → l.result.done ≡ false
        → Settles s
            (page_effect token page.ops
              (progress_of net w k token ref bf (next_seq l.seq page) tail.is_done)
              s.now
              s.db)
            x
        → LeavesRecord (after_apply net w k token ref next_round l page tail c x)
    after_apply-LeavesRecord next_round bf l page tail c s (err e, s') t lag next h d x =
        let (b, f) = h.2 in ((x.2, x.1, (b, (ap record_in x.0 ∙ f.0, f.1, f.2))), (λ z. cc), d)
    after_apply-LeavesRecord next_round bf l page tail c s (blocked, s') t lag next h d x = absurd x
    after_apply-LeavesRecord next_round bf l page tail c s (ok _, s') t lag next h d x =
        elim (Option-cases tail.lag) [
          | inr (e, i) ↦
              rw (i, after_apply) (stored bf l page tail s s' false t (lag e i) x, (λ z. cc), d)
          | inl i ↦ elim (Bool-cases tail.is_done) [
            | inl y ↦
                rw (i, y, after_apply) (stored bf l page tail s s' true t y x, (λ z. cc), refl)
            | inr y ↦ rw (i, y, after_apply) (next _ s' (stored bf l page tail s s' false t y x) d)
          ]
        ]

    with_page-LeavesRecord :
        (next_round : Loop → Client → Store → Ended net w k token ref) (bf : Backfill) (l : Loop)
        (page : Page) (c : Client) (s : Store)
        → bf.token ≡ token
        → ((l : Loop) (c : Client) (s : Store)
            → IsRecorded l.result.last_seq false s
            → l.result.done ≡ false
            → LeavesRecord (next_round l c s))
        → IsRecorded l.result.last_seq false s
        → l.result.done ≡ false
        → LeavesRecord (with_page net w k token ref next_round bf l page c s)
    unfolding with_page
    with_page-LeavesRecord next_round bf l page c s t next h d =
        let (tail, c') = tail_of net w k token ref page l.covered bf.cutoff_height c in
        after_apply-LeavesRecord next_round bf l page tail c' s _ t
          (tail_of-LagIsOpen page l.covered bf.cutoff_height c) (λ l s. next l c' s) h d
          (apply-Settles token page.ops _ s h.0 h.1)

    run_loop-LeavesRecord :
        (fuel : ℕ) (bf : Backfill) (l : Loop) (c : Client) (s : Store)
        → bf.token ≡ token
        → IsRecorded l.result.last_seq false s
        → l.result.done ≡ false
        → LeavesRecord (run_loop net w k token ref fuel bf l c s)
    unfolding run_loop
    run_loop-LeavesRecord zero bf l c s t h d = (h, (λ z. cc), d)
    run_loop-LeavesRecord (suc fuel) bf l c s t h d = elim (Bool-cases (net.is_cancelled c.time)) [
      | inl x ↦ rw (x, run_loop) (h, (λ z. cc), d)
      | inr x ↦ elim (Option-cases (collect net w k token bf.cutoff_height l.seq (tick c)).0) [
        | inl n ↦ rw (x, n, run_loop) (h, (λ z. cc), d)
        | inr (page, n) ↦
            rw (x, n, run_loop)
              (with_page-LeavesRecord (run_loop net w k token ref fuel bf) bf l page _ s t
                (λ l c s. run_loop-LeavesRecord fuel bf l c s t) h d)
      ]
    ]

    resume-LeavesRecord :
        (fuel : ℕ) (rest_url fallback_url : Text) (bf : Backfill) (s : Store) (done : Bool)
        → bf.token ≡ token
        → IsRecorded bf.next_seq done s
        → LeavesRecord (resume net w k token ref fuel rest_url fallback_url bf s done)
    resume-LeavesRecord fuel rest_url fallback_url bf s true t h = (h, (λ z. cc), refl)
    resume-LeavesRecord fuel rest_url fallback_url bf s false t h =
        run_loop-LeavesRecord fuel bf _ _ s t h refl

    -- Begun outside a batch on a token with a record, Run always returns, or its fuel ends. Either
    -- way no batch is open and the mutex is free; the token's stored cursor is the one that the
    -- result reports; and both the record and the result say done exactly if Run finished without
    -- an error.
    pub run-LeavesRecord :
        (fuel : ℕ) (rest_url fallback_url : Text) (s s' : Store) (bf : Backfill)
        → s.locked ≡ false
        → s.tx ≡ none
        → get_backfill token s ≡ (ok (some bf), s')
        → LeavesRecord (run net w k token ref fuel rest_url fallback_url s)
    unfolding run
    run-LeavesRecord fuel rest_url fallback_url s s' bf free closed e =
        let (named, h) = get_backfill-IsRecorded s s' bf free closed e in
        rw (e, run) (resume-LeavesRecord fuel rest_url fallback_url bf s' bf.done named h)
