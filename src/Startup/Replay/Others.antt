-- ===== src/Startup/Replay/Others.antt =====
-- The records of the other tokens, over Run and verifyBackfill.
use mathlib.Core.Path.{subst}
use koinos_token_tracker.Base.{
  ℕ, zero, suc, ◌≡◌, refl, ◌∙◌, Bool, true, false, Option, none, some, List, [], ◌∷◌, is_empty, ap,
  inl, inr, Bool-cases, Option-cases,
}
use koinos_token_tracker.Base.Int.{ℤ}
use koinos_token_tracker.Base.Text.{Text, codes, text_eq, text_eq_iff}
use koinos_token_tracker.Base.Table.{find, find-upsert_other}
use koinos_token_tracker.Wire.{Wire}
use koinos_token_tracker.Indexer.Event.{int64, neg_int64}
use koinos_token_tracker.Store.Types.{Backfill, Db, Store}
use koinos_token_tracker.Store.Action.{Result, ok, err, blocked, query}
use koinos_token_tracker.Store.Does.{fold_each-same}
use koinos_token_tracker.Store.Batch.Lock.{Settles}
use koinos_token_tracker.Store.Writes.{put_balance, put_first_seen, put_transfer, put_backfill}
use koinos_token_tracker.Store.Reads.{get_backfill}
use koinos_token_tracker.Backfill.{Op}
use koinos_token_tracker.Backfill.Decode.{Codecs}
use koinos_token_tracker.Backfill.Client.{Net, Client, tick}
use koinos_token_tracker.Backfill.Collect.{Page, collect}
use koinos_token_tracker.Backfill.Effect.{
  adjust_effect, lower_effect, adjust_op_effect, op_effect, page_effect, apply-Settles,
}
use koinos_token_tracker.Backfill.Run.{
  Loop, Tail, next_seq, tail_of, progress_of, Ended, after_apply, with_page, run_loop, resume, run,
}
use koinos_token_tracker.Backfill.Run.Cursor.{record_in}

module _ (token : Text) where
  adjust_effect-backfills :
      (addr : Text) (delta : ℤ) (height now : ℕ) (d : Db)
      → (adjust_effect token addr delta height now d).backfills ≡ d.backfills
  adjust_effect-backfills addr delta height now d = elim (Bool-cases (is_empty addr)) [
    | inl e ↦ rw e
    | inr e ↦ rw e (unfold put_balance in refl)
  ]

  lower_effect-backfills :
      (op : Op) (a : Text) (now : ℕ) (d : Db)
      → (lower_effect token op a now d).backfills ≡ d.backfills
  lower_effect-backfills op a now d = elim (Bool-cases (is_empty a)) [
    | inl e ↦ rw e
    | inr e ↦ rw e (unfold put_first_seen in refl)
  ]

  adjust_op_effect-backfills :
      (op : Op) (now : ℕ) (d : Db) → (adjust_op_effect token op now d).backfills ≡ d.backfills
  adjust_op_effect-backfills op now d =
      elim (Bool-cases (text_eq op.event_type (codes "transfer"))) [
        | inl h ↦ rw h (
            adjust_effect-backfills op.receiver (int64 op.value) op.height now _
            ∙ adjust_effect-backfills op.sender (neg_int64 (int64 op.value)) op.height now d)
        | inr h ↦ elim (Bool-cases (text_eq op.event_type (codes "mint"))) [
          | inl k ↦ rw (h, k) (adjust_effect-backfills op.receiver (int64 op.value) op.height now d)
          | inr k ↦ elim (Bool-cases (text_eq op.event_type (codes "burn"))) [
            | inl m ↦
                rw (h, k, m)
                  (adjust_effect-backfills op.sender (neg_int64 (int64 op.value)) op.height now d)
            | inr m ↦ rw (h, k, m) refl
          ]
        ]
      ]

  pub op_effect-backfills :
      (op : Op) (now : ℕ) (d : Db) → (op_effect token op now d).backfills ≡ d.backfills
  unfolding op_effect put_transfer
  op_effect-backfills op now d =
      adjust_op_effect-backfills op now _
      ∙ fold_each-same (λ d. d.backfills) (lower_effect token op) now
          (λ a d. lower_effect-backfills op a now d) (op.sender ∷ op.receiver ∷ []) d

  module _ (other : Text) (differ : text_eq token other ≡ false) where
    not_both : (a b c : Text) → text_eq b c ≡ false → text_eq a b ≡ true → text_eq a c ≡ false
    not_both a b c h e = rw ((text_eq_iff a b).0 e) h

    pub record_in-put_backfill :
        (b : Backfill) (d : Db)
        → b.token ≡ token
        → record_in other (put_backfill b d) ≡ record_in other d
    unfolding put_backfill
    record_in-put_backfill b d e =
        find-upsert_other (λ r. text_eq r.token other) (λ r. text_eq r.token b.token) b (λ r. b)
          d.backfills (rw e differ)
          (λ r same. (not_both r.token b.token other (rw e differ) same, rw e differ))

    record_in-page_effect :
        (ops : List Op) (p : Backfill) (now : ℕ) (d : Db)
        → p.token ≡ token
        → record_in other (page_effect token ops p now d) ≡ record_in other d
    unfolding page_effect
    record_in-page_effect ops p now d e =
        record_in-put_backfill (record p { updated_at = now }) _ e
        ∙ ap (find (λ r. text_eq r.token other)) (
            fold_each-same (λ d. d.backfills) (op_effect token) now
              (λ op d. op_effect-backfills op now d) ops d)

    -- No batch is open, the mutex is free, and the other token's record is this one.
    abbrev pub IsKept : Option Backfill → Store → Type 0
    IsKept o s = (s.locked ≡ false) × (s.tx ≡ none) × (record_in other s.db ≡ o)

    pub get_backfill-IsKept :
        (o : Option Backfill) (a : Text) (s : Store) → IsKept o s → IsKept o (get_backfill a s).1
    unfolding get_backfill query
    get_backfill-IsKept o a s h = h

    read-IsKept :
        {o : Option Backfill} (s s' : Store) (bf : Backfill)
        → get_backfill token s ≡ (ok (some bf), s')
        → IsKept o s
        → IsKept o s'
    read-IsKept {o} s s' bf e h =
        subst (IsKept o) (ap (λ x. x.1) e) (get_backfill-IsKept o token s h)

    module _ (o : Option Backfill) (net : Net) (w : Wire) (k : Codecs) (ref : Text) where
      abbrev Leaves : Ended net w k token ref → Type 0
      Leaves x = IsKept o x.2

      Settles-IsKept :
          (ops : List Op) (p : Backfill) (s : Store) (r : Result (Unit {0})) (s' : Store)
          → p.token ≡ token
          → IsKept o s
          → Settles s (page_effect token ops p s.now s.db) (r, s')
          → IsKept o s'
      Settles-IsKept ops p s (ok _) s' t h x =
          (x.2, x.1, ap (record_in other) x.0 ∙ (record_in-page_effect ops p s.now s.db t ∙ h.2))
      Settles-IsKept ops p s (err e) s' t h x = (x.2, x.1, ap (record_in other) x.0 ∙ h.2)
      Settles-IsKept ops p s blocked s' t h x = absurd x

      after_apply-Leaves :
          (next_round : Loop → Client → Store → Ended net w k token ref) (l : Loop) (page : Page)
          (tail : Tail) (c : Client) (r : Result (Unit {0})) (s : Store)
          → ((l : Loop) (s : Store) → IsKept o s → Leaves (next_round l c s))
          → IsKept o s
          → Leaves (after_apply net w k token ref next_round l page tail c (r, s))
      after_apply-Leaves next_round l page tail c (err e) s next h = h
      after_apply-Leaves next_round l page tail c blocked s next h = h
      after_apply-Leaves next_round l page tail c (ok _) s next h = elim (Option-cases tail.lag) [
        | inr (e, i) ↦ rw (i, after_apply) h
        | inl i ↦ elim (Bool-cases tail.is_done) [
          | inl d ↦ rw (i, d, after_apply) h
          | inr d ↦ rw (i, d, after_apply) (next _ s h)
        ]
      ]

      with_page-Leaves :
          (next_round : Loop → Client → Store → Ended net w k token ref) (bf : Backfill) (l : Loop)
          (page : Page) (c : Client) (s : Store)
          → bf.token ≡ token
          → ((l : Loop) (c : Client) (s : Store) → IsKept o s → Leaves (next_round l c s))
          → IsKept o s
          → Leaves (with_page net w k token ref next_round bf l page c s)
      unfolding with_page
      with_page-Leaves next_round bf l page c s t next h =
          let (tail, c') = tail_of net w k token ref page l.covered bf.cutoff_height c in
          let p = progress_of net w k token ref bf (next_seq l.seq page) tail.is_done in
          after_apply-Leaves next_round l page tail c' _ _ (λ l s. next l c' s)
            (Settles-IsKept page.ops p s _ _ t h (apply-Settles token page.ops p s h.0 h.1))

      run_loop-Leaves :
          (fuel : ℕ) (bf : Backfill) (l : Loop) (c : Client) (s : Store)
          → bf.token ≡ token
          → IsKept o s
          → Leaves (run_loop net w k token ref fuel bf l c s)
      unfolding run_loop
      run_loop-Leaves zero bf l c s t h = h
      run_loop-Leaves (suc fuel) bf l c s t h = elim (Bool-cases (net.is_cancelled c.time)) [
        | inl x ↦ rw (x, run_loop) h
        | inr x ↦ elim (Option-cases (collect net w k token bf.cutoff_height l.seq (tick c)).0) [
          | inl n ↦ rw (x, n, run_loop) h
          | inr (page, n) ↦
              rw (x, n, run_loop)
                (with_page-Leaves (run_loop net w k token ref fuel bf) bf l page _ s t
                  (λ l c s. run_loop-Leaves fuel bf l c s t) h)
        ]
      ]

      resume-Leaves :
          (fuel : ℕ) (rest_url fallback_url : Text) (bf : Backfill) (s : Store) (done : Bool)
          → bf.token ≡ token
          → IsKept o s
          → Leaves (resume net w k token ref fuel rest_url fallback_url bf s done)
      resume-Leaves fuel rest_url fallback_url bf s true t h = h
      resume-Leaves fuel rest_url fallback_url bf s false t h = run_loop-Leaves fuel bf _ _ s t h

      -- Run of one token leaves the record of another as it is.
      pub run-Leaves :
          (fuel : ℕ) (rest_url fallback_url : Text) (s s' : Store) (bf : Backfill)
          → get_backfill token s ≡ (ok (some bf), s')
          → bf.token ≡ token
          → IsKept o s
          → Leaves (run net w k token ref fuel rest_url fallback_url s)
      unfolding run
      run-Leaves fuel rest_url fallback_url s s' bf e t h =
          rw (e, run)
            (resume-Leaves fuel rest_url fallback_url bf s' bf.done t (read-IsKept s s' bf e h))
