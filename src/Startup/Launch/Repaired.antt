-- ===== src/Startup/Launch/Repaired.antt =====
-- repairBackfilledTxIDs leaves the records as they are.
use koinos_token_tracker.Base.{
  ℕ, suc, ◌≡◌, refl, ◌⊎◌, inl, inr, Option, none, some, List, [], ◌∷◌, Bool-cases,
}
use koinos_token_tracker.Base.Text.{Text}
use koinos_token_tracker.Wire.{Wire}
use koinos_token_tracker.Store.Types.{Backfill, Db, Store}
use koinos_token_tracker.Store.Action.{
  Error, Result, ok, err, blocked, query, statement, next_fault,
}
use koinos_token_tracker.Store.Batch.{begin_batch, commit_batch, rollback_batch}
use koinos_token_tracker.Store.Reads.{list_backfills}
use koinos_token_tracker.Store.Transfers.{put_tx_id, convert_rows, convert_hex_tx_ids}
use koinos_token_tracker.Backfill.Decode.{tx_id_base58}
use koinos_token_tracker.Startup.{
  converted, closed, repair_in, repair_all, repair_backfilled_tx_ids,
}
use koinos_token_tracker.Startup.Replay.Checked.{IsFree}

pub Result-cases :
    {A : Type 0} (r : Result A)
    → ((a : A) × (r ≡ ok a)) ⊎ (((e : Error) × (r ≡ err e)) ⊎ (r ≡ blocked))
Result-cases (ok a) = inl (a, refl)
Result-cases (err e) = inr (inl (e, refl))
Result-cases blocked = inr (inr refl)

module _ (P : List Backfill → Type 0) where
  -- No batch is open, the mutex is free, and the records are as `P` says.
  abbrev pub IsIntact : Store → Type 0
  IsIntact s = IsFree s × P s.db.backfills

  -- A batch is open, and the records are as `P` says in its copy and in the tables.
  abbrev IsOpened : Store → Type 0
  IsOpened s = (d : Db) × (s.tx ≡ some d) × P d.backfills × P s.db.backfills

  abbrev EndsOpened : {A : Type 0} → Result A × Store → Type 0
  EndsOpened (ok a, s) = IsOpened s
  EndsOpened (err e, s) = IsOpened s
  EndsOpened (blocked, s) = ⊥

  abbrev Returns : {A : Type 0} → Result A → Type 0
  Returns (ok a) = Unit {0}
  Returns (err e) = Unit {0}
  Returns blocked = ⊥

  convert_rows-EndsOpened :
      (conv : Text → Result Text) (i : ℕ) (todo : List (ℕ × Text)) (s : Store)
      → ((t : Text) → Returns (conv t))
      → IsOpened s
      → EndsOpened (convert_rows conv i todo s)
  unfolding convert_rows statement put_tx_id
  convert_rows-EndsOpened conv i [] s returns h = h
  convert_rows-EndsOpened conv i ((id, t) ∷ todo) s returns h = elim (Result-cases (conv t)) [
    | inl (t', x) ↦ elim (Bool-cases (next_fault s.faults).0) [
      | inl y ↦ rw (x, y, convert_rows, y) h
      | inr y ↦
          rw (x, y, convert_rows, y, h.1)
            (convert_rows-EndsOpened conv (suc i) todo _ returns
              (put_tx_id id t' h.0, refl, h.2, h.3))
    ]
    | inr (inl (e, x)) ↦ rw (x, convert_rows) h
    | inr (inr x) ↦ absurd (rw x at (returns t))
  ]

  convert-EndsOpened :
      (token : Text) (conv : Text → Result Text) (s : Store)
      → ((t : Text) → Returns (conv t))
      → IsOpened s
      → EndsOpened (convert_hex_tx_ids token conv s)
  unfolding convert_hex_tx_ids query
  convert-EndsOpened token conv s returns h = elim (Bool-cases (next_fault s.faults).0) [
    | inl x ↦ rw (x, convert_hex_tx_ids) h
    | inr x ↦ rw (x, convert_hex_tx_ids) (convert_rows-EndsOpened conv 0 _ _ returns h)
  ]

  commit-IsIntact : (s : Store) → IsOpened s → IsIntact (commit_batch s).1
  unfolding commit_batch
  commit-IsIntact s h = elim (Bool-cases (next_fault s.faults).0) [
    | inl x ↦ rw (h.1, x, commit_batch) ((refl, refl), h.3)
    | inr x ↦ rw (h.1, x, commit_batch) ((refl, refl), h.2)
  ]

  rollback-IsIntact : (s : Store) → IsOpened s → IsIntact (rollback_batch s).1
  unfolding rollback_batch
  rollback-IsIntact s h = elim (Bool-cases (next_fault s.faults).0) [
    | inl x ↦ rw (h.1, x, rollback_batch) ((refl, refl), h.3)
    | inr x ↦ rw (h.1, x, rollback_batch) ((refl, refl), h.3)
  ]

  converted-Returns : (w : Wire) (t : Text) → Returns (converted (tx_id_base58 w t))
  converted-Returns w t = whole (tx_id_base58 w t)
    where
      whole : (o : Option Text) → Returns (converted o)
      whole none = tt
      whole (some id) = tt

  module _ (w : Wire) where
    closed-IsIntact : (r : Result ℕ) (s : Store) → EndsOpened (r, s) → IsIntact (closed w (r, s)).1
    closed-IsIntact (ok n) s h = commit-IsIntact s h
    closed-IsIntact (err e) s h = rollback-IsIntact s h
    closed-IsIntact blocked s h = absurd h

    repair_in-IsIntact :
        (token : Text) (s : Store) → IsIntact s → IsIntact (repair_in w token (begin_batch s)).1
    unfolding begin_batch
    repair_in-IsIntact token s h = elim (Bool-cases (next_fault s.faults).0) [
      | inl x ↦ rw (h.0.0, h.0.1, x, begin_batch, repair_in) ((refl, refl), h.1)
      | inr x ↦
          rw (h.0.0, h.0.1, x, begin_batch, repair_in)
            (closed-IsIntact _ _ (
              convert-EndsOpened token (λ id. converted (tx_id_base58 w id)) _ (converted-Returns w)
                (s.db, refl, h.1, h.1)))
    ]

    repair_all-IsIntact :
        (recs : List Backfill) (s : Store) → IsIntact s → IsIntact (repair_all w recs s)
    unfolding repair_all
    repair_all-IsIntact [] s h = h
    repair_all-IsIntact (bf ∷ rest) s h =
        elim (Bool-cases (repair_in w bf.token (begin_batch s)).0) [
          | inl x ↦
              rw (x, repair_all) (repair_all-IsIntact rest _ (repair_in-IsIntact bf.token s h))
          | inr x ↦ rw (x, repair_all) (repair_in-IsIntact bf.token s h)
        ]

    pub repair-IsIntact : (s : Store) → IsIntact s → IsIntact (repair_backfilled_tx_ids w s)
    unfolding repair_backfilled_tx_ids list_backfills query
    repair-IsIntact s h = elim (Bool-cases (next_fault s.faults).0) [
      | inl x ↦ rw (x, repair_backfilled_tx_ids) h
      | inr x ↦ rw (x, repair_backfilled_tx_ids) (repair_all-IsIntact _ _ h)
    ]
