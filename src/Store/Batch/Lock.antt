-- ===== src/Store/Batch/Lock.antt =====
-- The mutex and the transaction of a batch.
use koinos_token_tracker.Base.{
  ◌≡◌, ◌≢◌, refl, ◌∙◌, Bool, true, false, Option, none, some, [], arith, inl, inr, Bool-cases, ap,
}
use koinos_token_tracker.Store.Types.{Db, Store}
use koinos_token_tracker.Store.Action.{
  Error, driver, message, wrap, Result, ok, err, blocked, Action, next_fault,
}
use koinos_token_tracker.Store.Does.{Ends}
use koinos_token_tracker.Store.Batch.{
  begin_batch, commit_batch, rollback_batch, close, finish, in_batch,
}

-- The mutex is held exactly while a transaction is open.
abbrev is_open : Option Db → Bool
is_open none = false
is_open (some d) = true

abbrev pub IsLocked : Store → Type 0
IsLocked s = s.locked ≡ is_open s.tx

-- BeginBatch, CommitBatch, RollbackBatch and Close keep the mutex held exactly while a transaction
-- is open; a BeginBatch while one is open waits for ever and changes nothing, so the error "batch
-- already in progress" is never returned.
pub batch_calls-IsLocked :
    (s : Store)
    → IsLocked s
    → IsLocked (begin_batch s).1
      × IsLocked (commit_batch s).1
      × IsLocked (rollback_batch s).1
      × IsLocked (close s).1
      × ((d : Db) → s.tx ≡ some d → begin_batch s ≡ (blocked, s))
      × ((begin_batch s).0 ≢ err (message "batch already in progress"))
unfolding begin_batch commit_batch rollback_batch close
batch_calls-IsLocked s h =
    (ground arith, ground arith, ground arith, ground arith, λ d e. ground arith, λ e. ground arith)

-- How a batch ends: committed with the copy `d`, or rolled back because the driver had a fault.
-- Either way the transaction is closed and the mutex free.
abbrev pub Settles : Store → Db → Result (Unit {0}) × Store → Type 0
Settles s d (ok _, s') = (s'.db ≡ d) × (s'.tx ≡ none) × (s'.locked ≡ false)
Settles s d (err e, s') = (s'.db ≡ s.db) × (s'.tx ≡ none) × (s'.locked ≡ false) × (s.faults ≢ [])
Settles s d (blocked, s') = ⊥

abbrev fails : Store → Bool
fails s = (next_fault s.faults).0

abbrev unlocked : Store → Db → Store
unlocked s d = record s { db = d; tx = none; locked = false; faults = (next_fault s.faults).1 }

fails-faults : (s : Store) → fails s ≡ true → s.faults ≢ []
fails-faults s h = ground arith

commit_batch-ok :
    (s : Store) (d : Db) → s.tx ≡ some d → fails s ≡ false → commit_batch s ≡ (ok tt, unlocked s d)
unfolding commit_batch
commit_batch-ok s d e h = ground arith

commit_batch-err :
    (s : Store) (d : Db)
    → s.tx ≡ some d
    → fails s ≡ true
    → commit_batch s ≡ (err (wrap "commit batch" driver), unlocked s s.db)
unfolding commit_batch
commit_batch-err s d e h = ground arith

rollback_batch-store : (s : Store) (d : Db) → s.tx ≡ some d → (rollback_batch s).1 ≡ unlocked s s.db
unfolding rollback_batch
rollback_batch-store s d e = ground arith

finish-Settles :
    (commit_error : Error → Error) (s s₁ : Store) (d : Db) (r : Result (Unit {0})) (s' : Store)
    → s₁.db ≡ s.db
    → (s.faults ≡ [] → s₁.faults ≡ [])
    → Ends s₁ tt d (r, s')
    → Settles s d (finish commit_error r s')
unfolding finish
finish-Settles c s s₁ d (ok _) s' same quiet h = elim (Bool-cases (fails s')) [
  | inl bad ↦
      rw (commit_batch-err s' d h.1 bad)
        (h.0.db ∙ same, refl, refl, λ z. fails-faults s' bad (h.3 (quiet z)))
  | inr good ↦ rw (commit_batch-ok s' d h.1 good) (refl, refl, refl)
]
finish-Settles c s s₁ d (err e) s' same quiet h =
    let (d', in_tx) = h.1 in
    rw (rollback_batch-store s' d' in_tx) (h.0.db ∙ same, refl, refl, λ z. h.2 (quiet z))
finish-Settles c s s₁ d blocked s' same quiet h = h

begin_batch-ok :
    (s : Store)
    → s.locked ≡ false
    → s.tx ≡ none
    → fails s ≡ false
    → begin_batch s
      ≡ (ok tt, record s { tx = some s.db; locked = true; faults = (next_fault s.faults).1 })
unfolding begin_batch
begin_batch-ok s l t h = ground arith

begin_batch-err :
    (s : Store)
    → s.locked ≡ false
    → s.tx ≡ none
    → fails s ≡ true
    → begin_batch s
      ≡ (err (wrap "begin batch" driver), record s { faults = (next_fault s.faults).1 })
unfolding begin_batch
begin_batch-err s l t h = ground arith

-- The state that the body of a batch begins in.
abbrev pub opened : Store → Store
opened s = record s { tx = some s.db; locked = true; faults = (next_fault s.faults).1 }

-- A batch whose body does what `Ends` says ends committed with the body's copy, or rolled back
-- with the tables as they were; only a fault of the driver rolls it back.
pub in_batch-Settles :
    (begin_error commit_error : Error → Error) (body : Action (Unit {0})) (s : Store) (d : Db)
    → s.locked ≡ false
    → s.tx ≡ none
    → Ends (opened s) tt d (body (opened s))
    → Settles s d (in_batch begin_error body commit_error s)
unfolding in_batch
in_batch-Settles b c body s d l t h = elim (Bool-cases (fails s)) [
  | inl bad ↦ rw (begin_batch-err s l t bad) (refl, t, l, fails-faults s bad)
  | inr good ↦ rw (begin_batch-ok s l t good) (
      finish-Settles c s (opened s) d (body (opened s)).0 (body (opened s)).1 refl
        (λ z. ap (λ fs. (next_fault fs).1) z) h)
]
