-- ===== src/Store/Batch.antt =====
-- BeginBatch, CommitBatch, RollbackBatch and Close.
pub mod Lock
use koinos_token_tracker.Base.{Bool, true, false, Option, none, some, if◌then◌else◌}
use koinos_token_tracker.Store.Types.{Db, Store}
use koinos_token_tracker.Store.Action.{
  Error, driver, message, wrap, Result, ok, err, blocked, Action, next_fault,
}

-- What BeginBatch does once it holds the mutex. A failure gives the mutex back.
pub begin_locked : Option Db → Action (Unit {0})
begin_locked (some d) s = (err (message "batch already in progress"), s)
begin_locked none s =
    let (fault, rest) = next_fault s.faults in
    if fault
    then (err (wrap "begin batch" driver), record s { faults = rest })
    else (ok tt, record s { tx = some s.db; locked = true; faults = rest })

-- s.mu.Lock() waits while the mutex is held.
unfoldable pub begin_batch : Action (Unit {0})
unfolding begin_locked
begin_batch s = if s.locked then (blocked, s) else begin_locked s.tx s

-- A commit that fails has committed nothing.
pub commit_open : Option Db → Action (Unit {0})
commit_open none s = (err (message "no batch in progress"), s)
commit_open (some d) s =
    let (fault, rest) = next_fault s.faults in
    if fault
    then (err (wrap "commit batch" driver), record s { tx = none; locked = false; faults = rest })
    else (ok tt, record s { db = d; tx = none; locked = false; faults = rest })

unfoldable pub commit_batch : Action (Unit {0})
unfolding commit_open
commit_batch s = commit_open s.tx s

pub rollback_open : Option Db → Action (Unit {0})
rollback_open none s = (err (message "no batch in progress"), s)
rollback_open (some d) s =
    let (fault, rest) = next_fault s.faults in
    let s' = record s { tx = none; locked = false; faults = rest } in
    if fault then (err (wrap "rollback batch" driver), s') else (ok tt, s')

unfoldable pub rollback_batch : Action (Unit {0})
unfolding rollback_open
rollback_batch s = rollback_open s.tx s

-- The rollback's error is dropped; the result is that of closing the database.
abbrev close_tx : Option Db → Store → Store
close_tx none s = s
close_tx (some d) s = record s { tx = none; locked = false; faults = (next_fault s.faults).1 }

pub close : Action (Unit {0})
close s =
    let s' = close_tx s.tx s in
    let (fault, rest) = next_fault s'.faults in
    (if fault then err driver else ok tt, record s' { faults = rest })

finish : (Error → Error) → Result (Unit {0}) → Action (Unit {0})
finish commit_error (ok _) s =
    let (r, s') = commit_batch s in
    (elim r [ ok _ ↦ ok tt | err e ↦ err (commit_error e) | blocked ↦ Result.blocked ], s')
finish commit_error (err e) s = (err e, (rollback_batch s).1)
finish commit_error blocked s = (blocked, s)

start :
    (Error → Error) → Action (Unit {0}) → (Error → Error) → Result (Unit {0}) → Action (Unit {0})
start begin_error body commit_error (ok _) s = let (r, s') = body s in finish commit_error r s'
start begin_error body commit_error (err e) s = (err (begin_error e), s)
start begin_error body commit_error blocked s = (blocked, s)

-- BeginBatch, the body, then CommitBatch or, after an error of the body, RollbackBatch with its own
-- error dropped. The callers differ in what they put in front of the first and last errors.
unfoldable pub in_batch : (Error → Error) → Action (Unit {0}) → (Error → Error) → Action (Unit {0})
unfolding begin_batch commit_batch rollback_batch finish start
in_batch begin_error body commit_error s =
    let (r, s') = begin_batch s in start begin_error body commit_error r s'
