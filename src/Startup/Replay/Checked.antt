-- ===== src/Startup/Replay/Checked.antt =====
-- The records over verifyBackfill.
use mathlib.Core.Path.{subst}
use koinos_token_tracker.Base.{
  List, [], ◌∷◌, All, ℕ, ◌≡◌, refl, sym, ◌∙◌, Bool, true, false, Option, none, some, ap, inl, inr,
  Bool-cases,
}
use koinos_token_tracker.Base.Text.{Text, text_eq, text_eq_iff}
use koinos_token_tracker.Wire.{Wire}
use koinos_token_tracker.Store.Types.{Backfill, Db, Store}
use koinos_token_tracker.Store.Action.{Result, ok, err, blocked, query, statement, next_fault}
use koinos_token_tracker.Store.Writes.{put_backfill, upsert_backfill}
use koinos_token_tracker.Store.Reads.{get_top_holders, get_backfill}
use koinos_token_tracker.Backfill.Decode.{Codecs}
use koinos_token_tracker.Backfill.Ops.Usable.{some_inj}
use koinos_token_tracker.Backfill.Run.Cursor.{
  record_in, record_in-put_self, get_backfill-IsRecorded,
}
use koinos_token_tracker.Reconcile.Check.{Rpc, CheckResult, CheckEnd, checked_all, check_token}
use koinos_token_tracker.Startup.Replay.{
  World, checked_record, record_check, after_check, verify_backfill,
}
use koinos_token_tracker.Startup.Replay.Others.{record_in-put_backfill}

-- No batch is open and the mutex is free.
abbrev pub IsFree : Store → Type 0
IsFree s = (s.locked ≡ false) × (s.tx ≡ none)

-- The token has a record, which says done if `t` holds.
abbrev pub HasRecord : Bool → Text → Db → Type 0
HasRecord t a d = (b : Backfill) × ((record_in a d ≡ some b) × (t ≡ true → b.done ≡ true))

-- The token has a record, which says done.
abbrev pub IsDone : Db → Backfill → Type 0
IsDone d bf = (b : Backfill) × ((record_in bf.token d ≡ some b) × (b.done ≡ true))

pub All-IsDone :
    (d : Db) (bfs : List Backfill) → All (λ bf. HasRecord true bf.token d) bfs → All (IsDone d) bfs
All-IsDone d [] h = tt
All-IsDone d (bf ∷ bfs) h = ((h.0.0, (h.0.1.0, h.0.1.1 refl)), All-IsDone d bfs h.1)

module _ (t : Bool) (a : Text) where
  abbrev pub Fine : Store → Type 0
  Fine s = IsFree s × HasRecord t a s.db

  check_token-Fine :
      (w : Wire) (rpc : Rpc) (token : Text) (s : Store)
      → Fine s
      → Fine (check_token w rpc token s).1
  unfolding check_token get_top_holders query
  check_token-Fine w rpc token s h = elim (Bool-cases (next_fault s.faults).0) [
    | inl x ↦ rw (x, check_token, get_top_holders, query) h
    | inr x ↦ elim (Bool-cases (next_fault (next_fault s.faults).1).0) [
      | inl y ↦ rw (x, y, check_token, get_top_holders, query) h
      | inr y ↦ rw (x, y, check_token, get_top_holders, query) h
    ]
  ]

  put_backfill-HasRecord :
      (b : Backfill) (d : Db)
      → HasRecord t a d
      → (b.token ≡ a → t ≡ true → b.done ≡ true)
      → HasRecord t a (put_backfill b d)
  put_backfill-HasRecord b d h self = elim (Bool-cases (text_eq b.token a)) [
    | inl e ↦
        let same = (text_eq_iff b.token a).0 e in (b, (record_in-put_self a b d same, self same))
    | inr e ↦ (h.0, (record_in-put_backfill b.token a e b d refl ∙ h.1.0, h.1.1))
  ]

  upsert_backfill-Fine :
      (b : Backfill) (s : Store)
      → Fine s
      → (b.token ≡ a → t ≡ true → b.done ≡ true)
      → Fine (upsert_backfill b s).1
  unfolding upsert_backfill statement
  upsert_backfill-Fine b s h self = elim (Bool-cases (next_fault s.faults).0) [
    | inl x ↦ rw (x, upsert_backfill) h
    | inr x ↦
        rw (x, h.0.1, upsert_backfill)
          ((h.0.0, refl), put_backfill-HasRecord (record b { updated_at = s.now }) s.db h.1 self)
  ]

  -- The record that GetBackfill returns is the one that is there.
  read_done :
      (token : Text) (s s' : Store) (bf : Backfill)
      → Fine s'
      → IsFree s
      → get_backfill token s ≡ (ok (some bf), s')
      → bf.token ≡ a
      → t ≡ true
      → bf.done ≡ true
  read_done token s s' bf h free e same holds =
      let (named, found) = get_backfill-IsRecorded token s s' bf free.0 free.1 e in
      let (b, at) = found.2 in
      let (b', at') = h.1 in
      let here = subst (λ x. record_in x s'.db ≡ some b) (sym named ∙ same) at.0 in
      sym at.2 ∙ (ap (λ x. x.done) (some_inj (sym here ∙ at'.0)) ∙ at'.1 holds)

  record_check-Fine :
      (w : Wire) (k : Codecs) (world : World) (r : CheckResult) (token : Text) (s : Store)
      (x : Result (Option Backfill)) (s' : Store)
      → IsFree s
      → get_backfill token s ≡ (x, s')
      → Fine s'
      → Fine (record_check w k world r (x, s'))
  record_check-Fine w k world r token s (ok (some bf)) s' free e h =
      upsert_backfill-Fine (checked_record r bf) s' h (read_done token s s' bf h free e)
  record_check-Fine w k world r token s (ok none) s' free e h = h
  record_check-Fine w k world r token s (err x) s' free e h = h
  record_check-Fine w k world r token s blocked s' free e h = h

  get_backfill-Fine : (token : Text) (s : Store) → Fine s → Fine (get_backfill token s).1
  unfolding get_backfill query
  get_backfill-Fine token s h = h

  after_check-Fine :
      (w : Wire) (k : Codecs) (world : World) (token : Text) (x : CheckEnd) (s : Store)
      → Fine s
      → Fine (after_check w k world token (x, s))
  after_check-Fine w k world token (checked_all r) s h =
      record_check-Fine w k world r token s _ _ h.0 refl (get_backfill-Fine token s h)
  after_check-Fine w k world token (CheckEnd.interrupted r) s h = h
  after_check-Fine w k world token (CheckEnd.no_holders e) s h = h
  after_check-Fine w k world token CheckEnd.stuck s h = h

  pub verify_backfill-Fine :
      (w : Wire) (k : Codecs) (world : World) (n : ℕ) (token : Text) (s : Store)
      → Fine s
      → Fine (verify_backfill w k world n token s)
  unfolding verify_backfill
  verify_backfill-Fine w k world n token s h =
      after_check-Fine w k world token _ _ (check_token-Fine w (world.rpc n) token s h)
