-- ===== src/Reconcile/Run/Reconciled.antt =====
-- The tables when Run has returned.
use mathlib.Core.Path.{subst}
use koinos_token_tracker.Base.{
  ℕ, ◌≤◌, ◌≡◌, ◌≢◌, refl, sym, ap, ◌⊎◌, inl, inr, ◌&&◌, none, some, List, [], ◌∷◌, All, Any,
  is_empty, length, ltb, Bool-cases,
}
use koinos_token_tracker.Base.Members.{Any-drop_all}
use koinos_token_tracker.Base.Sort.Rows.{All-sort}
use koinos_token_tracker.Base.Text.{Text}
use koinos_token_tracker.Store.Types.{Address, Db, Store}
use koinos_token_tracker.Store.Action.{Result, ok, err, blocked}
use koinos_token_tracker.Store.Batch.Lock.{Settles}
use koinos_token_tracker.Reconcile.Fetch.{Reply}
use koinos_token_tracker.Reconcile.Run.{
  Feeder, feeding, closed, gave_up, Writer, receiving, ended, Going, fetched, after_flush,
  sent_done, finished, flushed, flush, Step, reads, closes, sends, takes, answers, misses, receives,
  drains, finishes, Reach, here, next, verdict_at, verdict_when, verdict,
}
use koinos_token_tracker.Reconcile.Run.Flushed.{IsWritten, with_updates, flush-Settles}
use koinos_token_tracker.Reconcile.Run.Accounts.{
  by_age, IsFailed, IsFed, Accounted, to_come, on_page, queued, held, missed, sent, buffered,
  settled, lost, ended-Accounted,
}
use koinos_token_tracker.Reconcile.Run.Sound.{
  Sound, after_flush-IsSound, read_page-IsSound, closes-IsSound, received-IsSound, drains-IsSound,
}
use koinos_token_tracker.Reconcile.Run.Workers.{
  sends-IsSound, takes-IsSound, answers-IsSound, misses-IsSound,
}

module _ (replies : Text → ℕ → Reply) (vhp_contract : Text) (d₀ : Db) where
  done-IsSound :
      (g : Going)
      → g.feeder ≡ closed
      → g.work ≡ []
      → g.in_hand ≡ []
      → g.channel ≡ []
      → g.buf ≡ []
      → g.writer ≡ receiving
      → Sound replies vhp_contract d₀ g
      → Sound replies vhp_contract d₀ (record g { writer = ended (ok tt) })
  done-IsSound g f e₁ e₂ e₃ e₄ w h = record {
    free = h.free;
    table = h.table;
    counted = h.counted;
    channel_right = h.channel_right;
    buf_right = h.buf_right;
    stems = h.stems;
    accounted = λ a i. ended-Accounted replies vhp_contract d₀ a g w (h.accounted a i);
    fed = h.fed;
    emptied = λ z. (f, e₁, e₂, e₃, e₄);
    returns = λ z. cc;
  }

  finish-IsSound :
      (g : Going) (x : Result (Unit {0}) × Store)
      → g.feeder ≡ closed
      → g.work ≡ []
      → g.in_hand ≡ []
      → g.channel ≡ []
      → g.writer ≡ receiving
      → Settles g.store (with_updates g.last_height g.buf g.store.now g.store.db) x
      → Sound replies vhp_contract d₀ g
      → Sound replies vhp_contract d₀
          (record (after_flush g x) { writer = sent_done (after_flush g x).writer })
  finish-IsSound g (ok _, s) f e₁ e₂ e₃ w settles h =
      subst (λ z. Sound replies vhp_contract d₀ (record (after_flush g (ok tt, s)) { writer = z }))
        (sym (ap sent_done w))
        (done-IsSound (after_flush g (ok tt, s)) f e₁ e₂ e₃ refl w
          (after_flush-IsSound replies vhp_contract d₀ g (ok tt, s) w settles h))
  finish-IsSound g (err e, s) f e₁ e₂ e₃ w settles h =
      after_flush-IsSound replies vhp_contract d₀ g (err e, s) w settles h
  finish-IsSound g (blocked, s) f e₁ e₂ e₃ w settles h = absurd settles

  finished-IsSound :
      (g : Going)
      → g.feeder ≡ closed
      → g.work ≡ []
      → g.in_hand ≡ []
      → g.channel ≡ []
      → g.writer ≡ receiving
      → Sound replies vhp_contract d₀ g
      → Sound replies vhp_contract d₀ (finished g)
  unfolding finished flushed
  finished-IsSound g f e₁ e₂ e₃ w h =
      finish-IsSound g (flush g.last_height g.buf g.store) f e₁ e₂ e₃ w
        (flush-Settles g.last_height g.buf g.store h.free) h

  pub Step-IsSound :
      {g g' : Going}
      → Step replies vhp_contract g g'
      → Sound replies vhp_contract d₀ g
      → Sound replies vhp_contract d₀ g'
  Step-IsSound {g} (reads f e lt) h = read_page-IsSound replies vhp_contract d₀ g f e h
  Step-IsSound {g} (closes f e le) h = closes-IsSound replies vhp_contract d₀ g f e le h
  Step-IsSound {g} (sends a rest e room) h = sends-IsSound replies vhp_contract d₀ g a rest e h
  Step-IsSound {g} (takes a rest e room) h = takes-IsSound replies vhp_contract d₀ g a rest e h
  Step-IsSound {g} (answers xs a ys b e f room) h =
      answers-IsSound replies vhp_contract d₀ g xs a ys b e f h
  Step-IsSound {g} (misses xs a ys e f) h = misses-IsSound replies vhp_contract d₀ g xs a ys e f h
  Step-IsSound {g} (receives u rest w e) h = received-IsSound replies vhp_contract d₀ g u rest w e h
  Step-IsSound {g} (drains x u rest w e) h = drains-IsSound replies vhp_contract d₀ g x u rest w e h
  Step-IsSound {g} (finishes f e₁ e₂ e₃ w) h = finished-IsSound g f e₁ e₂ e₃ w h

  pub Reach-IsSound :
      {g g' : Going}
      → Reach replies vhp_contract g g'
      → Sound replies vhp_contract d₀ g
      → Sound replies vhp_contract d₀ g'
  Reach-IsSound here h = h
  Reach-IsSound (next r st) h = Step-IsSound st (Reach-IsSound r h)

  writer_done : (g : Going) (w : Writer) → verdict_at g w ≡ some (ok tt) → w ≡ ended (ok tt)
  writer_done g receiving e = cc
  writer_done g (ended (ok _)) e = refl
  writer_done g (ended (err x)) e = cc
  writer_done g (ended blocked) e = cc

  verdict-writer :
      (g : Going) (f : Feeder) → verdict_when g f ≡ some (ok tt) → g.writer ≡ ended (ok tt)
  verdict-writer g feeding e = cc
  verdict-writer g (gave_up x) e = cc
  verdict-writer g closed e = elim (Bool-cases (is_empty g.work && is_empty g.in_hand)) [
    | inl x ↦ writer_done g g.writer (rw (x, verdict_when) at e)
    | inr x ↦ absurd (none-some (rw (x, verdict_when) at e))
  ]
    where
      none-some : {A : Type 0} {a : A} → none ≢ some a
      none-some z = cc

  -- The balance of the address is what was fetched, unless no attempt gave one.
  abbrev pub IsReconciled : Db → Text → Type 0
  IsReconciled d a = (fetched replies vhp_contract a ≡ none) ⊎ IsWritten replies vhp_contract a d

  left_over :
      (a : Text) (g : Going)
      → Sound replies vhp_contract d₀ g
      → g.writer ≡ ended (ok tt)
      → Accounted replies vhp_contract d₀ a g
      → IsReconciled g.store.db a
  left_over a g h w (to_come i) = absurd (
      Any-drop_all (λ r. r.address ≡ a) g.offset (by_age d₀.addresses)
        (behind g.feeder (h.emptied w).0 h.fed) i)
    where
      behind :
          (f : Feeder)
          → f ≡ closed
          → IsFed f g.pending g.total g.offset
          → length (by_age d₀.addresses) ≤ g.offset
      behind feeding e k = cc
      behind closed e k = subst (λ n. n ≤ g.offset) h.counted k.1
      behind (gave_up x) e k = cc
  left_over a g h w (on_page i) = absurd (no_page g.feeder (h.emptied w).0 h.fed)
    where
      no_page : (f : Feeder) → f ≡ closed → IsFed f g.pending g.total g.offset → ⊥
      no_page feeding e k = cc
      no_page closed e k = subst (Any (λ x. x ≡ a)) k.0 i
      no_page (gave_up x) e k = cc
  left_over a g h w (queued i) = absurd (subst (Any (λ x. x ≡ a)) (h.emptied w).1 i)
  left_over a g h w (held i) = absurd (subst (Any (λ x. x ≡ a)) (h.emptied w).2 i)
  left_over a g h w (missed e) = inl e
  left_over a g h w (sent i) = absurd (subst (Any (λ u. u.address ≡ a)) (h.emptied w).3 i)
  left_over a g h w (buffered i) = absurd (subst (Any (λ u. u.address ≡ a)) (h.emptied w).4 i)
  left_over a g h w (settled e) = inr e
  left_over a g h w (lost e) = absurd (subst IsFailed w e)

  each :
      (P : Text → Type 0) (rows : List Address)
      → ((a : Text) → Any (λ r. r.address ≡ a) rows → P a)
      → All (λ r. P r.address) rows
  each P [] h = tt
  each P (r ∷ rows) h = (h r.address (inl refl), each P rows (λ a i. h a (inr i)))

  pub Sound-IsReconciled :
      (g : Going)
      → Sound replies vhp_contract d₀ g
      → verdict g ≡ some (ok tt)
      → All (λ r. IsReconciled g.store.db r.address) d₀.addresses
  Sound-IsReconciled g h e =
      All-sort (λ r. IsReconciled g.store.db r.address)
        (λ a b. ltb b.first_seen_height a.first_seen_height) d₀.addresses
        (each (IsReconciled g.store.db) (by_age d₀.addresses)
          (λ a i. left_over a g h (verdict-writer g g.feeder e) (h.accounted a i)))
