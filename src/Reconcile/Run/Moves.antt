-- ===== src/Reconcile/Run/Moves.antt =====
-- No interleaving of Run's goroutines comes to a deadlock.
use koinos_token_tracker.Base.{
  ℕ, ◌*◌, ◌≡◌, refl, sym, ◌∙◌, ◌⊎◌, inl, inr, false, none, List, [], ◌∷◌, length, ltb, ltb→lt,
  arith, Bool-cases, Option-cases,
}
use koinos_token_tracker.Base.Text.{Text}
use koinos_token_tracker.Store.Types.{Db, Store}
use koinos_token_tracker.Store.Action.{ok, err, blocked}
use koinos_token_tracker.Startup.Replay.Checked.{IsFree}
use koinos_token_tracker.Reconcile.Fetch.{Reply}
use koinos_token_tracker.Reconcile.Run.{
  BalanceUpdate, concurrency, Feeder, feeding, closed, gave_up, Writer, receiving, ended, Going,
  fetched, started, Step, reads, closes, sends, takes, answers, misses, receives, drains, finishes,
  Reach, verdict_at, verdict_when, verdict,
}
use koinos_token_tracker.Reconcile.Run.Sound.{Sound, cons-nil}
use koinos_token_tracker.Reconcile.Run.Returned.{run-IsSound}

List-cases : {A : Type 0} (xs : List A) → (xs ≡ []) ⊎ ((x : A) × (rest : List A) × (xs ≡ x ∷ rest))
List-cases [] = inl refl
List-cases (x ∷ rest) = inr (x, rest, refl)

module _ (replies : Text → ℕ → Reply) (vhp_contract : Text) (d₀ : Db) where
  abbrev pub CanMove : Going → Type 0
  CanMove g = (g' : Going) × Step replies vhp_contract g g'

  writer_moves :
      (g : Going) (w : Writer) (u : BalanceUpdate) (rest : List BalanceUpdate)
      → g.writer ≡ w
      → g.channel ≡ u ∷ rest
      → Sound replies vhp_contract d₀ g
      → CanMove g
  writer_moves g receiving u rest e c h = (_, receives u rest e c)
  writer_moves g (ended (ok _)) u rest e c h = absurd (cons-nil (sym c ∙ (h.emptied e).3))
  writer_moves g (ended (err x)) u rest e c h = (_, drains x u rest e c)
  writer_moves g (ended blocked) u rest e c h = absurd (h.returns e)

  -- A worker that has an address answers or misses, or the writer makes room for its answer.
  worker_moves :
      (g : Going) (x : Text) (ys : List Text)
      → g.in_hand ≡ x ∷ ys
      → Sound replies vhp_contract d₀ g
      → CanMove g
  worker_moves g x ys e h = elim (Option-cases (fetched replies vhp_contract x)) [
    | inl f ↦ (_, misses [] x ys e f)
    | inr (balance, f) ↦ elim (Bool-cases (ltb (length g.channel) (4 * concurrency))) [
      | inl room ↦ (_, answers [] x ys balance e f (ltb→lt _ _ room))
      | inr full ↦ elim (List-cases g.channel) [
        | inl c ↦ absurd (no_room g.channel c full)
        | inr (u, rest, c) ↦ writer_moves g g.writer u rest refl c h
      ]
    ]
  ]
    where
      no_room : (us : List BalanceUpdate) → us ≡ [] → ltb (length us) (4 * concurrency) ≡ false → ⊥
      no_room [] c f = ground arith
      no_room (u ∷ us) c f = cc

  queue_moves :
      (g : Going) (x : Text) (rest : List Text)
      → g.work ≡ x ∷ rest
      → Sound replies vhp_contract d₀ g
      → CanMove g
  queue_moves g x rest e h = elim (Bool-cases (ltb (length g.in_hand) concurrency)) [
    | inl room ↦ (_, takes x rest e (ltb→lt _ _ room))
    | inr full ↦ elim (List-cases g.in_hand) [
      | inl c ↦ absurd (no_room g.in_hand c full)
      | inr (y, ys, c) ↦ worker_moves g y ys c h
    ]
  ]
    where
      no_room : (us : List Text) → us ≡ [] → ltb (length us) concurrency ≡ false → ⊥
      no_room [] c f = ground arith
      no_room (u ∷ us) c f = cc

  feeder_moves : (g : Going) → g.feeder ≡ feeding → Sound replies vhp_contract d₀ g → CanMove g
  feeder_moves g f h = elim (List-cases g.pending) [
    | inl p ↦ elim (Bool-cases (ltb g.offset g.total)) [
      | inl more ↦ (_, reads f p (ltb→lt _ _ more))
      | inr over ↦ (_, closes f p (ground arith))
    ]
    | inr (a, rest, p) ↦ elim (Bool-cases (ltb (length g.work) (2 * concurrency))) [
      | inl room ↦ (_, sends a rest p (ltb→lt _ _ room))
      | inr full ↦ elim (List-cases g.work) [
        | inl c ↦ absurd (no_room g.work c full)
        | inr (x, others, c) ↦ queue_moves g x others c h
      ]
    ]
  ]
    where
      no_room : (us : List Text) → us ≡ [] → ltb (length us) (2 * concurrency) ≡ false → ⊥
      no_room [] c f = ground arith
      no_room (u ∷ us) c f = cc

  last_moves :
      (g : Going) (w : Writer)
      → g.writer ≡ w
      → g.feeder ≡ closed
      → g.work ≡ []
      → g.in_hand ≡ []
      → verdict_at g w ≡ none
      → Sound replies vhp_contract d₀ g
      → CanMove g
  last_moves g receiving e f e₁ e₂ v h = elim (List-cases g.channel) [
    | inl c ↦ (_, finishes f e₁ e₂ c e)
    | inr (u, rest, c) ↦ (_, receives u rest e c)
  ]
  last_moves g (ended r) e f e₁ e₂ v h = cc

  closed_moves :
      (g : Going)
      → g.feeder ≡ closed
      → verdict_when g closed ≡ none
      → Sound replies vhp_contract d₀ g
      → CanMove g
  closed_moves g f v h = elim (List-cases g.work) [
    | inr (x, rest, c) ↦ queue_moves g x rest c h
    | inl e₁ ↦ elim (List-cases g.in_hand) [
      | inr (y, ys, c) ↦ worker_moves g y ys c h
      | inl e₂ ↦ last_moves g g.writer refl f e₁ e₂ (rw (e₁, e₂, verdict_when) at v) h
    ]
  ]

  Sound-CanMove :
      (g : Going) (f : Feeder)
      → g.feeder ≡ f
      → verdict_when g f ≡ none
      → Sound replies vhp_contract d₀ g
      → CanMove g
  Sound-CanMove g feeding e v h = feeder_moves g e h
  Sound-CanMove g closed e v h = closed_moves g e v h
  Sound-CanMove g (gave_up x) e v h = cc

-- Run never deadlocks: begun outside a batch, at every moment before it has a result one of its
-- goroutines can take a step, whatever the faults, the answers and the interleaving so far.
pub run-CanMove :
    (replies : Text → ℕ → Reply) (vhp_contract : Text) (s : Store) (g₀ g : Going)
    → IsFree s
    → started s ≡ ok g₀
    → Reach replies vhp_contract g₀ g
    → verdict g ≡ none
    → CanMove replies vhp_contract s.db g
run-CanMove replies vhp_contract s g₀ g free e r v =
    Sound-CanMove replies vhp_contract s.db g g.feeder refl v
      (run-IsSound replies vhp_contract s g₀ g free e r)
