-- ===== src/Reconcile/Run/Workers.antt =====
-- The steps of the feeder that sends and of the workers keep the invariant of Run.
use koinos_token_tracker.Base.{
  ℕ, ◌+◌, ◌≡◌, refl, sym, ◌∙◌, none, some, List, [], ◌∷◌, ◌++◌, All-append,
}
use koinos_token_tracker.Base.Members.{append-ne-nil}
use koinos_token_tracker.Base.Text.{Text}
use koinos_token_tracker.Store.Types.{Db}
use koinos_token_tracker.Reconcile.Fetch.{Reply}
use koinos_token_tracker.Reconcile.Run.{Feeder, feeding, closed, gave_up, Going, fetched, update_of}
use koinos_token_tracker.Reconcile.Run.Flushed.{IsRight}
use koinos_token_tracker.Reconcile.Run.Accounts.{
  IsFed, sends-Accounted, takes-Accounted, answers-Accounted, misses-Accounted,
}
use koinos_token_tracker.Reconcile.Run.Sound.{Sound, feeding-closed, gave_up-closed, cons-nil}

module _ (replies : Text → ℕ → Reply) (vhp_contract : Text) (d₀ : Db) where
  no_page :
      (f : Feeder) (pending : List Text) (total offset : ℕ) (x : Text) (rest : List Text)
      → f ≡ closed
      → IsFed f pending total offset
      → pending ≡ x ∷ rest
      → ⊥
  no_page feeding pending total offset x rest e h p = feeding-closed e
  no_page closed pending total offset x rest e h p = cons-nil (sym p ∙ h.0)
  no_page (gave_up z) pending total offset x rest e h p = gave_up-closed e

  pub sends-IsSound :
      (g : Going) (x : Text) (rest : List Text)
      → g.pending ≡ x ∷ rest
      → Sound replies vhp_contract d₀ g
      → Sound replies vhp_contract d₀ (record g { pending = rest; work = g.work ++ x ∷ [] })
  sends-IsSound g x rest e h = record {
    free = h.free;
    table = h.table;
    counted = h.counted;
    channel_right = h.channel_right;
    buf_right = h.buf_right;
    stems = h.stems;
    accounted = λ a i. sends-Accounted replies vhp_contract d₀ a g x rest e (h.accounted a i);
    fed = fed_after g.feeder h.fed;
    emptied =
        λ w. absurd (no_page g.feeder g.pending g.total g.offset x rest (h.emptied w).0 h.fed e);
    returns = h.returns;
  }
    where
      fed_after : (f : Feeder) → IsFed f g.pending g.total g.offset → IsFed f rest g.total g.offset
      fed_after feeding k = tt
      fed_after closed k = absurd (cons-nil (sym e ∙ k.0))
      fed_after (gave_up z) k = tt

  pub takes-IsSound :
      (g : Going) (x : Text) (rest : List Text)
      → g.work ≡ x ∷ rest
      → Sound replies vhp_contract d₀ g
      → Sound replies vhp_contract d₀ (record g { work = rest; in_hand = x ∷ g.in_hand })
  takes-IsSound g x rest e h = record {
    free = h.free;
    table = h.table;
    counted = h.counted;
    channel_right = h.channel_right;
    buf_right = h.buf_right;
    stems = h.stems;
    accounted = λ a i. takes-Accounted replies vhp_contract d₀ a g x rest e (h.accounted a i);
    fed = h.fed;
    emptied = λ w. absurd (cons-nil (sym e ∙ (h.emptied w).1));
    returns = h.returns;
  }

  pub answers-IsSound :
      (g : Going) (xs : List Text) (x : Text) (ys : List Text) (balance : Text)
      → g.in_hand ≡ xs ++ x ∷ ys
      → fetched replies vhp_contract x ≡ some balance
      → Sound replies vhp_contract d₀ g
      → Sound replies vhp_contract d₀ (record g {
        in_hand = xs ++ ys;
        channel = g.channel ++ update_of replies vhp_contract x balance ∷ [];
        checked = g.checked + 1;
      })
  answers-IsSound g xs x ys balance e f h = record {
    free = h.free;
    table = h.table;
    counted = h.counted;
    channel_right =
        All-append (IsRight replies vhp_contract) g.channel
          (update_of replies vhp_contract x balance ∷ []) h.channel_right ((refl, f), tt);
    buf_right = h.buf_right;
    stems = h.stems;
    accounted =
        λ a i. answers-Accounted replies vhp_contract d₀ a g xs x ys balance e (h.accounted a i);
    fed = h.fed;
    emptied = λ w. absurd (append-ne-nil xs x ys (sym e ∙ (h.emptied w).2));
    returns = h.returns;
  }

  pub misses-IsSound :
      (g : Going) (xs : List Text) (x : Text) (ys : List Text)
      → g.in_hand ≡ xs ++ x ∷ ys
      → fetched replies vhp_contract x ≡ none
      → Sound replies vhp_contract d₀ g
      → Sound replies vhp_contract d₀ (record g {
        in_hand = xs ++ ys;
        fetch_errors = g.fetch_errors + 1;
        checked = g.checked + 1;
      })
  misses-IsSound g xs x ys e f h = record {
    free = h.free;
    table = h.table;
    counted = h.counted;
    channel_right = h.channel_right;
    buf_right = h.buf_right;
    stems = h.stems;
    accounted = λ a i. misses-Accounted replies vhp_contract d₀ a g xs x ys e f (h.accounted a i);
    fed = h.fed;
    emptied = λ w. absurd (append-ne-nil xs x ys (sym e ∙ (h.emptied w).2));
    returns = h.returns;
  }
