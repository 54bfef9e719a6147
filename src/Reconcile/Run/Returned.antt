-- ===== src/Reconcile/Run/Returned.antt =====
-- Run from its start to its result, under every interleaving of its goroutines.
use mathlib.Core.Path.{subst}
use koinos_token_tracker.Base.{ℕ, ◌≡◌, refl, sym, ap, ◌∙◌, inl, some, List, [], All, length, ltb}
use koinos_token_tracker.Base.Sort.Rows.{length-sort}
use koinos_token_tracker.Base.Text.{Text}
use koinos_token_tracker.Store.Types.{Address, Db, Store}
use koinos_token_tracker.Store.Action.{Result, ok, err, blocked, query}
use koinos_token_tracker.Store.Reads.{get_sync_state}
use koinos_token_tracker.Sync.Process.{last_height_or_zero}
use koinos_token_tracker.Startup.Replay.Checked.{IsFree}
use koinos_token_tracker.Reconcile.Fetch.{Reply}
use koinos_token_tracker.Reconcile.Run.{
  feeding, receiving, Going, after_count, started, Reach, verdict,
}
use koinos_token_tracker.Reconcile.Run.Flushed.{Stems}
use koinos_token_tracker.Reconcile.Run.Accounts.{to_come}
use koinos_token_tracker.Reconcile.Run.Sound.{Reads, get_addresses-Reads, Sound, receiving-ended}
use koinos_token_tracker.Reconcile.Run.Reconciled.{Reach-IsSound, IsReconciled, Sound-IsReconciled}

ok_inj : {A : Type 0} {a b : A} → ok a ≡ ok b → a ≡ b
ok_inj z = cc

last_height-IsFree :
    (s : Store)
    → IsFree s
    → IsFree (last_height_or_zero s).1 × ((last_height_or_zero s).1.db ≡ s.db)
unfolding last_height_or_zero get_sync_state query
last_height-IsFree s h = (h, refl)

module _ (replies : Text → ℕ → Reply) (vhp_contract : Text) where
  -- Before the goroutines start every address is still to come.
  fresh-IsSound :
      (d₀ : Db) (g : Going)
      → IsFree g.store
      → g.store.db ≡ d₀
      → g.total ≡ length d₀.addresses
      → g.feeder ≡ feeding
      → g.offset ≡ 0
      → g.channel ≡ []
      → g.buf ≡ []
      → g.writer ≡ receiving
      → Sound replies vhp_contract d₀ g
  fresh-IsSound d₀ g free same total f o c b w = record {
    free = free;
    table = ap (λ d. d.addresses) same;
    counted =
        total ∙ sym (length-sort (λ a b. ltb b.first_seen_height a.first_seen_height) d₀.addresses);
    channel_right = rw c tt;
    buf_right = rw b tt;
    stems = λ a t. inl (rw same refl);
    accounted = λ a i. to_come (rw o i);
    fed = rw f tt;
    emptied = λ z. absurd (receiving-ended (sym w ∙ z));
    returns = λ z. receiving-ended (sym w ∙ z);
  }

  after_count-IsSound :
      (s : Store) (x : Result (List Address × ℕ) × Store) (g : Going)
      → Reads s 1 0 x
      → after_count x ≡ ok g
      → Sound replies vhp_contract s.db g
  after_count-IsSound s (ok (rows, total), s') g r e =
      let h = last_height-IsFree s' r.2 in
      subst (Sound replies vhp_contract s.db) (ok_inj e)
        (fresh-IsSound s.db _ h.0 (h.1 ∙ r.3) r.1 refl refl refl refl refl)
  after_count-IsSound s (err z, s') g r e = cc
  after_count-IsSound s (blocked, s') g r e = cc

  pub run-IsSound :
      (s : Store) (g₀ g : Going)
      → IsFree s
      → started s ≡ ok g₀
      → Reach replies vhp_contract g₀ g
      → Sound replies vhp_contract s.db g
  unfolding started
  run-IsSound s g₀ g free e r =
      Reach-IsSound replies vhp_contract s.db r
        (after_count-IsSound s _ g₀ (get_addresses-Reads 1 0 s free) e)

  -- Whatever the goroutines' interleaving and the driver's faults, if Run returns without an error,
  -- then the VHP balance of every address in the tables is the one that was fetched for it, unless
  -- none of its attempts gave one. Run begins outside a batch.
  pub run-IsReconciled :
      (s : Store) (g₀ g : Going)
      → IsFree s
      → started s ≡ ok g₀
      → Reach replies vhp_contract g₀ g
      → verdict g ≡ some (ok tt)
      → All (λ r. IsReconciled replies vhp_contract s.db g.store.db r.address) s.db.addresses
  run-IsReconciled s g₀ g free e r v =
      Sound-IsReconciled replies vhp_contract s.db g (run-IsSound s g₀ g free e r) v

  -- At every moment of Run, with any faults of the driver, a balance in the tables is what it was
  -- before, or it is a VHP balance that was fetched for its address.
  pub run-Stems :
      (s : Store) (g₀ g : Going) (a t : Text)
      → IsFree s
      → started s ≡ ok g₀
      → Reach replies vhp_contract g₀ g
      → Stems replies vhp_contract s.db g.store.db a t
  run-Stems s g₀ g a t free e r = (run-IsSound s g₀ g free e r).stems a t
