-- ===== src/Reconcile/Run/Flushed.antt =====
-- What a flush does to the balances.
use mathlib.Core.Path.{subst}
use koinos_token_tracker.Base.{
  ℕ, ◌≡◌, refl, sym, ◌∙◌, ◌⊎◌, inl, inr, false, ◌&&◌, some, List, [], ◌∷◌, All, Any, arith,
  Bool-cases,
}
use koinos_token_tracker.Base.Text.{Text, text_eq, text_eq_iff}
use koinos_token_tracker.Store.Types.{Db, Store}
use koinos_token_tracker.Store.Action.{wrap}
use koinos_token_tracker.Store.Does.{
  Does, Does-context, Does-for_each, for_each, fold_each, fold_each-same,
}
use koinos_token_tracker.Store.Batch.Lock.{Settles, opened, in_batch-Settles}
use koinos_token_tracker.Store.Writes.{put_balance}
use koinos_token_tracker.Store.Writes.Changes.{Does-set_balance}
use koinos_token_tracker.Store.Reads.{balance_of}
use koinos_token_tracker.Store.Reads.Balances.{balance_of-put_balance}
use koinos_token_tracker.Startup.Replay.Checked.{IsFree}
use koinos_token_tracker.Reconcile.Fetch.{Reply}
use koinos_token_tracker.Reconcile.Run.{BalanceUpdate, write_update, flush, fetched}

abbrev pub put_update : ℕ → BalanceUpdate → ℕ → Db → Db
put_update height u now d = put_balance u.address u.token u.balance height d

unfoldable pub with_updates : ℕ → List BalanceUpdate → ℕ → Db → Db
with_updates height us now d = fold_each (put_update height) us now d

Does-write_update :
    (height : ℕ) (u : BalanceUpdate)
    → Does (λ _ _. tt) (put_update height u) (write_update height u)
Does-write_update height u =
    Does-context "set balance for" (Does-set_balance u.address u.token u.balance height)

-- A flush writes all of the buffer or nothing.
pub flush-Settles :
    (height : ℕ) (us : List BalanceUpdate) (s : Store)
    → IsFree s
    → Settles s (with_updates height us s.now s.db) (flush height us s)
unfolding flush with_updates fold_each
flush-Settles height [] s free = (refl, free.1, free.0)
flush-Settles height (u ∷ us) s free =
    in_batch-Settles (wrap "begin batch") (wrap "commit batch")
      (for_each (write_update height) (u ∷ us)) s (with_updates height (u ∷ us) s.now s.db) free.0
      free.1 ((Does-for_each (Does-write_update height) (u ∷ us)).at (opened s) s.db refl)

pub with_updates-addresses :
    (height : ℕ) (us : List BalanceUpdate) (now : ℕ) (d : Db)
    → (with_updates height us now d).addresses ≡ d.addresses
unfolding with_updates
with_updates-addresses height us now d =
    fold_each-same (λ d. d.addresses) (put_update height) now (λ u d. unfold put_balance in refl) us
      d

module _ (replies : Text → ℕ → Reply) (vhp_contract : Text) where
  -- An update holds what was fetched for its address.
  abbrev pub IsRight : BalanceUpdate → Type 0
  IsRight u = (u.token ≡ vhp_contract) × (fetched replies vhp_contract u.address ≡ some u.balance)

  -- The balance of VHP is what was fetched.
  abbrev pub IsWritten : Text → Db → Type 0
  IsWritten a d = fetched replies vhp_contract a ≡ some (balance_of a vhp_contract d)

  -- A balance is as it was, or it is one of VHP that was fetched.
  abbrev pub Stems : Db → Db → Text → Text → Type 0
  Stems d₀ d a t = (balance_of a t d ≡ balance_of a t d₀) ⊎ ((t ≡ vhp_contract) × IsWritten a d)

  put_update-IsWritten :
      (height now : ℕ) (u : BalanceUpdate) (a : Text) (d : Db)
      → IsRight u
      → (u.address ≡ a) ⊎ IsWritten a d
      → IsWritten a (put_update height u now d)
  put_update-IsWritten height now u a d right h =
      elim (Bool-cases (text_eq u.address a && text_eq u.token vhp_contract)) [
        | inl e ↦
            let same : u.address ≡ a =
              ground (arith, text_eq_iff u.address a, text_eq_iff u.token vhp_contract) in
            rw (balance_of-put_balance u.address u.token u.balance height d a vhp_contract, e)
              (subst (λ x. fetched replies vhp_contract x ≡ some u.balance) same right.1)
        | inr e ↦
            let other : text_eq u.address a ≡ false =
              ground (arith, text_eq_iff u.token vhp_contract, right.0) in
            rw (balance_of-put_balance u.address u.token u.balance height d a vhp_contract, e)
              (elim h [ inl same ↦ absurd (differ u.address a same other) | inr was ↦ was ])
      ]
    where
      differ : (x y : Text) → x ≡ y → text_eq x y ≡ false → ⊥
      differ x y same other = ground (arith, text_eq_iff x y)

  put_update-Stems :
      (height now : ℕ) (u : BalanceUpdate) (d₀ d : Db) (a t : Text)
      → IsRight u
      → Stems d₀ d a t
      → Stems d₀ (put_update height u now d) a t
  put_update-Stems height now u d₀ d a t right h =
      elim (Bool-cases (text_eq u.address a && text_eq u.token t)) [
        | inl e ↦
            let here : u.address ≡ a =
              ground (arith, text_eq_iff u.address a, text_eq_iff u.token t) in
            let token : u.token ≡ t =
              ground (arith, text_eq_iff u.address a, text_eq_iff u.token t) in
            inr (sym token ∙ right.0, put_update-IsWritten height now u a d right (inl here))
        | inr e ↦
            let same = balance_of-put_balance u.address u.token u.balance height d a t ∙ (rw e) in
            elim h [
              | inl was ↦ inl (same ∙ was)
              | inr (vhp, written) ↦
                  inr (vhp, put_update-IsWritten height now u a d right (inr written))
            ]
      ]

  pub with_updates-IsWritten :
      (height : ℕ) (us : List BalanceUpdate) (now : ℕ) (a : Text) (d : Db)
      → All IsRight us
      → Any (λ u. u.address ≡ a) us ⊎ IsWritten a d
      → IsWritten a (with_updates height us now d)
  unfolding with_updates fold_each
  with_updates-IsWritten height [] now a d right (inl among) = absurd among
  with_updates-IsWritten height [] now a d right (inr was) = was
  with_updates-IsWritten height (u ∷ us) now a d right (inl (inl here)) =
      with_updates-IsWritten height us now a _ right.1
        (inr (put_update-IsWritten height now u a d right.0 (inl here)))
  with_updates-IsWritten height (u ∷ us) now a d right (inl (inr among)) =
      with_updates-IsWritten height us now a _ right.1 (inl among)
  with_updates-IsWritten height (u ∷ us) now a d right (inr was) =
      with_updates-IsWritten height us now a _ right.1
        (inr (put_update-IsWritten height now u a d right.0 (inr was)))

  pub with_updates-Stems :
      (height : ℕ) (us : List BalanceUpdate) (now : ℕ) (d₀ d : Db) (a t : Text)
      → All IsRight us
      → Stems d₀ d a t
      → Stems d₀ (with_updates height us now d) a t
  unfolding with_updates fold_each
  with_updates-Stems height [] now d₀ d a t right h = h
  with_updates-Stems height (u ∷ us) now d₀ d a t right h =
      with_updates-Stems height us now d₀ _ a t right.1
        (put_update-Stems height now u d₀ d a t right.0 h)
