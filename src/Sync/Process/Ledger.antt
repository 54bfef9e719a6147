-- ===== src/Sync/Process/Ledger.antt =====
-- The balances after a block.
use mathlib.Core.Path.{subst}
use koinos_token_tracker.Base.{
  ℕ, ◌≡◌, refl, sym, ◌∙◌, ◌⊎◌, inl, inr, true, false, ◌&&◌, Option, none, some, List, [], ◌∷◌, leb,
  ◌==◌, if◌then◌else◌, arith, Bool-cases, ap, All, All-filter,
}
use koinos_token_tracker.Base.Int.{ℤ, pos, negsuc, ◌+ℤ◌, ◌≤ℤ◌, int_laws}
use koinos_token_tracker.Base.Text.{Text, text_eq, text_eq_iff}
use koinos_token_tracker.Base.Table.{upsert-All}
use koinos_token_tracker.Decimal.{print, format_int, set_string}
use koinos_token_tracker.Decimal.RoundTrip.{set_string-format_int}
use koinos_token_tracker.Config.{TokenTrackerConfig}
use koinos_token_tracker.Indexer.Types.{BalanceChange, BlockResult}
use koinos_token_tracker.Indexer.Event.Moves.{delta_at, net_changes}
use koinos_token_tracker.Store.Types.{Db, Balance}
use koinos_token_tracker.Store.Does.{fold_each, fold_each-keeps, fold_each-same}
use koinos_token_tracker.Store.Writes.{
  put_sync_state, put_address, put_balance, put_block, put_transfer, delete_balances,
  delete_transfers,
}
use koinos_token_tracker.Store.Reads.{balance_of}
use koinos_token_tracker.Store.Reads.Balances.{balance_of-put_balance, balance_of-delete_balances}
use koinos_token_tracker.Sync.Process.{adjusted, clamp, big_or_zero}
use koinos_token_tracker.Sync.Process.Effect.{
  change_balance, record_transfer, migrated, with_balances, block_effect, guarded_effect,
}

-- The number that a balance text stands for.
abbrev pub amount : Text → Text → Db → ℤ
amount a t d = big_or_zero (set_string (balance_of a t d))

-- Every stored balance is the decimal text of a natural number.
abbrev pub IsCanonical : Balance → Type 0
IsCanonical r = (n : ℕ) × (r.balance ≡ print n)

abbrev pub HasCanonicalBalances : Db → Type 0
HasCanonicalBalances d = All IsCanonical d.balances

adjusted-canonical : (t : Text) (delta : ℤ) → (n : ℕ) × (adjusted t delta ≡ print n)
unfolding adjusted
adjusted-canonical t delta = clamped (big_or_zero (set_string t) +ℤ delta)
  where
    clamped : (v : ℤ) → (n : ℕ) × (format_int (clamp v) ≡ print n)
    clamped (pos n) = (n, refl)
    clamped (negsuc n) = (0, refl)

change_balance-canonical :
    (height : ℕ) (c : BalanceChange) (now : ℕ) (d : Db)
    → HasCanonicalBalances d
    → HasCanonicalBalances (change_balance height c now d)
unfolding change_balance put_balance
change_balance-canonical height c now d h =
    let new = adjusted-canonical (balance_of c.address c.token d) c.delta in
    upsert-All IsCanonical _ _ _ d.balances new (λ r old. new) h

with_balances-canonical :
    (cfg : TokenTrackerConfig) (r : BlockResult) (now : ℕ) (d : Db)
    → HasCanonicalBalances d
    → HasCanonicalBalances (with_balances cfg r now d)
unfolding with_balances
with_balances-canonical cfg r now d h =
    fold_each-keeps HasCanonicalBalances (change_balance r.height) now
      (λ c d. change_balance-canonical r.height c now d) r.balance_changes _
      (fold_each-keeps HasCanonicalBalances (λ a now. put_address a r.height r.timestamp) now
        (λ a d k. unfold put_address in k) r.addresses _
        (elim (Bool-cases (r.height == cfg.kcs4_migration_height)) [
          | inl e ↦ rw e (unfold delete_balances in All-filter IsCanonical _ d.balances h)
          | inr e ↦ rw e h
        ]))

balances-block_effect :
    (cfg : TokenTrackerConfig) (r : BlockResult) (now : ℕ) (d : Db)
    → (block_effect cfg r now d).balances ≡ (with_balances cfg r now d).balances
balances-block_effect cfg r now d =
    unfold block_effect put_sync_state put_block delete_transfers in
    fold_each-same (λ d. d.balances) (record_transfer r) now (λ tr d. unfold put_transfer in refl)
      r.transfers _

-- Canonical balance texts stay canonical: no block leaves a negative balance or a text that is not
-- a number.
pub guarded_effect-canonical :
    (cfg : TokenTrackerConfig) (o : Option BlockResult) (last now : ℕ) (d : Db)
    → HasCanonicalBalances d
    → HasCanonicalBalances (guarded_effect cfg o last now d)
unfolding guarded_effect
guarded_effect-canonical cfg none last now d h = h
guarded_effect-canonical cfg (some r) last now d h = elim (Bool-cases (leb r.height last)) [
  | inl e ↦ rw e h
  | inr e ↦ rw e (rw (balances-block_effect cfg r now d) (with_balances-canonical cfg r now d h))
]

amount-adjusted :
    (s : Text) (delta : ℤ)
    → big_or_zero (set_string (adjusted s delta)) ≡ clamp (big_or_zero (set_string s) +ℤ delta)
unfolding adjusted
amount-adjusted s delta = ap big_or_zero (set_string-format_int _)

clamp-nonneg : (v : ℤ) → pos 0 ≤ℤ v → clamp v ≡ v
unfolding clamp
clamp-nonneg (pos n) h = refl
clamp-nonneg (negsuc n) h = absurd (omega arith)

module _ (a t : Text) where
  same_key : (a' t' : Text) → (text_eq a' a && text_eq t' t) ≡ true → (a' ≡ a) × (t' ≡ t)
  same_key a' t' e = ground (arith, text_eq_iff a' a, text_eq_iff t' t)

  amount-change_balance :
      (height : ℕ) (c : BalanceChange) (now : ℕ) (d : Db)
      → amount a t (change_balance height c now d) ≡ (
          if text_eq c.address a && text_eq c.token t
          then clamp (amount a t d +ℤ c.delta)
          else amount a t d)
  amount-change_balance height c now d =
      elim (Bool-cases (text_eq c.address a && text_eq c.token t)) [
        | inl e ↦
            let both = same_key c.address c.token e in
            unfold change_balance in
            rw (balance_of-put_balance, e)
              (amount-adjusted (balance_of c.address c.token d) c.delta ∙ rw (both.0, both.1) refl)
        | inr e ↦ unfold change_balance in rw (balance_of-put_balance, e)
      ]

  -- No change takes the running balance below zero.
  abbrev pub Covers : ℤ → List BalanceChange → Type 0
  Covers start [] = Unit
  Covers start (c ∷ cs) = (pos 0 ≤ℤ start +ℤ delta_at a t c) × Covers (start +ℤ delta_at a t c) cs

  amount-step :
      (height : ℕ) (c : BalanceChange) (now : ℕ) (d : Db)
      → pos 0 ≤ℤ amount a t d +ℤ delta_at a t c
      → amount a t (change_balance height c now d) ≡ amount a t d +ℤ delta_at a t c
  amount-step height c now d h = elim (Bool-cases (text_eq c.address a && text_eq c.token t)) [
    | inl e ↦ amount-change_balance height c now d ∙ rw e (clamp-nonneg _ (rw e at h))
    | inr e ↦ amount-change_balance height c now d ∙ rw e (omega int_laws)
  ]

  amount-fold :
      (height : ℕ) (now : ℕ) (cs : List BalanceChange) (d : Db)
      → Covers (amount a t d) cs
      → amount a t (fold_each (change_balance height) cs now d) ≡ amount a t d +ℤ net_changes a t cs
  unfolding fold_each net_changes
  amount-fold height now [] d h = omega int_laws
  amount-fold height now (c ∷ cs) d h =
      let step = amount-step height c now d h.0 in
      amount-fold height now cs (change_balance height c now d)
        (subst (λ v. Covers v cs) (sym step) h.1)
      ∙ rw step (omega int_laws)

  amount-balances : (d d' : Db) → d.balances ≡ d'.balances → amount a t d ≡ amount a t d'
  unfolding balance_of
  amount-balances d d' e = rw e

  amount-migrated :
      (cfg : TokenTrackerConfig) (height : ℕ) (d : Db)
      → ((height == cfg.kcs4_migration_height) ≡ false) ⊎ (text_eq cfg.vhp_contract t ≡ false)
      → amount a t (migrated cfg height d) ≡ amount a t d
  unfolding migrated
  amount-migrated cfg height d (inl e) = rw e
  amount-migrated cfg height d (inr e) = elim (Bool-cases (height == cfg.kcs4_migration_height)) [
    | inl at ↦ rw at (rw (balance_of-delete_balances cfg.vhp_contract a t d e))
    | inr off ↦ rw off
  ]

  -- The tables that the balance changes start from.
  amount-before :
      (cfg : TokenTrackerConfig) (r : BlockResult) (now : ℕ) (d : Db)
      → ((r.height == cfg.kcs4_migration_height) ≡ false) ⊎ (text_eq cfg.vhp_contract t ≡ false)
      → amount a t (
          fold_each
            (λ x now. put_address x r.height r.timestamp)
            r.addresses
            now
            (migrated cfg r.height d))
        ≡ amount a t d
  amount-before cfg r now d apart =
      amount-balances _ _ (
        fold_each-same (λ d. d.balances) (λ x now. put_address x r.height r.timestamp) now
          (λ x d. unfold put_address in refl) r.addresses (migrated cfg r.height d))
      ∙ amount-migrated cfg r.height d apart

  amount-with_balances :
      (cfg : TokenTrackerConfig) (r : BlockResult) (now : ℕ) (d : Db)
      → ((r.height == cfg.kcs4_migration_height) ≡ false) ⊎ (text_eq cfg.vhp_contract t ≡ false)
      → Covers (amount a t d) r.balance_changes
      → amount a t (with_balances cfg r now d) ≡ amount a t d +ℤ net_changes a t r.balance_changes
  unfolding with_balances
  amount-with_balances cfg r now d apart h =
      let start = amount-before cfg r now d apart in
      amount-fold r.height now r.balance_changes _
        (subst (λ v. Covers v r.balance_changes) (sym start) h)
      ∙ rw start

  -- What a block above the last height does to a balance: if none of its changes to an address's balance in a token takes
  -- it below zero, the block adds their sum; at the migration height the token
  -- is another than VHP.
  pub amount-block_effect :
      (cfg : TokenTrackerConfig) (r : BlockResult) (now : ℕ) (d : Db)
      → ((r.height == cfg.kcs4_migration_height) ≡ false) ⊎ (text_eq cfg.vhp_contract t ≡ false)
      → Covers (amount a t d) r.balance_changes
      → amount a t (block_effect cfg r now d) ≡ amount a t d +ℤ net_changes a t r.balance_changes
  amount-block_effect cfg r now d apart h =
      amount-balances (block_effect cfg r now d) (with_balances cfg r now d)
        (balances-block_effect cfg r now d)
      ∙ amount-with_balances cfg r now d apart h
