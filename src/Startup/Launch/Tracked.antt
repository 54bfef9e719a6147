-- ===== src/Startup/Launch/Tracked.antt =====
-- Every token of the command line has a record once registerTrackedTokens has returned.
use koinos_token_tracker.Base.{
  ◌≡◌, refl, sym, ◌∙◌, Bool, false, ◌||◌, not, Option, List, [], ◌∷◌, All, ap, inl, inr, Bool-cases,
}
use mathlib.Core.Path.{subst}
use koinos_token_tracker.Base.Text.{Text, text_eq}
use koinos_token_tracker.Config.{TokenTrackerConfig}
use koinos_token_tracker.Store.Types.{Backfill, Store}
use koinos_token_tracker.Store.Action.{ok, continue, ◌>>=◌}
use koinos_token_tracker.Store.Does.{for_each}
use koinos_token_tracker.Store.Records.{Has, put_record-Has}
use koinos_token_tracker.Store.Reads.{get_backfill}
use koinos_token_tracker.Startup.{TokenInfo, trim_space, register_new, register_token}
use koinos_token_tracker.Startup.Replay.Checked.{IsFree}
use koinos_token_tracker.Startup.Replay.Keeps.{get_backfill-IsKept}
use koinos_token_tracker.Startup.Launch.Registered.{
  err-ok, continue-ok, is_passed_over, register_token-IsKept, register_tracked-IsKept, IsRegistered,
  register_new-Has,
}

-- Nothing is asked of the records.
abbrev pub Anything : List Backfill → Type 0
Anything rows = Unit {0}

module _ (is_contract_address : Text → Bool) (token_info : Text → Option TokenInfo)
    (cfg : TokenTrackerConfig) where
  register_token-new :
      (given : Text) (s : Store)
      → is_passed_over is_contract_address token_info cfg (trim_space given) ≡ false
      → (register_token is_contract_address token_info cfg given s).0 ≡ ok tt
      → register_token is_contract_address token_info cfg given s
        ≡ (get_backfill (trim_space given)
              >>= register_new is_contract_address token_info cfg (trim_space given))
            s
  unfolding register_token
  register_token-new given s x e =
      elim (Bool-cases (
        text_eq (trim_space given) cfg.old_koin_contract
        || text_eq (trim_space given) cfg.old_vhp_contract)) [
          | inl y ↦ absurd (err-ok (rw (x, y, register_token) at e))
          | inr y ↦ elim (Bool-cases (not (is_contract_address (trim_space given)))) [
            | inl z ↦ absurd (err-ok (rw (x, y, z, register_token) at e))
            | inr z ↦ rw (x, y, z, register_token) refl
          ]
        ]

  read_new-Has :
      (addr : Text) (s : Store)
      → IsFree s
      → ((get_backfill addr >>= register_new is_contract_address token_info cfg addr) s).0 ≡ ok tt
      → Has addr
          ((get_backfill addr >>= register_new is_contract_address token_info cfg addr)
            s).1.db.backfills
  read_new-Has addr s free e =
      let (o, read, done) =
        continue-ok (get_backfill addr s).0 (register_new is_contract_address token_info cfg addr)
          (get_backfill addr s).1 tt e in
      rw (read, continue)
        (register_new-Has is_contract_address token_info cfg addr o s (get_backfill addr s).1 free
          (get_backfill-IsKept Anything (λ b rows h. tt) addr s (free, tt)).0
          (ap (λ r. (r, (get_backfill addr s).1)) read) done)

  register_token-IsRegistered :
      (given : Text) (s : Store)
      → IsFree s
      → (register_token is_contract_address token_info cfg given s).0 ≡ ok tt
      → IsRegistered is_contract_address token_info cfg
          (register_token is_contract_address token_info cfg given s).1.db
          given
  register_token-IsRegistered given s free e x =
      let same = register_token-new given s x e in
      subst (λ y. Has (trim_space given) y.1.db.backfills) (sym same)
        (read_new-Has (trim_space given) s free (ap (λ y. y.0) (sym same) ∙ e))

  for_each-first :
      (a : Text) (rest : List Text) (s : Store)
      → (register_token is_contract_address token_info cfg a s).0 ≡ ok tt
      → for_each (register_token is_contract_address token_info cfg) (a ∷ rest) s
        ≡ for_each
            (register_token is_contract_address token_info cfg)
            rest
            (register_token is_contract_address token_info cfg a s).1
  unfolding for_each
  for_each-first a rest s first = rw (first, continue) refl

  -- If the loop over the command line's tokens returns, then each of them has a record, unless it
  -- is passed over.
  pub register_tracked-IsRegistered :
      (addrs : List Text) (s : Store)
      → IsFree s
      → (for_each (register_token is_contract_address token_info cfg) addrs s).0 ≡ ok tt
      → All
          (IsRegistered is_contract_address token_info cfg
            (for_each (register_token is_contract_address token_info cfg) addrs s).1.db)
          addrs
  unfolding for_each
  register_tracked-IsRegistered [] s free e = tt
  register_tracked-IsRegistered (a ∷ rest) s free e =
      let x = register_token is_contract_address token_info cfg a s in
      let (u, first, others) =
        continue-ok x.0 (λ _. for_each (register_token is_contract_address token_info cfg) rest) x.1
          tt e in
      let free' =
        (register_token-IsKept is_contract_address token_info cfg Anything (λ b rows h. tt) a s
          (free, tt)).0 in
      subst (λ y. All (IsRegistered is_contract_address token_info cfg y.1.db) (a ∷ rest))
        (sym (for_each-first a rest s first))
        (
          (λ over.
              (register_tracked-IsKept is_contract_address token_info cfg (Has (trim_space a))
                (put_record-Has (trim_space a)) rest x.1
                (free', register_token-IsRegistered a s free first over)).1),
          register_tracked-IsRegistered rest x.1 free' others,
        )
