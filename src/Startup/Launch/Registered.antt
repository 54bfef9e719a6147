-- ===== src/Startup/Launch/Registered.antt =====
-- The records after registerTrackedTokens and loadExtraTokens.
use koinos_token_tracker.Base.{
  ℕ, ◌≡◌, ◌≢◌, refl, sym, Bool, false, ◌||◌, not, Option, none, some, List, [], ◌∷◌, is_empty, inl,
  inr, Bool-cases,
}
use mathlib.Core.Path.{subst}
use koinos_token_tracker.Base.Text.{Text, text_eq}
use koinos_token_tracker.Config.{TokenTrackerConfig}
use koinos_token_tracker.Store.Types.{Backfill, Db, Store}
use koinos_token_tracker.Store.Action.{
  Error, Result, ok, err, blocked, Action, continue, query, statement, next_fault,
}
use koinos_token_tracker.Store.Does.{Does, Does-context, Does-query, Does-bind, for_each}
use koinos_token_tracker.Store.Records.{put_record, Has, put_record-Has_self}
use koinos_token_tracker.Store.Batch.{in_batch}
use koinos_token_tracker.Store.Batch.Lock.{Settles, opened, in_batch-Settles}
use koinos_token_tracker.Store.Writes.{put_token, upsert_token, put_backfill}
use koinos_token_tracker.Store.Writes.Changes.{Does-upsert_token, Does-upsert_backfill}
use koinos_token_tracker.Store.Reads.{get_sync_state, get_all_tokens, get_backfill}
use koinos_token_tracker.Backfill.Run.Cursor.{get_backfill-IsRecorded}
use koinos_token_tracker.Startup.{
  TokenInfo, trim_space, fetch_token_info, fresh_backfill, register, register_with, register_new,
  register_token, load_extra_tokens,
}
use koinos_token_tracker.Startup.Replay.Checked.{IsFree}
use koinos_token_tracker.Startup.Replay.Keeps.{IsKept, Settles-IsKept, get_backfill-IsKept}

pub err-ok : {A : Type 0} {e : Error} {a : A} → err e ≢ ok a
err-ok z = cc

blocked-ok : {A : Type 0} {a : A} → ◌≢◌ {A = Result A} blocked (ok a)
blocked-ok z = cc

-- A bind that returns has run both parts.
pub continue-ok :
    {A B : Type 0} (r : Result A) (f : A → Action B) (s : Store) (b : B)
    → (continue r f s).0 ≡ ok b
    → (a : A) × (r ≡ ok a) × ((f a s).0 ≡ ok b)
continue-ok (ok a) f s b e = (a, refl, e)
continue-ok (err x) f s b e = absurd (err-ok e)
continue-ok blocked f s b e = absurd (blocked-ok e)

module _ (is_contract_address : Text → Bool) (token_info : Text → Option TokenInfo)
    (cfg : TokenTrackerConfig) where
  abbrev registered : Text → Text → ℕ → ℕ → Db → Db
  registered addr symbol decimals now d =
      put_backfill
        (record (fresh_backfill is_contract_address token_info cfg addr d.sync_state.last_height) {
          updated_at = now;
        })
        (put_token
          (record { address = addr; symbol = symbol; decimals = decimals; total_supply = [] }) d)

  Does-register :
      (addr symbol : Text) (decimals : ℕ)
      → Does
          (λ _ _. tt)
          (registered addr symbol decimals)
          (register is_contract_address token_info cfg addr symbol decimals)
  unfolding register get_sync_state
  Does-register addr symbol decimals =
      Does-bind
        (Does-context "get sync state"
          (Does-query (λ d. (d.sync_state.last_height, d.sync_state.last_block_id))))
        (λ state. Does-bind (Does-upsert_token addr symbol decimals []) (λ _.
          Does-upsert_backfill (fresh_backfill is_contract_address token_info cfg addr state.0)))

  registered-rows :
      (P : List Backfill → Type 0) (addr symbol : Text) (decimals now : ℕ) (d : Db)
      → ((b : Backfill) → b.token ≡ addr → P (put_record b d.backfills))
      → P (registered addr symbol decimals now d).backfills
  unfolding put_backfill put_token
  registered-rows P addr symbol decimals now d h = h _ refl

  register-Settles :
      (addr symbol : Text) (decimals : ℕ) (s : Store)
      → IsFree s
      → Settles s (registered addr symbol decimals s.now s.db) (
          in_batch
            (λ e. e)
            (register is_contract_address token_info cfg addr symbol decimals)
            (λ e. e)
            s)
  register-Settles addr symbol decimals s free =
      in_batch-Settles (λ e. e) (λ e. e)
        (register is_contract_address token_info cfg addr symbol decimals) s _ free.0 free.1
        ((Does-register addr symbol decimals).at (opened s) s.db refl)

  -- The call passes over the address.
  abbrev pub is_passed_over : Text → Bool
  is_passed_over addr =
      is_empty addr || text_eq addr cfg.koin_contract || text_eq addr cfg.vhp_contract

  module _ (P : List Backfill → Type 0)
      (keep : (b : Backfill) (rows : List Backfill) → P rows → P (put_record b rows)) where
    pub continue-IsKept :
        {A B : Type 0} (r : Result A) (f : A → Action B) (s : Store)
        → IsKept P keep s
        → ((a : A) (s : Store) → IsKept P keep s → IsKept P keep (f a s).1)
        → IsKept P keep (continue r f s).1
    continue-IsKept (ok a) f s h hf = hf a s h
    continue-IsKept (err e) f s h hf = h
    continue-IsKept blocked f s h hf = h

    pub upsert_token-IsKept :
        (address symbol : Text) (decimals : ℕ) (s : Store)
        → IsKept P keep s
        → IsKept P keep (upsert_token address symbol decimals [] s).1
    unfolding upsert_token statement put_token
    upsert_token-IsKept address symbol decimals s h = elim (Bool-cases (next_fault s.faults).0) [
      | inl x ↦ rw (x, upsert_token) h
      | inr x ↦ rw (x, h.0.1, upsert_token) ((h.0.0, refl), h.1)
    ]

    register_with-IsKept :
        (addr : Text) (i : Option (Text × ℕ)) (s : Store)
        → IsKept P keep s
        → IsKept P keep (register_with is_contract_address token_info cfg addr i s).1
    register_with-IsKept addr none s h = h
    register_with-IsKept addr (some (symbol, decimals)) s h =
        Settles-IsKept P keep s (registered addr symbol decimals s.now s.db) _
          (registered-rows P addr symbol decimals s.now s.db (λ b e. keep b s.db.backfills h.1)) h
          (register-Settles addr symbol decimals s h.0)

    register_new-IsKept :
        (addr : Text) (o : Option Backfill) (s : Store)
        → IsKept P keep s
        → IsKept P keep (register_new is_contract_address token_info cfg addr o s).1
    register_new-IsKept addr (some bf) s h = h
    register_new-IsKept addr none s h =
        register_with-IsKept addr (fetch_token_info (token_info addr)) s h

    pub register_token-IsKept :
        (given : Text) (s : Store)
        → IsKept P keep s
        → IsKept P keep (register_token is_contract_address token_info cfg given s).1
    unfolding register_token
    register_token-IsKept given s h = elim (Bool-cases (is_passed_over (trim_space given))) [
      | inl x ↦ rw (x, register_token) h
      | inr x ↦
          elim (Bool-cases (
            text_eq (trim_space given) cfg.old_koin_contract
            || text_eq (trim_space given) cfg.old_vhp_contract)) [
              | inl y ↦ rw (x, y, register_token) h
              | inr y ↦ elim (Bool-cases (not (is_contract_address (trim_space given)))) [
                | inl z ↦ rw (x, y, z, register_token) h
                | inr z ↦
                    rw (x, y, z, register_token)
                      (continue-IsKept (get_backfill (trim_space given) s).0
                        (register_new is_contract_address token_info cfg (trim_space given)) _
                        (get_backfill-IsKept P keep (trim_space given) s h)
                        (λ o s. register_new-IsKept (trim_space given) o s))
              ]
            ]
    ]

    pub register_tracked-IsKept :
        (addrs : List Text) (s : Store)
        → IsKept P keep s
        → IsKept P keep (for_each (register_token is_contract_address token_info cfg) addrs s).1
    unfolding for_each
    register_tracked-IsKept [] s h = h
    register_tracked-IsKept (a ∷ as_) s h =
        continue-IsKept (register_token is_contract_address token_info cfg a s).0 _ _
          (register_token-IsKept a s h) (λ _ s. register_tracked-IsKept as_ s)

    pub load_extra_tokens-IsKept :
        (s : Store) → IsKept P keep s → IsKept P keep (load_extra_tokens cfg s).1
    unfolding load_extra_tokens get_all_tokens query
    load_extra_tokens-IsKept s h = elim (Bool-cases (next_fault s.faults).0) [
      | inl x ↦ rw (x, load_extra_tokens) h
      | inr x ↦ rw (x, load_extra_tokens) h
    ]

  -- The token given on the command line has a record, unless it is passed over.
  abbrev pub IsRegistered : Db → Text → Type 0
  IsRegistered d given =
      is_passed_over (trim_space given) ≡ false → Has (trim_space given) d.backfills

  settled-Has :
      (addr : Text) (s : Store) (d : Db) (x : Result (Unit {0}) × Store)
      → Has addr d.backfills
      → Settles s d x
      → x.0 ≡ ok tt
      → Has addr x.1.db.backfills
  settled-Has addr s d (ok _, s') h x e = subst (λ d. Has addr d.backfills) (sym x.0) h
  settled-Has addr s d (err z, s') h x e = absurd (err-ok e)
  settled-Has addr s d (blocked, s') h x e = absurd x

  register_with-Has :
      (addr : Text) (i : Option (Text × ℕ)) (s : Store)
      → IsFree s
      → (register_with is_contract_address token_info cfg addr i s).0 ≡ ok tt
      → Has addr (register_with is_contract_address token_info cfg addr i s).1.db.backfills
  register_with-Has addr none s free e = absurd (err-ok e)
  register_with-Has addr (some (symbol, decimals)) s free e =
      settled-Has addr s (registered addr symbol decimals s.now s.db) _
        (registered-rows (Has addr) addr symbol decimals s.now s.db (λ b named.
          subst (λ a. Has a (put_record b s.db.backfills)) named
            (put_record-Has_self b s.db.backfills)))
        (register-Settles addr symbol decimals s free) e

  pub register_new-Has :
      (addr : Text) (o : Option Backfill) (s s' : Store)
      → IsFree s
      → IsFree s'
      → get_backfill addr s ≡ (ok o, s')
      → (register_new is_contract_address token_info cfg addr o s').0 ≡ ok tt
      → Has addr (register_new is_contract_address token_info cfg addr o s').1.db.backfills
  register_new-Has addr (some bf) s s' before free read e =
      let (named, at) = get_backfill-IsRecorded addr s s' bf before.0 before.1 read in
      (at.2.0, at.2.1.0)
  register_new-Has addr none s s' before free read e =
      register_with-Has addr (fetch_token_info (token_info addr)) s' free e
