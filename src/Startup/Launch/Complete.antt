-- ===== src/Startup/Launch/Complete.antt =====
-- What holds when the historical sync starts.
use mathlib.Core.Path.{subst}
use koinos_token_tracker.Base.{
  ℕ, ◌<◌, ◌≡◌, ◌≢◌, refl, sym, false, List, [], ◌∷◌, All, Any, ◌⊎◌, inl, inr,
}
use koinos_token_tracker.Base.Text.{Text}
use koinos_token_tracker.Config.{TokenTrackerConfig}
use koinos_token_tracker.Wire.{Wire}
use koinos_token_tracker.Store.Types.{Db, Store}
use koinos_token_tracker.Store.Action.{Error, Result, ok, err, blocked}
use koinos_token_tracker.Store.Records.{IsKeyed, put_record-IsKeyed, Has, put_record-Has}
use koinos_token_tracker.Backfill.Decode.{Codecs}
use koinos_token_tracker.Startup.{trim_space, repair_backfilled_tx_ids}
use koinos_token_tracker.Startup.Replay.Checked.{IsFree}
use koinos_token_tracker.Startup.Launch.{
  Flags, Outside, Wait, replayed, over, hangs, waits_on, starts_sync, start_failed, start_hangs,
  prepare, wait_for_backfills, after_wait, after_prepare, launch,
}
use koinos_token_tracker.Startup.Launch.Registered.{is_passed_over, IsRegistered}
use koinos_token_tracker.Startup.Launch.Prepared.{prepare-IsKept, prepare-IsRegistered}
use koinos_token_tracker.Startup.Launch.Repaired.{repair-IsIntact}
use koinos_token_tracker.Startup.Launch.Waited.{
  HasHistory, wait-HasHistory, failures, IsLive, AllReplayed, wait-replayed,
}

failed-starts : {e : Error} {c : TokenTrackerConfig} → start_failed e ≢ starts_sync c
failed-starts z = cc

hangs-starts : {c : TokenTrackerConfig} → start_hangs ≢ starts_sync c
hangs-starts z = cc

-- The entry is the start of the sync only after a wait that ended well.
after_wait-replayed :
    (w : Wire) (k : Codecs) (outside : Outside) (flags : Flags) (cfg cfg₁ cfg' : TokenTrackerConfig)
    (x : Wait × Store)
    → (after_wait w k outside flags cfg cfg₁ x).0 ≡ starts_sync cfg'
    → (x.0 ≡ replayed) × ((after_wait w k outside flags cfg cfg₁ x).1 ≡ x.1)
after_wait-replayed w k outside flags cfg cfg₁ cfg' (replayed, s) e = (refl, refl)
after_wait-replayed w k outside flags cfg cfg₁ cfg' (over, s) e = cc
after_wait-replayed w k outside flags cfg cfg₁ cfg' (hangs, s) e = cc
after_wait-replayed w k outside flags cfg cfg₁ cfg' (waits_on, s) e = cc

module _ (w : Wire) (k : Codecs) (outside : Outside) (flags : Flags) (cfg : TokenTrackerConfig)
    (rounds fuel : ℕ) where
  open outside use {is_contract_address, token_info}

  abbrev IsPrepared : Store → Result TokenTrackerConfig × Store → Type 0
  IsPrepared s x =
      IsFree x.1
      × IsKeyed x.1.db.backfills
      × ((a : Text) → Has a s.db.backfills → Has a x.1.db.backfills)
      × ((c : TokenTrackerConfig)
          → x.0 ≡ ok c
          → All (IsRegistered is_contract_address token_info cfg x.1.db) flags.track_tokens)

  waited-HasHistory :
      (a : Text) (cfg₁ cfg' : TokenTrackerConfig) (s : Store)
      → IsFree s
      → IsKeyed s.db.backfills
      → Has a s.db.backfills
      → (after_prepare w k outside flags cfg rounds fuel (ok cfg₁, s)).0 ≡ starts_sync cfg'
      → HasHistory a (after_prepare w k outside flags cfg rounds fuel (ok cfg₁, s)).1.db
  waited-HasHistory a cfg₁ cfg' s free keyed has e =
      let s' = repair_backfilled_tx_ids w s in
      let ended = wait_for_backfills w k outside flags cfg rounds fuel 0 s' in
      let (well, same) = after_wait-replayed w k outside flags cfg cfg₁ cfg' ended e in
      let keyed' = repair-IsIntact IsKeyed w s (free, keyed) in
      let has' = (repair-IsIntact (Has a) w s (free, has)).1 in
      subst (λ s. HasHistory a s.db) (sym same)
        (wait-HasHistory w k outside flags cfg rounds a fuel 0 s' keyed'.0 keyed'.1 has' well)

  after_prepare-HasHistory :
      (a : Text) (cfg' : TokenTrackerConfig) (s : Store) (x : Result TokenTrackerConfig × Store)
      → IsPrepared s x
      → ((c : TokenTrackerConfig) → x.0 ≡ ok c → Has a x.1.db.backfills)
      → (after_prepare w k outside flags cfg rounds fuel x).0 ≡ starts_sync cfg'
      → HasHistory a (after_prepare w k outside flags cfg rounds fuel x).1.db
  after_prepare-HasHistory a cfg' s (ok cfg₁, s₁) p has e =
      waited-HasHistory a cfg₁ cfg' s₁ p.0 p.1 (has cfg₁ refl) e
  after_prepare-HasHistory a cfg' s (err z, s₁) p has e = absurd (failed-starts e)
  after_prepare-HasHistory a cfg' s (blocked, s₁) p has e = absurd (hangs-starts e)

  prepare-IsPrepared :
      (s : Store)
      → IsFree s
      → IsKeyed s.db.backfills
      → IsPrepared s (prepare w k outside flags cfg s)
  prepare-IsPrepared s free keyed =
      let kept = prepare-IsKept w k outside flags cfg IsKeyed put_record-IsKeyed s (free, keyed) in
      (
        kept.0,
        kept.1,
        λ a h. (prepare-IsKept w k outside flags cfg (Has a) (put_record-Has a) s (free, h)).1,
        λ c e. prepare-IsRegistered w k outside flags cfg s c free e,
      )

  launch-HasHistory :
      (a : Text) (cfg' : TokenTrackerConfig) (s : Store)
      → IsFree s
      → IsKeyed s.db.backfills
      → ((c : TokenTrackerConfig)
          → (prepare w k outside flags cfg s).0 ≡ ok c
          → Has a (prepare w k outside flags cfg s).1.db.backfills)
      → (launch w k outside flags cfg rounds fuel s).0 ≡ starts_sync cfg'
      → HasHistory a (launch w k outside flags cfg rounds fuel s).1.db
  unfolding launch
  launch-HasHistory a cfg' s free keyed has e =
      after_prepare-HasHistory a cfg' s (prepare w k outside flags cfg s)
        (prepare-IsPrepared s free keyed) has e

  given-Has :
      (a : Text) (d : Db) (given : List Text)
      → All (IsRegistered is_contract_address token_info cfg d) given
      → Any (λ g. trim_space g ≡ a) given
      → is_passed_over is_contract_address token_info cfg a ≡ false
      → Has a d.backfills
  given-Has a d [] h among x = absurd among
  given-Has a d (g ∷ rest) h (inl e) x =
      subst (λ t. Has t d.backfills) e
        (h.0 (subst (λ t. is_passed_over is_contract_address token_info cfg t ≡ false) (sym e) x))
  given-Has a d (g ∷ rest) h (inr among) x = given-Has a d rest h.1 among x

  -- The token has a record when the program starts, or the command line asks for it.
  abbrev pub IsAskedFor : Store → Text → Type 0
  IsAskedFor s a =
      Has a s.db.backfills
      ⊎ (Any (λ g. trim_space g ≡ a) flags.track_tokens
          × (is_passed_over is_contract_address token_info cfg a ≡ false))

  asked-Has :
      (a : Text) (s : Store)
      → IsFree s
      → IsKeyed s.db.backfills
      → IsAskedFor s a
      → (c : TokenTrackerConfig) → (prepare w k outside flags cfg s).0 ≡ ok c
      → Has a (prepare w k outside flags cfg s).1.db.backfills
  asked-Has a s free keyed (inl has) c e = (prepare-IsPrepared s free keyed).2 a has
  asked-Has a s free keyed (inr (among, x)) c e =
      given-Has a (prepare w k outside flags cfg s).1.db flags.track_tokens
        ((prepare-IsPrepared s free keyed).3 c e) among x

  -- No block is synced before the histories are complete. Let main, begun outside a batch on tables
  -- whose records have different tokens, come to the historical sync. Then every token that had a
  -- record, and every one of the command line but KOIN, VHP and the empty text, has a record that
  -- says its history is replayed, whatever faults and failed tries came before.
  pub launch-IsComplete :
      (a : Text) (cfg' : TokenTrackerConfig) (s : Store)
      → IsFree s
      → IsKeyed s.db.backfills
      → IsAskedFor s a
      → (launch w k outside flags cfg rounds fuel s).0 ≡ starts_sync cfg'
      → HasHistory a (launch w k outside flags cfg rounds fuel s).1.db
  launch-IsComplete a cfg' s free keyed asked e =
      launch-HasHistory a cfg' s free keyed (asked-Has a s free keyed asked) e

  after_wait-starts :
      (cfg' : TokenTrackerConfig) (x : Wait × Store)
      → x.0 ≡ replayed
      → (after_wait w k outside flags cfg cfg' x).0 ≡ starts_sync cfg'
  after_wait-starts cfg' (replayed, s) e = refl
  after_wait-starts cfg' (over, s) e = cc
  after_wait-starts cfg' (hangs, s) e = cc
  after_wait-starts cfg' (waits_on, s) e = cc

  -- Once the histories are replayed, failures of the database and of the nodes only delay the sync.
  -- Let main, begun outside a batch, register and load the tokens, and let every record then say
  -- that its history is replayed. Under a context that goes on, with more tries than failures that the
  -- driver still has when they begin, main comes to the historical sync with
  -- the configuration that was loaded, whatever the nodes answer to the verification.
  pub launch-starts_sync :
      (cfg' : TokenTrackerConfig) (s : Store)
      → IsFree s
      → (prepare w k outside flags cfg s).0 ≡ ok cfg'
      → AllReplayed w k outside flags cfg rounds (prepare w k outside flags cfg s).1.db.backfills
      → IsLive w k outside flags cfg rounds
      → failures (repair_backfilled_tx_ids w (prepare w k outside flags cfg s).1).faults < fuel
      → (launch w k outside flags cfg rounds fuel s).0 ≡ starts_sync cfg'
  unfolding launch
  launch-starts_sync cfg' s free e done live lt =
      let free' =
        (prepare-IsKept w k outside flags cfg (λ _. Unit {0}) (λ _ _ _. tt) s (free, tt)).0 in
      let kept =
        repair-IsIntact (AllReplayed w k outside flags cfg rounds) w
          (prepare w k outside flags cfg s).1 (free', done) in
      rw (e, after_prepare)
        (after_wait-starts cfg' _
          (wait-replayed w k outside flags cfg rounds fuel 0 _ live kept.0.1 kept.1 lt))
