-- ===== src/Backfill/Run/Complete.antt =====
-- When Run may call a history complete.
use mathlib.Core.Path.{subst}
use koinos_token_tracker.Base.{
  ℕ, zero, suc, ◌≤◌, ◌<◌, ◌≡◌, ◌≢◌, refl, sym, ◌⊎◌, inl, inr, Bool, true, false, Option, none, some,
  ltb, arith, Bool-cases, Option-cases, ap,
}
use koinos_token_tracker.Base.Text.{Text}
use koinos_token_tracker.Wire.{Wire}
use koinos_token_tracker.Store.Types.{Backfill, Store}
use koinos_token_tracker.Store.Action.{Result, ok, err, blocked}
use koinos_token_tracker.Store.Reads.{get_backfill}
use koinos_token_tracker.Backfill.Decode.{Codecs}
use koinos_token_tracker.Backfill.Client.{
  Net, Client, tick, trim_slashes, new_client, history_height,
}
use koinos_token_tracker.Backfill.Client.Anchored.{IsAnchored, IsAnchored-tick, Ends}
use koinos_token_tracker.Backfill.Client.Canonical.{history_height-Ends}
use koinos_token_tracker.Backfill.Collect.{Page, collect}
use koinos_token_tracker.Backfill.Collect.Within.{PageIsWithin, collect-PageIsWithin}
use koinos_token_tracker.Backfill.Run.{
  finished, failed, stuck, out_of_fuel, RunError, Loop, Tail, from_height, tail_of, Ended,
  after_apply, with_page, run_loop, resume, run,
}

failed-finished : {e : RunError} → failed e ≢ finished
failed-finished z = cc

stuck-finished : stuck ≢ finished
stuck-finished z = cc

out-finished : out_of_fuel ≢ finished
out-finished z = cc

false-true : false ≢ true
false-true e = cc

le_trans : {a b c : ℕ} → a ≤ b → b ≤ c → a ≤ c
le_trans h k = omega arith

module _ (net : Net) (w : Wire) (k : Codecs) (token ref node second : Text) (bf : Backfill) where
  -- By the time `t` the reference account's history had shown that the history indexer was at the
  -- cutoff or past it.
  pub record HeightSeen (t : ℕ) : Type 0 where
    pub before : Client
    pub after : Client
    pub height : ℕ
    pub anchored : IsAnchored net node second 0 before
    pub asked : history_height net ref before ≡ (some height, after)
    pub reached : bf.cutoff_height ≤ height
    pub earlier : after.time ≤ t

  -- A page above the cutoff, or a short page that was asked for after that had been seen.
  pub record LastPage : Type 0 where
    pub seq : ℕ
    pub asking : Client
    pub page : Page
    pub answered : Client
    pub anchored : IsAnchored net node second 0 asking
    pub collected : collect net w k token bf.cutoff_height seq asking ≡ (some page, answered)
    pub complete :
        (bf.cutoff_height < page.stopped) ⊎ ((page.at_end ≡ true) × HeightSeen asking.time)

  abbrev pub LoopIsSound : Loop → Client → Type 0
  LoopIsSound l c = IsAnchored net node second 0 c × (l.covered ≡ true → HeightSeen c.time)

  later : {t t' : ℕ} → t ≤ t' → HeightSeen t → HeightSeen t'
  later {t} {t'} le h = record {
    before = h.before;
    after = h.after;
    height = h.height;
    anchored = h.anchored;
    asked = h.asked;
    reached = h.reached;
    earlier = le_trans h.earlier le;
  }

  from :
      {t' : ℕ} (t : ℕ) (c : Client)
      → t ≤ c.time
      → IsAnchored net node second t' c
      → IsAnchored net node second t c
  from t c le a = (a.0, a.1, a.2, a.3, le)

  abbrev TailIsSound : ℕ → Bool → Bool → Tail × Client → Type 0
  TailIsSound stopped at_end covered (tail, c) =
      IsAnchored net node second 0 c
      × (tail.is_done ≡ true → (0 < stopped) ⊎ ((at_end ≡ true) × (covered ≡ true)))
      × (tail.covered ≡ true → HeightSeen c.time)

  from_height-TailIsSound :
      (stopped : ℕ) (at_end : Bool) (c : Client) (o : Option ℕ) (c' : Client)
      → IsAnchored net node second 0 c
      → IsAnchored net node second 0 c'
      → history_height net ref c ≡ (o, c')
      → TailIsSound stopped at_end false (from_height bf.cutoff_height o, c')
  from_height-TailIsSound stopped at_end c none c' a a' e =
      (a', λ z. absurd (false-true z), λ z. absurd (false-true z))
  from_height-TailIsSound stopped at_end c (some h) c' a a' e =
      elim (Bool-cases (ltb h bf.cutoff_height)) [
        | inl low ↦ rw low (a', λ z. absurd (false-true z), λ z. absurd (false-true z))
        | inr high ↦ rw high (
          a',
          λ z. absurd (false-true z),
          λ z. record {
            before = c;
            after = c';
            height = h;
            anchored = a;
            asked = e;
            reached = ground arith;
            earlier = omega arith;
          },
        )
      ]

  tail_of-TailIsSound :
      (page : Page) (covered : Bool) (c : Client)
      → IsAnchored net node second 0 c
      → (covered ≡ true → HeightSeen c.time)
      → TailIsSound page.stopped page.at_end covered
          (tail_of net w k token ref page covered bf.cutoff_height c)
  unfolding tail_of
  tail_of-TailIsSound page covered c a seen = elim (Bool-cases (ltb 0 page.stopped)) [
    | inl e ↦ rw (e, tail_of) (a, λ z. inl (ground arith), seen)
    | inr e ↦ elim (Bool-cases page.at_end) [
      | inr n ↦ rw (e, n, tail_of) (a, λ z. absurd (false-true z), seen)
      | inl n ↦ elim (Bool-cases covered) [
        | inl y ↦ rw (e, n, y, tail_of) (a, λ z. inr (refl, refl), λ z. seen y)
        | inr y ↦
            rw (e, n, y, tail_of)
              (from_height-TailIsSound page.stopped true c (history_height net ref c).0
                (history_height net ref c).1 a (history_height-Ends net node second 0 ref c a).0
                refl)
      ]
    ]
  ]

  abbrev IsJustified : Ended net w k token ref → Type 0
  IsJustified e = e.0 ≡ finished → LastPage

  module _ (next_round : Loop → Client → Store → Ended net w k token ref) where
    after_apply-IsJustified :
        (l : Loop) (page : Page) (tail : Tail) (c : Client) (x : Result (Unit {0}) × Store)
        → ((l : Loop) (s : Store) → LoopIsSound l c → IsJustified (next_round l c s))
        → IsAnchored net node second 0 c
        → (tail.is_done ≡ true → LastPage)
        → (tail.covered ≡ true → HeightSeen c.time)
        → IsJustified (after_apply net w k token ref next_round l page tail c x)
    after_apply-IsJustified l page tail c (err e, s) next a last seen =
        λ z. absurd (failed-finished z)
    after_apply-IsJustified l page tail c (blocked, s) next a last seen =
        λ z. absurd (stuck-finished z)
    after_apply-IsJustified l page tail c (ok _, s) next a last seen =
        elim (Option-cases tail.lag) [
          | inr (e, i) ↦ rw (i, after_apply) (λ z. absurd (failed-finished z))
          | inl i ↦ elim (Bool-cases tail.is_done) [
            | inl d ↦ λ _. last d
            | inr d ↦ rw (i, d, after_apply) (next _ s (a, seen))
          ]
        ]

  stopped_above :
      {stopped : ℕ}
      → (stopped ≡ 0) ⊎ (bf.cutoff_height < stopped)
      → 0 < stopped
      → bf.cutoff_height < stopped
  stopped_above h p = ground arith

  last_page :
      (l : Loop) (c c' : Client) (page : Page)
      → LoopIsSound l c
      → collect net w k token bf.cutoff_height l.seq c ≡ (some page, c')
      → (0 < page.stopped) ⊎ ((page.at_end ≡ true) × (l.covered ≡ true))
      → LastPage
  last_page l c c' page sound e h =
      let kept =
        subst (Ends net node second 0 (PageIsWithin net node second 0 w k token bf.cutoff_height)) e
          (collect-PageIsWithin net node second 0 w k token bf.cutoff_height l.seq c sound.0) in
      record {
        seq = l.seq;
        asking = c;
        page = page;
        answered = c';
        anchored = sound.0;
        collected = e;
        complete = elim h [
          | inl p ↦ inl (stopped_above kept.1.1 p)
          | inr (p, q) ↦ inr (p, sound.1 q)
        ];
      }

  collected-IsJustified :
      (fuel : ℕ) (l : Loop) (c : Client) (page : Page) (c' : Client) (s : Store)
      → LoopIsSound l c
      → collect net w k token bf.cutoff_height l.seq c ≡ (some page, c')
      → ((l : Loop) (c : Client) (s : Store)
          → LoopIsSound l c
          → IsJustified (run_loop net w k token ref fuel bf l c s))
      → IsJustified
          (with_page net w k token ref (run_loop net w k token ref fuel bf) bf l page c' s)
  unfolding with_page
  collected-IsJustified fuel l c page c' s sound e next =
      let kept =
        subst
          (Ends net node second c.time
            (PageIsWithin net node second c.time w k token bf.cutoff_height))
          e
          (collect-PageIsWithin net node second c.time w k token bf.cutoff_height l.seq c
            (from c.time c (omega arith) sound.0)) in
      let (a, done, seen) =
        tail_of-TailIsSound page l.covered c' (from 0 c' (omega arith) kept.0)
          (λ z. later kept.0.4 (sound.1 z)) in
      after_apply-IsJustified (run_loop net w k token ref fuel bf) l page _ _ _
        (λ l s h. next l _ s h) a (λ z. last_page l c c' page sound e (done z)) seen

  run_loop-IsJustified :
      (fuel : ℕ) (l : Loop) (c : Client) (s : Store)
      → LoopIsSound l c
      → IsJustified (run_loop net w k token ref fuel bf l c s)
  unfolding run_loop
  run_loop-IsJustified zero l c s sound = λ z. absurd (out-finished z)
  run_loop-IsJustified (suc fuel) l c s sound = elim (Bool-cases (net.is_cancelled c.time)) [
    | inl x ↦ rw (x, run_loop) (λ z. absurd (failed-finished z))
    | inr x ↦ elim (Option-cases (collect net w k token bf.cutoff_height l.seq (tick c)).0) [
      | inl n ↦ rw (x, n, run_loop) (λ z. absurd (failed-finished z))
      | inr (page, n) ↦
          rw (x, n, run_loop)
            (collected-IsJustified fuel l (tick c) page
              (collect net w k token bf.cutoff_height l.seq (tick c)).1 s
              (IsAnchored-tick net node second 0 c sound.0, λ z. later (omega arith) (sound.1 z))
              (ap (λ o. (o, (collect net w k token bf.cutoff_height l.seq (tick c)).1)) n)
              (λ l c s h. run_loop-IsJustified fuel l c s h))
    ]
  ]

module _ (net : Net) (w : Wire) (k : Codecs) (token ref rest_url fallback_url : Text) where
  abbrev IsJustifiedFor : Backfill → Ended net w k token ref → Type 0
  IsJustifiedFor bf e =
      e.0 ≡ finished
      → LastPage net w k token ref (trim_slashes rest_url) (trim_slashes fallback_url) bf

  run-IsJustifiedFor :
      (fuel : ℕ) (s s' : Store) (bf : Backfill)
      → get_backfill token s ≡ (ok (some bf), s')
      → bf.done ≡ false
      → IsJustifiedFor bf (run net w k token ref fuel rest_url fallback_url s)
  unfolding run new_client
  run-IsJustifiedFor fuel s s' bf e pending =
      rw (e, run)
        (subst
          (λ d. IsJustifiedFor bf (resume net w k token ref fuel rest_url fallback_url bf s' d))
          (sym pending)
          (run_loop-IsJustified net w k token ref (trim_slashes rest_url)
            (trim_slashes fallback_url) bf fuel _ _ s'
            ((refl, refl, tt, tt, omega arith), λ z. absurd (false-true z))))

  -- If Run finishes on a record that was not done, then either it collected a page that stops above
  -- the cutoff, or it collected a short page after the reference account's history had shown that
  -- the history indexer was at the cutoff or past it.
  pub run-LastPage :
      (fuel : ℕ) (s s' : Store) (bf : Backfill)
      → get_backfill token s ≡ (ok (some bf), s')
      → bf.done ≡ false
      → (run net w k token ref fuel rest_url fallback_url s).0 ≡ finished
      → LastPage net w k token ref (trim_slashes rest_url) (trim_slashes fallback_url) bf
  run-LastPage fuel s s' bf e pending done = run-IsJustifiedFor fuel s s' bf e pending done
