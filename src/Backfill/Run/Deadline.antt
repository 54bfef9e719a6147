-- ===== src/Backfill/Run/Deadline.antt =====
-- The fuel that Run needs under a context that ends.
use koinos_token_tracker.Base.{
  ℕ, zero, suc, ◌+◌, ◌≤◌, ◌<◌, ◌≡◌, ◌≢◌, refl, Bool, true, false, Option, none, some, inl, inr, ltb,
  arith, Bool-cases, Option-cases,
}
use koinos_token_tracker.Base.Text.{Text}
use koinos_token_tracker.Wire.{Wire}
use koinos_token_tracker.Store.Types.{Backfill, Store}
use koinos_token_tracker.Store.Action.{Result, ok, err, blocked}
use koinos_token_tracker.Store.Reads.{get_backfill}
use koinos_token_tracker.Backfill.Decode.{Codecs}
use koinos_token_tracker.Backfill.Client.{Net, Client, tick, trim_slashes, new_client}
use koinos_token_tracker.Backfill.Client.Anchored.{IsAnchored, IsAnchored-tick}
use koinos_token_tracker.Backfill.Client.Canonical.{history_height-Ends}
use koinos_token_tracker.Backfill.Collect.{Page, collect}
use koinos_token_tracker.Backfill.Collect.Within.{collect-PageIsWithin}
use koinos_token_tracker.Backfill.Run.{
  out_of_fuel, Loop, Tail, tail_of, Ended, after_apply, with_page, run_loop, from_record, resume,
  run,
}

further :
    {deadline : ℕ} (t t' t'' fuel : ℕ)
    → deadline < t + suc fuel
    → suc t ≤ t'
    → t' ≤ t''
    → deadline < t'' + fuel
further t t' t'' fuel h p q = omega arith

module _ (net : Net) (w : Wire) (k : Codecs) (token ref node second : Text) where
  at_time :
      {t : ℕ} (t' : ℕ) (c : Client)
      → t' ≤ c.time
      → IsAnchored net node second t c
      → IsAnchored net node second t' c
  at_time t' c le a = (a.0, a.1, a.2, a.3, le)

  tail_of-IsAnchored :
      (t : ℕ) (page : Page) (covered : Bool) (cutoff : ℕ) (c : Client)
      → IsAnchored net node second t c
      → IsAnchored net node second t (tail_of net w k token ref page covered cutoff c).1
  unfolding tail_of
  tail_of-IsAnchored t page covered cutoff c a = elim (Bool-cases (ltb 0 page.stopped)) [
    | inl x ↦ rw (x, tail_of) a
    | inr x ↦ elim (Bool-cases page.at_end) [
      | inr y ↦ rw (x, y, tail_of) a
      | inl y ↦ elim (Bool-cases covered) [
        | inl z ↦ rw (x, y, z, tail_of) a
        | inr z ↦ rw (x, y, z, tail_of) (history_height-Ends net node second t ref c a).0
      ]
    ]
  ]

  abbrev Returns : Ended net w k token ref → Type 0
  Returns e = e.0 ≢ out_of_fuel

  after_apply-Returns :
      (next_round : Loop → Client → Store → Ended net w k token ref) (l : Loop) (page : Page)
      (tail : Tail) (c : Client) (x : Result (Unit {0}) × Store)
      → ((l : Loop) (s : Store) → Returns (next_round l c s))
      → Returns (after_apply net w k token ref next_round l page tail c x)
  after_apply-Returns next_round l page tail c (err e, s) next = λ z. cc
  after_apply-Returns next_round l page tail c (blocked, s) next = λ z. cc
  after_apply-Returns next_round l page tail c (ok _, s) next = elim (Option-cases tail.lag) [
    | inr (e, i) ↦ rw (i, after_apply) (λ z. cc)
    | inl i ↦ elim (Bool-cases tail.is_done) [
      | inl d ↦ rw (i, d, after_apply) (λ z. cc)
      | inr d ↦ rw (i, d, after_apply) (next _ s)
    ]
  ]

  module _ (bf : Backfill) (deadline : ℕ)
      (ends : (t : ℕ) → deadline ≤ t → net.is_cancelled t ≡ true) where
    with_page-Returns :
        (fuel : ℕ) (l : Loop) (page : Page) (c : Client) (s : Store)
        → ((l : Loop) (c' : Client) (s : Store)
            → IsAnchored net node second c.time c'
            → Returns (run_loop net w k token ref fuel bf l c' s))
        → IsAnchored net node second c.time c
        → Returns (with_page net w k token ref (run_loop net w k token ref fuel bf) bf l page c s)
    unfolding with_page
    with_page-Returns fuel l page c s next a =
        let x = tail_of net w k token ref page l.covered bf.cutoff_height c in
        after_apply-Returns (run_loop net w k token ref fuel bf) l page x.0 x.1 _
          (λ l' s. next l' x.1 s (tail_of-IsAnchored c.time page l.covered bf.cutoff_height c a))

    before_deadline : (t : ℕ) → net.is_cancelled t ≡ false → t < deadline
    before_deadline t h = ground (arith, ends t)

    -- One round more than the deadline is away.
    run_loop-Returns :
        (fuel : ℕ) (l : Loop) (c : Client) (s : Store)
        → IsAnchored net node second 0 c
        → deadline < c.time + fuel
        → 0 < fuel
        → Returns (run_loop net w k token ref fuel bf l c s)
    unfolding run_loop
    run_loop-Returns zero l c s a h p = absurd (omega arith)
    run_loop-Returns (suc fuel) l c s a h p = elim (Bool-cases (net.is_cancelled c.time)) [
      | inl x ↦ rw (x, run_loop) (λ z. cc)
      | inr x ↦ elim (Option-cases (collect net w k token bf.cutoff_height l.seq (tick c)).0) [
        | inl n ↦ rw (x, n, run_loop) (λ z. cc)
        | inr (page, n) ↦
            let soon = before_deadline c.time x in
            let c' = (collect net w k token bf.cutoff_height l.seq (tick c)).1 in
            let a' =
              (collect-PageIsWithin net node second (suc c.time) w k token bf.cutoff_height l.seq
                (tick c)
                (at_time (suc c.time) (tick c) (omega arith)
                  (IsAnchored-tick net node second 0 c a))).0 in
            rw (x, n, run_loop)
              (with_page-Returns fuel l page c' s
                (λ l c'' s a''.
                  run_loop-Returns fuel l c'' s (at_time 0 c'' (omega arith) a'')
                    (further c.time c'.time c''.time fuel h a'.4 a''.4) (omega (arith, soon, h)))
                (at_time c'.time c' (omega arith) a'))
      ]
    ]

module _ (net : Net) (w : Wire) (k : Codecs) (token ref rest_url fallback_url : Text) where
  resume-Returns :
      (deadline : ℕ) (bf : Backfill) (s : Store) (done : Bool)
      → ((t : ℕ) → deadline ≤ t → net.is_cancelled t ≡ true)
      → Returns net w k token ref
          (trim_slashes rest_url)
          (trim_slashes fallback_url)
          (resume net w k token ref (suc deadline) rest_url fallback_url bf s done)
  unfolding new_client
  resume-Returns deadline bf s true ends = λ z. cc
  resume-Returns deadline bf s false ends =
      run_loop-Returns net w k token ref (trim_slashes rest_url) (trim_slashes fallback_url) bf
        deadline ends (suc deadline) _ (new_client rest_url fallback_url 0) s
        (refl, refl, tt, tt, omega arith) (omega arith) (omega arith)

  from_record-Returns :
      (deadline : ℕ) (x : Result (Option Backfill) × Store)
      → ((t : ℕ) → deadline ≤ t → net.is_cancelled t ≡ true)
      → Returns net w k token ref
          (trim_slashes rest_url)
          (trim_slashes fallback_url)
          (from_record net w k token ref (suc deadline) rest_url fallback_url x)
  from_record-Returns deadline (err e, s) ends = λ z. cc
  from_record-Returns deadline (blocked, s) ends = λ z. cc
  from_record-Returns deadline (ok none, s) ends = λ z. cc
  from_record-Returns deadline (ok (some bf), s) ends = resume-Returns deadline bf s bf.done ends

  -- Under a context that is over at some time and stays so, that many rounds and one are enough:
  -- Run does not come to the end of its fuel.
  pub run-Returns :
      (deadline : ℕ) (s : Store)
      → ((t : ℕ) → deadline ≤ t → net.is_cancelled t ≡ true)
      → (run net w k token ref (suc deadline) rest_url fallback_url s).0 ≢ out_of_fuel
  unfolding run
  run-Returns deadline s ends = from_record-Returns deadline (get_backfill token s) ends
