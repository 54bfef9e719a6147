-- ===== src/Backfill/DryRun/Deadline.antt =====
-- The fuel that DryRun needs under a context that ends.
use koinos_token_tracker.Base.{
  ℕ, zero, suc, ◌+◌, ◌≤◌, ◌<◌, ◌≡◌, ◌≢◌, refl, true, false, none, inl, inr, arith, Bool-cases,
  Option-cases,
}
use koinos_token_tracker.Base.Text.{Text}
use koinos_token_tracker.Decimal.{max_uint64}
use koinos_token_tracker.Wire.{Wire}
use koinos_token_tracker.Backfill.Decode.{Codecs}
use koinos_token_tracker.Backfill.Client.{Net, Client, tick, trim_slashes, new_client}
use koinos_token_tracker.Backfill.Client.Anchored.{IsAnchored, IsAnchored-tick}
use koinos_token_tracker.Backfill.Collect.{Page, collect}
use koinos_token_tracker.Backfill.Collect.Within.{collect-PageIsWithin}
use koinos_token_tracker.Backfill.Run.{RunResult, out_of_fuel}
use koinos_token_tracker.Backfill.DryRun.{Holdings, Dry, dry_page, dry_loop, dry_run, nothing_yet}

module _ (net : Net) (w : Wire) (k : Codecs) (token : Text) where
  abbrev Returns : Dry → Type 0
  Returns e = e.0 ≢ out_of_fuel

  dry_page-Returns :
      (next_round : ℕ → RunResult → Client → Holdings → Dry) (r : RunResult) (c : Client)
      (b : Holdings) (page : Page)
      → ((seq : ℕ) (r : RunResult) (b : Holdings) → Returns (next_round seq r c b))
      → Returns (dry_page net w k token next_round r c b page)
  dry_page-Returns next_round r c b page next = elim (Bool-cases page.at_end) [
    | inl e ↦ rw (e, dry_page) (λ z. cc)
    | inr e ↦ rw (e, dry_page) (next _ _ _)
  ]

  module _ (node second : Text) (deadline : ℕ)
      (ends : (t : ℕ) → deadline ≤ t → net.is_cancelled t ≡ true) where
    before_deadline : (t : ℕ) → net.is_cancelled t ≡ false → t < deadline
    before_deadline t h = ground (arith, ends t)

    collected-IsAnchored :
        (seq : ℕ) (c : Client)
        → IsAnchored net node second 0 c
        → IsAnchored net node second (suc c.time) (collect net w k token max_uint64 seq (tick c)).1
    collected-IsAnchored seq c a =
        let ticked = IsAnchored-tick net node second 0 c a in
        (collect-PageIsWithin net node second (suc c.time) w k token max_uint64 seq (tick c)
          (ticked.0, ticked.1, ticked.2, ticked.3, omega arith)).0

    -- One round more than the deadline is away.
    dry_loop-Returns :
        (fuel seq : ℕ) (r : RunResult) (c : Client) (b : Holdings)
        → IsAnchored net node second 0 c
        → deadline < c.time + fuel
        → 0 < fuel
        → Returns (dry_loop net w k token fuel seq r c b)
    unfolding dry_loop
    dry_loop-Returns zero seq r c b a h p = absurd (omega arith)
    dry_loop-Returns (suc fuel) seq r c b a h p = elim (Bool-cases (net.is_cancelled c.time)) [
      | inl x ↦ rw (x, dry_loop) (λ z. cc)
      | inr x ↦ elim (Option-cases (collect net w k token max_uint64 seq (tick c)).0) [
        | inl n ↦ rw (x, n, dry_loop) (λ z. cc)
        | inr (page, n) ↦
            let soon = before_deadline c.time x in
            let c' = (collect net w k token max_uint64 seq (tick c)).1 in
            let a' = collected-IsAnchored seq c a in
            rw (x, n, dry_loop)
              (dry_page-Returns (dry_loop net w k token fuel) r c' b page (λ seq r b.
                dry_loop-Returns fuel seq r c' b (a'.0, a'.1, a'.2, a'.3, omega arith)
                  (omega (arith, a'.4, h)) (omega (arith, soon, h))))
      ]
    ]

  -- Under a context that is over at some time and stays so, that many rounds and one are enough:
  -- DryRun does not come to the end of its fuel.
  pub dry_run-Returns :
      (rest_url fallback_url : Text) (deadline : ℕ)
      → ((t : ℕ) → deadline ≤ t → net.is_cancelled t ≡ true)
      → (dry_run net w k token (suc deadline) rest_url fallback_url).0 ≢ out_of_fuel
  unfolding dry_run new_client
  dry_run-Returns rest_url fallback_url deadline ends =
      dry_loop-Returns (trim_slashes rest_url) (trim_slashes fallback_url) deadline ends
        (suc deadline) 0 nothing_yet (new_client rest_url fallback_url 0) (λ a. none)
        (refl, refl, tt, tt, omega arith) (omega arith) (omega arith)
