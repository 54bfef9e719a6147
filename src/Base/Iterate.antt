-- ===== src/Base/Iterate.antt =====
-- A loop on fuel: rounds of a step that says whether to go on.
use Prim.Native.Nat.{ℕ, zero, suc, ◌≤◌, ◌<◌}
use mathlib.Core.Path.{◌≡◌, refl}
use mathlib.Core.Logic.{inl, inr}
use mathlib.Core.Option.{Option, none, some}
use native.Mathlib.Omega.{arith}
use koinos_token_tracker.Base.Tests.{Option-cases}

module _ {ℓ} {S : Type ℓ} where
  -- `none` leaves the loop.
  unfoldable pub iterate : ℕ → (S → Option S) → S → S
  iterate zero step s = s
  iterate (suc fuel) step s = elim (step s) [ none ↦ s | some s' ↦ iterate fuel step s' ]

  module _ (step : S → Option S) (measure : S → ℕ)
      (falls : (s s' : S) → step s ≡ some s' → measure s' < measure s) where
    -- With the measure within the fuel the loop ends by its own test.
    pub iterate-ends : (fuel : ℕ) (s : S) → measure s ≤ fuel → step (iterate fuel step s) ≡ none
    unfolding iterate
    iterate-ends zero s m = elim (Option-cases (step s)) [
      | inl e ↦ e
      | inr (s', e) ↦ absurd (omega (arith, falls s s' e))
    ]
    iterate-ends (suc fuel) s m = elim (Option-cases (step s)) [
      | inl e ↦ rw (e, iterate) e
      | inr (s', e) ↦ rw (e, iterate) (iterate-ends fuel s' (omega (arith, falls s s' e)))
    ]

    -- Past that the fuel does not show.
    pub iterate-enough :
        (f g : ℕ) (s : S) → measure s ≤ f → measure s ≤ g → iterate f step s ≡ iterate g step s
    unfolding iterate
    iterate-enough zero zero s hf hg = refl
    iterate-enough zero (suc g) s hf hg = elim (Option-cases (step s)) [
      | inl e ↦ rw (e, iterate)
      | inr (s', e) ↦ absurd (omega (arith, falls s s' e))
    ]
    iterate-enough (suc f) zero s hf hg = elim (Option-cases (step s)) [
      | inl e ↦ rw (e, iterate)
      | inr (s', e) ↦ absurd (omega (arith, falls s s' e))
    ]
    iterate-enough (suc f) (suc g) s hf hg = elim (Option-cases (step s)) [
      | inl e ↦ rw (e, iterate)
      | inr (s', e) ↦
          rw (e, iterate)
            (iterate-enough f g s' (omega (arith, falls s s' e)) (omega (arith, falls s s' e)))
    ]

    -- A round that goes on can be taken off the front.
    pub iterate-step :
        (fuel : ℕ) (s s' : S)
        → measure s ≤ fuel
        → step s ≡ some s'
        → iterate fuel step s ≡ iterate fuel step s'
    iterate-step zero s s' m e = absurd (omega (arith, falls s s' e))
    iterate-step (suc fuel) s s' m e =
        unfold iterate in
        rw (e, iterate)
          (iterate-enough fuel (suc fuel) s' (omega (arith, falls s s' e))
            (omega (arith, falls s s' e)))

  pub iterate-stop :
      (step : S → Option S) (fuel : ℕ) (s : S) → step s ≡ none → iterate fuel step s ≡ s
  unfolding iterate
  iterate-stop step zero s e = refl
  iterate-stop step (suc fuel) s e = rw (e, iterate)
