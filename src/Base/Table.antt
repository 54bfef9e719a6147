-- ===== src/Base/Table.antt =====
-- SQL tables as lists of rows: the first match of a query, and INSERT … ON CONFLICT.
use mathlib.Core.Path.{◌≡◌}
use mathlib.Core.Bool.{Bool, true, false}
use mathlib.Core.Option.{Option, none, some}
use mathlib.Core.List.{List, [], ◌∷◌}
use native.Mathlib.Omega.{arith}
use koinos_token_tracker.Base.Tests.{if◌then◌else◌}
use koinos_token_tracker.Base.Lists.{All}

module _ {ℓ} {R : Type ℓ} where
  unfoldable pub find : (R → Bool) → List R → Option R
  find p [] = none
  find p (r ∷ rs) = if p r then some r else find p rs

  -- The row in conflict is replaced by what `merge` makes of it; without one, `fresh` is added.
  unfoldable pub upsert : (R → Bool) → R → (R → R) → List R → List R
  upsert same fresh merge [] = fresh ∷ []
  upsert same fresh merge (r ∷ rs) = if same r then merge r ∷ rs else r ∷ upsert same fresh merge rs

  pub upsert-All {κ} :
      (P : R → Type κ) (same : R → Bool) (fresh : R) (merge : R → R) (rs : List R)
      → P fresh
      → ((r : R) → P r → P (merge r))
      → All P rs
      → All P (upsert same fresh merge rs)
  unfolding upsert
  upsert-All P same fresh merge [] new keep h = (new, tt)
  upsert-All P same fresh merge (r ∷ rs) new keep h =
      ground (arith, upsert-All P same fresh merge rs new keep h.1, keep r h.0)

  abbrev pub merged : Option R → R → (R → R) → R
  merged none fresh merge = fresh
  merged (some r) fresh merge = merge r

  -- The row of the key, after an upsert of that key.
  pub find-upsert_self :
      (same : R → Bool) (fresh : R) (merge : R → R) (rs : List R)
      → same fresh ≡ true
      → ((r : R) → same r ≡ true → same (merge r) ≡ true)
      → find same (upsert same fresh merge rs) ≡ some (merged (find same rs) fresh merge)
  unfolding find upsert
  find-upsert_self same fresh merge [] new keep = ground arith
  find-upsert_self same fresh merge (r ∷ rs) new keep =
      ground (arith, find-upsert_self same fresh merge rs new keep, keep r)

  -- An upsert of another key is not seen.
  pub find-upsert_other :
      (p same : R → Bool) (fresh : R) (merge : R → R) (rs : List R)
      → p fresh ≡ false
      → ((r : R) → same r ≡ true → (p r ≡ false) × (p (merge r) ≡ false))
      → find p (upsert same fresh merge rs) ≡ find p rs
  unfolding find upsert
  find-upsert_other p same fresh merge [] new keep = ground arith
  find-upsert_other p same fresh merge (r ∷ rs) new keep =
      ground (arith, find-upsert_other p same fresh merge rs new keep, keep r)
