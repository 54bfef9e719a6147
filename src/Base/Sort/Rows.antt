-- ===== src/Base/Sort/Rows.antt =====
-- The rows of a sorted list, and of a page that is large enough.
use Prim.Native.Nat.{ℕ, zero, suc, ◌≤◌}
use mathlib.Core.Path.{◌≡◌, refl, ap}
use mathlib.Core.Bool.{Bool}
use mathlib.Core.List.{List, [], ◌∷◌}
use mathlib.Core.Logic.{inl, inr}
use native.Mathlib.Omega.{arith}
use koinos_token_tracker.Base.Tests.{Bool-cases}
use koinos_token_tracker.Base.Lists.{All, length, take}
use koinos_token_tracker.Base.Sort.{insert, sort}

module _ {A : Type 0} (P : A → Type 0) (before : A → A → Bool) where
  All-insert : (x : A) (ys : List A) → All P (insert before x ys) → P x × All P ys
  unfolding insert
  All-insert x [] h = h
  All-insert x (y ∷ ys) h = elim (Bool-cases (before y x)) [
    | inl e ↦
        let h' = rw (e, insert, All) at h in let k = All-insert x ys h'.1 in (k.0, (h'.0, k.1))
    | inr e ↦ rw (e, insert, All) at h
  ]

  -- What holds of every row of the sorted list holds of every row.
  pub All-sort : (xs : List A) → All P (sort before xs) → All P xs
  unfolding sort
  All-sort [] h = tt
  All-sort (x ∷ xs) h = let k = All-insert x (sort before xs) h in (k.0, All-sort xs k.1)

  insert-All : (x : A) (ys : List A) → P x → All P ys → All P (insert before x ys)
  unfolding insert
  insert-All x [] p h = (p, tt)
  insert-All x (y ∷ ys) p h = elim (Bool-cases (before y x)) [
    | inl e ↦ rw (e, insert, All) (h.0, insert-All x ys p h.1)
    | inr e ↦ rw (e, insert, All) (p, h)
  ]

  pub sort-All : (xs : List A) → All P xs → All P (sort before xs)
  unfolding sort
  sort-All [] h = tt
  sort-All (x ∷ xs) h = insert-All x (sort before xs) h.0 (sort-All xs h.1)

module _ {A : Type 0} (before : A → A → Bool) where
  length-insert : (x : A) (ys : List A) → length (insert before x ys) ≡ suc (length ys)
  unfolding insert
  length-insert x [] = refl
  length-insert x (y ∷ ys) = ground (arith, length-insert x ys)

  pub length-sort : (xs : List A) → length (sort before xs) ≡ length xs
  unfolding sort
  length-sort [] = refl
  length-sort (x ∷ xs) = ground (arith, length-insert x (sort before xs), length-sort xs)

pub take-all : {A : Type 0} (n : ℕ) (xs : List A) → length xs ≤ n → take n xs ≡ xs
take-all zero [] h = refl
take-all zero (x ∷ xs) h = absurd (omega arith)
take-all (suc n) [] h = refl
take-all (suc n) (x ∷ xs) h = ap (λ ys. x ∷ ys) (take-all n xs (omega arith))
