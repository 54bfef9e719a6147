-- ===== src/Base/Sort.antt =====
-- ORDER BY, LIMIT and OFFSET: a stable insertion sort and a page of its result.
pub mod Rows
pub mod Strict
use Prim.Native.Nat.{ℕ}
use mathlib.Core.Path.{◌≡◌}
use mathlib.Core.Bool.{Bool, true, false}
use mathlib.Core.List.{List, [], ◌∷◌, Perm}
use mathlib.Core.List.Perm
use mathlib.Core.Logic.{inl, inr}
use koinos_token_tracker.Base.Tests.{if◌then◌else◌, Bool-cases}
use koinos_token_tracker.Base.Lists.{All, take, drop}

-- LIMIT limit OFFSET offset
abbrev pub page {ℓ} : {A : Type ℓ} → ℕ → ℕ → List A → List A
page limit offset rows = take limit (drop offset rows)

module _ {ℓ} {A : Type ℓ} (before : A → A → Bool) where
  -- Rows that come strictly before the new one stay in front of it.
  pub insert : A → List A → List A
  insert x [] = x ∷ []
  insert x (y ∷ ys) = let rest = insert x ys in if before y x then y ∷ rest else x ∷ y ∷ ys

  unfoldable pub sort : List A → List A
  unfolding insert
  sort [] = []
  sort (x ∷ xs) = insert x (sort xs)

  insert-perm : (x : A) (ys : List A) → Perm (insert x ys) (x ∷ ys)
  unfolding insert
  insert-perm x [] = Perm.refl (x ∷ [])
  insert-perm x (y ∷ ys) = elim (Bool-cases (before y x)) [
    | inl e ↦ rw e (Perm.trans (Perm.cons y (insert-perm x ys)) (Perm.swap x y ys))
    | inr e ↦ rw e (Perm.refl (x ∷ y ∷ ys))
  ]

  pub sort-perm : (xs : List A) → Perm (sort xs) xs
  unfolding sort
  sort-perm [] = Perm.refl []
  sort-perm (x ∷ xs) = Perm.trans (insert-perm x (sort xs)) (Perm.cons x (sort-perm xs))

  -- No row comes strictly before one in front of it.
  abbrev pub IsSorted : List A → Type ℓ
  IsSorted [] = Unit
  IsSorted (x ∷ xs) = All (λ y. before y x ≡ false) xs × IsSorted xs

  -- `before` is a strict weak order.
  abbrev pub IsOrder : Type ℓ
  IsOrder =
      ((x y : A) → before x y ≡ true → before y x ≡ false)
      × ((x y z : A) → before y x ≡ false → before z y ≡ false → before z x ≡ false)

  module _ (o : IsOrder) where
    All-behind :
        (x y : A) (ys : List A)
        → before y x ≡ false
        → All (λ z. before z y ≡ false) ys
        → All (λ z. before z x ≡ false) ys
    All-behind x y [] h hs = tt
    All-behind x y (z ∷ zs) h hs = (o.1 x y z h hs.0, All-behind x y zs h hs.1)

    insert-behind :
        (x y : A) (ys : List A)
        → before x y ≡ false
        → All (λ z. before z y ≡ false) ys
        → All (λ z. before z y ≡ false) (insert x ys)
    unfolding insert
    insert-behind x y [] h hs = (h, tt)
    insert-behind x y (z ∷ zs) h hs = elim (Bool-cases (before z x)) [
      | inl e ↦ rw (e, insert, All) (hs.0, insert-behind x y zs h hs.1)
      | inr e ↦ rw (e, insert, All) (h, hs)
    ]

    insert-IsSorted : (x : A) (ys : List A) → IsSorted ys → IsSorted (insert x ys)
    unfolding insert
    insert-IsSorted x [] h = (tt, tt)
    insert-IsSorted x (y ∷ ys) h = elim (Bool-cases (before y x)) [
      | inl e ↦
          rw (e, insert, IsSorted) (insert-behind x y ys (o.0 y x e) h.0, insert-IsSorted x ys h.1)
      | inr e ↦ rw (e, insert, IsSorted) ((e, All-behind x y ys e h.0), h)
    ]

    pub sort-IsSorted : (xs : List A) → IsSorted (sort xs)
    unfolding sort
    sort-IsSorted [] = tt
    sort-IsSorted (x ∷ xs) = insert-IsSorted x (sort xs) (sort-IsSorted xs)
