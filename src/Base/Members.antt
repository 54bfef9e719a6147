-- ===== src/Base/Members.antt =====
-- Where a row of a list stands after the list is cut, joined or filtered.
use Prim.Native.Nat.{ℕ, zero, suc, ◌+◌, ◌≤◌}
use mathlib.Core.Path.{◌≡◌, refl, sym, ◌∙◌, subst}
use mathlib.Core.Bool.{Bool, true}
use mathlib.Core.List.{List, [], ◌∷◌, ◌++◌, map}
use mathlib.Core.Logic.{◌⊎◌, inl, inr, ◌≢◌}
use native.Mathlib.Omega.{arith}
use koinos_token_tracker.Base.Lists.{Any, filter, length, take, drop}
use koinos_token_tracker.Base.Tests.{if◌then◌else◌, Bool-cases}

module _ {A : Type 0} (P : A → Type 0) where
  pub Any-append_left : (xs ys : List A) → Any P xs → Any P (xs ++ ys)
  Any-append_left [] ys h = absurd h
  Any-append_left (x ∷ xs) ys (inl h) = inl h
  Any-append_left (x ∷ xs) ys (inr h) = inr (Any-append_left xs ys h)

  pub Any-append_right : (xs ys : List A) → Any P ys → Any P (xs ++ ys)
  Any-append_right [] ys h = h
  Any-append_right (x ∷ xs) ys h = inr (Any-append_right xs ys h)

  -- A row of a list with one in the middle is that one or a row of the rest.
  pub Any-middle :
      (xs : List A) (y : A) (zs : List A) → Any P (xs ++ y ∷ zs) → P y ⊎ Any P (xs ++ zs)
  Any-middle [] y zs (inl h) = inl h
  Any-middle [] y zs (inr h) = inr h
  Any-middle (x ∷ xs) y zs (inl h) = inr (inl h)
  Any-middle (x ∷ xs) y zs (inr h) = elim (Any-middle xs y zs h) [
    | inl k ↦ inl k
    | inr k ↦ inr (inr k)
  ]

  pub Any-cut : (n : ℕ) (xs : List A) → Any P xs → Any P (take n xs) ⊎ Any P (drop n xs)
  Any-cut zero xs h = inr h
  Any-cut (suc n) [] h = absurd h
  Any-cut (suc n) (x ∷ xs) (inl h) = inl (inl h)
  Any-cut (suc n) (x ∷ xs) (inr h) = elim (Any-cut n xs h) [ inl k ↦ inl (inr k) | inr k ↦ inr k ]

  pub Any-drop_all : (n : ℕ) (xs : List A) → length xs ≤ n → Any P (drop n xs) → ⊥
  Any-drop_all zero [] le h = h
  Any-drop_all zero (x ∷ xs) le h = absurd (omega arith)
  Any-drop_all (suc n) [] le h = h
  Any-drop_all (suc n) (x ∷ xs) le h = Any-drop_all n xs (omega arith) h

pub Any-map :
    {A B : Type 0} (P : B → Type 0) (f : A → B) (xs : List A)
    → Any (λ x. P (f x)) xs
    → Any P (map f xs)
Any-map P f [] h = h
Any-map P f (x ∷ xs) (inl h) = inl h
Any-map P f (x ∷ xs) (inr h) = inr (Any-map P f xs h)

drop-nil : {A : Type 0} (n : ℕ) → drop {A = A} n [] ≡ []
drop-nil zero = refl
drop-nil (suc n) = refl

pub drop-drop : {A : Type 0} (m n : ℕ) (xs : List A) → drop n (drop m xs) ≡ drop (m + n) xs
drop-drop zero n xs = rw (zero_add n) refl
  where
    zero_add : (n : ℕ) → 0 + n ≡ n
    zero_add n = omega arith
drop-drop (suc m) n [] = drop-nil n ∙ sym (drop-nil (suc m + n))
drop-drop (suc m) n (x ∷ xs) = rw (suc_add m n) (drop-drop m n xs)
  where
    suc_add : (m n : ℕ) → suc m + n ≡ suc (m + n)
    suc_add m n = omega arith

pub append-ne-nil : {A : Type 0} (xs : List A) (y : A) (zs : List A) → (xs ++ y ∷ zs) ≢ []
append-ne-nil [] y zs e = cc
append-ne-nil (x ∷ xs) y zs e = cc

module _ {A : Type 0} where
  -- The row is in the list.
  abbrev pub In : A → List A → Type 0
  In r xs = Any (λ z. z ≡ r) xs

  pub In-append : (r : A) (xs ys : List A) → In r (xs ++ ys) → In r xs ⊎ In r ys
  In-append r [] ys i = inr i
  In-append r (x ∷ xs) ys (inl e) = inl (inl e)
  In-append r (x ∷ xs) ys (inr i) = elim (In-append r xs ys i) [
    | inl j ↦ inl (inr j)
    | inr j ↦ inr j
  ]

  pub In-filter : (p : A → Bool) (r : A) (xs : List A) → p r ≡ true → In r xs → In r (filter p xs)
  In-filter p r [] h i = i
  In-filter p r (x ∷ xs) h (inl e) = rw (subst (λ z. p z ≡ true) (sym e) h) (inl e)
  In-filter p r (x ∷ xs) h (inr i) = elim (Bool-cases (p x)) [
    | inl e ↦ rw e (inr (In-filter p r xs h i))
    | inr e ↦ rw e (In-filter p r xs h i)
  ]

  pub In-filtered :
      (p : A → Bool) (r : A) (xs : List A) → In r (filter p xs) → In r xs × (p r ≡ true)
  In-filtered p r [] i = absurd i
  In-filtered p r (x ∷ xs) i = elim (Bool-cases (p x)) [
    | inl e ↦ elim (subst (λ b. In r (if b then x ∷ filter p xs else filter p xs)) e i) [
      | inl z ↦ (inl z, subst (λ z. p z ≡ true) z e)
      | inr j ↦ let k = In-filtered p r xs j in (inr k.0, k.1)
    ]
    | inr e ↦
        let k =
          In-filtered p r xs (subst (λ b. In r (if b then x ∷ filter p xs else filter p xs)) e i) in
        (inr k.0, k.1)
  ]

  pub In-take : (n : ℕ) (r : A) (xs : List A) → In r (take n xs) → In r xs
  In-take zero r xs i = absurd i
  In-take (suc n) r [] i = absurd i
  In-take (suc n) r (x ∷ xs) (inl e) = inl e
  In-take (suc n) r (x ∷ xs) (inr i) = inr (In-take n r xs i)

  pub In-take-suc : (n : ℕ) (r : A) (xs : List A) → In r (take n xs) → In r (take (suc n) xs)
  In-take-suc zero r xs i = absurd i
  In-take-suc (suc n) r [] i = absurd i
  In-take-suc (suc n) r (x ∷ xs) (inl e) = inl e
  In-take-suc (suc n) r (x ∷ xs) (inr i) = inr (In-take-suc n r xs i)

  -- A row of the first ones that the filter keeps is of the first ones of the filtered list.
  pub In-take-filter :
      (p : A → Bool) (n : ℕ) (r : A) (xs : List A)
      → p r ≡ true
      → In r (take n xs)
      → In r (take n (filter p xs))
  In-take-filter p zero r xs h i = i
  In-take-filter p (suc n) r [] h i = i
  In-take-filter p (suc n) r (x ∷ xs) h (inl e) = rw (subst (λ z. p z ≡ true) (sym e) h) (inl e)
  In-take-filter p (suc n) r (x ∷ xs) h (inr i) = elim (Bool-cases (p x)) [
    | inl e ↦ rw e (inr (In-take-filter p n r xs h i))
    | inr e ↦ rw e (In-take-suc n r (filter p xs) (In-take-filter p n r xs h i))
  ]
