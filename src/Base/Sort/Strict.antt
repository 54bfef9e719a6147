-- ===== src/Base/Sort/Strict.antt =====
-- Lists that a strict order sorts: they are determined by their rows.
use Prim.Native.Nat.{ℕ, zero, suc}
use mathlib.Core.Path.{◌≡◌, refl, sym, ◌∙◌, subst}
use mathlib.Core.Bool.{Bool, true, false}
use mathlib.Core.List.{List, [], ◌∷◌, ◌++◌}
use mathlib.Core.Logic.{◌⊎◌, inl, inr}
use koinos_token_tracker.Base.Tests.{if◌then◌else◌, Bool-cases}
use koinos_token_tracker.Base.Lists.{All, All-append, All-filter, filter, take}
use koinos_token_tracker.Base.Sort.{insert, sort}
use koinos_token_tracker.Base.Members.{In, In-take}

module _ {A : Type 0} where
  module _ (before : A → A → Bool) where
    -- Every row comes before the ones behind it.
    abbrev pub IsStrict : List A → Type 0
    IsStrict [] = Unit {0}
    IsStrict (x ∷ xs) = All (λ y. before x y ≡ true) xs × IsStrict xs

    abbrev pub Differs : A → A → Type 0
    Differs x y = (before x y ≡ true) ⊎ (before y x ≡ true)

    -- Of two rows one comes before the other.
    abbrev pub AreApart : List A → Type 0
    AreApart [] = Unit {0}
    AreApart (x ∷ xs) = All (Differs x) xs × AreApart xs

    IsStrict-AreApart : (xs : List A) → IsStrict xs → AreApart xs
    IsStrict-AreApart [] h = tt
    IsStrict-AreApart (x ∷ xs) h = (each xs h.0, IsStrict-AreApart xs h.1)
      where
        each : (ys : List A) → All (λ y. before x y ≡ true) ys → All (Differs x) ys
        each [] k = tt
        each (y ∷ ys) k = (inl k.0, each ys k.1)

    pub filter-AreApart : (p : A → Bool) (xs : List A) → AreApart xs → AreApart (filter p xs)
    filter-AreApart p [] h = tt
    filter-AreApart p (x ∷ xs) h = elim (Bool-cases (p x)) [
      | inl e ↦ rw e (All-filter (Differs x) p xs h.0, filter-AreApart p xs h.1)
      | inr e ↦ rw e (filter-AreApart p xs h.1)
    ]

    All-take : (P : A → Type 0) (n : ℕ) (xs : List A) → All P xs → All P (take n xs)
    All-take P zero xs h = tt
    All-take P (suc n) [] h = tt
    All-take P (suc n) (x ∷ xs) h = (h.0, All-take P n xs h.1)

    take-AreApart : (n : ℕ) (xs : List A) → AreApart xs → AreApart (take n xs)
    take-AreApart zero xs h = tt
    take-AreApart (suc n) [] h = tt
    take-AreApart (suc n) (x ∷ xs) h = (All-take (Differs x) n xs h.0, take-AreApart n xs h.1)

    pub first-AreApart : (n : ℕ) (xs : List A) → IsStrict xs → AreApart (take n xs)
    first-AreApart n xs h = take-AreApart n xs (IsStrict-AreApart xs h)

    All-of_In : (P : A → Type 0) (xs : List A) → ((x : A) → In x xs → P x) → All P xs
    All-of_In P [] h = tt
    All-of_In P (x ∷ xs) h = (h x (inl refl), All-of_In P xs (λ y i. h y (inr i)))

    pub append-AreApart :
        (xs ys : List A)
        → AreApart xs
        → AreApart ys
        → ((x y : A) → In x xs → In y ys → Differs x y)
        → AreApart (xs ++ ys)
    append-AreApart [] ys h k cross = k
    append-AreApart (x ∷ xs) ys h k cross = (
      All-append (Differs x) xs ys h.0 (All-of_In (Differs x) ys (λ y i. cross x y (inl refl) i)),
      append-AreApart xs ys h.1 k (λ a b i j. cross a b (inr i) j),
    )

    pub In-insert : (r x : A) (ys : List A) → In r (x ∷ ys) → In r (insert before x ys)
    unfolding insert
    In-insert r x [] i = i
    In-insert r x (y ∷ ys) i = elim (Bool-cases (before y x)) [
      | inl e ↦ elim i [
        | inl z ↦ rw e (inr (In-insert r x ys (inl z)))
        | inr j ↦ elim j [ inl z ↦ rw e (inl z) | inr k ↦ rw e (inr (In-insert r x ys (inr k))) ]
      ]
      | inr e ↦ rw e i
    ]

    In-inserted : (r x : A) (ys : List A) → In r (insert before x ys) → In r (x ∷ ys)
    unfolding insert
    In-inserted r x [] i = i
    In-inserted r x (y ∷ ys) i = elim (Bool-cases (before y x)) [
      | inl e ↦ elim (subst (λ b. In r (if b then y ∷ insert before x ys else x ∷ y ∷ ys)) e i) [
        | inl z ↦ inr (inl z)
        | inr j ↦ elim (In-inserted r x ys j) [ inl z ↦ inl z | inr k ↦ inr (inr k) ]
      ]
      | inr e ↦ subst (λ b. In r (if b then y ∷ insert before x ys else x ∷ y ∷ ys)) e i
    ]

    pub In-sort : (r : A) (xs : List A) → In r xs → In r (sort before xs)
    unfolding sort
    In-sort r [] i = i
    In-sort r (x ∷ xs) (inl e) = In-insert r x (sort before xs) (inl e)
    In-sort r (x ∷ xs) (inr i) = In-insert r x (sort before xs) (inr (In-sort r xs i))

    pub In-sorted : (r : A) (xs : List A) → In r (sort before xs) → In r xs
    unfolding sort
    In-sorted r [] i = i
    In-sorted r (x ∷ xs) i = elim (In-inserted r x (sort before xs) i) [
      | inl e ↦ inl e
      | inr j ↦ inr (In-sorted r xs j)
    ]

    All-insert :
        (P : A → Type 0) (x : A) (ys : List A) → P x → All P ys → All P (insert before x ys)
    unfolding insert
    All-insert P x [] h k = (h, k)
    All-insert P x (y ∷ ys) h k = elim (Bool-cases (before y x)) [
      | inl e ↦ rw e (k.0, All-insert P x ys h k.1)
      | inr e ↦ rw e (h, k)
    ]

    All-sorted : (P : A → Type 0) (xs : List A) → All P xs → All P (sort before xs)
    unfolding sort
    All-sorted P [] h = h
    All-sorted P (x ∷ xs) h = All-insert P x (sort before xs) h.0 (All-sorted P xs h.1)

    All-at : (P : A → Type 0) (r : A) (xs : List A) → All P xs → In r xs → P r
    All-at P r [] h i = absurd i
    All-at P r (x ∷ xs) h (inl e) = subst P e h.0
    All-at P r (x ∷ xs) h (inr i) = All-at P r xs h.1 i

    module _ (trans : (x y z : A) → before x y ≡ true → before y z ≡ true → before x z ≡ true)
        (irrefl : (x : A) → before x x ≡ false) where
      All-behind :
          (x y : A) (ys : List A)
          → before x y ≡ true
          → All (λ z. before y z ≡ true) ys
          → All (λ z. before x z ≡ true) ys
      All-behind x y [] e h = tt
      All-behind x y (z ∷ zs) e h = (trans x y z e h.0, All-behind x y zs e h.1)

      first_of : (x y : A) → Differs x y → before y x ≡ false → before x y ≡ true
      first_of x y (inl e) h = e
      first_of x y (inr e) h = cc

      insert-IsStrict :
          (x : A) (ys : List A) → All (Differs x) ys → IsStrict ys → IsStrict (insert before x ys)
      unfolding insert
      insert-IsStrict x [] d h = (tt, tt)
      insert-IsStrict x (y ∷ ys) d h = elim (Bool-cases (before y x)) [
        | inl e ↦
            rw e (All-insert (λ z. before y z ≡ true) x ys e h.0, insert-IsStrict x ys d.1 h.1)
        | inr e ↦ let f = first_of x y d.0 e in rw e ((f, All-behind x y ys f h.0), h)
      ]

      pub sort-IsStrict : (xs : List A) → AreApart xs → IsStrict (sort before xs)
      unfolding sort
      sort-IsStrict [] h = tt
      sort-IsStrict (x ∷ xs) h =
          insert-IsStrict x (sort before xs) (All-sorted (Differs x) xs h.0) (sort-IsStrict xs h.1)

      pub filter-IsStrict : (p : A → Bool) (xs : List A) → IsStrict xs → IsStrict (filter p xs)
      filter-IsStrict p [] h = tt
      filter-IsStrict p (x ∷ xs) h = elim (Bool-cases (p x)) [
        | inl e ↦ rw e (All-filter (λ y. before x y ≡ true) p xs h.0, filter-IsStrict p xs h.1)
        | inr e ↦ rw e (filter-IsStrict p xs h.1)
      ]

      -- The head of a strict list is the one of another, if each is in the other.
      same_head :
          (x y : A) (xs ys : List A)
          → IsStrict (x ∷ xs)
          → IsStrict (y ∷ ys)
          → In x (y ∷ ys)
          → In y (x ∷ xs)
          → y ≡ x
      same_head x y xs ys h k (inl e) j = e
      same_head x y xs ys h k (inr i) (inl e) = sym e
      same_head x y xs ys h k (inr i) (inr j) =
          let a = All-at (λ z. before y z ≡ true) x ys k.0 i in
          let b = All-at (λ z. before x z ≡ true) y xs h.0 j in
          absurd (false_true (sym (irrefl x) ∙ trans x y x b a))
        where
          false_true : false ≡ true → ⊥
          false_true e = cc

      behind_head :
          (x : A) (xs : List A) (r : A) (zs : List A)
          → All (λ z. before x z ≡ true) zs
          → In r zs
          → In r (x ∷ xs)
          → In r xs
      behind_head x xs r zs h i (inl e) = absurd (
          false_true (
            sym (irrefl x)
            ∙ All-at (λ z. before x z ≡ true) x zs h (subst (λ z. In z zs) (sym e) i)))
        where
          false_true : false ≡ true → ⊥
          false_true e = cc
      behind_head x xs r zs h i (inr j) = j

      -- Two strict lists begin alike for `n` rows, if the rows of the one are in the other, whose
      -- first `n` rows are in the one.
      pub take_unique :
          (n : ℕ) (xs ys : List A)
          → IsStrict xs
          → IsStrict ys
          → ((r : A) → In r xs → In r ys)
          → ((r : A) → In r (take n ys) → In r xs)
          → take n xs ≡ take n ys
      take_unique zero xs ys h k sub first = refl
      take_unique (suc n) [] [] h k sub first = refl
      take_unique (suc n) [] (y ∷ ys) h k sub first = absurd (first y (inl refl))
      take_unique (suc n) (x ∷ xs) [] h k sub first = absurd (sub x (inl refl))
      take_unique (suc n) (x ∷ xs) (y ∷ ys) h k sub first =
          let e = same_head x y xs ys h k (sub x (inl refl)) (first y (inl refl)) in
          let rest =
            take_unique n xs ys h.1 k.1
              (λ r i.
                behind_head y ys r xs (subst (λ z. All (λ w. before z w ≡ true) xs) (sym e) h.0) i
                  (sub r (inr i)))
              (λ r i.
                behind_head x xs r ys (subst (λ z. All (λ w. before z w ≡ true) ys) e k.0)
                  (In-take n r ys i) (first r (inr i))) in
          cc
