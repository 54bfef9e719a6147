-- ===== src/Store/Transfers/Numbered.antt =====
-- The rows of transfers in the order of their heights and ids, which are all different.
use mathlib.Core.Path.{subst}
use koinos_token_tracker.Base.{
  ℕ, zero, suc, ◌+◌, ◌≡◌, refl, sym, ap, ◌∙◌, inl, inr, Bool, true, false, not, List, [], ◌∷◌, any,
  take, drop, arith, All, Bool-cases,
}
use koinos_token_tracker.Base.Members.{In, In-filtered}
use koinos_token_tracker.Base.Sort.{page}
use koinos_token_tracker.Base.Sort.Strict.{Differs, AreApart, filter-AreApart, append-AreApart}
use koinos_token_tracker.Store.Types.{Transfer}
use koinos_token_tracker.Store.Transfers.{is_newer, has_id, union}

pub is_newer_trans :
    (x y z : Transfer) → is_newer x y ≡ true → is_newer y z ≡ true → is_newer x z ≡ true
is_newer_trans x y z h k = ground arith

pub is_newer_irrefl : (x : Transfer) → is_newer x x ≡ false
is_newer_irrefl x = ground arith

Differs-ids : (x y : Transfer) → has_id y.id x ≡ false → Differs is_newer x y
Differs-ids x y h = elim (Bool-cases (is_newer x y)) [ inl e ↦ inl e | inr e ↦ inr (ground arith) ]

-- The ids are all different.
abbrev pub IsNumbered : List Transfer → Type 0
IsNumbered [] = Unit {0}
IsNumbered (r ∷ rs) = All (λ x. has_id x.id r ≡ false) rs × IsNumbered rs

pub IsNumbered-AreApart : (rs : List Transfer) → IsNumbered rs → AreApart is_newer rs
IsNumbered-AreApart [] h = tt
IsNumbered-AreApart (r ∷ rs) h = (each rs h.0, IsNumbered-AreApart rs h.1)
  where
    each : (xs : List Transfer) → All (λ x. has_id x.id r ≡ false) xs → All (Differs is_newer r) xs
    each [] k = tt
    each (x ∷ xs) k = (Differs-ids r x k.0, each xs k.1)

-- A row whose id is seen in a list is in it, if both come from one numbered table.
other_id :
    (x r : Transfer) (rs : List Transfer)
    → All (λ y. has_id y.id x ≡ false) rs
    → In r rs
    → has_id r.id x ≡ false
other_id x r [] h i = absurd i
other_id x r (y ∷ rs) h (inl e) = subst (λ z. has_id z.id x ≡ false) e h.0
other_id x r (y ∷ rs) h (inr i) = other_id x r rs h.1 i

pub same_id :
    (x r : Transfer) (rs : List Transfer)
    → IsNumbered rs
    → In x rs
    → In r rs
    → has_id r.id x ≡ true
    → x ≡ r
same_id x r [] h i j e = absurd i
same_id x r (y ∷ rs) h (inl z) (inl u) e = sym z ∙ u
same_id x r (y ∷ rs) h (inl z) (inr j) e =
    let o = subst (λ q. has_id r.id q ≡ false) z (other_id y r rs h.0 j) in
    absurd (ground (arith, o, e))
same_id x r (y ∷ rs) h (inr i) (inl u) e =
    let o = subst (λ q. has_id x.id q ≡ false) u (other_id y x rs h.0 i) in
    absurd (ground (arith, o, e))
same_id x r (y ∷ rs) h (inr i) (inr j) e = same_id x r rs h.1 i j e

pub any-In :
    (p : Transfer → Bool) (xs : List Transfer)
    → any p xs ≡ true
    → (x : Transfer) × In x xs × (p x ≡ true)
any-In p [] h = cc
any-In p (x ∷ xs) h = elim (Bool-cases (p x)) [
  | inl e ↦ (x, inl refl, e)
  | inr e ↦ let (y, i, k) = any-In p xs (ground (arith, h, e)) in (y, inr i, k)
]

any-none :
    (p : Transfer → Bool) (x : Transfer) (xs : List Transfer)
    → any p xs ≡ false
    → In x xs
    → p x ≡ false
any-none p x [] h i = absurd i
any-none p x (y ∷ xs) h (inl e) = subst (λ z. p z ≡ false) e (ground (arith, h))
any-none p x (y ∷ xs) h (inr i) = any-none p x xs (ground (arith, h)) i

pub union-AreApart :
    (xs ys : List Transfer)
    → AreApart is_newer xs
    → AreApart is_newer ys
    → AreApart is_newer (union xs ys)
unfolding union
union-AreApart xs ys h k =
    append-AreApart is_newer xs _ h
      (filter-AreApart is_newer (λ r. not (any (has_id r.id) xs)) ys k)
      (λ x y i j.
        let fresh = (In-filtered (λ r. not (any (has_id r.id) xs)) y ys j).1 in
        Differs-ids x y (any-none (has_id y.id) x xs (ground (arith, fresh)) i))

take_nil : (n : ℕ) → take {A = Transfer} n [] ≡ []
take_nil zero = refl
take_nil (suc n) = refl

-- LIMIT and OFFSET read the first rows only.
pub page_first :
    (limit offset : ℕ) (xs : List Transfer)
    → page limit offset xs ≡ drop offset (take (limit + offset) xs)
page_first limit zero xs = ap (λ n. take n xs) (plain limit)
  where
    plain : (n : ℕ) → n ≡ n + 0
    plain n = omega arith
page_first limit (suc offset) [] =
    take_nil limit ∙ sym (ap (drop (suc offset)) (take_nil (limit + suc offset)))
page_first limit (suc offset) (x ∷ xs) =
    page_first limit offset xs ∙ ap (λ n. drop (suc offset) (take n (x ∷ xs))) (next limit offset)
  where
    next : (m n : ℕ) → suc (m + n) ≡ m + suc n
    next m n = omega arith
