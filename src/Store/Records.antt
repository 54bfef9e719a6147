-- ===== src/Store/Records.antt =====
-- The primary key of token_backfill.
use koinos_token_tracker.Base.{
  ◌≡◌, refl, false, Option, some, List, [], ◌∷◌, All, sym, inl, inr, Bool-cases,
}
use mathlib.Core.Path.{subst}
use koinos_token_tracker.Base.Text.{Text, text_eq, text_eq_iff, text_eq_refl}
use koinos_token_tracker.Base.Table.{find, upsert, upsert-All}
use koinos_token_tracker.Store.Types.{Backfill}

-- The tokens of the records are all different.
abbrev pub IsKeyed : List Backfill → Type 0
IsKeyed [] = Unit {0}
IsKeyed (r ∷ rs) = All (λ x. text_eq r.token x.token ≡ false) rs × IsKeyed rs

abbrev pub find_record : Text → List Backfill → Option Backfill
find_record token = find (λ r. text_eq r.token token)

abbrev pub put_record : Backfill → List Backfill → List Backfill
put_record b = upsert (λ r. text_eq r.token b.token) b (λ r. b)

-- The token has a record.
abbrev pub Has : Text → List Backfill → Type 0
Has token rows = (b : Backfill) × (find_record token rows ≡ some b)

pub put_record-IsKeyed :
    (b : Backfill) (rows : List Backfill) → IsKeyed rows → IsKeyed (put_record b rows)
unfolding upsert
put_record-IsKeyed b [] h = (tt, tt)
put_record-IsKeyed b (r ∷ rs) h = elim (Bool-cases (text_eq r.token b.token)) [
  | inl e ↦
      rw (e, upsert, IsKeyed)
        (
          subst (λ t. All (λ x. text_eq t x.token ≡ false) rs) ((text_eq_iff r.token b.token).0 e)
              h.0,
          h.1,
        )
  | inr e ↦
      rw (e, upsert, IsKeyed)
        (
          upsert-All (λ x. text_eq r.token x.token ≡ false) _ b (λ r. b) rs e (λ x old. e) h.0,
          put_record-IsKeyed b rs h.1,
        )
]

found_behind :
    (r : Backfill) (rs xs : List Backfill)
    → All (λ x. text_eq r.token x.token ≡ false) xs
    → All (λ x. find_record x.token rs ≡ some x) xs
    → All (λ x. find_record x.token (r ∷ rs) ≡ some x) xs
unfolding find
found_behind r rs [] differ found = tt
found_behind r rs (x ∷ xs) differ found =
    (rw (differ.0, find) found.0, found_behind r rs xs differ.1 found.1)

-- Every record is the one that its token finds.
pub IsKeyed-found :
    (rows : List Backfill) → IsKeyed rows → All (λ x. find_record x.token rows ≡ some x) rows
unfolding find
IsKeyed-found [] h = tt
IsKeyed-found (r ∷ rs) h =
    (rw (text_eq_refl r.token, find) refl, found_behind r rs rs h.0 (IsKeyed-found rs h.1))

-- What holds of all records holds of the one that is found.
pub All-found :
    (P : Text → Type 0) (token : Text) (rows : List Backfill)
    → All (λ r. P r.token) rows
    → Has token rows
    → P token
unfolding find
All-found P token [] h (b, e) = cc
All-found P token (r ∷ rs) h (b, e) = elim (Bool-cases (text_eq r.token token)) [
  | inl x ↦ subst P ((text_eq_iff r.token token).0 x) h.0
  | inr x ↦ All-found P token rs h.1 (b, rw (x, find) at e)
]

pub put_record-Has :
    (token : Text) (b : Backfill) (rows : List Backfill)
    → Has token rows
    → Has token (put_record b rows)
unfolding upsert find
put_record-Has token b [] (x, e) = cc
put_record-Has token b (r ∷ rs) (x, e) = elim (Bool-cases (text_eq r.token b.token)) [
  | inl same ↦ elim (Bool-cases (text_eq b.token token)) [
    | inl here ↦ (b, rw (same, upsert, here, find) refl)
    | inr away ↦
        let r_away : text_eq r.token token ≡ false =
          subst (λ t. text_eq t token ≡ false) (sym ((text_eq_iff r.token b.token).0 same)) away in
        (x, rw (same, upsert, away, find) (rw (r_away, find) at e))
  ]
  | inr other ↦ elim (Bool-cases (text_eq r.token token)) [
    | inl here ↦ (r, rw (other, upsert, here, find) refl)
    | inr away ↦
        let (y, f) = put_record-Has token b rs (x, rw (away, find) at e) in
        (y, rw (other, upsert, away, find) f)
  ]
]

pub put_record-Has_self : (b : Backfill) (rows : List Backfill) → Has b.token (put_record b rows)
unfolding upsert find
put_record-Has_self b [] = (b, rw (text_eq_refl b.token, find) refl)
put_record-Has_self b (r ∷ rs) = elim (Bool-cases (text_eq r.token b.token)) [
  | inl same ↦ (b, rw (same, upsert, text_eq_refl b.token, find) refl)
  | inr other ↦ let (y, f) = put_record-Has_self b rs in (y, rw (other, upsert, other, find) f)
]
