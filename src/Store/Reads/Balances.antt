-- ===== src/Store/Reads/Balances.antt =====
-- What GetBalance reads after each kind of write to the balances.
use koinos_token_tracker.Base.{
  ℕ, ◌≡◌, refl, ap, Bool, true, false, ◌&&◌, not, Option, none, some, List, [], ◌∷◌, arith, filter,
  inl, inr, Bool-cases, if◌then◌else◌,
}
use koinos_token_tracker.Base.Text.{Text, text_eq, text_eq_iff, text_eq_refl}
use koinos_token_tracker.Base.Table.{find, merged, find-upsert_self, find-upsert_other}
use koinos_token_tracker.Store.Types.{Balance, Db}
use koinos_token_tracker.Store.Writes.{is_balance_of, put_balance, delete_balances}
use koinos_token_tracker.Store.Reads.{balance_or_zero, balance_of}

module _ (address token balance : Text) (height : ℕ) (d : Db) where
  balance_of-put_balance_self :
      balance_of address token (put_balance address token balance height d) ≡ balance
  unfolding balance_of put_balance
  balance_of-put_balance_self =
      rw
        (find-upsert_self (is_balance_of address token) fresh merge d.balances keeps_key
          keeps_merge)
        (merged-balance (find (is_balance_of address token) d.balances))
    where
      fresh : Balance
      fresh = record {
        address = address;
        token = token;
        balance = balance;
        updated_height = height;
      }

      merge : Balance → Balance
      merge r = record r { balance = balance; updated_height = height }

      keeps_key : is_balance_of address token fresh ≡ true
      keeps_key = rw (text_eq_refl address, text_eq_refl token)

      keeps_merge :
          (r : Balance)
          → is_balance_of address token r ≡ true
          → is_balance_of address token (merge r) ≡ true
      keeps_merge r h = h

      merged-balance :
          (o : Option Balance) → balance_or_zero (some (merged o fresh merge)) ≡ balance
      merged-balance none = refl
      merged-balance (some r) = refl

  balance_of-put_balance_ne :
      (a t : Text)
      → (text_eq address a && text_eq token t) ≡ false
      → balance_of a t (put_balance address token balance height d) ≡ balance_of a t d
  unfolding balance_of put_balance
  balance_of-put_balance_ne a t h = ap balance_or_zero (
      find-upsert_other (is_balance_of a t) (is_balance_of address token) _ _ d.balances
        (ground (arith, text_eq_iff address a, text_eq_iff token t))
        (λ r same. (
          ground (
            arith,
            text_eq_iff r.address address,
            text_eq_iff r.token token,
            text_eq_iff r.address a,
            text_eq_iff r.token t,
          ),
          ground (
            arith,
            text_eq_iff r.address address,
            text_eq_iff r.token token,
            text_eq_iff r.address a,
            text_eq_iff r.token t,
          ),
        )))

  keys : {a t : Text} → (text_eq address a && text_eq token t) ≡ true → (address ≡ a) × (token ≡ t)
  keys {a} {t} e = ground (arith, text_eq_iff address a, text_eq_iff token t)

  -- The balance of every address in every token after one is set.
  pub balance_of-put_balance :
      (a t : Text)
      → balance_of a t (put_balance address token balance height d)
        ≡ (if text_eq address a && text_eq token t then balance else balance_of a t d)
  balance_of-put_balance a t = elim (Bool-cases (text_eq address a && text_eq token t)) [
    | inl e ↦ let both = keys e in rw e (rw (← both.0, ← both.1) balance_of-put_balance_self)
    | inr e ↦ rw e (balance_of-put_balance_ne a t e)
  ]

find-filter :
    (p q : Balance → Bool) (rows : List Balance)
    → ((r : Balance) → p r ≡ true → q r ≡ true)
    → find p (filter q rows) ≡ find p rows
unfolding find
find-filter p q [] h = refl
find-filter p q (r ∷ rows) h = ground (arith, find-filter p q rows h, h r)

-- Dropping the rows of one token leaves the balances in the others.
pub balance_of-delete_balances :
    (token a t : Text) (d : Db)
    → text_eq token t ≡ false
    → balance_of a t (delete_balances token d) ≡ balance_of a t d
unfolding balance_of delete_balances
balance_of-delete_balances token a t d h = ap balance_or_zero (
    find-filter (is_balance_of a t) (λ r. not (text_eq r.token token)) d.balances
      (λ r e.
        ground (arith, text_eq_iff r.token token, text_eq_iff r.token t, text_eq_iff token t)))
