-- ===== src/Decimal/Order.antt =====
-- ORDER BY LENGTH(balance) DESC, balance DESC of internal/store/sqlite.go: the order of decimal
-- texts by length and then byte by byte.
use koinos_token_tracker.Base.{
  ℕ, zero, suc, ◌+◌, ◌/◌, ◌%◌, ◌≤◌, ◌≡◌, Bool, true, false, ◌&&◌, ◌||◌, [], ◌∷◌, ◌++◌, inl, inr,
  arith, ltb, ◌==◌, Bool-cases, length, length-append, is_empty, ◌∙◌,
}
use koinos_token_tracker.Base.Text.{Text, text_eq, text_eq_iff}
use koinos_token_tracker.Decimal.{print_fuel, print}
use koinos_token_tracker.Decimal.RoundTrip.{
  digits_value-print_fuel, print_fuel-nonempty, print_fuel-enough,
}

-- The binary collation of SQLite.
pub text_ltb : Text → Text → Bool
text_ltb [] [] = false
text_ltb [] (y ∷ ys) = true
text_ltb (x ∷ xs) [] = false
text_ltb (x ∷ xs) (y ∷ ys) = ltb x y || ((x == y) && text_ltb xs ys)

-- Whether `a` comes behind `b` under LENGTH DESC, text DESC.
unfoldable pub decimal_ltb : Text → Text → Bool
unfolding text_ltb
decimal_ltb a b = ltb (length a) (length b) || ((length a == length b) && text_ltb a b)

text_ltb-snoc :
    (xs ys : Text) (a b : ℕ)
    → length xs ≡ length ys
    → text_ltb (xs ++ a ∷ []) (ys ++ b ∷ []) ≡ (text_ltb xs ys || (text_eq xs ys && ltb a b))
unfolding text_ltb text_eq
text_ltb-snoc [] [] a b h = ground arith
text_ltb-snoc [] (y ∷ ys) a b h = absurd (omega arith)
text_ltb-snoc (x ∷ xs) [] a b h = absurd (omega arith)
text_ltb-snoc (x ∷ xs) (y ∷ ys) a b h = ground (arith, text_ltb-snoc xs ys a b)

decimal_ltb-snoc :
    (xs ys : Text) (a b : ℕ)
    → decimal_ltb (xs ++ a ∷ []) (ys ++ b ∷ []) ≡ (decimal_ltb xs ys || (text_eq xs ys && ltb a b))
unfolding decimal_ltb
decimal_ltb-snoc xs ys a b = ground (
  arith,
  text_ltb-snoc xs ys a b,
  length-append {0} xs (a ∷ []),
  length-append {0} ys (b ∷ []),
  text_eq_iff xs ys,
)

text_eq-print_fuel :
    (f m n : ℕ) → m ≤ f → n ≤ f → text_eq (print_fuel f m) (print_fuel f n) ≡ (m == n)
text_eq-print_fuel f m n hm hn = ground (
  arith,
  text_eq_iff (print_fuel f m) (print_fuel f n),
  digits_value-print_fuel f m hm,
  digits_value-print_fuel f n hn,
)

decimal_ltb-short :
    (xs : Text) (a b : ℕ)
    → is_empty xs ≡ false
    → (decimal_ltb (a ∷ []) (xs ++ b ∷ []) ≡ true) × (decimal_ltb (xs ++ b ∷ []) (a ∷ []) ≡ false)
unfolding decimal_ltb
decimal_ltb-short [] a b h = cc
decimal_ltb-short (x ∷ xs) a b h = ground (arith, length-append {0} xs (b ∷ []))

print_fuel-small : (f n : ℕ) → ltb n 10 ≡ true → print_fuel (suc f) n ≡ (b'0' + n) ∷ []
unfolding print_fuel
print_fuel-small f n h = rw (h, print_fuel)

print_fuel-large :
    (f n : ℕ)
    → ltb n 10 ≡ false
    → print_fuel (suc f) n ≡ print_fuel f (n / 10) ++ (b'0' + n % 10) ∷ []
unfolding print_fuel
print_fuel-large f n h = rw (h, print_fuel)

decimal_ltb-print_fuel :
    (f m n : ℕ) → m ≤ f → n ≤ f → decimal_ltb (print_fuel f m) (print_fuel f n) ≡ ltb m n
decimal_ltb-print_fuel zero m n hm hn = unfold print_fuel decimal_ltb in ground arith
decimal_ltb-print_fuel (suc f) m n hm hn = elim (Bool-cases (ltb m 10)) [
  | inl sm ↦ elim (Bool-cases (ltb n 10)) [
    | inl sn ↦
        rw (print_fuel-small f m sm, print_fuel-small f n sn) (unfold decimal_ltb in ground arith)
    | inr ln ↦
        rw (print_fuel-small f m sm, print_fuel-large f n ln)
          ((decimal_ltb-short (print_fuel f (n / 10)) (b'0' + m) (b'0' + n % 10)
              (print_fuel-nonempty f (n / 10))).0
            ∙ ground arith)
  ]
  | inr lm ↦ elim (Bool-cases (ltb n 10)) [
    | inl sn ↦
        rw (print_fuel-large f m lm, print_fuel-small f n sn)
          ((decimal_ltb-short (print_fuel f (m / 10)) (b'0' + n) (b'0' + m % 10)
              (print_fuel-nonempty f (m / 10))).1
            ∙ ground arith)
    | inr ln ↦
        rw (print_fuel-large f m lm, print_fuel-large f n ln)
          (decimal_ltb-snoc (print_fuel f (m / 10)) (print_fuel f (n / 10)) _ _
            ∙ ground (
              arith,
              decimal_ltb-print_fuel f (m / 10) (n / 10),
              text_eq-print_fuel f (m / 10) (n / 10),
            ))
  ]
]

-- The order of decimal texts by length and then by bytes is the order of the numbers.
pub decimal_ltb-print : (m n : ℕ) → decimal_ltb (print m) (print n) ≡ ltb m n
unfolding print
decimal_ltb-print m n =
    rw
      (
        print_fuel-enough m (m + n) m (omega arith) (omega arith),
        print_fuel-enough n (m + n) n (omega arith) (omega arith),
      )
      (decimal_ltb-print_fuel (m + n) m n (omega arith) (omega arith))
