-- ===== src/Reconcile/Amount/Read.antt =====
-- An amount with eight decimals, read by decimalToSatoshis.
use mathlib.Core.Path.{subst}
use koinos_token_tracker.Base.{
  ℕ, zero, suc, ◌+◌, ◌*◌, ◌/◌, ◌%◌, ◌^◌, ◌-◌, ◌<◌, ◌≡◌, refl, sym, ◌∙◌, true, false, Option, some,
  [], ◌∷◌, ◌++◌, is_empty, length, length-append, take, ◌==◌, inl, inr, ap, arith, All, All-append,
  Bool-cases,
}
use koinos_token_tracker.Base.Sort.Rows.{take-all}
use koinos_token_tracker.Base.Int.{ℤ, pos}
use koinos_token_tracker.Base.Text.{Text, codes, text_eq, text_eq_iff, has_prefix}
use koinos_token_tracker.Decimal.{print, is_digit, digits_value, set_string}
use koinos_token_tracker.Decimal.RoundTrip.{
  IsDigit, digits_value-print, print-digits, print_fuel-nonempty, digits_value-snoc,
  set_string-digits,
}
use koinos_token_tracker.Reconcile.Amount.{split_point, eight, natural, decimal_to_satoshis}

-- A number below 10^n as n digits.
unfoldable pub padded : ℕ → ℕ → Text
padded zero f = []
padded (suc n) f = padded n (f / 10) ++ (b'0' + f % 10) ∷ []

-- An amount of satoshis as coins with eight decimals.
unfoldable pub coins : ℕ → ℕ → Text
unfolding padded print
coins whole frac = print whole ++ b'.' ∷ padded 8 frac

padded-digits : (n f : ℕ) → All IsDigit (padded n f)
unfolding padded
padded-digits zero f = tt
padded-digits (suc n) f =
    All-append IsDigit (padded n (f / 10)) _ (padded-digits n (f / 10))
      ((omega arith, omega arith), tt)

pow_suc : (n : ℕ) → 10 ^ suc n ≡ 10 ^ n * 10
pow_suc n = omega arith

tenth : (f p : ℕ) → f < p * 10 → f / 10 < p
tenth f p h = omega arith

shift : (acc p f : ℕ) → (acc * p + f / 10) * 10 + f % 10 ≡ acc * (p * 10) + f
shift acc p f = omega arith

digits_value-padded :
    (acc n f : ℕ) → f < 10 ^ n → digits_value acc (padded n f) ≡ some (acc * 10 ^ n + f)
unfolding padded
digits_value-padded acc zero f h = unfold digits_value in ground arith
digits_value-padded acc (suc n) f h =
    digits_value-snoc acc (acc * 10 ^ n + f / 10) (f % 10) (padded n (f / 10)) (omega arith)
      (digits_value-padded acc n (f / 10) (tenth f (10 ^ n) (subst (λ p. f < p) (pow_suc n) h)))
    ∙ ap some (shift acc (10 ^ n) f ∙ ap (λ p. acc * p + f) (sym (pow_suc n)))

length-padded : (n f : ℕ) → length (padded n f) ≡ n
unfolding padded
length-padded zero f = refl
length-padded (suc n) f =
    length-append (padded n (f / 10)) _ ∙ rw (length-padded n (f / 10)) (omega arith)

digits_value-append :
    (acc v : ℕ) (xs ys : Text)
    → digits_value acc xs ≡ some v
    → digits_value acc (xs ++ ys) ≡ digits_value v ys
unfolding digits_value
digits_value-append acc v [] ys h = ground arith
digits_value-append acc v (x ∷ xs) ys h =
    ground (arith, digits_value-append (acc * 10 + (x - b'0')) v xs ys)

no_point : (x : ℕ) → IsDigit x → (x == b'.') ≡ false
no_point x h = ground arith

split_point-digits : (xs ys : Text) → All IsDigit xs → split_point (xs ++ b'.' ∷ ys) ≡ (xs, ys)
unfolding split_point
split_point-digits [] ys h = refl
split_point-digits (x ∷ xs) ys h = rw (split_point-digits xs ys h.1, no_point x h.0) refl

append_nil : (xs : Text) → xs ++ [] ≡ xs
append_nil [] = refl
append_nil (x ∷ xs) = ap (λ ys. x ∷ ys) (append_nil xs)

append_nonempty : (xs ys : Text) → is_empty xs ≡ false → is_empty (xs ++ ys) ≡ false
append_nonempty [] ys h = cc
append_nonempty (x ∷ xs) ys h = refl

print_nonempty : (n : ℕ) → is_empty (print n) ≡ false
unfolding print
print_nonempty n = print_fuel-nonempty n n

zeros_eight : (t : Text) → length t ≡ 8 → eight t ≡ some t
zeros_eight t h = rw h (ap some (append_nil (take 8 t) ∙ take-all 8 t (omega (arith, h))))

-- The digits of an amount, read as one number.
combined :
    (whole frac : ℕ)
    → frac < 10 ^ 8
    → set_string (print whole ++ padded 8 frac) ≡ some (pos (whole * 10 ^ 8 + frac))
combined whole frac h =
    set_string-digits (print whole ++ padded 8 frac) (whole * 10 ^ 8 + frac)
      (append_nonempty (print whole) _ (print_nonempty whole))
      (All-append IsDigit (print whole) _ (print-digits whole) (padded-digits 8 frac))
      (digits_value-append 0 whole (print whole) (padded 8 frac) (digits_value-print whole)
        ∙ digits_value-padded whole 8 frac h)

-- The number that the parts at the point make.
abbrev joined : Text → Option ℤ
joined s = set_string ((split_point s).0 ++ (split_point s).1)

joined-coins :
    (whole frac : ℕ)
    → frac < 10 ^ 8
    → joined (coins whole frac) ≡ some (pos (whole * 10 ^ 8 + frac))
unfolding coins
joined-coins whole frac h =
    rw (split_point-digits (print whole) (padded 8 frac) (print-digits whole))
      (combined whole frac h)

-- The texts for zero that the code takes out first.
zero_text :
    (whole frac : ℕ) (z : Text)
    → frac < 10 ^ 8
    → joined z ≡ some (pos 0)
    → text_eq (coins whole frac) z ≡ true
    → print 0 ≡ print (whole * 10 ^ 8 + frac)
zero_text whole frac z h e t =
    ap natural
      (sym e ∙ ap joined (sym ((text_eq_iff (coins whole frac) z).0 t)) ∙ joined-coins whole frac h)

no_minus :
    (xs ys : Text)
    → is_empty xs ≡ false
    → All IsDigit xs
    → has_prefix (xs ++ ys) (codes "-") ≡ false
unfolding has_prefix
no_minus [] ys e h = cc
no_minus (x ∷ xs) ys e h = ground arith

coins_nonempty : (whole frac : ℕ) → is_empty (coins whole frac) ≡ false
unfolding coins
coins_nonempty whole frac =
    append_nonempty (print whole) (b'.' ∷ padded 8 frac) (print_nonempty whole)

coins_no_minus : (whole frac : ℕ) → has_prefix (coins whole frac) (codes "-") ≡ false
unfolding coins
coins_no_minus whole frac =
    no_minus (print whole) (b'.' ∷ padded 8 frac) (print_nonempty whole) (print-digits whole)

split_point-coins : (whole frac : ℕ) → split_point (coins whole frac) ≡ (print whole, padded 8 frac)
unfolding coins
split_point-coins whole frac = split_point-digits (print whole) (padded 8 frac) (print-digits whole)

zero_digits :
    (t : Text)
    → is_empty t ≡ false
    → All IsDigit t
    → digits_value 0 t ≡ some 0
    → set_string t ≡ some (pos 0)
zero_digits t = set_string-digits t 0

joined-zero1 : joined (codes "0") ≡ some (pos 0)
unfolding split_point digits_value is_digit
joined-zero1 = zero_digits (codes "0") refl ((omega arith, omega arith), tt) refl

joined-zero2 : joined (codes "0.0") ≡ some (pos 0)
unfolding split_point digits_value is_digit
joined-zero2 =
    zero_digits (codes "00") refl ((omega arith, omega arith), ((omega arith, omega arith), tt))
      refl

joined-zero3 : joined (codes "0.00000000") ≡ some (pos 0)
unfolding coins padded print
joined-zero3 = joined-coins 0 0 (omega arith)

-- An amount of satoshis that is written as coins with eight decimals is read back as the amount.
pub decimal_to_satoshis-coins :
    (whole frac : ℕ)
    → frac < 10 ^ 8
    → decimal_to_satoshis (coins whole frac) ≡ print (whole * 10 ^ 8 + frac)
unfolding decimal_to_satoshis print
decimal_to_satoshis-coins whole frac h =
    elim (Bool-cases (text_eq (coins whole frac) (codes "0"))) [
      | inl a ↦
          rw (coins_nonempty whole frac, a) (zero_text whole frac (codes "0") h joined-zero1 a)
      | inr a ↦ elim (Bool-cases (text_eq (coins whole frac) (codes "0.0"))) [
        | inl b ↦
            rw (coins_nonempty whole frac, a, b)
              (zero_text whole frac (codes "0.0") h joined-zero2 b)
        | inr b ↦ elim (Bool-cases (text_eq (coins whole frac) (codes "0.00000000"))) [
          | inl c ↦
              rw (coins_nonempty whole frac, a, b, c)
                (zero_text whole frac (codes "0.00000000") h joined-zero3 c)
          | inr c ↦
              rw
                (
                  coins_nonempty whole frac,
                  a,
                  b,
                  c,
                  coins_no_minus whole frac,
                  split_point-coins whole frac,
                  zeros_eight (padded 8 frac) (length-padded 8 frac),
                  ap (λ x. x.0) (split_point-coins whole frac),
                )
                (ap natural (combined whole frac h))
        ]
      ]
    ]
