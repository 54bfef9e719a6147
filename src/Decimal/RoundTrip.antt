-- ===== src/Decimal/RoundTrip.antt =====
-- big.Int.String with SetString, and FormatUint with ParseUint.
use koinos_token_tracker.Base.{
  ℕ, zero, suc, ◌+◌, ◌*◌, ◌/◌, ◌%◌, ◌≤◌, ◌<◌, ◌≡◌, refl, true, false, some, [], ◌∷◌, ◌++◌, inl, inr,
  arith, ltb, Bool-cases, All, All-append, ap, ◌-◌, is_empty, ◌∙◌,
}
use koinos_token_tracker.Base.Int.{ℤ, pos, negsuc}
use koinos_token_tracker.Base.Text.{Text}
use koinos_token_tracker.Decimal.{
  max_uint64, print_fuel, print, format_int, digits_value, unsigned, set_string, parse_uint_loop,
  parse_uint,
}

abbrev pub IsDigit : ℕ → Type 0
IsDigit c = (b'0' ≤ c) × (c ≤ b'9')

print_fuel-digits : (f n : ℕ) → All IsDigit (print_fuel f n)
unfolding print_fuel
print_fuel-digits zero n = (omega arith, omega arith)
print_fuel-digits (suc f) n = elim (Bool-cases (ltb n 10)) [
  | inl small ↦ rw (small, print_fuel) ((omega arith, ground arith), tt)
  | inr large ↦
      rw (large, print_fuel)
        (All-append IsDigit (print_fuel f (n / 10)) _ (print_fuel-digits f (n / 10))
          ((omega arith, omega arith), tt))
]

-- Reading one digit more.
pub digits_value-snoc :
    (acc v d : ℕ) (xs : Text)
    → d < 10
    → digits_value acc xs ≡ some v
    → digits_value acc (xs ++ (b'0' + d) ∷ []) ≡ some (v * 10 + d)
unfolding digits_value
digits_value-snoc acc v d [] small h = ground arith
digits_value-snoc acc v d (c ∷ xs) small h =
    ground (arith, digits_value-snoc (acc * 10 + (c - b'0')) v d xs small)

pub digits_value-print_fuel : (f n : ℕ) → n ≤ f → digits_value 0 (print_fuel f n) ≡ some n
unfolding print_fuel
digits_value-print_fuel zero n h = unfold digits_value in ground arith
digits_value-print_fuel (suc f) n h = elim (Bool-cases (ltb n 10)) [
  | inl small ↦ rw (small, print_fuel) (unfold digits_value in ground arith)
  | inr large ↦
      rw (large, print_fuel)
        (digits_value-snoc 0 (n / 10) (n % 10) (print_fuel f (n / 10)) (omega arith)
            (digits_value-print_fuel f (n / 10) (ground arith))
          ∙ ap some (omega arith))
]

pub digits_value-print : (n : ℕ) → digits_value 0 (print n) ≡ some n
unfolding print
digits_value-print n = digits_value-print_fuel n n (omega arith)

pub print-digits : (n : ℕ) → All IsDigit (print n)
unfolding print
print-digits n = print_fuel-digits n n

pub print_fuel-nonempty : (f n : ℕ) → is_empty (print_fuel f n) ≡ false
unfolding print_fuel
print_fuel-nonempty zero n = refl
print_fuel-nonempty (suc f) n = elim (Bool-cases (ltb n 10)) [
  | inl small ↦ rw (small, print_fuel)
  | inr large ↦ rw (large, print_fuel) (append-nonempty (print_fuel f (n / 10)) _)
]
  where
    append-nonempty : (xs : Text) (d : ℕ) → is_empty (xs ++ d ∷ []) ≡ false
    append-nonempty [] d = refl
    append-nonempty (x ∷ xs) d = refl

pub set_string-digits :
    (t : Text) (n : ℕ)
    → is_empty t ≡ false
    → All IsDigit t
    → digits_value 0 t ≡ some n
    → set_string t ≡ some (pos n)
unfolding set_string
set_string-digits [] n full ds h = cc
set_string-digits (c ∷ s) n full ds h = ground arith

pub set_string-print : (n : ℕ) → set_string (print n) ≡ some (pos n)
set_string-print n =
    set_string-digits (print n) n (unfold print in print_fuel-nonempty n n) (print-digits n)
      (digits_value-print n)

unsigned-digits :
    (t : Text) (n : ℕ) → is_empty t ≡ false → digits_value 0 t ≡ some n → unsigned t ≡ some n
unfolding unsigned
unsigned-digits [] n full h = cc
unsigned-digits (c ∷ s) n full h = h

-- The text that big.Int.String gives of an integer is read back by SetString, with its sign.
pub set_string-format_int : (v : ℤ) → set_string (format_int v) ≡ some v
unfolding format_int
set_string-format_int (pos n) = set_string-print n
set_string-format_int (negsuc n) =
    unfold set_string in
    rw
      (unsigned-digits (print (suc n)) (suc n) (unfold print in print_fuel-nonempty (suc n) (suc n))
        (digits_value-print (suc n)))
      (ground arith)

digits_value_mono : (n v : ℕ) (t : Text) → digits_value n t ≡ some v → n ≤ v
unfolding digits_value
digits_value_mono n v [] h = ground arith
digits_value_mono n v (c ∷ t) h = ground (arith, digits_value_mono (n * 10 + (c - b'0')) v t)

parse_uint_loop-digits :
    (n v : ℕ) (t : Text)
    → digits_value n t ≡ some v
    → v ≤ max_uint64
    → parse_uint_loop n t ≡ (v, true)
unfolding digits_value parse_uint_loop
parse_uint_loop-digits n v [] h fits = ground arith
parse_uint_loop-digits n v (c ∷ t) h fits = ground (
  arith,
  parse_uint_loop-digits (n * 10 + (c - b'0')) v t,
  digits_value_mono (n * 10 + (c - b'0')) v t,
)

parse_uint-digits :
    (t : Text) (v : ℕ)
    → is_empty t ≡ false
    → digits_value 0 t ≡ some v
    → v ≤ max_uint64
    → parse_uint t ≡ (v, true)
unfolding parse_uint
parse_uint-digits [] v full h fits = cc
parse_uint-digits (c ∷ s) v full h fits = parse_uint_loop-digits 0 v (c ∷ s) h fits

-- A printed uint64 is read back with no error.
pub parse_uint-print : (n : ℕ) → n ≤ max_uint64 → parse_uint (print n) ≡ (n, true)
parse_uint-print n fits =
    parse_uint-digits (print n) n (unfold print in print_fuel-nonempty n n) (digits_value-print n)
      fits

pub print-injective : (m n : ℕ) → print m ≡ print n → m ≡ n
print-injective m n h = cc (digits_value-print m, digits_value-print n)

-- The fuel does not show: any that is no less than the number gives the same text.
pub print_fuel-enough : (f g n : ℕ) → n ≤ f → n ≤ g → print_fuel f n ≡ print_fuel g n
unfolding print_fuel
print_fuel-enough zero zero n hf hg = refl
print_fuel-enough zero (suc g) n hf hg = ground arith
print_fuel-enough (suc f) zero n hf hg = ground arith
print_fuel-enough (suc f) (suc g) n hf hg = ground (arith, print_fuel-enough f g (n / 10))
