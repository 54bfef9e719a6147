-- ===== src/Decimal.antt =====
-- Decimal text: strconv.FormatUint, strconv.ParseUint and big.Int's String and SetString at base 10,
-- as internal/sync/sync.go, internal/backfill/backfill.go and internal/reconcile use them.
pub mod RoundTrip
pub mod Order
use koinos_token_tracker.Base.{
  ℕ, zero, suc, ◌+◌, ◌-◌, ◌*◌, ◌/◌, ◌%◌, ◌^◌, Bool, true, false, ◌&&◌, Option, none, some, List, [],
  ◌∷◌, ◌++◌, ltb, leb, ◌==◌, if◌then◌else◌,
}
use koinos_token_tracker.Base.Int.{ℤ, pos, negsuc, neg}
use koinos_token_tracker.Base.Text.{Text}

abbrev pub max_uint64 : ℕ
max_uint64 = 2 ^ 64 - 1

unfoldable pub is_digit : ℕ → Bool
is_digit c = leb b'0' c && leb c b'9'

-- One digit a round, so a number is more rounds than it has digits.
pub print_fuel : ℕ → ℕ → Text
print_fuel zero n = (b'0' + n % 10) ∷ []
print_fuel (suc fuel) n = elim (ltb n 10) [
  | true ↦ (b'0' + n) ∷ []
  | false ↦ print_fuel fuel (n / 10) ++ (b'0' + n % 10) ∷ []
]

-- strconv.FormatUint(n, 10), and fmt's %d of an unsigned value.
unfoldable pub print : ℕ → Text
unfolding print_fuel
print n = print_fuel n n

-- big.Int.String
unfoldable pub format_int : ℤ → Text
unfolding print
format_int (pos n) = print n
format_int (negsuc n) = b'-' ∷ print (suc n)

unfoldable pub digits_value : ℕ → Text → Option ℕ
unfolding is_digit
digits_value acc [] = some acc
digits_value acc (c ∷ s) = if is_digit c then digits_value (acc * 10 + (c - b'0')) s else none

unsigned : Text → Option ℕ
unfolding digits_value
unsigned [] = none
unsigned (c ∷ s) = digits_value 0 (c ∷ s)

abbrev signed : (ℕ → ℤ) → Option ℕ → Option ℤ
signed f none = none
signed f (some n) = some (f n)

-- new(big.Int).SetString(s, 10): an optional sign, then one digit or more.
unfoldable pub set_string : Text → Option ℤ
unfolding unsigned
set_string [] = none
set_string (c ∷ s) =
    if c == b'-'
    then signed (λ n. neg (pos n)) (unsigned s)
    else if c == b'+'
    then signed pos (unsigned s)
    else signed pos (unsigned (c ∷ s))

-- The value and whether the error is nil. A value out of range is `max_uint64` with an error.
pub parse_uint_loop : ℕ → Text → ℕ × Bool
unfolding is_digit
parse_uint_loop n [] = (n, true)
parse_uint_loop n (c ∷ s) =
    let n' = n * 10 + (c - b'0') in
    let rest = parse_uint_loop n' s in
    if is_digit c then (if leb n' max_uint64 then rest else (max_uint64, false)) else (0, false)

-- strconv.ParseUint(s, 10, 64)
unfoldable pub parse_uint : Text → ℕ × Bool
unfolding parse_uint_loop
parse_uint [] = (0, false)
parse_uint (c ∷ s) = parse_uint_loop 0 (c ∷ s)
