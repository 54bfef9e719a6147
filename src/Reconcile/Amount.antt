-- ===== src/Reconcile/Amount.antt =====
-- decimalToSatoshis.
pub mod Read
use koinos_token_tracker.Base.{
  ℕ, zero, suc, ◌-◌, Bool, true, false, ◌&&◌, ◌||◌, not, Option, none, some, List, [], ◌∷◌, ◌++◌,
  is_empty, length, take, drop, ltb, ◌==◌, if◌then◌else◌,
}
use koinos_token_tracker.Base.Int.{ℤ, pos, negsuc}
use koinos_token_tracker.Base.Text.{Text, codes, text_eq, has_prefix}
use koinos_token_tracker.Decimal.{set_string, print}

-- strings.SplitN(s, ".", 2), without a second part if there is no point
unfoldable pub split_point : Text → Text × Text
split_point [] = ([], [])
split_point (c ∷ s) =
    let (whole, frac) = split_point s in if c == b'.' then ([], s) else (c ∷ whole, frac)

abbrev pub all_zeros : Text → Bool
all_zeros [] = true
all_zeros (c ∷ s) = (c == b'0') && all_zeros s

-- strings.Repeat("0", n)
abbrev pub zeros : ℕ → Text
zeros zero = []
zeros (suc n) = b'0' ∷ zeros n

-- Eight digits: more only if they are zeros.
abbrev pub eight : Text → Option Text
eight frac =
    if ltb 8 (length frac) && not (all_zeros (drop 8 frac))
    then none
    else some (take 8 frac ++ zeros (8 - length frac))

abbrev pub natural : Option ℤ → Text
natural none = []
natural (some (pos n)) = print n
natural (some (negsuc n)) = []

-- The empty text is an error.
unfoldable pub decimal_to_satoshis : Text → Text
unfolding split_point set_string print
decimal_to_satoshis s =
    if is_empty s
    then []
    else if text_eq s (codes "0") || text_eq s (codes "0.0") || text_eq s (codes "0.00000000")
    then codes "0"
    else if has_prefix s (codes "-")
    then []
    else let (whole, frac) = split_point s in
      elim (eight frac) [ none ↦ [] | some digits ↦ natural (set_string (whole ++ digits)) ]
