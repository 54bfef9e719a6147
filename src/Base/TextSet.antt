-- ===== src/Base/TextSet.antt =====
-- A Go map[string]struct{}: its keys, each once, in the order of their insertion.
use mathlib.Core.Path.{◌≡◌, refl}
use mathlib.Core.Bool.{Bool, false, ◌||◌}
use mathlib.Core.List.{List, [], ◌∷◌, ◌++◌}
use native.Mathlib.Omega.{arith}
use koinos_token_tracker.Base.Tests.{if◌then◌else◌}
use koinos_token_tracker.Base.Text.{Text, text_eq, text_eq_iff}

abbrev pub TextSet : Type 0
TextSet = List Text

-- _, ok := set[a]
unfoldable pub member : Text → TextSet → Bool
member a [] = false
member a (x ∷ s) = text_eq x a || member a s

-- set[a] = struct{}{}
unfoldable pub add : Text → TextSet → TextSet
unfolding member
add a s = if member a s then s else s ++ a ∷ []

member-append : (a b : Text) (s : TextSet) → member a (s ++ b ∷ []) ≡ (member a s || text_eq b a)
unfolding member
member-append a b [] = ground arith
member-append a b (x ∷ s) = ground (arith, member-append a b s)

pub member-add : (a b : Text) (s : TextSet) → member a (add b s) ≡ (text_eq b a || member a s)
unfolding add
member-add a b s = ground (arith, member-append a b s, text_eq_iff b a)

-- No key is listed twice.
abbrev pub IsDistinct : TextSet → Type 0
IsDistinct [] = Unit
IsDistinct (x ∷ s) = (member x s ≡ false) × IsDistinct s

IsDistinct-append :
    (a : Text) (s : TextSet) → member a s ≡ false → IsDistinct s → IsDistinct (s ++ a ∷ [])
unfolding member
IsDistinct-append a [] h d = (refl, tt)
IsDistinct-append a (x ∷ s) h d =
    ground (arith, IsDistinct-append a s, member-append x a s, text_eq_iff x a, text_eq_iff a x)

pub add-IsDistinct : (a : Text) (s : TextSet) → IsDistinct s → IsDistinct (add a s)
unfolding add
add-IsDistinct a s d = ground (arith, IsDistinct-append a s)
