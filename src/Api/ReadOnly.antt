-- ===== src/Api/ReadOnly.antt =====
-- What the handlers leave as it is, and the bounds of what they answer.
use Prim.Native.String.{String}
use koinos_token_tracker.Base.{
  ℕ, ◌+◌, ◌≤◌, ◌≡◌, refl, ◌∙◌, Bool, true, false, Option, none, some, length, if◌then◌else◌, All,
}
use koinos_token_tracker.Base.Text.{Text}
use koinos_token_tracker.Store.Types.{Store}
use koinos_token_tracker.Store.Action.{Result, ok, err, blocked}
use koinos_token_tracker.Api.{
  max_offset, Body, error_body, status_body, stats_body, addresses_body, address_body, holders_body,
  blocks_body, recent_body, transfers_body, tokens_body, producers_body, spec_page, docs_page,
  explorer_page, not_found_page, moved_to, no_body, Handler, respond, refuse, after, with_param,
}

-- The tables, the transaction and the mutex are as they were.
abbrev pub Unchanged : Store → Store → Type 0
Unchanged s s' = (s'.db ≡ s.db) × (s'.tx ≡ s.tx) × (s'.locked ≡ s.locked)

pub Unchanged-trans : (a b c : Store) → Unchanged a b → Unchanged b c → Unchanged a c
Unchanged-trans a b c p q = (q.0 ∙ p.0, q.1 ∙ p.1, q.2 ∙ p.2)

module _ {A : Type 0} where
  abbrev pub GetsAt : (A → Type 0) → Store → Result A × Store → Type 0
  GetsAt P s (ok a, s') = Unchanged s s' × P a
  GetsAt P s (err e, s') = Unchanged s s'
  GetsAt P s (blocked, s') = ⊥

-- At most so many heights, positions and rows.
abbrev pub IsBounded : Body → Type 0
IsBounded (error_body e) = Unit {0}
IsBounded (status_body h id stats) = Unit {0}
IsBounded (stats_body stats tokens) = Unit {0}
IsBounded (addresses_body total limit offset rows) =
    (limit ≤ 1000) × (offset ≤ max_offset) × (length rows ≤ limit)
IsBounded (address_body a balances) = Unit {0}
IsBounded (holders_body token total limit offset rows) =
    (limit ≤ 1000) × (offset ≤ max_offset) × (length rows ≤ limit)
IsBounded (blocks_body from to rows) =
    (from ≤ to) × (to ≤ from + 1000) × All (λ b. (from ≤ b.height) × (b.height ≤ to)) rows
IsBounded (recent_body limit rows token event_type) = (limit ≤ 500) × (length rows ≤ limit)
IsBounded (transfers_body q total capped limit offset rows) =
    (limit ≤ 500) × (offset ≤ max_offset) × (length rows ≤ limit)
IsBounded (tokens_body tokens) = Unit {0}
IsBounded (producers_body rows total) = Unit {0}
IsBounded spec_page = Unit {0}
IsBounded docs_page = Unit {0}
IsBounded explorer_page = Unit {0}
IsBounded not_found_page = Unit {0}
IsBounded (moved_to path raw_query) = Unit {0}
IsBounded no_body = Unit {0}

-- There is an answer, in its bounds, and nothing has changed.
abbrev pub ServedAt : Store → Option (ℕ × Body) × Store → Type 0
ServedAt s (none, s') = ⊥
ServedAt s (some (status, body), s') = Unchanged s s' × IsBounded body

pub record Serves (h : Handler) : Type 0 where
  pub at : (s : Store) → ServedAt s (h s)

pub Serves-respond : (status : ℕ) (body : Body) → IsBounded body → Serves (respond status body)
Serves-respond status body b = record { at = λ s. ((refl, refl, refl), b) }

pub Serves-refuse : (status : ℕ) (text : String) → Serves (refuse status text)
Serves-refuse status text = Serves-respond status (error_body text) tt

then-ServedAt :
    (s s' : Store) (x : Option (ℕ × Body) × Store) → Unchanged s s' → ServedAt s' x → ServedAt s x
then-ServedAt s s' (none, s'') u h = h
then-ServedAt s s' (some x, s'') u h = (Unchanged-trans s s' s'' u h.0, h.1)

pub after-ServedAt :
    {A : Type 0} (P : A → Type 0) (s : Store) (r : Result A) (s' : Store) (k : A → Handler)
    → GetsAt P s (r, s')
    → ((a : A) → P a → Serves (k a))
    → ServedAt s (after k r s')
after-ServedAt P s (ok a) s' k h hk = then-ServedAt s s' (k a s') h.0 ((hk a h.1).at s')
after-ServedAt P s (err e) s' k h hk = (h, tt)
after-ServedAt P s blocked s' k h hk = h

pub Serves-if :
    {h k : Handler} (b : Bool)
    → (b ≡ true → Serves h)
    → (b ≡ false → Serves k)
    → Serves (if b then h else k)
Serves-if true hh hk = hh refl
Serves-if false hh hk = hk refl

pub Serves-with_param :
    {k : Text → Handler} (text : String) (o : Option Text)
    → ((p : Text) → Serves (k p))
    → Serves (with_param text o k)
Serves-with_param text none hk = Serves-refuse 400 text
Serves-with_param text (some p) hk = hk p
