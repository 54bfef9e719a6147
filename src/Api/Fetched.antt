-- ===== src/Api/Fetched.antt =====
-- What the handlers' queries return: as many rows as asked for at most, from the range asked for.
use koinos_token_tracker.Base.{
  ℕ, zero, suc, ◌≤◌, refl, Bool, ◌&&◌, List, [], ◌∷◌, is_empty, length, take, filter, ltb, leb,
  arith, All, inl, inr, Bool-cases,
}
use koinos_token_tracker.Base.Sort.Rows.{sort-All}
use koinos_token_tracker.Base.Text.{Text}
use koinos_token_tracker.Store.Types.{Block, Store, current}
use koinos_token_tracker.Store.Action.{query, next_fault}
use koinos_token_tracker.Store.Reads.{get_sync_state, get_addresses, get_top_holders, get_blocks}
use koinos_token_tracker.Store.Transfers.{
  get_transfers_by_address, get_recent_transfers, get_recent_transfers_filtered,
}
use koinos_token_tracker.Api.ReadOnly.{GetsAt}

length-take : {A : Type 0} (n : ℕ) (xs : List A) → length (take n xs) ≤ n
length-take zero xs = omega arith
length-take (suc n) [] = omega arith
length-take (suc n) (x ∷ xs) = omega (arith, length-take n xs)

abbrev pub Anything : {A : Type 0} → A → Type 0
Anything a = Unit {0}

abbrev first_fault : Store → Bool
first_fault s = (next_fault s.faults).0

abbrev second_fault : Store → Bool
second_fault s = (next_fault (next_fault s.faults).1).0

abbrev third_fault : Store → Bool
third_fault s = (next_fault (next_fault (next_fault s.faults).1).1).0

pub get_sync_state-GetsAt : (s : Store) → GetsAt Anything s (get_sync_state s)
unfolding get_sync_state query
get_sync_state-GetsAt s = elim (Bool-cases (first_fault s)) [
  | inl x ↦ rw (x, get_sync_state, query, GetsAt) (refl, refl, refl)
  | inr x ↦ rw (x, get_sync_state, query, GetsAt) ((refl, refl, refl), tt)
]

abbrev pub FewRows : {A : Type 0} → ℕ → List A × ℕ → Type 0
FewRows limit (rows, total) = length rows ≤ limit

pub get_top_holders-GetsAt :
    (token : Text) (limit offset : ℕ) (s : Store)
    → GetsAt (FewRows limit) s (get_top_holders token limit offset s)
unfolding get_top_holders query
get_top_holders-GetsAt token limit offset s = elim (Bool-cases (first_fault s)) [
  | inl x ↦ rw (x, get_top_holders, query, GetsAt) (refl, refl, refl)
  | inr x ↦ elim (Bool-cases (second_fault s)) [
    | inl y ↦ rw (x, y, get_top_holders, query, GetsAt) (refl, refl, refl)
    | inr y ↦ rw (x, y, get_top_holders, query, GetsAt) ((refl, refl, refl), length-take limit _)
  ]
]

pub get_addresses-GetsAt :
    (limit offset : ℕ) (s : Store) → GetsAt (FewRows limit) s (get_addresses limit offset s)
unfolding get_addresses query
get_addresses-GetsAt limit offset s = elim (Bool-cases (first_fault s)) [
  | inl x ↦ rw (x, get_addresses, query, GetsAt) (refl, refl, refl)
  | inr x ↦ elim (Bool-cases (second_fault s)) [
    | inl y ↦ rw (x, y, get_addresses, query, GetsAt) (refl, refl, refl)
    | inr y ↦ rw (x, y, get_addresses, query, GetsAt) ((refl, refl, refl), length-take limit _)
  ]
]

abbrev pub InSpan : ℕ → ℕ → List Block → Type 0
InSpan from to rows = All (λ b. (from ≤ b.height) × (b.height ≤ to)) rows

filter-InSpan :
    (from to : ℕ) (rows : List Block)
    → InSpan from to (filter (λ r. leb from r.height && leb r.height to) rows)
filter-InSpan from to [] = tt
filter-InSpan from to (r ∷ rows) = elim (Bool-cases (leb from r.height && leb r.height to)) [
  | inl e ↦ rw (e, filter, All) ((ground arith, ground arith), filter-InSpan from to rows)
  | inr e ↦ rw (e, filter, All) (filter-InSpan from to rows)
]

pub get_blocks-GetsAt : (from to : ℕ) (s : Store) → GetsAt (InSpan from to) s (get_blocks from to s)
unfolding get_blocks query
get_blocks-GetsAt from to s = elim (Bool-cases (first_fault s)) [
  | inl x ↦ rw (x, get_blocks, query, GetsAt) (refl, refl, refl)
  | inr x ↦
      rw (x, get_blocks, query, GetsAt)
        (
          (refl, refl, refl),
          sort-All (λ b. (from ≤ b.height) × (b.height ≤ to)) (λ a b. ltb a.height b.height) _
              (filter-InSpan from to (current s).blocks),
        )
]

pub get_transfers_by_address-GetsAt :
    (address : Text) (limit offset : ℕ) (s : Store)
    → GetsAt (λ x. length x.0 ≤ limit) s (get_transfers_by_address address limit offset s)
unfolding get_transfers_by_address query
get_transfers_by_address-GetsAt address limit offset s = elim (Bool-cases (first_fault s)) [
  | inl x ↦ rw (x, get_transfers_by_address, query, GetsAt) (refl, refl, refl)
  | inr x ↦ elim (Bool-cases (second_fault s)) [
    | inl y ↦ rw (x, y, get_transfers_by_address, query, GetsAt) (refl, refl, refl)
    | inr y ↦ elim (Bool-cases (third_fault s)) [
      | inl z ↦ rw (x, y, z, get_transfers_by_address, query, GetsAt) (refl, refl, refl)
      | inr z ↦
          rw (x, y, z, get_transfers_by_address, query, GetsAt)
            ((refl, refl, refl), length-take limit _)
    ]
  ]
]

pub get_recent_transfers-GetsAt :
    (limit : ℕ) (s : Store) → GetsAt (λ rows. length rows ≤ limit) s (get_recent_transfers limit s)
unfolding get_recent_transfers query
get_recent_transfers-GetsAt limit s = elim (Bool-cases (first_fault s)) [
  | inl x ↦ rw (x, get_recent_transfers, query, GetsAt) (refl, refl, refl)
  | inr x ↦ rw (x, get_recent_transfers, query, GetsAt) ((refl, refl, refl), length-take limit _)
]

pub get_recent_transfers_filtered-GetsAt :
    (token event_type : Text) (limit : ℕ) (s : Store)
    → GetsAt
        (λ rows. length rows ≤ limit)
        s
        (get_recent_transfers_filtered token event_type limit s)
unfolding get_recent_transfers_filtered get_sync_state query
get_recent_transfers_filtered-GetsAt token event_type limit s = elim (Bool-cases (is_empty token)) [
  | inl e ↦ rw (e, get_recent_transfers_filtered, GetsAt) (refl, refl, refl)
  | inr e ↦ elim (Bool-cases (first_fault s)) [
    | inl x ↦
        rw (e, x, get_recent_transfers_filtered, get_sync_state, query, GetsAt) (refl, refl, refl)
    | inr x ↦ elim (Bool-cases (second_fault s)) [
      | inl y ↦
          rw (e, x, y, get_recent_transfers_filtered, get_sync_state, query, GetsAt)
            (refl, refl, refl)
      | inr y ↦
          rw (e, x, y, get_recent_transfers_filtered, get_sync_state, query, GetsAt)
            ((refl, refl, refl), length-take limit _)
    ]
  ]
]
