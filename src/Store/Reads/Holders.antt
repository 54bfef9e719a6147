-- ===== src/Store/Reads/Holders.antt =====
-- GetTopHolders.
use koinos_token_tracker.Base.{ℕ, ◌≡◌, refl, List, filter, length, inl, inr, Bool-cases}
use koinos_token_tracker.Base.Sort.{page, sort}
use koinos_token_tracker.Base.Text.{Text}
use koinos_token_tracker.Store.Types.{Balance, Db, Store, current}
use koinos_token_tracker.Store.Action.{Result, ok, err, blocked, query, next_fault}
use koinos_token_tracker.Store.Reads.{is_holder, holds_more, get_top_holders}

-- The rows that the two queries are about.
abbrev pub holders_of : Text → Db → List Balance
holders_of token d = filter (is_holder token) d.balances

module _ (token : Text) (limit offset : ℕ) (s : Store) where
  -- The answer, if there is one, is a page of the sorted rows and their number.
  abbrev pub Ranks : Result (List Balance × ℕ) → Type 0
  Ranks (ok (rows, total)) =
      (rows ≡ page limit offset (sort holds_more (holders_of token (current s))))
      × (total ≡ length (holders_of token (current s)))
  Ranks (err e) = Unit {0}
  Ranks blocked = ⊥

  pub get_top_holders-Ranks : Ranks (get_top_holders token limit offset s).0
  unfolding get_top_holders query
  get_top_holders-Ranks = elim (Bool-cases (next_fault s.faults).0) [
    | inl x ↦ rw (x, get_top_holders, Ranks) tt
    | inr x ↦ elim (Bool-cases (next_fault (next_fault s.faults).1).0) [
      | inl y ↦ rw (x, y, get_top_holders, Ranks) tt
      | inr y ↦ rw (x, y, get_top_holders, Ranks) (refl, refl)
    ]
  ]
