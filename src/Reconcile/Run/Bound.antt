-- ===== src/Reconcile/Run/Bound.antt =====
-- Run takes boundedly many steps.
use koinos_token_tracker.Base.{
  ℕ, zero, suc, ◌+◌, ◌*◌, ◌-◌, ◌≤◌, ◌<◌, ◌≡◌, refl, ap, ◌∙◌, inl, inr, List, [], ◌∷◌, ◌++◌, length,
  length-append, length-drop, take, drop, map, leb, arith, Bool-cases,
}
use koinos_token_tracker.Base.Sort.{page}
use koinos_token_tracker.Base.Text.{Text}
use koinos_token_tracker.Store.Types.{Address, Db, Store}
use koinos_token_tracker.Store.Action.{Result, ok, err, blocked}
use koinos_token_tracker.Store.Reads.{get_addresses}
use koinos_token_tracker.Startup.Replay.Checked.{IsFree}
use koinos_token_tracker.Reconcile.Fetch.{Reply}
use koinos_token_tracker.Reconcile.Run.{
  BalanceUpdate, flush, Feeder, feeding, closed, gave_up, Writer, receiving, ended, Going,
  update_of, page_size, write_batch, after_flush, flushed, received, sent_done, finished,
  after_page, read_page, after_count, started, Step, reads, closes, sends, takes, answers, misses,
  receives, drains, finishes, Reach, here, next,
}
use koinos_token_tracker.Reconcile.Run.Accounts.{by_age}
use koinos_token_tracker.Reconcile.Run.Sound.{Reads, get_addresses-Reads, Sound}
use koinos_token_tracker.Reconcile.Run.Reconciled.{Reach-IsSound}
use koinos_token_tracker.Reconcile.Run.Returned.{run-IsSound}

abbrev feeder_left : Feeder → ℕ
feeder_left feeding = 1
feeder_left closed = 0
feeder_left (gave_up e) = 0

abbrev writer_left : Writer → ℕ
writer_left receiving = 1
writer_left (ended r) = 0

-- The steps that the lists still hold.
abbrev held_left : Going → ℕ
held_left g = 5 * length g.pending + 4 * length g.work + 3 * length g.in_hand + length g.channel

-- A bound on the steps that are left.
abbrev left : Going → ℕ
left g = 6 * (g.total - g.offset) + held_left g + feeder_left g.feeder + writer_left g.writer

length-map : {A B : Type 0} (f : A → B) (xs : List A) → length (map f xs) ≡ length xs
length-map f [] = refl
length-map f (x ∷ xs) = ap suc (length-map f xs)

length-take_le : {A : Type 0} (n : ℕ) (xs : List A) → length (take n xs) ≤ n
length-take_le zero xs = omega arith
length-take_le (suc n) [] = omega arith
length-take_le (suc n) (x ∷ xs) = omega (arith, length-take_le n xs)

length-take_all : {A : Type 0} (n : ℕ) (xs : List A) → length (take n xs) ≤ length xs
length-take_all zero xs = omega arith
length-take_all (suc n) [] = omega arith
length-take_all (suc n) (x ∷ xs) = omega (arith, length-take_all n xs)

page_le :
    (n offset : ℕ) (rows : List Address)
    → (length (page n offset rows) ≤ n) × (length (page n offset rows) ≤ length rows - offset)
page_le n offset rows = (
  length-take_le n (drop offset rows),
  omega (arith, length-take_all n (drop offset rows), length-drop {0} offset rows),
)

module _ (replies : Text → ℕ → Reply) (vhp_contract : Text) (d₀ : Db) where
  after_page-left :
      (g : Going) (x : Result (List Address × ℕ) × Store)
      → g.feeder ≡ feeding
      → g.pending ≡ []
      → g.offset < g.total
      → Reads g.store page_size g.offset x
      → Sound replies vhp_contract d₀ g
      → left (after_page g x) < left g
  after_page-left g (ok (rows, total), s) f e lt r h =
      let size : length (map (λ a. a.address) rows)
          ≡ length (page page_size g.offset (by_age d₀.addresses)) =
        length-map (λ a. a.address) rows
        ∙ ap length (r.0 ∙ ap (λ x. page page_size g.offset (by_age x)) h.table) in
      let bound = page_le page_size g.offset (by_age d₀.addresses) in
      omega (arith, size, bound.0, bound.1, h.counted, lt, ap length e)
  after_page-left g (err x, s) f e lt r h = omega (arith, ap feeder_left f)
  after_page-left g (blocked, s) f e lt r h = absurd r

  after_flush-left : (g : Going) (x : Result (Unit {0}) × Store) → left (after_flush g x) ≤ left g
  after_flush-left g (ok _, s) = omega arith
  after_flush-left g (err e, s) = omega arith
  after_flush-left g (blocked, s) = omega arith

  flushed-left : (g : Going) → left (flushed g) ≤ left g
  unfolding flushed
  flushed-left g = after_flush-left g (flush g.last_height g.buf g.store)

  received-left :
      (g : Going) (u : BalanceUpdate) (rest : List BalanceUpdate)
      → g.channel ≡ u ∷ rest
      → left (received u (record g { channel = rest })) < left g
  unfolding received
  received-left g u rest e =
      let g' = record g { channel = rest; buf = g.buf ++ u ∷ [] } in
      let moved : left g' < left g = omega (arith, ap length e) in
      elim (Bool-cases (leb write_batch (length (g.buf ++ u ∷ [])))) [
        | inl full ↦ rw (full, received) (omega (arith, moved, flushed-left g'))
        | inr room ↦ rw (room, received) moved
      ]

  finish-left :
      (g : Going) (x : Result (Unit {0}) × Store)
      → g.writer ≡ receiving
      → left (record (after_flush g x) { writer = sent_done (after_flush g x).writer }) < left g
  finish-left g (ok _, s) w = omega (arith, ap (λ w. writer_left (sent_done w)) w, ap writer_left w)
  finish-left g (err e, s) w = omega (arith, ap writer_left w)
  finish-left g (blocked, s) w = omega (arith, ap writer_left w)

  Step-left :
      {g g' : Going}
      → Step replies vhp_contract g g'
      → Sound replies vhp_contract d₀ g
      → left g' < left g
  unfolding read_page finished flushed
  Step-left {g} (reads f e lt) h =
      after_page-left g _ f e lt (get_addresses-Reads page_size g.offset g.store h.free) h
  Step-left {g} (closes f e le) h = omega (arith, ap feeder_left f)
  Step-left {g} (sends a rest e room) h =
      omega (arith, ap length e, length-append {0} g.work (a ∷ []))
  Step-left {g} (takes a rest e room) h = omega (arith, ap length e)
  Step-left {g} (answers xs a ys b e f room) h = omega (
    arith,
    ap length e,
    length-append {0} xs (a ∷ ys),
    length-append {0} xs ys,
    length-append {0} g.channel (update_of replies vhp_contract a b ∷ []),
  )
  Step-left {g} (misses xs a ys e f) h =
      omega (arith, ap length e, length-append {0} xs (a ∷ ys), length-append {0} xs ys)
  Step-left {g} (receives u rest w e) h = received-left g u rest e
  Step-left {g} (drains x u rest w e) h = omega (arith, ap length e)
  Step-left {g} (finishes f e₁ e₂ e₃ w) h = finish-left g (flush g.last_height g.buf g.store) w

  -- The number of steps of a derivation.
  abbrev pub moves : {g g' : Going} → Reach replies vhp_contract g g' → ℕ
  moves here = 0
  moves (next r st) = suc (moves r)

  Reach-left :
      {g g' : Going} (r : Reach replies vhp_contract g g')
      → Sound replies vhp_contract d₀ g
      → moves r + left g' ≤ left g
  Reach-left here h = omega arith
  Reach-left (next r st) h =
      omega (arith, Reach-left r h, Step-left st (Reach-IsSound replies vhp_contract d₀ r h))

ok_inj : {A : Type 0} {a b : A} → ok a ≡ ok b → a ≡ b
ok_inj z = cc

after_count-left :
    (s : Store) (x : Result (List Address × ℕ) × Store) (g : Going)
    → Reads s 1 0 x
    → after_count x ≡ ok g
    → left g ≤ 6 * length s.db.addresses + 2
after_count-left s (ok (rows, total), s') g r e = omega (arith, r.1, ap left (ok_inj e))
after_count-left s (err z, s') g r e = cc
after_count-left s (blocked, s') g r e = cc

-- Whatever the goroutines' interleaving, the faults of the driver and the answers of the service,
-- Run takes at most six steps for each address in the tables, and two more. Run begins outside a
-- batch.
pub run-ends :
    (replies : Text → ℕ → Reply) (vhp_contract : Text) (s : Store) (g₀ g : Going)
    → IsFree s
    → started s ≡ ok g₀
    → (r : Reach replies vhp_contract g₀ g)
    → moves replies vhp_contract s.db r ≤ 6 * length s.db.addresses + 2
unfolding started
run-ends replies vhp_contract s g₀ g free e r = omega (
  arith,
  Reach-left replies vhp_contract s.db r (run-IsSound replies vhp_contract s g₀ g₀ free e here),
  after_count-left s (get_addresses 1 0 s) g₀ (get_addresses-Reads 1 0 s free) e,
)
