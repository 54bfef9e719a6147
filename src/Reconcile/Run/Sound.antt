-- ===== src/Reconcile/Run/Sound.antt =====
-- The steps of Run that read a page, close or move an update keep its invariant.
use mathlib.Core.Path.{subst}
use koinos_token_tracker.Base.{
  ℕ, ◌+◌, ◌≤◌, ◌≡◌, ◌≢◌, refl, sym, ap, ◌∙◌, inl, inr, List, [], ◌∷◌, ◌++◌, All, All-append, length,
  map, leb, Bool-cases,
}
use koinos_token_tracker.Base.Sort.{page}
use koinos_token_tracker.Base.Text.{Text}
use koinos_token_tracker.Store.Types.{Address, Db, Store}
use koinos_token_tracker.Store.Action.{Error, Result, ok, err, blocked, query, next_fault}
use koinos_token_tracker.Store.Batch.Lock.{Settles}
use koinos_token_tracker.Store.Reads.{get_addresses}
use koinos_token_tracker.Startup.Replay.Checked.{IsFree}
use koinos_token_tracker.Reconcile.Fetch.{Reply}
use koinos_token_tracker.Reconcile.Run.{
  BalanceUpdate, feeding, closed, gave_up, receiving, ended, Going, page_size, write_batch,
  after_flush, flushed, received, after_page, read_page,
}
use koinos_token_tracker.Reconcile.Run.Flushed.{
  IsRight, IsWritten, Stems, with_updates, flush-Settles, with_updates-addresses,
  with_updates-IsWritten, with_updates-Stems,
}
use koinos_token_tracker.Reconcile.Run.Accounts.{
  by_age, IsFailed, IsFed, Accounted, IsSound, lost, closes-Accounted, moves-Accounted,
  read-Accounted, store-Accounted, flushed-Accounted,
}

-- What a page of addresses reads, or an error with the tables as they were.
abbrev pub Reads : Store → ℕ → ℕ → Result (List Address × ℕ) × Store → Type 0
Reads s limit offset (ok (rows, total), s') =
    (rows ≡ page limit offset (by_age s.db.addresses))
    × (total ≡ length s.db.addresses)
    × IsFree s'
    × (s'.db ≡ s.db)
Reads s limit offset (err e, s') = IsFree s' × (s'.db ≡ s.db)
Reads s limit offset (blocked, s') = ⊥

pub get_addresses-Reads :
    (limit offset : ℕ) (s : Store) → IsFree s → Reads s limit offset (get_addresses limit offset s)
unfolding get_addresses query
get_addresses-Reads limit offset s free = elim (Bool-cases (next_fault s.faults).0) [
  | inl x ↦ rw (x, get_addresses) (free, refl)
  | inr x ↦ elim (Bool-cases (next_fault (next_fault s.faults).1).0) [
    | inl y ↦ rw (x, y, get_addresses) (free, refl)
    | inr y ↦ rw (x, y, get_addresses, free.1) (refl, refl, (free.0, refl), refl)
  ]
]

pub feeding-closed : feeding ≢ closed
feeding-closed z = cc

pub gave_up-closed : {e : Error} → gave_up e ≢ closed
gave_up-closed z = cc

pub receiving-ended : {r : Result (Unit {0})} → receiving ≢ ended r
receiving-ended z = cc

pub failed-done : {e : Error} → ended (err e) ≢ ended (ok tt)
failed-done z = cc

pub cons-nil : {A : Type 0} {x : A} {xs : List A} → x ∷ xs ≢ []
cons-nil z = cc

module _ (replies : Text → ℕ → Reply) (vhp_contract : Text) (d₀ : Db) where
  abbrev pub Sound : Going → Type 0
  Sound g = IsSound replies vhp_contract d₀ g

  after_page-IsSound :
      (g : Going) (x : Result (List Address × ℕ) × Store)
      → g.feeder ≡ feeding
      → g.pending ≡ []
      → Reads g.store page_size g.offset x
      → Sound g
      → Sound (after_page g x)
  after_page-IsSound g (ok (rows, total), s) f e r h =
      let rows_eq : rows ≡ page page_size g.offset (by_age d₀.addresses) =
        r.0 ∙ ap (λ x. page page_size g.offset (by_age x)) h.table in
      record {
        free = r.2;
        table = ap (λ d. d.addresses) r.3 ∙ h.table;
        counted = h.counted;
        channel_right = h.channel_right;
        buf_right = h.buf_right;
        stems = λ a t. subst (λ d. Stems replies vhp_contract d₀ d a t) (sym r.3) (h.stems a t);
        accounted = λ a i.
            subst (λ rows. Accounted replies vhp_contract d₀ a (after_page g (ok (rows, total), s)))
              (sym rows_eq)
              (read-Accounted replies vhp_contract d₀ a g page_size s e r.3 (h.accounted a i));
        fed =
            subst (λ x. IsFed x (map (λ a. a.address) rows) g.total (g.offset + page_size)) (sym f)
              tt;
        emptied = λ w. absurd (feeding-closed (sym f ∙ (h.emptied w).0));
        returns = h.returns;
      }
  after_page-IsSound g (err x, s) f e r h = record {
    free = r.0;
    table = ap (λ d. d.addresses) r.1 ∙ h.table;
    counted = h.counted;
    channel_right = h.channel_right;
    buf_right = h.buf_right;
    stems = λ a t. subst (λ d. Stems replies vhp_contract d₀ d a t) (sym r.1) (h.stems a t);
    accounted =
        λ a i. store-Accounted replies vhp_contract d₀ a g s (gave_up x) r.1 (h.accounted a i);
    fed = tt;
    emptied = λ w. absurd (feeding-closed (sym f ∙ (h.emptied w).0));
    returns = h.returns;
  }
  after_page-IsSound g (blocked, s) f e r h = absurd r

  pub after_flush-IsSound :
      (g : Going) (x : Result (Unit {0}) × Store)
      → g.writer ≡ receiving
      → Settles g.store (with_updates g.last_height g.buf g.store.now g.store.db) x
      → Sound g
      → Sound (after_flush g x)
  after_flush-IsSound g (ok _, s) w settles h = record {
    free = (settles.2, settles.1);
    table =
        ap (λ d. d.addresses) settles.0
        ∙ (with_updates-addresses g.last_height g.buf g.store.now g.store.db ∙ h.table);
    counted = h.counted;
    channel_right = h.channel_right;
    buf_right = tt;
    stems = λ a t.
        subst (λ d. Stems replies vhp_contract d₀ d a t) (sym settles.0)
          (with_updates-Stems replies vhp_contract g.last_height g.buf g.store.now d₀ g.store.db a t
            h.buf_right (h.stems a t));
    accounted = λ a i.
        flushed-Accounted replies vhp_contract d₀ a g s (g.written + length g.buf)
          (λ there. subst (IsWritten replies vhp_contract a) (sym settles.0) (
            with_updates-IsWritten replies vhp_contract g.last_height g.buf g.store.now a g.store.db
              h.buf_right there))
          (h.accounted a i);
    fed = h.fed;
    emptied = λ z. absurd (receiving-ended (sym w ∙ z));
    returns = h.returns;
  }
  after_flush-IsSound g (err e, s) w settles h = record {
    free = (settles.2, settles.1);
    table = ap (λ d. d.addresses) settles.0 ∙ h.table;
    counted = h.counted;
    channel_right = h.channel_right;
    buf_right = h.buf_right;
    stems = λ a t. subst (λ d. Stems replies vhp_contract d₀ d a t) (sym settles.0) (h.stems a t);
    accounted = λ a i. lost tt;
    fed = h.fed;
    emptied = λ z. absurd (failed-done z);
    returns = λ z. cc;
  }
  after_flush-IsSound g (blocked, s) w settles h = absurd settles

  flushed-IsSound : (g : Going) → g.writer ≡ receiving → Sound g → Sound (flushed g)
  unfolding flushed
  flushed-IsSound g w h =
      after_flush-IsSound g _ w (flush-Settles g.last_height g.buf g.store h.free) h

  pub read_page-IsSound :
      (g : Going) → g.feeder ≡ feeding → g.pending ≡ [] → Sound g → Sound (read_page g)
  unfolding read_page
  read_page-IsSound g f e h =
      after_page-IsSound g _ f e (get_addresses-Reads page_size g.offset g.store h.free) h

  pub closes-IsSound :
      (g : Going)
      → g.feeder ≡ feeding
      → g.pending ≡ []
      → g.total ≤ g.offset
      → Sound g
      → Sound (record g { feeder = closed })
  closes-IsSound g f e le h = record {
    free = h.free;
    table = h.table;
    counted = h.counted;
    channel_right = h.channel_right;
    buf_right = h.buf_right;
    stems = h.stems;
    accounted = λ a i. closes-Accounted replies vhp_contract d₀ a g (h.accounted a i);
    fed = (e, le);
    emptied = λ w. absurd (feeding-closed (sym f ∙ (h.emptied w).0));
    returns = h.returns;
  }

  moves-IsSound :
      (g : Going) (u : BalanceUpdate) (rest : List BalanceUpdate)
      → g.channel ≡ u ∷ rest
      → g.writer ≡ receiving
      → Sound g
      → Sound (record g { channel = rest; buf = g.buf ++ u ∷ [] })
  moves-IsSound g u rest e w h =
      let right = subst (All (IsRight replies vhp_contract)) e h.channel_right in
      record {
        free = h.free;
        table = h.table;
        counted = h.counted;
        channel_right = right.1;
        buf_right =
            All-append (IsRight replies vhp_contract) g.buf (u ∷ []) h.buf_right (right.0, tt);
        stems = h.stems;
        accounted = λ a i. moves-Accounted replies vhp_contract d₀ a g u rest e (h.accounted a i);
        fed = h.fed;
        emptied = λ z. absurd (receiving-ended (sym w ∙ z));
        returns = h.returns;
      }

  pub received-IsSound :
      (g : Going) (u : BalanceUpdate) (rest : List BalanceUpdate)
      → g.writer ≡ receiving
      → g.channel ≡ u ∷ rest
      → Sound g
      → Sound (received u (record g { channel = rest }))
  unfolding received
  received-IsSound g u rest w e h =
      let g' = record g { channel = rest; buf = g.buf ++ u ∷ [] } in
      let moved = moves-IsSound g u rest e w h in
      elim (Bool-cases (leb write_batch (length (g.buf ++ u ∷ [])))) [
        | inl full ↦ rw (full, received) (flushed-IsSound g' w moved)
        | inr room ↦ rw (room, received) moved
      ]

  pub drains-IsSound :
      (g : Going) (x : Error) (u : BalanceUpdate) (rest : List BalanceUpdate)
      → g.writer ≡ ended (err x)
      → g.channel ≡ u ∷ rest
      → Sound g
      → Sound (record g { channel = rest })
  drains-IsSound g x u rest w e h = record {
    free = h.free;
    table = h.table;
    counted = h.counted;
    channel_right = (subst (All (IsRight replies vhp_contract)) e h.channel_right).1;
    buf_right = h.buf_right;
    stems = h.stems;
    accounted = λ a i. lost (subst IsFailed (sym w) tt);
    fed = h.fed;
    emptied = λ z. absurd (failed-done (sym w ∙ z));
    returns = h.returns;
  }
