-- ===== src/Reconcile/Run/Accounts.antt =====
-- Every address is accounted for at every moment of Run.
use mathlib.Core.Path.{subst}
use koinos_token_tracker.Base.{
  ℕ, ◌+◌, ◌≤◌, ◌≡◌, ◌≢◌, sym, ◌⊎◌, inl, inr, none, List, [], ◌∷◌, ◌++◌, All, Any, length, drop, map,
  ltb,
}
use koinos_token_tracker.Base.Members.{
  Any-append_left, Any-append_right, Any-middle, Any-cut, Any-map, drop-drop,
}
use koinos_token_tracker.Base.Sort.{page, sort}
use koinos_token_tracker.Base.Text.{Text}
use koinos_token_tracker.Store.Types.{Address, Db, Store}
use koinos_token_tracker.Store.Action.{ok, err, blocked}
use koinos_token_tracker.Startup.Replay.Checked.{IsFree}
use koinos_token_tracker.Reconcile.Fetch.{Reply}
use koinos_token_tracker.Reconcile.Run.{
  BalanceUpdate, Feeder, feeding, closed, gave_up, Writer, receiving, ended, Going, fetched,
  update_of,
}
use koinos_token_tracker.Reconcile.Run.Flushed.{IsRight, IsWritten, Stems}

-- ORDER BY first_seen_height DESC
abbrev pub by_age : List Address → List Address
by_age rows = sort (λ a b. ltb b.first_seen_height a.first_seen_height) rows

abbrev pub In : Text → List Text → Type 0
In a xs = Any (λ x. x ≡ a) xs

abbrev pub UpdateIn : Text → List BalanceUpdate → Type 0
UpdateIn a us = Any (λ u. u.address ≡ a) us

abbrev pub IsFailed : Writer → Type 0
IsFailed receiving = ⊥
IsFailed (ended (ok _)) = ⊥
IsFailed (ended (err e)) = Unit {0}
IsFailed (ended blocked) = ⊥

-- The feeder has nothing left once it has closed the channel.
abbrev pub IsFed : Feeder → List Text → ℕ → ℕ → Type 0
IsFed feeding pending total offset = Unit {0}
IsFed closed pending total offset = (pending ≡ []) × (total ≤ offset)
IsFed (gave_up e) pending total offset = Unit {0}

module _ (replies : Text → ℕ → Reply) (vhp_contract : Text) (d₀ : Db) where
  -- Where an address is: in a page that is not read, on its way to a worker, with a worker, given
  -- up, in an update, in the tables; or the writer has failed.
  pub data Accounted (a : Text) (g : Going) : Type 0 where
    to_come : Any (λ r. r.address ≡ a) (drop g.offset (by_age d₀.addresses)) → Accounted a g
    on_page : In a g.pending → Accounted a g
    queued : In a g.work → Accounted a g
    held : In a g.in_hand → Accounted a g
    missed : fetched replies vhp_contract a ≡ none → Accounted a g
    sent : UpdateIn a g.channel → Accounted a g
    buffered : UpdateIn a g.buf → Accounted a g
    settled : IsWritten replies vhp_contract a g.store.db → Accounted a g
    lost : IsFailed g.writer → Accounted a g

  -- The invariant of Run.
  pub record IsSound (g : Going) : Type 0 where
    pub free : IsFree g.store
    pub table : g.store.db.addresses ≡ d₀.addresses
    pub counted : g.total ≡ length (by_age d₀.addresses)
    pub channel_right : All (IsRight replies vhp_contract) g.channel
    pub buf_right : All (IsRight replies vhp_contract) g.buf
    pub stems : (a t : Text) → Stems replies vhp_contract d₀ g.store.db a t
    pub accounted : (a : Text) → Any (λ r. r.address ≡ a) (by_age d₀.addresses) → Accounted a g
    pub fed : IsFed g.feeder g.pending g.total g.offset
    pub emptied :
        g.writer ≡ ended (ok tt)
        → (g.feeder ≡ closed) × (g.work ≡ []) × (g.in_hand ≡ []) × (g.channel ≡ []) × (g.buf ≡ [])
    pub returns : g.writer ≢ ended blocked

  pub closes-Accounted :
      (a : Text) (g : Going) → Accounted a g → Accounted a (record g { feeder = closed })
  closes-Accounted a g (to_come h) = to_come h
  closes-Accounted a g (on_page h) = on_page h
  closes-Accounted a g (queued h) = queued h
  closes-Accounted a g (held h) = held h
  closes-Accounted a g (missed h) = missed h
  closes-Accounted a g (sent h) = sent h
  closes-Accounted a g (buffered h) = buffered h
  closes-Accounted a g (settled h) = settled h
  closes-Accounted a g (lost h) = lost h

  pub sends-Accounted :
      (a : Text) (g : Going) (x : Text) (rest : List Text)
      → g.pending ≡ x ∷ rest
      → Accounted a g
      → Accounted a (record g { pending = rest; work = g.work ++ x ∷ [] })
  sends-Accounted a g x rest e (to_come h) = to_come h
  sends-Accounted a g x rest e (on_page h) = elim (subst (In a) e h) [
    | inl here ↦ queued (Any-append_right (λ y. y ≡ a) g.work (x ∷ []) (inl here))
    | inr there ↦ on_page there
  ]
  sends-Accounted a g x rest e (queued h) = queued (Any-append_left (λ y. y ≡ a) g.work (x ∷ []) h)
  sends-Accounted a g x rest e (held h) = held h
  sends-Accounted a g x rest e (missed h) = missed h
  sends-Accounted a g x rest e (sent h) = sent h
  sends-Accounted a g x rest e (buffered h) = buffered h
  sends-Accounted a g x rest e (settled h) = settled h
  sends-Accounted a g x rest e (lost h) = lost h

  pub takes-Accounted :
      (a : Text) (g : Going) (x : Text) (rest : List Text)
      → g.work ≡ x ∷ rest
      → Accounted a g
      → Accounted a (record g { work = rest; in_hand = x ∷ g.in_hand })
  takes-Accounted a g x rest e (to_come h) = to_come h
  takes-Accounted a g x rest e (on_page h) = on_page h
  takes-Accounted a g x rest e (queued h) = elim (subst (In a) e h) [
    | inl here ↦ held (inl here)
    | inr there ↦ queued there
  ]
  takes-Accounted a g x rest e (held h) = held (inr h)
  takes-Accounted a g x rest e (missed h) = missed h
  takes-Accounted a g x rest e (sent h) = sent h
  takes-Accounted a g x rest e (buffered h) = buffered h
  takes-Accounted a g x rest e (settled h) = settled h
  takes-Accounted a g x rest e (lost h) = lost h

  pub answers-Accounted :
      (a : Text) (g : Going) (xs : List Text) (x : Text) (ys : List Text) (balance : Text)
      → g.in_hand ≡ xs ++ x ∷ ys
      → Accounted a g
      → Accounted a (record g {
        in_hand = xs ++ ys;
        channel = g.channel ++ update_of replies vhp_contract x balance ∷ [];
        checked = g.checked + 1;
      })
  answers-Accounted a g xs x ys balance e (to_come h) = to_come h
  answers-Accounted a g xs x ys balance e (on_page h) = on_page h
  answers-Accounted a g xs x ys balance e (queued h) = queued h
  answers-Accounted a g xs x ys balance e (held h) =
      elim (Any-middle (λ y. y ≡ a) xs x ys (subst (In a) e h)) [
        | inl here ↦ sent (
            Any-append_right (λ u. u.address ≡ a) g.channel
              (update_of replies vhp_contract x balance ∷ []) (inl here))
        | inr there ↦ held there
      ]
  answers-Accounted a g xs x ys balance e (missed h) = missed h
  answers-Accounted a g xs x ys balance e (sent h) = sent (
      Any-append_left (λ u. u.address ≡ a) g.channel (update_of replies vhp_contract x balance ∷ [])
        h)
  answers-Accounted a g xs x ys balance e (buffered h) = buffered h
  answers-Accounted a g xs x ys balance e (settled h) = settled h
  answers-Accounted a g xs x ys balance e (lost h) = lost h

  pub misses-Accounted :
      (a : Text) (g : Going) (xs : List Text) (x : Text) (ys : List Text)
      → g.in_hand ≡ xs ++ x ∷ ys
      → fetched replies vhp_contract x ≡ none
      → Accounted a g
      → Accounted a (record g {
        in_hand = xs ++ ys;
        fetch_errors = g.fetch_errors + 1;
        checked = g.checked + 1;
      })
  misses-Accounted a g xs x ys e f (to_come h) = to_come h
  misses-Accounted a g xs x ys e f (on_page h) = on_page h
  misses-Accounted a g xs x ys e f (queued h) = queued h
  misses-Accounted a g xs x ys e f (held h) =
      elim (Any-middle (λ y. y ≡ a) xs x ys (subst (In a) e h)) [
        | inl here ↦ missed (subst (λ y. fetched replies vhp_contract y ≡ none) here f)
        | inr there ↦ held there
      ]
  misses-Accounted a g xs x ys e f (missed h) = missed h
  misses-Accounted a g xs x ys e f (sent h) = sent h
  misses-Accounted a g xs x ys e f (buffered h) = buffered h
  misses-Accounted a g xs x ys e f (settled h) = settled h
  misses-Accounted a g xs x ys e f (lost h) = lost h

  pub moves-Accounted :
      (a : Text) (g : Going) (u : BalanceUpdate) (rest : List BalanceUpdate)
      → g.channel ≡ u ∷ rest
      → Accounted a g
      → Accounted a (record g { channel = rest; buf = g.buf ++ u ∷ [] })
  moves-Accounted a g u rest e (to_come h) = to_come h
  moves-Accounted a g u rest e (on_page h) = on_page h
  moves-Accounted a g u rest e (queued h) = queued h
  moves-Accounted a g u rest e (held h) = held h
  moves-Accounted a g u rest e (missed h) = missed h
  moves-Accounted a g u rest e (sent h) = elim (subst (UpdateIn a) e h) [
    | inl here ↦ buffered (Any-append_right (λ u. u.address ≡ a) g.buf (u ∷ []) (inl here))
    | inr there ↦ sent there
  ]
  moves-Accounted a g u rest e (buffered h) =
      buffered (Any-append_left (λ u. u.address ≡ a) g.buf (u ∷ []) h)
  moves-Accounted a g u rest e (settled h) = settled h
  moves-Accounted a g u rest e (lost h) = lost h

  pub read-Accounted :
      (a : Text) (g : Going) (n : ℕ) (s : Store)
      → g.pending ≡ []
      → s.db ≡ g.store.db
      → Accounted a g
      → Accounted a (record g {
        offset = g.offset + n;
        pending = map (λ r. r.address) (page n g.offset (by_age d₀.addresses));
        store = s;
      })
  read-Accounted a g n s e same (to_come h) =
      elim (Any-cut (λ r. r.address ≡ a) n (drop g.offset (by_age d₀.addresses)) h) [
        | inl now ↦
            on_page
              (Any-map (λ x. x ≡ a) (λ r. r.address) (page n g.offset (by_age d₀.addresses)) now)
        | inr later ↦
            to_come
              (subst (Any (λ r. r.address ≡ a)) (drop-drop g.offset n (by_age d₀.addresses)) later)
      ]
  read-Accounted a g n s e same (on_page h) = absurd (subst (In a) e h)
  read-Accounted a g n s e same (queued h) = queued h
  read-Accounted a g n s e same (held h) = held h
  read-Accounted a g n s e same (missed h) = missed h
  read-Accounted a g n s e same (sent h) = sent h
  read-Accounted a g n s e same (buffered h) = buffered h
  read-Accounted a g n s e same (settled h) =
      settled (subst (IsWritten replies vhp_contract a) (sym same) h)
  read-Accounted a g n s e same (lost h) = lost h

  pub store-Accounted :
      (a : Text) (g : Going) (s : Store) (f : Feeder)
      → s.db ≡ g.store.db
      → Accounted a g
      → Accounted a (record g { feeder = f; store = s })
  store-Accounted a g s f same (to_come h) = to_come h
  store-Accounted a g s f same (on_page h) = on_page h
  store-Accounted a g s f same (queued h) = queued h
  store-Accounted a g s f same (held h) = held h
  store-Accounted a g s f same (missed h) = missed h
  store-Accounted a g s f same (sent h) = sent h
  store-Accounted a g s f same (buffered h) = buffered h
  store-Accounted a g s f same (settled h) =
      settled (subst (IsWritten replies vhp_contract a) (sym same) h)
  store-Accounted a g s f same (lost h) = lost h

  pub flushed-Accounted :
      (a : Text) (g : Going) (s : Store) (n : ℕ)
      → (UpdateIn a g.buf ⊎ IsWritten replies vhp_contract a g.store.db
          → IsWritten replies vhp_contract a s.db)
      → Accounted a g
      → Accounted a (record g { buf = []; written = n; store = s })
  flushed-Accounted a g s n put (to_come h) = to_come h
  flushed-Accounted a g s n put (on_page h) = on_page h
  flushed-Accounted a g s n put (queued h) = queued h
  flushed-Accounted a g s n put (held h) = held h
  flushed-Accounted a g s n put (missed h) = missed h
  flushed-Accounted a g s n put (sent h) = sent h
  flushed-Accounted a g s n put (buffered h) = settled (put (inl h))
  flushed-Accounted a g s n put (settled h) = settled (put (inr h))
  flushed-Accounted a g s n put (lost h) = lost h

  pub ended-Accounted :
      (a : Text) (g : Going)
      → g.writer ≡ receiving
      → Accounted a g
      → Accounted a (record g { writer = ended (ok tt) })
  ended-Accounted a g e (to_come h) = to_come h
  ended-Accounted a g e (on_page h) = on_page h
  ended-Accounted a g e (queued h) = queued h
  ended-Accounted a g e (held h) = held h
  ended-Accounted a g e (missed h) = missed h
  ended-Accounted a g e (sent h) = sent h
  ended-Accounted a g e (buffered h) = buffered h
  ended-Accounted a g e (settled h) = settled h
  ended-Accounted a g e (lost h) = absurd (subst IsFailed e h)
