-- ===== src/Api/Gets.antt =====
-- The queries of the store leave the tables, the transaction and the mutex as they were.
use Prim.Native.String.{String}
use koinos_token_tracker.Base.{
  ℕ, refl, inl, inr, Bool, true, false, Option, none, some, List, [], ◌∷◌, filter, length, ltb,
  Bool-cases, if◌then◌else◌, ◌==◌,
}
use koinos_token_tracker.Base.Table.{find}
use koinos_token_tracker.Base.Sort.{sort}
use koinos_token_tracker.Decimal.Order.{text_ltb}
use koinos_token_tracker.Base.Text.{Text, text_eq}
use koinos_token_tracker.Store.Types.{Block, Db, Store}
use koinos_token_tracker.Store.Action.{
  Result, ok, err, blocked, Action, context, continue, query, next_fault, pure, ◌>>=◌,
}
use koinos_token_tracker.Store.Reads.{
  get_address, get_balances, get_all_tokens, list_backfills, get_stats, is_holder,
}
use koinos_token_tracker.Store.Producers.{
  Entry, highest, since_of, is_signed, group_by_signer, put_signers, put_holders, time_of,
  block_time, producer_of, producers_of, get_producers,
}
use koinos_token_tracker.Api.ReadOnly.{GetsAt, Unchanged, Unchanged-trans}
use koinos_token_tracker.Api.Fetched.{Anything}

-- The action returns or fails, and changes nothing.
pub record Reads {A : Type 0} (m : Action A) : Type 0 where
  pub at : (s : Store) → GetsAt Anything s (m s)

module _ {A : Type 0} where
  pub Reads-query : (q : Db → A) → Reads (query q)
  unfolding query
  Reads-query q = record {
    at = λ s. elim (Bool-cases (next_fault s.faults).0) [
      | inl x ↦ rw (x, query, GetsAt) (refl, refl, refl)
      | inr x ↦ rw (x, query, GetsAt) ((refl, refl, refl), tt)
    ];
  }

  pub Reads-context : (what : String) (m : Action A) → Reads m → Reads (context what m)
  Reads-context what m h = record { at = λ s. of_result s (m s) (h.at s) }
    where
      of_result :
          (s : Store) (x : Result A × Store)
          → GetsAt Anything s x
          → GetsAt Anything s (context what (λ _. x) s)
      of_result s (ok a, s') k = k
      of_result s (err e, s') k = k
      of_result s (blocked, s') k = k

  pub Reads-pure : (a : A) → Reads (pure a)
  Reads-pure a = record { at = λ s. ((refl, refl, refl), tt) }

pub Reads-bind :
    {A B : Type 0} (m : Action A) (f : A → Action B)
    → Reads m
    → ((a : A) → Reads (f a))
    → Reads (m >>= f)
Reads-bind {A} {B} m f h k = record { at = λ s. of_result s (m s) (h.at s) }
  where
    moved :
        (s s' : Store) (x : Result B × Store)
        → Unchanged s s'
        → GetsAt Anything s' x
        → GetsAt Anything s x
    moved s s' (ok b, s'') u g = (Unchanged-trans s s' s'' u g.0, tt)
    moved s s' (err e, s'') u g = Unchanged-trans s s' s'' u g
    moved s s' (blocked, s'') u g = g

    of_result :
        (s : Store) (x : Result A × Store)
        → GetsAt Anything s x
        → GetsAt Anything s (continue x.0 f x.1)
    of_result s (ok a, s') g = moved s s' (f a s') g.0 ((k a).at s')
    of_result s (err e, s') g = g
    of_result s (blocked, s') g = g

asks : {A : Type 0} (what : String) (q : Db → A) → Reads (context what (query q))
asks what q = Reads-context what (query q) (Reads-query q)

pub get_address-Reads : (a : Text) → Reads (get_address a)
unfolding get_address
get_address-Reads a = asks "get address" (λ d. find (λ r. text_eq r.address a) d.addresses)

pub get_balances-Reads : (a : Text) → Reads (get_balances a)
unfolding get_balances
get_balances-Reads a = asks "get balances" (λ d. filter (λ r. text_eq r.address a) d.balances)

pub get_all_tokens-Reads : Reads get_all_tokens
unfolding get_all_tokens
get_all_tokens-Reads = asks "get all tokens" (λ d. d.tokens)

pub list_backfills-Reads : Reads list_backfills
unfolding list_backfills
list_backfills-Reads =
    asks "list backfills" (λ d. sort (λ a b. text_ltb a.token b.token) d.backfills)

-- A query and what follows it.
asks_then :
    {A B : Type 0} (what : String) (q : Db → A) (f : A → Action B)
    → ((a : A) → Reads (f a))
    → Reads (context what (query q) >>= f)
asks_then what q f h = Reads-bind (context what (query q)) f (asks what q) h

abbrev counts : (token : Text) → Db → ℕ
counts token d = length (filter (is_holder token) d.balances)

pub get_stats-Reads : Reads get_stats
unfolding get_stats
get_stats-Reads = record {
  at = λ s.
      (asks_then "count addresses" (λ d. length d.addresses) _
          λ total. asks_then "count koin holders" (counts s.koin_contract) _ λ koin.
            asks_then "count vhp holders" (counts s.vhp_contract) _ λ vhp.
              asks_then "get sync state for stats" (λ d. d.sync_state) _ λ state. Reads-pure _).at
        s;
}

time_of-Reads : (o : Option Block) → Reads (time_of o)
time_of-Reads none = record { at = λ s. (refl, refl, refl) }
time_of-Reads (some b) = record { at = λ s. ((refl, refl, refl), tt) }

block_time-Reads : (h : ℕ) → Reads (block_time h)
block_time-Reads h =
    let rows : Db → Option Block = λ d. find (λ r. r.height == h) d.blocks in
    Reads-context "get last block time" (query rows >>= time_of)
      (Reads-bind (query rows) time_of (Reads-query rows) time_of-Reads)

Reads-if : {A : Type 0} (b : Bool) (m n : Action A) → Reads m → Reads n → Reads (if b then m else n)
Reads-if true m n h k = h
Reads-if false m n h k = k

producer_of-Reads : (e : Entry) → Reads (producer_of e)
unfolding producer_of
producer_of-Reads e =
    asks_then "get last block" (λ d. highest (filter (is_signed e.address) d.blocks)) _
      λ last.
        Reads-bind (if ltb 0 last then block_time last else pure 0) _
          (Reads-if (ltb 0 last) (block_time last) (pure 0) (block_time-Reads last) (Reads-pure 0))
          λ time. Reads-pure _

producers_of-Reads : (m : List Entry) → Reads (producers_of m)
unfolding producers_of
producers_of-Reads [] = Reads-pure []
producers_of-Reads (e ∷ m) =
    Reads-bind (producer_of e) _ (producer_of-Reads e)
      λ p. Reads-bind (producers_of m) _ (producers_of-Reads m) λ ps. Reads-pure _

pub get_producers-Reads : (window : ℕ) → Reads (get_producers window)
unfolding get_producers
get_producers-Reads window = record {
  at = λ s.
      (asks_then "get head height" (λ d. highest d.blocks) _
          λ head.
            asks_then "get producers blocks" (group_by_signer (since_of window head)) _ λ groups.
              asks_then "count vhp holders" (λ d. filter (is_holder s.vhp_contract) d.balances) _
                λ holders.
                  Reads-bind (producers_of (put_holders holders (put_signers groups []))) _
                    (producers_of-Reads _) λ rows. Reads-pure _).at
        s;
}
