-- ===== src/Reconcile/Run.antt =====
-- Run of internal/reconcile: the feeder of addresses, the workers and the writer as a step relation.
-- A flush is one step: GetAddresses reads the addresses only, which no flush touches.
pub mod Flushed
pub mod Accounts
pub mod Sound
pub mod Workers
pub mod Reconciled
pub mod Returned
pub mod Moves
pub mod Bound
use koinos_token_tracker.Base.{
  ℕ, zero, suc, ◌+◌, ◌*◌, ◌≤◌, ◌<◌, ◌≡◌, Bool, true, false, ◌&&◌, ◌||◌, not, Option, none, some,
  List, [], ◌∷◌, ◌++◌, is_empty, length, map, ltb, leb, ◌==◌, if◌then◌else◌,
}
use koinos_token_tracker.Base.Text.{Text, codes}
use koinos_token_tracker.Reconcile.Fetch.{Reply, fetch_balance_with_retry}
use koinos_token_tracker.Store.Types.{Address, Store}
use koinos_token_tracker.Store.Action.{
  Error, message, wrap, Result, ok, err, blocked, Action, pure, context,
}
use koinos_token_tracker.Store.Does.{for_each}
use koinos_token_tracker.Store.Batch.{in_batch}
use koinos_token_tracker.Store.Writes.{set_balance}
use koinos_token_tracker.Store.Reads.{get_addresses}
use koinos_token_tracker.Sync.Process.{last_height_or_zero}

pub record BalanceUpdate : Type 0 where
  pub address : Text
  pub token : Text
  pub balance : Text

abbrev pub concurrency : ℕ
concurrency = 50

abbrev pub write_batch : ℕ
write_batch = 5000

abbrev pub page_size : ℕ
page_size = 1000

-- The loop over the pages: it goes on, has closed `work`, or has returned an error.
pub data Feeder : Type 0 where
  feeding : Feeder
  closed : Feeder
  gave_up : Error → Feeder

-- The writer receives, or has sent this to writerDone (and drains the channel after an error).
pub data Writer : Type 0 where
  receiving : Writer
  ended : Result (Unit {0}) → Writer

-- The goroutines' shared state. `pending` is what is left of the page, `in_hand` has the workers'
-- addresses, `channel` is updateCh, and `last_height` is what the updates are written with.
pub record Going : Type 0 where
  pub total : ℕ
  pub last_height : ℕ
  pub feeder : Feeder
  pub offset : ℕ
  pub pending : List Text
  pub work : List Text
  pub in_hand : List Text
  pub channel : List BalanceUpdate
  pub buf : List BalanceUpdate
  pub writer : Writer
  pub store : Store
  pub checked : ℕ
  pub fetch_errors : ℕ
  pub written : ℕ

abbrev pub write_update : ℕ → BalanceUpdate → Action (Unit {0})
write_update height u = context "set balance for" (set_balance u.address u.token u.balance height)

-- The closure flush, but for the buffer and the count.
unfoldable pub flush : ℕ → List BalanceUpdate → Action (Unit {0})
unfolding in_batch for_each set_balance
flush height [] = pure tt
flush height (u ∷ us) =
    in_batch (wrap "begin batch") (for_each (write_update height) (u ∷ us)) (wrap "commit batch")

abbrev pub after_flush : Going → Result (Unit {0}) × Store → Going
after_flush g (ok _, s) = record g { buf = []; written = g.written + length g.buf; store = s }
after_flush g (err e, s) = record g { writer = ended (err e); store = s }
after_flush g (blocked, s) = record g { writer = ended blocked; store = s }

unfoldable pub flushed : Going → Going
unfolding flush
flushed g = after_flush g (flush g.last_height g.buf g.store)

-- An update arrives in the writer's buffer.
unfoldable pub received : BalanceUpdate → Going → Going
unfolding flushed
received u g =
    let g' = record g { buf = g.buf ++ u ∷ [] } in
    if leb write_batch (length g'.buf) then flushed g' else g'

-- The writer's end: the final flush, and what it sends.
abbrev pub sent_done : Writer → Writer
sent_done receiving = ended (ok tt)
sent_done (ended r) = ended r

unfoldable pub finished : Going → Going
unfolding flushed
finished g = let g' = flushed g in record g' { writer = sent_done g'.writer }

abbrev pub after_page : Going → Result (List Address × ℕ) × Store → Going
after_page g (ok (rows, total), s) = record g {
  offset = g.offset + page_size;
  pending = map (λ a. a.address) rows;
  store = s;
}
after_page g (err e, s) = record g { feeder = gave_up e; store = s }
after_page g (blocked, s) = record g { store = s }

unfoldable pub read_page : Going → Going
unfolding get_addresses
read_page g = after_page g (get_addresses page_size g.offset g.store)

abbrev pub after_count : Result (List Address × ℕ) × Store → Result Going
after_count (err e, s) = err (wrap "get address count" e)
after_count (blocked, s) = blocked
after_count (ok (rows, total), s) =
    let (height, s') = last_height_or_zero s in
    ok (record {
      total = total;
      last_height = elim height [ ok h ↦ h | err e ↦ 0 | blocked ↦ 0 ];
      feeder = feeding;
      offset = 0;
      pending = [];
      work = [];
      in_hand = [];
      channel = [];
      buf = [];
      writer = receiving;
      store = s';
      checked = 0;
      fetch_errors = 0;
      written = 0;
    })

-- Run up to the start of the goroutines.
unfoldable pub started : Store → Result Going
unfolding get_addresses last_height_or_zero
started s = after_count (get_addresses 1 0 s)

module _ (replies : Text → ℕ → Reply) (vhp_contract : Text) where
  abbrev pub fetched : Text → Option Text
  fetched a = fetch_balance_with_retry (replies a)

  abbrev pub update_of : Text → Text → BalanceUpdate
  update_of a balance = record { address = a; token = vhp_contract; balance = balance }

  -- One step of the feeder, of a worker or of the writer. The channels hold so many.
  pub data Step (g : Going) : Going → Type 0 where
    reads : g.feeder ≡ feeding → g.pending ≡ [] → g.offset < g.total → Step g (read_page g)
    closes :
        g.feeder ≡ feeding
        → g.pending ≡ []
        → g.total ≤ g.offset
        → Step g (record g { feeder = closed })
    sends :
        (a : Text) (rest : List Text)
        → g.pending ≡ a ∷ rest
        → length g.work < 2 * concurrency
        → Step g (record g { pending = rest; work = g.work ++ a ∷ [] })
    takes :
        (a : Text) (rest : List Text)
        → g.work ≡ a ∷ rest
        → length g.in_hand < concurrency
        → Step g (record g { work = rest; in_hand = a ∷ g.in_hand })
    answers :
        (xs : List Text) (a : Text) (ys : List Text) (balance : Text)
        → g.in_hand ≡ xs ++ a ∷ ys
        → fetched a ≡ some balance
        → length g.channel < 4 * concurrency
        → Step g (record g {
          in_hand = xs ++ ys;
          channel = g.channel ++ update_of a balance ∷ [];
          checked = g.checked + 1;
        })
    misses :
        (xs : List Text) (a : Text) (ys : List Text)
        → g.in_hand ≡ xs ++ a ∷ ys
        → fetched a ≡ none
        → Step g (record g {
          in_hand = xs ++ ys;
          fetch_errors = g.fetch_errors + 1;
          checked = g.checked + 1;
        })
    receives :
        (u : BalanceUpdate) (rest : List BalanceUpdate)
        → g.writer ≡ receiving
        → g.channel ≡ u ∷ rest
        → Step g (received u (record g { channel = rest }))
    drains :
        (e : Error) (u : BalanceUpdate) (rest : List BalanceUpdate)
        → g.writer ≡ ended (err e)
        → g.channel ≡ u ∷ rest
        → Step g (record g { channel = rest })
    finishes :
        g.feeder ≡ closed
        → g.work ≡ []
        → g.in_hand ≡ []
        → g.channel ≡ []
        → g.writer ≡ receiving
        → Step g (finished g)

  pub data Reach (g : Going) : Going → Type 0 where
    here : Reach g g
    next : {g' g'' : Going} → Reach g g' → Step g' g'' → Reach g g''

-- What Run returns once the writer is done: more than a tenth of failed lookups is an error.
abbrev pub verdict_of : Going → Result (Unit {0}) → Result (Unit {0})
verdict_of g (err e) = err (wrap "write failed" e)
verdict_of g blocked = blocked
verdict_of g (ok _) =
    if ltb g.total (10 * g.fetch_errors) then err (message "too many fetch errors") else ok tt

abbrev pub verdict_at : Going → Writer → Option (Result (Unit {0}))
verdict_at g receiving = none
verdict_at g (ended r) = some (verdict_of g r)

-- The result of Run, or `none` while it waits.
abbrev pub verdict_when : Going → Feeder → Option (Result (Unit {0}))
verdict_when g feeding = none
verdict_when g (gave_up e) = some (err (wrap "get addresses at offset" e))
verdict_when g closed =
    if is_empty g.work && is_empty g.in_hand then verdict_at g g.writer else none

abbrev pub verdict : Going → Option (Result (Unit {0}))
verdict g = verdict_when g g.feeder
