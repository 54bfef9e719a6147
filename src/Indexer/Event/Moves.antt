-- ===== src/Indexer/Event/Moves.antt =====
-- The balance changes of an event against the transfer records that it leaves (processEvent).
use koinos_token_tracker.Base.{
  ℕ, ◌<◌, ◌≡◌, ◌⊎◌, inl, inr, true, false, ◌&&◌, Option, none, some, List, [], ◌∷◌, ◌++◌, is_empty,
  arith, if◌then◌else◌, Bool-cases,
}
use koinos_token_tracker.Base.Int.{ℤ, pos, neg, ◌+ℤ◌, int_laws}
use koinos_token_tracker.Base.Text.{Text, text_eq, text_eq_iff}
use koinos_token_tracker.Config.{TokenTrackerConfig}
use koinos_token_tracker.Wire.{Wire}
use koinos_token_tracker.Indexer.Types.{EventData, TransferRecord, BalanceChange}
use koinos_token_tracker.Indexer.Tokens.{is_token_event, affects_balance, normalize_token}
use koinos_token_tracker.Indexer.Parse.{encode_addr}
use koinos_token_tracker.Indexer.Event.{
  Found, Context, int64, neg_int64, change_of, is_unusable, add_transfer, add_mint, add_burn,
  dispatch, process_event,
}

-- What a change adds to the balance of an address in a token.
abbrev pub delta_at : Text → Text → BalanceChange → ℤ
delta_at a t c = if text_eq c.address a && text_eq c.token t then c.delta else pos 0

unfoldable pub net_changes : Text → Text → List BalanceChange → ℤ
net_changes a t [] = pos 0
net_changes a t (c ∷ cs) = delta_at a t c +ℤ net_changes a t cs

-- What a transfer record says: the sender gives the value, the receiver takes it.
abbrev pub moved_at : Text → Text → TransferRecord → ℤ
moved_at a t r =
    (if text_eq r.sender a && text_eq r.token t then neg (pos r.value) else pos 0)
    +ℤ (if text_eq r.receiver a && text_eq r.token t then pos r.value else pos 0)

unfoldable pub net_transfers : Text → Text → List TransferRecord → ℤ
net_transfers a t [] = pos 0
net_transfers a t (r ∷ rs) = moved_at a t r +ℤ net_transfers a t rs

net_changes-append :
    (a t : Text) (xs ys : List BalanceChange)
    → net_changes a t (xs ++ ys) ≡ net_changes a t xs +ℤ net_changes a t ys
unfolding net_changes
net_changes-append a t [] ys = omega int_laws
net_changes-append a t (c ∷ xs) ys = rw (net_changes-append a t xs ys) (omega int_laws)

net_transfers-append :
    (a t : Text) (xs ys : List TransferRecord)
    → net_transfers a t (xs ++ ys) ≡ net_transfers a t xs +ℤ net_transfers a t ys
unfolding net_transfers
net_transfers-append a t [] ys = omega int_laws
net_transfers-append a t (c ∷ xs) ys = rw (net_transfers-append a t xs ys) (omega int_laws)

-- The changes so far and the transfers so far say the same of the address and the token.
abbrev pub IsBalanced : Text → Text → Found → Type 0
IsBalanced a t f = net_changes a t f.changes ≡ net_transfers a t f.transfers

-- The event moves balances, or is of another token.
abbrev Counts : Context → Text → Type 0
Counts x t = (x.update_balance ≡ true) ⊎ (text_eq x.token t ≡ false)

int64_usable :
    (v : ℕ) → is_unusable v ≡ false → (int64 v ≡ pos v) × (neg_int64 (int64 v) ≡ neg (pos v))
unfolding is_unusable
int64_usable v h = (ground arith, ground arith)

+ℤ_zero : (d : ℤ) → d +ℤ pos 0 ≡ d
+ℤ_zero d = omega int_laws

module _ (a t : Text) (named : is_empty a ≡ false) (x : Context) (counts : Counts x t) where
  net-change_of :
      (addr : Text) (d : ℤ)
      → net_changes a t (change_of x addr d)
        ≡ (if text_eq addr a && text_eq x.token t then d else pos 0)
  unfolding change_of net_changes
  net-change_of addr d = ground (arith, +ℤ_zero d, +ℤ_zero (pos 0), text_eq_iff addr a)

  net_transfers-one :
      (from to : Text) (v : ℕ) (kind : Text)
      → net_transfers a t (
          record {
            tx_id = x.tx_id;
            token = x.token;
            sender = from;
            receiver = to;
            value = v;
            event_type = kind;
          }
          ∷ [])
        ≡ (if text_eq from a && text_eq x.token t then neg (pos v) else pos 0)
          +ℤ (if text_eq to a && text_eq x.token t then pos v else pos 0)
  unfolding net_transfers
  net_transfers-one from to v kind = +ℤ_zero _

  -- A blank address is not `a`.
  blank : (d : ℤ) → (if text_eq [] a && text_eq x.token t then d else pos 0) ≡ pos 0
  blank d = ground (arith, text_eq_iff [] a)

  add_transfer-IsBalanced :
      (from to : Text) (v : ℕ) (f : Found)
      → IsBalanced a t f
      → IsBalanced a t (add_transfer x from to v f)
  unfolding add_transfer
  add_transfer-IsBalanced from to v f h = elim (Bool-cases (is_unusable v)) [
    | inl bad ↦ rw bad h
    | inr good ↦
        rw
          (
            good,
            (int64_usable v good).1,
            (int64_usable v good).0,
            net_changes-append,
            net_changes-append,
            net_transfers-append,
            net_transfers-one,
            net-change_of,
            net-change_of,
          )
          (rw h (omega int_laws))
  ]

  add_mint-IsBalanced :
      (to : Text) (v : ℕ) (f : Found) → IsBalanced a t f → IsBalanced a t (add_mint x to v f)
  unfolding add_mint
  add_mint-IsBalanced to v f h = elim (Bool-cases (is_unusable v)) [
    | inl bad ↦ rw bad h
    | inr good ↦
        rw
          (
            good,
            (int64_usable v good).0,
            net_changes-append,
            net_transfers-append,
            net_transfers-one,
            net-change_of,
            blank,
          )
          (rw h (omega int_laws))
  ]

  add_burn-IsBalanced :
      (from : Text) (v : ℕ) (f : Found) → IsBalanced a t f → IsBalanced a t (add_burn x from v f)
  unfolding add_burn
  add_burn-IsBalanced from v f h = elim (Bool-cases (is_unusable v)) [
    | inl bad ↦ rw bad h
    | inr good ↦
        rw
          (
            good,
            (int64_usable v good).1,
            net_changes-append,
            net_transfers-append,
            net_transfers-one,
            net-change_of,
            blank,
          )
          (rw h (omega int_laws))
  ]

  dispatch-IsBalanced :
      (w : Wire) (ev : EventData) (f : Found)
      → IsBalanced a t f
      → IsBalanced a t (dispatch w x ev f)
  unfolding dispatch
  dispatch-IsBalanced w ev f h =
      grind (arith, add_transfer-IsBalanced, add_mint-IsBalanced, add_burn-IsBalanced)

event_counts :
    (cfg : TokenTrackerConfig) (source t : Text) (height : ℕ)
    → is_token_event cfg source ≡ true
    → (height < cfg.kcs4_migration_height) ⊎ (text_eq cfg.vhp_contract t ≡ false)
    → (affects_balance cfg source height ≡ true) ⊎ (text_eq (normalize_token cfg source) t ≡ false)
event_counts cfg source t height tracked below =
    elim (Bool-cases (affects_balance cfg source height)) [
      | inl moves ↦ inl moves
      | inr still ↦ inr (unfold is_token_event affects_balance normalize_token in ground arith)
    ]

-- At a token that is not the VHP contract, or below the migration height, a tracked event counts.
pub process_event-IsBalanced :
    (w : Wire) (cfg : TokenTrackerConfig) (a t : Text) (ev : Option EventData) (tx_id : Text)
    (height : ℕ) (f : Found)
    → is_empty a ≡ false
    → (height < cfg.kcs4_migration_height) ⊎ (text_eq cfg.vhp_contract t ≡ false)
    → IsBalanced a t f
    → IsBalanced a t (process_event w cfg ev tx_id height f)
unfolding process_event
process_event-IsBalanced w cfg a t none tx_id height f named below h = h
process_event-IsBalanced w cfg a t (some ev) tx_id height f named below h =
    elim (Bool-cases (is_token_event cfg (encode_addr w ev.source))) [
      | inl tracked ↦ rw tracked (
          dispatch-IsBalanced a t named _
            (event_counts cfg (encode_addr w ev.source) t height tracked below) w ev _ h)
      | inr other ↦ rw other h
    ]
