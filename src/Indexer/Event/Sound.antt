-- ===== src/Indexer/Event/Sound.antt =====
-- The form of the balance changes and addresses that processEvent collects.
use koinos_token_tracker.Base.{
  ℕ, ◌+◌, ◌≤◌, ◌<◌, ◌≡◌, false, Option, none, some, List, [], ◌∷◌, is_empty, arith, inl, inr,
  Bool-cases, All, All-append,
}
use koinos_token_tracker.Base.Int.{ℤ, pos_part, neg_part}
use koinos_token_tracker.Base.Text.{Bytes, Text}
use koinos_token_tracker.Base.TextSet.{TextSet, IsDistinct, add-IsDistinct}
use koinos_token_tracker.Config.{TokenTrackerConfig}
use koinos_token_tracker.Wire.{Wire}
use koinos_token_tracker.Indexer.Types.{EventData, BalanceChange}
use koinos_token_tracker.Indexer.Tokens.{is_token_event}
use koinos_token_tracker.Indexer.Parse.{encode_addr}
use koinos_token_tracker.Indexer.Event.{
  Found, Context, max_safe_value, int64, neg_int64, note_address, note_impacted, change_of,
  is_unusable, add_transfer, add_mint, add_burn, dispatch, process_event,
}

abbrev size : ℤ → ℕ
size d = pos_part d + neg_part d

-- The address is not blank, and the delta is not zero and at most 2^63 - 1 in size.
abbrev pub IsSound : BalanceChange → Type 0
IsSound c = (is_empty c.address ≡ false) × (0 < size c.delta) × (size c.delta ≤ max_safe_value)

-- The addresses so far are listed once each, and the changes are sound.
abbrev pub FoundIsSound : Found → Type 0
FoundIsSound f = IsDistinct f.addresses × All IsSound f.changes

pub note_address-IsDistinct :
    (a : Text) (s : TextSet) → IsDistinct s → IsDistinct (note_address a s)
unfolding note_address
note_address-IsDistinct a s d = ground (arith, add-IsDistinct a s d)

note_impacted-IsDistinct :
    (w : Wire) (imps : List Bytes) (s : TextSet)
    → IsDistinct s
    → IsDistinct (note_impacted w imps s)
unfolding note_impacted
note_impacted-IsDistinct w [] s d = d
note_impacted-IsDistinct w (imp ∷ imps) s d =
    note_impacted-IsDistinct w imps _ (note_address-IsDistinct (encode_addr w imp) s d)

deltas_fit :
    (v : ℕ)
    → is_unusable v ≡ false
    → (0 < size (int64 v))
      × (size (int64 v) ≤ max_safe_value)
      × (0 < size (neg_int64 (int64 v)))
      × (size (neg_int64 (int64 v)) ≤ max_safe_value)
unfolding is_unusable
deltas_fit v h = (ground arith, ground arith, ground arith, ground arith)

module _ (x : Context) where
  change_of-IsSound :
      (addr : Text) (d : ℤ)
      → 0 < size d
      → size d ≤ max_safe_value
      → All IsSound (change_of x addr d)
  unfolding change_of
  change_of-IsSound addr d l u = ground arith

  add_transfer-FoundIsSound :
      (from to : Text) (v : ℕ) (f : Found)
      → FoundIsSound f
      → FoundIsSound (add_transfer x from to v f)
  unfolding add_transfer
  add_transfer-FoundIsSound from to v f h = elim (Bool-cases (is_unusable v)) [
    | inl bad ↦ rw bad h
    | inr good ↦
        let fit = deltas_fit v good in
        rw good (
          h.0,
          All-append IsSound f.changes _ h.1 (
              All-append IsSound (change_of x from (neg_int64 (int64 v))) _
                (change_of-IsSound from _ fit.2 fit.3) (change_of-IsSound to _ fit.0 fit.1)),
        )
  ]

  add_mint-FoundIsSound :
      (to : Text) (v : ℕ) (f : Found) → FoundIsSound f → FoundIsSound (add_mint x to v f)
  unfolding add_mint
  add_mint-FoundIsSound to v f h = elim (Bool-cases (is_unusable v)) [
    | inl bad ↦ rw bad h
    | inr good ↦
        let fit = deltas_fit v good in
        rw good (h.0, All-append IsSound f.changes _ h.1 (change_of-IsSound to _ fit.0 fit.1))
  ]

  add_burn-FoundIsSound :
      (from : Text) (v : ℕ) (f : Found) → FoundIsSound f → FoundIsSound (add_burn x from v f)
  unfolding add_burn
  add_burn-FoundIsSound from v f h = elim (Bool-cases (is_unusable v)) [
    | inl bad ↦ rw bad h
    | inr good ↦
        let fit = deltas_fit v good in
        rw good (h.0, All-append IsSound f.changes _ h.1 (change_of-IsSound from _ fit.2 fit.3))
  ]

  dispatch-FoundIsSound :
      (w : Wire) (ev : EventData) (f : Found) → FoundIsSound f → FoundIsSound (dispatch w x ev f)
  unfolding dispatch
  dispatch-FoundIsSound w ev f h =
      grind (arith, add_transfer-FoundIsSound, add_mint-FoundIsSound, add_burn-FoundIsSound)

pub process_event-FoundIsSound :
    (w : Wire) (cfg : TokenTrackerConfig) (ev : Option EventData) (tx_id : Text) (height : ℕ)
    (f : Found)
    → FoundIsSound f
    → FoundIsSound (process_event w cfg ev tx_id height f)
unfolding process_event
process_event-FoundIsSound w cfg none tx_id height f h = h
process_event-FoundIsSound w cfg (some ev) tx_id height f h =
    let d =
      note_impacted-IsDistinct w ev.impacted _
        (note_address-IsDistinct (encode_addr w ev.source) f.addresses h.0) in
    elim (Bool-cases (is_token_event cfg (encode_addr w ev.source))) [
      | inl tracked ↦ rw tracked (dispatch-FoundIsSound _ w ev _ (d, h.1))
      | inr other ↦ rw other (d, h.1)
    ]
