-- ===== src/Backfill/Ops/Usable.antt =====
-- What opsOf lets through.
use mathlib.Core.Path.{subst}
use koinos_token_tracker.Base.{
  ℕ, ◌≤◌, ◌<◌, ◌≡◌, ◌≢◌, refl, inl, inr, ◌⊎◌, Bool, true, false, ◌&&◌, ◌||◌, not, Option, none,
  some, List, [], ◌∷◌, is_empty, ltb, ◌==◌, if◌then◌else◌, arith, Bool-cases, Option-cases, All,
}
use koinos_token_tracker.Base.Text.{Text, codes, text_eq, has_suffix}
use koinos_token_tracker.Decimal.{parse_uint}
use koinos_token_tracker.Indexer.Event.{max_safe_value}
use koinos_token_tracker.Wire.{Wire}
use koinos_token_tracker.Backfill.{Op, BlockInfo}
use koinos_token_tracker.Backfill.Decode.{Codecs, EventFields, event_type, decode_event}
use koinos_token_tracker.Backfill.Ops.{
  HistoryEvent, Round, failed, skipped, appended, is_malformed, id_of, op_of, by_type, checked,
  round_of, prepend, ops_of,
}

pub none-some : {A : Type 0} {a : A} → none ≢ some a
none-some e = cc

pub some_inj : {A : Type 0} {a b : A} → some a ≡ some b → a ≡ b
some_inj e = cc

empty_nonempty : true ≢ false
empty_nonempty e = cc

abbrev IsType : Text → Type 0
IsType typ = (typ ≡ codes "transfer") ⊎ (typ ≡ codes "mint") ⊎ (typ ≡ codes "burn")

event_type-IsType : (name : Text) → is_empty (event_type name) ≡ false → IsType (event_type name)
unfolding event_type
event_type-IsType name h = elim (Bool-cases (has_suffix name (codes "transfer_event"))) [
  | inl a ↦ inl (rw a refl)
  | inr a ↦ elim (Bool-cases (has_suffix name (codes "mint_event"))) [
    | inl b ↦ inr (inl (rw (a, b) refl))
    | inr b ↦ elim (Bool-cases (has_suffix name (codes "burn_event"))) [
      | inl c ↦ inr (inr (rw (a, b, c) refl))
      | inr c ↦ absurd (empty_nonempty (rw (a, b, c) at h))
    ]
  ]
]

-- An operation with a value that an int64 holds and an address that it moves the value of, both
-- addresses in form.
pub record IsUsable (seq : ℕ) (b : BlockInfo) (op : Op) : Type 0 where
  pub value_positive : 0 < op.value
  pub value_fits : op.value ≤ max_safe_value
  pub sender_formed : is_malformed op.sender ≡ false
  pub receiver_formed : is_malformed op.receiver ≡ false
  pub moves : (is_empty op.sender && is_empty op.receiver) ≡ false
  pub at_block : (op.seq ≡ seq) × (op.height ≡ b.height) × (op.timestamp ≡ b.timestamp)

module _ (w : Wire) (k : Codecs) (token : Text) (seq : ℕ) (b : BlockInfo) (tx_id : Text) where
  abbrev RoundUsable : Round → Type 0
  RoundUsable failed = Unit {0}
  RoundUsable skipped = Unit {0}
  RoundUsable (appended op) = IsUsable seq b op

  unless-RoundUsable :
      (g : Bool) (r : Round) → (g ≡ false → RoundUsable r) → RoundUsable (if g then skipped else r)
  unless-RoundUsable true r h = tt
  unless-RoundUsable false r h = h refl

  fails-RoundUsable :
      (g : Bool) (r : Round) → (g ≡ false → RoundUsable r) → RoundUsable (if g then failed else r)
  fails-RoundUsable true r h = tt
  fails-RoundUsable false r h = h refl

  module _ (value : ℕ) (positive : 0 < value) (fits : value ≤ max_safe_value) where
    op_of-RoundUsable :
        (typ from_addr to_addr : Text)
        → is_malformed from_addr ≡ false
        → is_malformed to_addr ≡ false
        → (is_empty from_addr && is_empty to_addr) ≡ false
        → RoundUsable (op_of w k token seq b tx_id typ from_addr to_addr value)
    op_of-RoundUsable typ f t hf ht m = elim (Option-cases (id_of w k token seq b tx_id)) [
      | inl e ↦ rw (e, RoundUsable) tt
      | inr (id, e) ↦
          rw (e, RoundUsable)
            (record {
              value_positive = positive;
              value_fits = fits;
              sender_formed = hf;
              receiver_formed = ht;
              moves = m;
              at_block = (refl, refl, refl);
            })
    ]

    by_type-RoundUsable :
        (typ from_addr to_addr : Text)
        → IsType typ
        → is_malformed from_addr ≡ false
        → is_malformed to_addr ≡ false
        → RoundUsable (by_type w k token seq b tx_id typ from_addr to_addr value)
    unfolding by_type text_eq
    by_type-RoundUsable typ f t (inl e) hf ht =
        rw e (unless-RoundUsable _ _ (λ m. op_of-RoundUsable (codes "transfer") f t hf ht m))
    by_type-RoundUsable typ f t (inr (inl e)) hf ht =
        rw e (unless-RoundUsable _ _ (λ m. op_of-RoundUsable (codes "mint") [] t refl ht m))
    by_type-RoundUsable typ f t (inr (inr e)) hf ht =
        rw e (
          unless-RoundUsable _ _
            (λ m. op_of-RoundUsable (codes "burn") f [] hf refl (ground arith)))

  checked-RoundUsable :
      (typ : Text) (f : EventFields)
      → IsType typ
      → RoundUsable (checked w k token seq b tx_id typ f)
  unfolding checked
  checked-RoundUsable typ f h =
      let (value, fine) = parse_uint f.value in
      fails-RoundUsable (not fine || ltb max_safe_value value) _ λ fits.
        unless-RoundUsable (value == 0) _ λ positive.
          fails-RoundUsable (is_malformed f.sender || is_malformed f.receiver) _ λ formed.
            by_type-RoundUsable value (ground arith) (ground arith) typ f.sender f.receiver h
              (ground arith) (ground arith)

  decoded-RoundUsable :
      (typ : Text) (o : Option EventFields)
      → IsType typ
      → RoundUsable (elim o [ none ↦ failed | some f ↦ checked w k token seq b tx_id typ f ])
  decoded-RoundUsable typ none h = tt
  decoded-RoundUsable typ (some f) h = checked-RoundUsable typ f h

  round_of-RoundUsable : (ev : HistoryEvent) → RoundUsable (round_of w k token seq b tx_id ev)
  unfolding round_of
  round_of-RoundUsable ev = unless-RoundUsable (not (text_eq ev.source token)) _ λ _.
      unless-RoundUsable (is_empty (event_type ev.name)) _ λ named.
        decoded-RoundUsable (event_type ev.name) (decode_event w k (event_type ev.name) ev.payload)
          (event_type-IsType ev.name named)

  prepend-IsUsable :
      (r : Round) (o : Option (List Op)) (ops : List Op)
      → RoundUsable r
      → ((ops : List Op) → o ≡ some ops → All (IsUsable seq b) ops)
      → prepend w k token seq b tx_id r o ≡ some ops
      → All (IsUsable seq b) ops
  prepend-IsUsable failed o ops h hs e = absurd (none-some e)
  prepend-IsUsable skipped o ops h hs e = hs ops e
  prepend-IsUsable (appended op) none ops h hs e = absurd (none-some e)
  prepend-IsUsable (appended op) (some rest) ops h hs e =
      subst (All (IsUsable seq b)) (some_inj e) (h, hs rest refl)

  -- Every operation that opsOf takes from an entry is at the entry's position and moves an amount
  -- that is positive and that an int64 holds, from or to an address at least; neither address is
  -- malformed.
  pub ops_of-IsUsable :
      (events : List HistoryEvent) (ops : List Op)
      → ops_of w k token seq b tx_id events ≡ some ops
      → All (IsUsable seq b) ops
  unfolding ops_of
  ops_of-IsUsable [] ops e = subst (All (IsUsable seq b)) (some_inj e) tt
  ops_of-IsUsable (ev ∷ events) ops e =
      prepend-IsUsable (round_of w k token seq b tx_id ev) (ops_of w k token seq b tx_id events) ops
        (round_of-RoundUsable ev) (λ rest e'. ops_of-IsUsable events rest e') e
