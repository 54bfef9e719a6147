-- ===== src/Backfill/Decode/Strict.antt =====
-- The loop of decodeRawTokenEvent on malformed payloads.
use koinos_token_tracker.Base.{
  ℕ, zero, suc, ◌≤◌, ◌<◌, ◌≡◌, ◌≢◌, refl, inl, inr, true, none, some, [], ◌∷◌, is_empty, length,
  drop, arith, length-drop, Bool-cases, Option-cases,
}
use mathlib.Core.Path.{subst}
use koinos_token_tracker.Base.Text.{Bytes}
use koinos_token_tracker.Wire.{WireType, Wire, IsWire}
use koinos_token_tracker.Backfill.Decode.{Codecs, RawLoop, raw_field, raw_round, raw_loop}

module _ (w : Wire) (k : Codecs) where
  raw_field-le :
      (num : ℕ) (wt : WireType) (s t : RawLoop)
      → raw_field w k num wt s ≡ some t
      → length t.rest ≤ length s.rest
  unfolding raw_field
  raw_field-le num wt s t h = grind (arith, length-drop)

  raw_round-falls :
      (s t : RawLoop) → IsWire w → raw_round w k s ≡ some t → length t.rest < length s.rest
  unfolding raw_round
  raw_round-falls s t laws h = elim (Option-cases (w.consume_tag s.rest)) [
    | inl e ↦ ground arith
    | inr ((num, wt, n), e) ↦ ground (
      arith,
      raw_field-le num wt (record s { rest = drop n s.rest }) t,
      laws.tag_advances s.rest num wt n e,
      length-drop n s.rest,
    )
  ]

  empty-of_length : (xs : Bytes) → length xs ≤ 0 → is_empty xs ≡ true
  empty-of_length [] h = refl
  empty-of_length (x ∷ xs) h = absurd (omega arith)

  some_loop : {a b : RawLoop} → some a ≡ some b → a ≡ b
  some_loop e = cc

  none_loop : {a : RawLoop} → none ≢ some a
  none_loop e = cc

  -- With a round for every byte, the loop of decodeRawTokenEvent either returns an error or has read
  -- the whole payload: no bytes are left over when it succeeds.
  pub raw_loop-strict :
      (fuel : ℕ) (s t : RawLoop)
      → IsWire w
      → length s.rest ≤ fuel
      → raw_loop w k fuel s ≡ some t
      → is_empty t.rest ≡ true
  unfolding raw_loop
  raw_loop-strict zero s t laws le e =
      subst (λ x. is_empty x.rest ≡ true) (some_loop e) (empty-of_length s.rest le)
  raw_loop-strict (suc fuel) s t laws le e = elim (Bool-cases (is_empty s.rest)) [
    | inl h ↦ subst (λ x. is_empty x.rest ≡ true) (some_loop (rw h at e)) h
    | inr h ↦ elim (Option-cases (raw_round w k s)) [
      | inl r ↦ absurd (none_loop (rw (h, r) at e))
      | inr (s', r) ↦
          raw_loop-strict fuel s' t laws (omega (arith, raw_round-falls s s' laws r))
            (rw (h, r) at e)
    ]
  ]
