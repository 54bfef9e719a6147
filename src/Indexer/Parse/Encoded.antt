-- ===== src/Indexer/Parse/Encoded.antt =====
-- parseTransferEvent, parseMintEvent and parseBurnEvent on payloads written by an encoder.
use koinos_token_tracker.Base.{
  ℕ, ◌^◌, ◌<◌, ◌≡◌, refl, ◌∙◌, ◌≤◌, false, some, [], ◌∷◌, ◌++◌, arith, length, drop-append,
  length-append, is_empty,
}
use koinos_token_tracker.Base.Text.{Bytes}
use koinos_token_tracker.Base.Iterate.{iterate, iterate-step, iterate-stop}
use koinos_token_tracker.Wire.{WireType, varint, bytes, Wire, IsWire, Encoder}
use koinos_token_tracker.Indexer.Parse.{
  TransferLoop, PartyLoop, transfer_field, transfer_round, parse_transfer_event, party_field,
  party_round, parse_mint_event, parse_burn_event,
}
use koinos_token_tracker.Indexer.Parse.Ends.{transfer_round-falls, party_round-falls}

suffix-le : (a b c : Bytes) → length c ≤ length (a ++ (b ++ c))
suffix-le a b c = omega (arith, length-append {0} a (b ++ c), length-append {0} b c)

module _ (w : Wire) where
  -- A round whose tag is read goes on to the switch, behind the tag.
  transfer_round-tag :
      (a more : Bytes) (num : ℕ) (typ : WireType) (x y : Bytes) (z : ℕ)
      → is_empty a ≡ false
      → w.consume_tag (a ++ more) ≡ some (num, typ, length a)
      → transfer_round w (record { rest = a ++ more; sender = x; receiver = y; value = z })
        ≡ transfer_field w num typ (record { rest = more; sender = x; receiver = y; value = z })
  unfolding transfer_round
  transfer_round-tag [] more num typ x y z full h = cc
  transfer_round-tag (b ∷ a) more num typ x y z full h = rw h (rw drop-append)

  party_round-tag :
      (a more : Bytes) (num : ℕ) (typ : WireType) (x : Bytes) (z : ℕ)
      → is_empty a ≡ false
      → w.consume_tag (a ++ more) ≡ some (num, typ, length a)
      → party_round w (record { rest = a ++ more; party = x; value = z })
        ≡ party_field w num typ (record { rest = more; party = x; value = z })
  unfolding party_round
  party_round-tag [] more num typ x z full h = cc
  party_round-tag (b ∷ a) more num typ x z full h = rw h (rw drop-append)

module _ (w : Wire) (e : Encoder w) where
  open e use {tag, field_bytes, field_varint}

  abbrev pub encode_transfer : Bytes → Bytes → ℕ → Bytes
  encode_transfer from to v =
      tag 1 bytes
      ++ (field_bytes from
          ++ (tag 2 bytes ++ (field_bytes to ++ (tag 3 varint ++ (field_varint v ++ [])))))

  abbrev pub encode_party : Bytes → ℕ → Bytes
  encode_party party v =
      tag 1 bytes ++ (field_bytes party ++ (tag 2 varint ++ (field_varint v ++ [])))

  transfer_round-sender :
      (v more x y : Bytes) (z : ℕ)
      → transfer_round w (record {
        rest = tag 1 bytes ++ (field_bytes v ++ more);
        sender = x;
        receiver = y;
        value = z;
      })
        ≡ some (record { rest = more; sender = v; receiver = y; value = z })
  transfer_round-sender v more x y z =
      transfer_round-tag w (tag 1 bytes) (field_bytes v ++ more) 1 bytes x y z
        (e.tag_nonempty 1 bytes)
        (e.tag_read 1 bytes (field_bytes v ++ more) (omega arith) (omega arith))
      ∙ unfold transfer_field in rw (e.bytes_read v more) (rw drop-append)

  transfer_round-receiver :
      (v more x y : Bytes) (z : ℕ)
      → transfer_round w (record {
        rest = tag 2 bytes ++ (field_bytes v ++ more);
        sender = x;
        receiver = y;
        value = z;
      })
        ≡ some (record { rest = more; sender = x; receiver = v; value = z })
  transfer_round-receiver v more x y z =
      transfer_round-tag w (tag 2 bytes) (field_bytes v ++ more) 2 bytes x y z
        (e.tag_nonempty 2 bytes)
        (e.tag_read 2 bytes (field_bytes v ++ more) (omega arith) (omega arith))
      ∙ unfold transfer_field in rw (e.bytes_read v more) (rw drop-append)

  transfer_round-value :
      (v : ℕ) (more x y : Bytes) (z : ℕ)
      → v < 2 ^ 64
      → transfer_round w (record {
        rest = tag 3 varint ++ (field_varint v ++ more);
        sender = x;
        receiver = y;
        value = z;
      })
        ≡ some (record { rest = more; sender = x; receiver = y; value = v })
  transfer_round-value v more x y z fits =
      transfer_round-tag w (tag 3 varint) (field_varint v ++ more) 3 varint x y z
        (e.tag_nonempty 3 varint)
        (e.tag_read 3 varint (field_varint v ++ more) (omega arith) (omega arith))
      ∙ unfold transfer_field in rw (e.varint_read v more fits) (rw drop-append)

  party_round-party :
      (v more x : Bytes) (z : ℕ)
      → party_round w
          (record { rest = tag 1 bytes ++ (field_bytes v ++ more); party = x; value = z })
        ≡ some (record { rest = more; party = v; value = z })
  party_round-party v more x z =
      party_round-tag w (tag 1 bytes) (field_bytes v ++ more) 1 bytes x z (e.tag_nonempty 1 bytes)
        (e.tag_read 1 bytes (field_bytes v ++ more) (omega arith) (omega arith))
      ∙ unfold party_field in rw (e.bytes_read v more) (rw drop-append)

  party_round-value :
      (v : ℕ) (more x : Bytes) (z : ℕ)
      → v < 2 ^ 64
      → party_round w
          (record { rest = tag 2 varint ++ (field_varint v ++ more); party = x; value = z })
        ≡ some (record { rest = more; party = x; value = v })
  party_round-value v more x z fits =
      party_round-tag w (tag 2 varint) (field_varint v ++ more) 2 varint x z
        (e.tag_nonempty 2 varint)
        (e.tag_read 2 varint (field_varint v ++ more) (omega arith) (omega arith))
      ∙ unfold party_field in rw (e.varint_read v more fits) (rw drop-append)

  module _ (laws : IsWire w) where
    transfer_step :
        (fuel : ℕ) (s t : TransferLoop)
        → length s.rest ≤ fuel
        → transfer_round w s ≡ some t
        → iterate fuel (transfer_round w) s ≡ iterate fuel (transfer_round w) t
    transfer_step fuel s t m h =
        iterate-step (transfer_round w) (λ s. length s.rest)
          (λ s t. transfer_round-falls w s t laws) fuel s t m h

    party_step :
        (fuel : ℕ) (s t : PartyLoop)
        → length s.rest ≤ fuel
        → party_round w s ≡ some t
        → iterate fuel (party_round w) s ≡ iterate fuel (party_round w) t
    party_step fuel s t m h =
        iterate-step (party_round w) (λ s. length s.rest) (λ s t. party_round-falls w s t laws) fuel
          s t m h

    -- A transfer event written field by field is read back: sender, receiver and value.
    pub parse_transfer_event-encode :
        (from to : Bytes) (v : ℕ)
        → v < 2 ^ 64
        → parse_transfer_event w (encode_transfer from to v)
          ≡ record { rest = []; sender = from; receiver = to; value = v }
    unfolding parse_transfer_event
    parse_transfer_event-encode from to v fits =
        let c : Bytes = tag 3 varint ++ (field_varint v ++ []) in
        let b : Bytes = tag 2 bytes ++ (field_bytes to ++ c) in
        let n : ℕ = length (encode_transfer from to v) in
        transfer_step n _ (record { rest = b; sender = from; receiver = []; value = 0 })
          (omega arith) (transfer_round-sender from b [] [] 0)
        ∙ (transfer_step n _ (record { rest = c; sender = from; receiver = to; value = 0 })
              (suffix-le (tag 1 bytes) (field_bytes from) b)
              (transfer_round-receiver to c from [] 0)
            ∙ (transfer_step n _ (record { rest = []; sender = from; receiver = to; value = v })
                  (omega (
                    arith,
                    suffix-le (tag 1 bytes) (field_bytes from) b,
                    suffix-le (tag 2 bytes) (field_bytes to) c,
                  ))
                  (transfer_round-value v [] from to 0 fits)
                ∙ iterate-stop (transfer_round w) n _ (unfold transfer_round in refl)))

    -- Mint and burn events share one layout, and are read back the same way.
    pub parse_party_events-encode :
        (party : Bytes) (v : ℕ)
        → v < 2 ^ 64
        → (parse_mint_event w (encode_party party v)
            ≡ record { rest = []; party = party; value = v })
          × (parse_burn_event w (encode_party party v)
              ≡ record { rest = []; party = party; value = v })
    unfolding parse_mint_event parse_burn_event
    parse_party_events-encode party v fits =
        let c : Bytes = tag 2 varint ++ (field_varint v ++ []) in
        let n : ℕ = length (encode_party party v) in
        let read =
          party_step n (record { rest = encode_party party v; party = []; value = 0 })
            (record { rest = c; party = party; value = 0 }) (omega arith)
            (party_round-party party c [] 0)
          ∙ (party_step n _ (record { rest = []; party = party; value = v })
                (suffix-le (tag 1 bytes) (field_bytes party) c)
                (party_round-value v [] party 0 fits)
              ∙ iterate-stop (party_round w) n _ (unfold party_round in refl)) in
        (read, read)
