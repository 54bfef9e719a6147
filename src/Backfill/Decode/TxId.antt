-- ===== src/Backfill/Decode/TxId.antt =====
-- Transaction ids: the hexadecimal form of the node against the base58 form of the live processor.
use koinos_token_tracker.Base.{
  ℕ, ◌+◌, ◌*◌, ◌/◌, ◌%◌, ◌<◌, ◌≡◌, refl, inl, inr, true, some, [], ◌∷◌, ◌++◌, length, ltb, arith,
  All, Bool-cases,
}
use koinos_token_tracker.Base.Text.{Bytes, codes, has_prefix}
use koinos_token_tracker.Wire.{Wire}
use koinos_token_tracker.Sync.Process.{hex_digit, encode_hex}
use koinos_token_tracker.Backfill.Decode.{
  all_of, is_hex, is_hex_tx_id, hex_value, decode_hex, tx_id_base58,
}

abbrev pub IsByte : ℕ → Type 0
IsByte b = b < 256

hex_value-hex_digit :
    (n : ℕ) → n < 16 → (hex_value (hex_digit n) ≡ n) × (is_hex (hex_digit n) ≡ true)
unfolding hex_value is_hex
hex_value-hex_digit n h = elim (Bool-cases (ltb n 10)) [
  | inl e ↦ rw e (ground arith, ground arith)
  | inr e ↦ rw e (ground arith, ground arith)
]

high_digit : (b : ℕ) → b < 256 → b / 16 < 16
high_digit b h = omega arith

low_digit : (b : ℕ) → b % 16 < 16
low_digit b = omega arith

both_digits : (b : ℕ) → b / 16 * 16 + b % 16 ≡ b
both_digits b = omega arith

decode_hex-encode_hex : (bs : Bytes) → All IsByte bs → decode_hex (encode_hex bs) ≡ bs
unfolding encode_hex decode_hex
decode_hex-encode_hex [] h = refl
decode_hex-encode_hex (b ∷ bs) h = rw (
  (hex_value-hex_digit (b / 16) (high_digit b h.0)).0,
  (hex_value-hex_digit (b % 16) (low_digit b)).0,
  both_digits b,
  decode_hex-encode_hex bs h.1,
)

length-encode_hex : (bs : Bytes) → length (encode_hex bs) ≡ 2 * length bs
unfolding encode_hex
length-encode_hex [] = refl
length-encode_hex (b ∷ bs) = omega (arith, length-encode_hex bs)

encode_hex-hex : (bs : Bytes) → All IsByte bs → all_of is_hex (encode_hex bs) ≡ true
unfolding encode_hex
encode_hex-hex [] h = refl
encode_hex-hex (b ∷ bs) h = rw (
  (hex_value-hex_digit (b / 16) (high_digit b h.0)).1,
  (hex_value-hex_digit (b % 16) (low_digit b)).1,
  encode_hex-hex bs h.1,
)

-- The hexadecimal form of a SHA-256 multihash, as the node prints a transaction's id, becomes the
-- base58 form of the same bytes, which is what the live processor stores.
pub tx_id_base58-encode_hex :
    (w : Wire) (digest : Bytes)
    → All IsByte digest
    → length digest ≡ 32
    → tx_id_base58 w (codes "0x" ++ encode_hex (18 ∷ 32 ∷ digest))
      ≡ some (w.encode (18 ∷ 32 ∷ digest))
unfolding tx_id_base58 is_hex_tx_id encode_hex has_prefix decode_hex hex_value
tx_id_base58-encode_hex w digest bytes long = rw (
  length-encode_hex digest,
  long,
  encode_hex-hex digest bytes,
  decode_hex-encode_hex digest bytes,
)
