-- ===== src/Wire.antt =====
-- The third-party encoders and decoders that the source calls: base58 and protowire.
use koinos_token_tracker.Base.{
  ℕ, ◌^◌, ◌≤◌, ◌<◌, ◌≡◌, Bool, false, Option, some, ◌++◌, length, is_empty,
}
use koinos_token_tracker.Base.Text.{Bytes, Text}

-- protowire.Type; `other` is any number that names no wire type.
pub data WireType : Type 0 where
  varint fixed64 bytes start_group end_group fixed32 other : WireType

abbrev pub is_varint : WireType → Bool
is_varint varint = Bool.true
is_varint _ = false

abbrev pub is_bytes : WireType → Bool
is_bytes bytes = Bool.true
is_bytes _ = false

-- A Consume function returns what it read and the number of bytes, and `none` stands for a
-- negative number of bytes.
pub record Wire : Type 0 where
  pub encode : Bytes → Text
  pub consume_tag : Bytes → Option (ℕ × WireType × ℕ)
  pub consume_bytes : Bytes → Option (Bytes × ℕ)
  pub consume_varint : Bytes → Option (ℕ × ℕ)
  pub consume_fixed32 : Bytes → Option (ℕ × ℕ)
  pub consume_fixed64 : Bytes → Option (ℕ × ℕ)

-- protowire.ConsumeTag takes one byte at least and no more than there are.
pub record IsWire (w : Wire) : Type 0 where
  pub tag_advances :
      (b : Bytes) (num : ℕ) (typ : WireType) (n : ℕ)
      → w.consume_tag b ≡ some (num, typ, n)
      → (0 < n) × (n ≤ length b)

-- protowire.AppendTag, AppendBytes and AppendVarint onto nothing, for the field numbers in use:
-- the Consume function reads back what was appended, whatever comes behind.
pub record Encoder (w : Wire) : Type 0 where
  pub tag : ℕ → WireType → Bytes
  pub field_bytes : Bytes → Bytes
  pub field_varint : ℕ → Bytes
  pub tag_nonempty : (num : ℕ) (typ : WireType) → is_empty (tag num typ) ≡ false
  pub tag_read :
      (num : ℕ) (typ : WireType) (more : Bytes)
      → 0 < num
      → num < 4
      → w.consume_tag (tag num typ ++ more) ≡ some (num, typ, length (tag num typ))
  pub bytes_read :
      (v more : Bytes) → w.consume_bytes (field_bytes v ++ more) ≡ some (v, length (field_bytes v))
  pub varint_read :
      (v : ℕ) (more : Bytes)
      → v < 2 ^ 64
      → w.consume_varint (field_varint v ++ more) ≡ some (v, length (field_varint v))
