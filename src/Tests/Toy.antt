-- ===== src/Tests/Toy.antt =====
-- A wire format in place of protowire's, on which the laws hold: a number is one cell, and bytes
-- are a length and the bytes. Base58 is left out.
use koinos_token_tracker.Base.{
  ℕ, suc, ◌+◌, ◌*◌, ◌/◌, ◌%◌, ◌≤◌, ◌<◌, ◌≡◌, refl, true, Option, none, some, [], ◌∷◌, ◌++◌, length,
  take, leb, ◌==◌, if◌then◌else◌, arith, ap,
}
use koinos_token_tracker.Base.Text.{Bytes}
use koinos_token_tracker.Wire.{
  WireType, varint, fixed64, bytes, start_group, end_group, fixed32, other, Wire, IsWire, Encoder,
}

abbrev pub type_of : ℕ → WireType
type_of n =
    if n == 0
    then varint
    else if n == 1
    then fixed64
    else if n == 2
    then bytes
    else if n == 3
    then start_group
    else if n == 4
    then end_group
    else if n == 5
    then fixed32
    else other

abbrev pub number_of : WireType → ℕ
number_of varint = 0
number_of fixed64 = 1
number_of bytes = 2
number_of start_group = 3
number_of end_group = 4
number_of fixed32 = 5
number_of other = 6

abbrev pub read_tag : Bytes → Option (ℕ × WireType × ℕ)
read_tag [] = none
read_tag (t ∷ b) = some (t / 8, type_of (t % 8), 1)

abbrev pub read_bytes : Bytes → Option (Bytes × ℕ)
read_bytes [] = none
read_bytes (n ∷ b) = if leb n (length b) then some (take n b, suc n) else none

abbrev pub read_number : Bytes → Option (ℕ × ℕ)
read_number [] = none
read_number (n ∷ b) = some (n, 1)

abbrev pub toy : Wire
toy = record {
  encode = λ b. b;
  consume_tag = read_tag;
  consume_bytes = read_bytes;
  consume_varint = read_number;
  consume_fixed32 = read_number;
  consume_fixed64 = read_number;
}

read_tag-advances :
    (b : Bytes) (num : ℕ) (typ : WireType) (n : ℕ)
    → read_tag b ≡ some (num, typ, n)
    → (0 < n) × (n ≤ length b)
read_tag-advances [] num typ n h = ground arith
read_tag-advances (t ∷ b) num typ n h = ground arith

pub toy-IsWire : IsWire toy
toy-IsWire = record { tag_advances = read_tag-advances }

type_of-number_of : (num : ℕ) (typ : WireType) → type_of ((num * 8 + number_of typ) % 8) ≡ typ
type_of-number_of num varint = ground arith
type_of-number_of num fixed64 = ground arith
type_of-number_of num bytes = ground arith
type_of-number_of num start_group = ground arith
type_of-number_of num end_group = ground arith
type_of-number_of num fixed32 = ground arith
type_of-number_of num other = ground arith

number_of-small : (typ : WireType) → number_of typ < 8
number_of-small varint = omega arith
number_of-small fixed64 = omega arith
number_of-small bytes = omega arith
number_of-small start_group = omega arith
number_of-small end_group = omega arith
number_of-small fixed32 = omega arith
number_of-small other = omega arith

field_number : (num k : ℕ) → k < 8 → (num * 8 + k) / 8 ≡ num
field_number num k h = omega arith

take-append : (v more : Bytes) → take (length v) (v ++ more) ≡ v
take-append [] more = refl
take-append (x ∷ v) more = ap (λ z. x ∷ z) (take-append v more)

length-append : (v more : Bytes) → length (v ++ more) ≡ length v + length more
length-append [] more = omega arith
length-append (x ∷ v) more = omega (arith, length-append v more)

leb-append : (v more : Bytes) → leb (length v) (length (v ++ more)) ≡ true
leb-append v more = ground (arith, length-append v more)

pub read_bytes-append :
    (v more : Bytes) → read_bytes ((length v ∷ v) ++ more) ≡ some (v, suc (length v))
read_bytes-append v more = rw (leb-append v more, take-append v more)

pub read_tag-append :
    (num : ℕ) (typ : WireType) (more : Bytes)
    → read_tag (((num * 8 + number_of typ) ∷ []) ++ more) ≡ some (num, typ, 1)
read_tag-append num typ more =
    rw (field_number num (number_of typ) (number_of-small typ), type_of-number_of num typ)

abbrev pub toy_encoder : Encoder toy
toy_encoder = record {
  tag = λ num typ. (num * 8 + number_of typ) ∷ [];
  field_bytes = λ v. length v ∷ v;
  field_varint = λ v. v ∷ [];
  tag_nonempty = λ num typ. refl;
  tag_read = λ num typ more positive small. read_tag-append num typ more;
  bytes_read = read_bytes-append;
  varint_read = λ v more h. refl;
}
