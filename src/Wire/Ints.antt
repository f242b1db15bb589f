-- ===== src/Wire/Ints.antt =====
-- ZigZag, ZagZig, ToVarintWire, the varint sizes and the tags (phaser/runtime/wireformat.h).
-- A value of a w-bit integer type is its bit pattern, below 2 ^ w.
use phaser.Prelude.{ℕ, zero, suc, ◌+◌, ◌-◌, ◌*◌, ◌/◌, ◌%◌, ◌^◌, ◌<◌, ◌≡◌, arith}
use phaser.Prelude.{Bool, true, false, ltb, ◌==◌, if◌then◌else◌}

-- The integer types that the templates are used with.
pub data IntType : Type 0 where
  bool int32 int64 uint32 uint64 : IntType

abbrev pub width : IntType → ℕ
width bool = 8
width int32 = 32
width int64 = 64
width uint32 = 32
width uint64 = 64

-- A value of the type: the bit pattern, and 0 or 1 for bool.
abbrev pub IsValue : IntType → ℕ → Type 0
IsValue bool v = v < 2
IsValue int32 v = v < 2 ^ 32
IsValue int64 v = v < 2 ^ 64
IsValue uint32 v = v < 2 ^ 32
IsValue uint64 v = v < 2 ^ 64

-- `x ^ U(-flag)` for a flag of 0 or 1: -1 has all bits set, so each bit of `x` is flipped.
abbrev pub xor_all : ℕ → ℕ → ℕ → ℕ
xor_all w x flag = if flag == 0 then x else 2 ^ w - 1 - x

unfoldable pub zig_zag : ℕ → ℕ → ℕ
zig_zag w u = xor_all w (u * 2 % 2 ^ w) (u / 2 ^ (w - 1))

unfoldable pub zag_zig : ℕ → ℕ → ℕ
zag_zig w u = xor_all w (u / 2) (u % 2)

-- static_cast<uint64_t> of a signed w-bit value.
abbrev pub sign_extend : ℕ → ℕ → ℕ
sign_extend w u = if ltb u (2 ^ (w - 1)) then u else u + (2 ^ 64 - 2 ^ w)

-- ToVarintWire<T, Signed>; Signed is used with the signed types.
unfoldable pub to_varint_wire : IntType → Bool → ℕ → ℕ
to_varint_wire t true v = sign_extend (width t) (zig_zag (width t) v)
to_varint_wire bool false v = v % 256
to_varint_wire int32 false v = sign_extend 32 v
to_varint_wire int64 false v = v
to_varint_wire uint32 false v = v
to_varint_wire uint64 false v = v

-- The conversions at the end of DeserializeVarint<T, Signed>.
unfoldable pub from_varint_wire : IntType → Bool → ℕ → ℕ
from_varint_wire bool signed value = if value == 0 then 0 else 1
from_varint_wire int32 signed value = if signed then zag_zig 32 (value % 2 ^ 32) else value % 2 ^ 32
from_varint_wire int64 signed value = if signed then zag_zig 64 value else value
from_varint_wire uint32 signed value =
    if signed then zag_zig 32 (value % 2 ^ 32) else value % 2 ^ 32
from_varint_wire uint64 signed value = if signed then zag_zig 64 value else value

-- The loop of VarintSize: a uint64_t has no more than ten groups of seven bits.
unfoldable pub varint_size_loop : ℕ → ℕ → ℕ → ℕ
varint_size_loop zero uvalue size = size + 1
varint_size_loop (suc fuel) uvalue size =
    let rest = varint_size_loop fuel (uvalue / 128) (size + 1) in
    if ltb uvalue 128 then size + 1 else rest

unfoldable pub varint_size : IntType → Bool → ℕ → ℕ
varint_size t signed v = varint_size_loop 9 (to_varint_wire t signed v) 0

pub data WireType : Type 0 where
  varint fixed64 length_delimited start_group end_group fixed32 : WireType

abbrev pub wire_code : WireType → ℕ
wire_code varint = 0
wire_code fixed64 = 1
wire_code length_delimited = 2
wire_code start_group = 3
wire_code end_group = 4
wire_code fixed32 = 5

-- MakeTag, `(field_number << 3) | wire_type`, for a field number in protobuf's range (below 2 ^ 29).
unfoldable pub make_tag : ℕ → WireType → ℕ
make_tag field_number wire_type = field_number * 8 + wire_code wire_type

-- TagSize goes through int32_t.
unfoldable pub tag_size : ℕ → WireType → ℕ
tag_size field_number wire_type = varint_size int32 false (make_tag field_number wire_type % 2 ^ 32)

unfoldable pub length_delimited_size : ℕ → ℕ → ℕ
length_delimited_size field_number length =
    tag_size field_number length_delimited + varint_size int32 false (length % 2 ^ 32) + length

zag_zig-zig_zag32 : (u : ℕ) → u < 2 ^ 32 → (zag_zig 32 (zig_zag 32 u) ≡ u) × (zig_zag 32 u < 2 ^ 32)
unfolding zag_zig zig_zag
zag_zig-zig_zag32 u h = ground arith

zag_zig-zig_zag64 : (u : ℕ) → u < 2 ^ 64 → (zag_zig 64 (zig_zag 64 u) ≡ u) × (zig_zag 64 u < 2 ^ 64)
unfolding zag_zig zig_zag
zag_zig-zig_zag64 u h = ground arith

-- The types that the Signed wire form (sint32, sint64) is used with.
abbrev pub IsSigned : IntType → Bool → Type 0
IsSigned t false = Unit {0}
IsSigned bool true = ⊥
IsSigned int32 true = Unit {0}
IsSigned int64 true = Unit {0}
IsSigned uint32 true = ⊥
IsSigned uint64 true = ⊥

-- What is put on the wire for a value of any integer type fits in 64 bits and is read as that
-- value: ZagZig undoes ZigZag, and the sign extension is cut off.
pub from_varint_wire-to_varint_wire :
    (t : IntType) (signed : Bool) (v : ℕ)
    → IsSigned t signed
    → IsValue t v
    → (to_varint_wire t signed v < 2 ^ 64)
      × (from_varint_wire t signed (to_varint_wire t signed v) ≡ v)
unfolding to_varint_wire from_varint_wire
from_varint_wire-to_varint_wire bool false v s h = ground arith
from_varint_wire-to_varint_wire int32 false v s h = ground arith
from_varint_wire-to_varint_wire int64 false v s h = ground arith
from_varint_wire-to_varint_wire uint32 false v s h = ground arith
from_varint_wire-to_varint_wire uint64 false v s h = ground arith
from_varint_wire-to_varint_wire bool true v s h = absurd s
from_varint_wire-to_varint_wire int32 true v s h =
    let (e, lt) = zag_zig-zig_zag32 v h in
    let low : sign_extend 32 (zig_zag 32 v) % 2 ^ 32 ≡ zig_zag 32 v = ground arith in
    (ground arith, rw low e)
from_varint_wire-to_varint_wire int64 true v s h =
    let (e, lt) = zag_zig-zig_zag64 v h in
    let same : sign_extend 64 (zig_zag 64 v) ≡ zig_zag 64 v = ground arith in
    (ground arith, rw same e)
from_varint_wire-to_varint_wire uint32 true v s h = absurd s
from_varint_wire-to_varint_wire uint64 true v s h = absurd s
