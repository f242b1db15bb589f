-- ===== src/Wire/Write.antt =====
-- The serializers of ProtoBuffer, and ProtoMessageWriter and ProtoWriter over them
-- (phaser/runtime/wireformat.h).
use phaser.Prelude.{ℕ, zero, suc, ◌+◌, ◌-◌, ◌/◌, ◌%◌, ◌^◌, Bool, true, false, ltb, if◌then◌else◌}
use phaser.Prelude.{List, Option, none, some, length}
use phaser.Memory.{store8, store32, store64, write_bytes}
use phaser.Wire.{ProtoBuffer, Result, ok, err, M, pure, ◌>>◌, has_space_for}
use phaser.Wire.Ints.{
  IntType, int32, uint32, WireType, varint, fixed32, fixed64, length_delimited, to_varint_wire,
  varint_size, varint_size_loop, make_tag, tag_size, length_delimited_size,
}

-- `*addr_++ = c`
unfoldable pub put_byte : ProtoBuffer → ℕ → ProtoBuffer
put_byte b c = record b { bytes = store8 b.bytes b.addr c; addr = b.addr + 1 }

-- The loop of SerializeRawVarint: seven bits a byte, lowest first, bit 7 set on all but the last.
unfoldable pub put_varint : ℕ → ℕ → ProtoBuffer → ProtoBuffer
put_varint zero uvalue b = put_byte b uvalue
put_varint (suc fuel) uvalue b =
    let rest = put_varint fuel (uvalue / 128) (put_byte b (uvalue % 128 + 128)) in
    if ltb uvalue 128 then put_byte b uvalue else rest

-- Reserve<kCheckSpace>
unfoldable pub reserve : Bool → ℕ → M (Unit {0})
reserve check_space n = if check_space then has_space_for n else pure tt

unfoldable pub serialize_raw_varint : IntType → Bool → Bool → ℕ → M (Unit {0})
serialize_raw_varint t signed check_space v = do
  reserve check_space (varint_size_loop 9 (to_varint_wire t signed v) 0)
  λ b. (put_varint 9 (to_varint_wire t signed v) b, ok tt)

unfoldable pub serialize_tag : Bool → ℕ → WireType → M (Unit {0})
serialize_tag check_space field_number wire_type =
    serialize_raw_varint uint32 false check_space (make_tag field_number wire_type % 2 ^ 32)

unfoldable pub serialize_varint : IntType → Bool → Bool → ℕ → ℕ → M (Unit {0})
serialize_varint t signed check_space field_number v =
    serialize_tag check_space field_number varint >> serialize_raw_varint t signed check_space v

-- SerializeFixed of a 4-byte or 8-byte value.
unfoldable pub serialize_fixed32 : Bool → ℕ → ℕ → M (Unit {0})
serialize_fixed32 check_space field_number v =
    serialize_tag check_space field_number fixed32 >> reserve check_space 4 >> λ b.
    (record b { bytes = store32 b.bytes b.addr v; addr = b.addr + 4 }, ok tt)

unfoldable pub serialize_fixed64 : Bool → ℕ → ℕ → M (Unit {0})
serialize_fixed64 check_space field_number v =
    serialize_tag check_space field_number fixed64 >> reserve check_space 8 >> λ b.
    (record b { bytes = store64 b.bytes b.addr v; addr = b.addr + 8 }, ok tt)

-- memcpy(addr_, data, length); addr_ += length
unfoldable pub put_bytes : List ℕ → M (Unit {0})
put_bytes xs b =
    (record b { bytes = write_bytes b.bytes b.addr xs; addr = b.addr + length xs }, ok tt)

unfoldable pub serialize_length_delimited_header : Bool → ℕ → ℕ → M (Unit {0})
serialize_length_delimited_header check_space field_number n =
    serialize_tag check_space field_number length_delimited
    >> serialize_raw_varint int32 false check_space (n % 2 ^ 32)

unfoldable pub serialize_length_delimited : Bool → ℕ → List ℕ → M (Unit {0})
serialize_length_delimited check_space field_number xs =
    serialize_tag check_space field_number length_delimited
    >> serialize_raw_varint int32 false check_space (length xs % 2 ^ 32)
    >> reserve check_space (length xs)
    >> put_bytes xs

unfoldable pub serialize_raw : List ℕ → M (Unit {0})
serialize_raw xs = has_space_for (length xs) >> put_bytes xs

-- ProtoWriter: it writes to a buffer if it has one, and counts the bytes.
pub record ProtoWriter : Type 0 where
  pub buffer : Option ProtoBuffer
  pub size : ℕ

unfoldable pub finish_write :
    ProtoWriter → ℕ → ProtoBuffer × Result (Unit {0}) → ProtoWriter × Result (Unit {0})
finish_write w bytes (b, ok r) = (record { buffer = some b; size = w.size + bytes }, ok r)
finish_write w bytes (b, err e) = (record w { buffer = some b }, err e)

-- Each serializer of ProtoWriter: `bytes` are counted once the buffer's serializer has succeeded.
unfoldable pub counted : ℕ → M (Unit {0}) → ProtoWriter → ProtoWriter × Result (Unit {0})
counted bytes serialize w = elim (w.buffer) [
  | none ↦ (record w { size = w.size + bytes }, ok tt)
  | some b ↦ finish_write w bytes (serialize b)
]

unfoldable pub writer_varint :
    IntType → Bool → ℕ → ℕ → ProtoWriter → ProtoWriter × Result (Unit {0})
writer_varint t signed field_number v =
    counted (tag_size field_number varint + varint_size t signed v)
      (serialize_varint t signed true field_number v)

unfoldable pub writer_raw_varint :
    IntType → Bool → ℕ → ProtoWriter → ProtoWriter × Result (Unit {0})
writer_raw_varint t signed v =
    counted (varint_size t signed v) (serialize_raw_varint t signed true v)

unfoldable pub writer_fixed32 : ℕ → ℕ → ProtoWriter → ProtoWriter × Result (Unit {0})
writer_fixed32 field_number v =
    counted (tag_size field_number fixed32 + 4) (serialize_fixed32 true field_number v)

unfoldable pub writer_fixed64 : ℕ → ℕ → ProtoWriter → ProtoWriter × Result (Unit {0})
writer_fixed64 field_number v =
    counted (tag_size field_number fixed64 + 8) (serialize_fixed64 true field_number v)

unfoldable pub writer_length_delimited : ℕ → List ℕ → ProtoWriter → ProtoWriter × Result (Unit {0})
writer_length_delimited field_number xs =
    counted (length_delimited_size field_number (length xs))
      (serialize_length_delimited true field_number xs)

unfoldable pub writer_length_delimited_header :
    ℕ → ℕ → ProtoWriter → ProtoWriter × Result (Unit {0})
writer_length_delimited_header field_number n =
    counted (length_delimited_size field_number n - n)
      (serialize_length_delimited_header true field_number n)

unfoldable pub writer_raw : List ℕ → ProtoWriter → ProtoWriter × Result (Unit {0})
writer_raw xs = counted (length xs) (serialize_raw xs)
