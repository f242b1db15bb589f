-- ===== src/Wire/Read.antt =====
-- The deserializers of ProtoBuffer (phaser/runtime/wireformat.h).
use phaser.Prelude.{ℕ, zero, suc, ◌+◌, ◌-◌, ◌*◌, ◌%◌, ◌^◌, Bool, false, ltb, ◌==◌, if◌then◌else◌}
use phaser.Prelude.{List}
use phaser.Memory.{load32, load64, read_bytes}
use phaser.Wire.{
  ok, M, pure, fail, ◌>>=◌, ◌>>◌, check, advance, unsupported_wire_type, varint_too_long, stuck,
}
use phaser.Wire.Ints.{IntType, int32, uint32, from_varint_wire, sign_extend}

-- `*addr_++`
unfoldable pub take_byte : M ℕ
take_byte b = (record b { addr = b.addr + 1 }, ok (b.bytes b.addr))

-- The loop of DeserializeVarint with `rounds` rounds left, and `value` read so far. The groups have
-- no bit in common, so that `|=` adds; the shift by 63 keeps one bit.
unfoldable pub read_varint : ℕ → ℕ → ℕ → M ℕ
read_varint zero shift value = fail varint_too_long
read_varint (suc rounds) shift value =
    let more = read_varint rounds (shift + 7) in
    do
      check 1
      byte ← take_byte
      let value' = value + byte % 128 * 2 ^ shift % 2 ^ 64
      let rest = more value'
      if ltb byte 128 then pure value' else rest

-- `for (int shift = 0; shift < 64; shift += 7)` has ten rounds.
unfoldable pub deserialize_varint : IntType → Bool → M ℕ
deserialize_varint t signed = do value ← read_varint 10 0 0; pure (from_varint_wire t signed value)

unfoldable pub deserialize_tag : M ℕ
deserialize_tag = deserialize_varint uint32 false

-- SkipVarint, with the bytes that are left for its fuel.
unfoldable pub skip_varint_loop : ℕ → M (Unit {0})
skip_varint_loop zero = fail stuck
skip_varint_loop (suc fuel) = do
  check 1
  byte ← take_byte
  let rest = skip_varint_loop fuel
  if ltb byte 128 then pure tt else rest

unfoldable pub skip_varint : M (Unit {0})
skip_varint b = skip_varint_loop (suc (b.end - b.addr)) b

-- SkipTag: a wire type above 5 is no enumerator, and the switch does nothing.
unfoldable pub skip_tag : ℕ → M (Unit {0})
skip_tag tag =
    let wire_type = tag % 8 in
    let skip_delimited = deserialize_varint uint32 false >>= λ n. check n >> advance n in
    if wire_type == 0
    then skip_varint
    else if wire_type == 1
    then (check 8 >> advance 8)
    else if wire_type == 2
    then skip_delimited
    else if wire_type == 3
    then fail unsupported_wire_type
    else if wire_type == 4
    then fail unsupported_wire_type
    else if wire_type == 5
    then (check 4 >> advance 4)
    else pure tt

unfoldable pub deserialize_fixed32 : M ℕ
deserialize_fixed32 = check 4 >> λ b. (record b { addr = b.addr + 4 }, ok (load32 b.bytes b.addr))

unfoldable pub deserialize_fixed64 : M ℕ
deserialize_fixed64 = check 8 >> λ b. (record b { addr = b.addr + 8 }, ok (load64 b.bytes b.addr))

-- `len` bytes as a span or a copy.
unfoldable pub take_bytes : ℕ → M (List ℕ)
take_bytes len b = (record b { addr = b.addr + len }, ok (read_bytes b.bytes b.addr len))

-- DeserializeLengthDelimited and DeserializeString: the int32_t length becomes a size_t.
unfoldable pub deserialize_length_delimited : M (List ℕ)
deserialize_length_delimited = do
  length ← deserialize_varint int32 false
  let len = sign_extend 32 length
  check len
  take_bytes len

unfoldable pub copy_raw : ℕ → M (List ℕ)
copy_raw length = check length >> take_bytes length
