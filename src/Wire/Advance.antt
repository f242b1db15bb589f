-- ===== src/Wire/Advance.antt =====
-- By how much each serializer of ProtoBuffer that succeeds advances the buffer (phaser/runtime/wireformat.h).
use phaser.Prelude.{ℕ, ◌+◌, ◌%◌, ◌^◌, ◌<◌, ◌≡◌, arith, ap, Bool, false, List, length}
use phaser.Wire.{ProtoBuffer, Result, ok, ◌>>◌, and_then-eq-ok}
use phaser.Wire.Ints.{
  IntType, int32, uint32, WireType, varint, fixed64, length_delimited, start_group, end_group,
  fixed32, make_tag, tag_size, sign_extend, to_varint_wire, varint_size, varint_size_loop,
  length_delimited_size,
}
use phaser.Wire.Write.{
  serialize_varint, serialize_tag, serialize_raw_varint, put_varint, put_bytes, reserve,
  serialize_fixed32, serialize_fixed64, serialize_length_delimited_header,
  serialize_length_delimited,
}
use phaser.Wire.Varint.{serialize_raw_varint-eq-ok, put_varint-size, reserve-addr}

pub raw_varint-addr :
    (t : IntType) (signed check_space : Bool) (v : ℕ) (b b' : ProtoBuffer)
    → serialize_raw_varint t signed check_space v b ≡ (b', ok tt)
    → b'.addr ≡ b.addr + varint_size t signed v
unfolding varint_size
raw_varint-addr t signed check_space v b b' wrote =
    let (b1, at, room, f) = serialize_raw_varint-eq-ok t signed check_space v b b' wrote in
    let size = put_varint-size 9 (to_varint_wire t signed v) b1 in
    let end : b'.addr ≡ (put_varint 9 (to_varint_wire t signed v) b1).addr =
      ap (λ (q : ProtoBuffer). q.addr) f in
    omega (arith, size.0)

-- The int32_t tag that is sized is the uint32_t tag that is written, for the field numbers whose tags
-- are below 2 ^ 31.
same_size :
    (tag : ℕ)
    → tag < 2 ^ 31
    → varint_size int32 false (tag % 2 ^ 32) ≡ varint_size uint32 false (tag % 2 ^ 32)
unfolding varint_size to_varint_wire
same_size tag h =
    let low : sign_extend 32 (tag % 2 ^ 32) ≡ tag % 2 ^ 32 = ground arith in
    ap (λ u. varint_size_loop 9 u 0) low

low_tag : (n : ℕ) (w : WireType) → n < 2 ^ 28 → make_tag n w < 2 ^ 31
unfolding make_tag
low_tag n varint h = omega arith
low_tag n fixed64 h = omega arith
low_tag n length_delimited h = omega arith
low_tag n start_group h = omega arith
low_tag n end_group h = omega arith
low_tag n fixed32 h = omega arith

-- Both halves of what each lemma below needs.
module _ (check_space : Bool) (n : ℕ) (small : n < 2 ^ 28) (b b' : ProtoBuffer) where
  pub tag-addr :
      (w : WireType)
      → serialize_tag check_space n w b ≡ (b', ok tt)
      → b'.addr ≡ b.addr + tag_size n w
  unfolding serialize_tag tag_size
  tag-addr w wrote = omega (
    arith,
    raw_varint-addr uint32 false check_space (make_tag n w % 2 ^ 32) b b' wrote,
    same_size (make_tag n w) (low_tag n w small),
  )

pub varint-addr :
    (t : IntType) (signed check_space : Bool) (n v : ℕ) (b b' : ProtoBuffer)
    → n < 2 ^ 28
    → serialize_varint t signed check_space n v b ≡ (b', ok tt)
    → b'.addr ≡ b.addr + (tag_size n varint + varint_size t signed v)
unfolding serialize_varint
varint-addr t signed check_space n v b b' h wrote =
    let (b1, u, first, second) =
      and_then-eq-ok (serialize_tag check_space n varint b)
        (λ _. serialize_raw_varint t signed check_space v) wrote in
    omega (
      arith,
      tag-addr check_space n h b b1 varint first,
      raw_varint-addr t signed check_space v b1 b' second,
    )

module _ (check_space : Bool) (n : ℕ) (small : n < 2 ^ 28) (b b' : ProtoBuffer) where
  pub fixed32-addr :
      (v : ℕ)
      → serialize_fixed32 check_space n v b ≡ (b', ok tt)
      → b'.addr ≡ b.addr + (tag_size n fixed32 + 4)
  unfolding serialize_fixed32
  fixed32-addr v wrote =
      let (b2, u', rest, end) =
        and_then-eq-ok ((serialize_tag check_space n fixed32 >> reserve check_space 4) b) _ wrote in
      let (b1, u, first, room) =
        and_then-eq-ok (serialize_tag check_space n fixed32 b) (λ _. reserve check_space 4) rest in
      let last : b2.addr + 4 ≡ b'.addr =
        ap (λ (q : ProtoBuffer × Result (Unit {0})). q.0.addr) end in
      omega (
        arith,
        tag-addr check_space n small b b1 fixed32 first,
        reserve-addr check_space 4 b1 b2 room,
        last,
      )

  pub fixed64-addr :
      (v : ℕ)
      → serialize_fixed64 check_space n v b ≡ (b', ok tt)
      → b'.addr ≡ b.addr + (tag_size n fixed64 + 8)
  unfolding serialize_fixed64
  fixed64-addr v wrote =
      let (b2, u', rest, end) =
        and_then-eq-ok ((serialize_tag check_space n fixed64 >> reserve check_space 8) b) _ wrote in
      let (b1, u, first, room) =
        and_then-eq-ok (serialize_tag check_space n fixed64 b) (λ _. reserve check_space 8) rest in
      let last : b2.addr + 8 ≡ b'.addr =
        ap (λ (q : ProtoBuffer × Result (Unit {0})). q.0.addr) end in
      omega (
        arith,
        tag-addr check_space n small b b1 fixed64 first,
        reserve-addr check_space 8 b1 b2 room,
        last,
      )

  pub header-addr :
      (len : ℕ)
      → serialize_length_delimited_header check_space n len b ≡ (b', ok tt)
      → b'.addr + len ≡ b.addr + length_delimited_size n len
  unfolding serialize_length_delimited_header length_delimited_size
  header-addr len wrote =
      let (b1, u, first, second) =
        and_then-eq-ok (serialize_tag check_space n length_delimited b) _ wrote in
      omega (
        arith,
        tag-addr check_space n small b b1 length_delimited first,
        raw_varint-addr int32 false check_space (len % 2 ^ 32) b1 b' second,
      )

  pub delimited-addr :
      (xs : List ℕ)
      → serialize_length_delimited check_space n xs b ≡ (b', ok tt)
      → b'.addr ≡ b.addr + length_delimited_size n (length xs)
  unfolding serialize_length_delimited length_delimited_size put_bytes
  delimited-addr xs wrote =
      let tag = serialize_tag check_space n length_delimited in
      let size = serialize_raw_varint int32 false check_space (length xs % 2 ^ 32) in
      let (b3, u'', rest', end) =
        and_then-eq-ok ((tag >> size >> reserve check_space (length xs)) b) _ wrote in
      let (b2, u', rest, room) =
        and_then-eq-ok ((tag >> size) b) (λ _. reserve check_space (length xs)) rest' in
      let (b1, u, first, second) = and_then-eq-ok (tag b) (λ _. size) rest in
      let last : b3.addr + length xs ≡ b'.addr =
        ap (λ (q : ProtoBuffer × Result (Unit {0})). q.0.addr) end in
      omega (
        arith,
        tag-addr check_space n small b b1 length_delimited first,
        raw_varint-addr int32 false check_space (length xs % 2 ^ 32) b1 b2 second,
        reserve-addr check_space (length xs) b2 b3 room,
        last,
      )
