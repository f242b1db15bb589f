-- ===== src/Wire/Counted.antt =====
-- ProtoWriter counts the bytes that it writes (phaser/runtime/wireformat.h).
use phaser.Prelude.{ℕ, ◌+◌, ◌^◌, ◌<◌, ◌≡◌, refl, ap, sym, Bool, true, some}
use phaser.Wire.{ProtoBuffer, Result, ok, err, M}
use phaser.Wire.Ints.{IntType, varint, tag_size, varint_size}
use phaser.Wire.Write.{ProtoWriter, counted, finish_write, writer_varint, serialize_varint}
use phaser.Wire.Advance.{varint-addr}

-- A writer that has a buffer: what was written is what was counted.
counted-addr :
    (n : ℕ) (serialize : M (Unit {0})) (w w' : ProtoWriter) (b : ProtoBuffer)
    → ((b' : ProtoBuffer) → serialize b ≡ (b', ok tt) → b'.addr ≡ b.addr + n)
    → w.buffer ≡ some b
    → counted n serialize w ≡ (w', ok tt)
    → (b' : ProtoBuffer) × (w'.buffer ≡ some b') × (w'.size ≡ w.size + n) × (b'.addr ≡ b.addr + n)
unfolding counted finish_write
counted-addr n serialize w w' b wrote has h = from (serialize b) refl (rw has at h)
  where
    from :
        (x : ProtoBuffer × Result (Unit {0}))
        → serialize b ≡ x
        → finish_write w n x ≡ (w', ok tt)
        → (b' : ProtoBuffer) × (w'.buffer ≡ some b')
          × (w'.size ≡ w.size + n)
          × (b'.addr ≡ b.addr + n)
    from (b', ok r) e done =
        let same : (record { buffer = some b'; size = w.size + n }) ≡ w' =
          ap (λ (q : ProtoWriter × Result (Unit {0})). q.0) done in
        (
          b',
          sym (ap (λ (q : ProtoWriter). q.buffer) same),
          sym (ap (λ (q : ProtoWriter). q.size) same),
          wrote b' e,
        )
    from (b', err e') e done = cc

-- A ProtoWriter with a buffer that succeeds in writing a varint field, of a field number below 2 ^
-- 28, has advanced its buffer by exactly the bytes that it has counted: the tag's and the value's.
pub writer_varint-addr :
    (t : IntType) (signed : Bool) (field_number v : ℕ) (w w' : ProtoWriter) (b : ProtoBuffer)
    → field_number < 2 ^ 28
    → w.buffer ≡ some b
    → writer_varint t signed field_number v w ≡ (w', ok tt)
    → (b' : ProtoBuffer) × (w'.buffer ≡ some b')
      × (w'.size ≡ w.size + (tag_size field_number varint + varint_size t signed v))
      × (b'.addr ≡ b.addr + (tag_size field_number varint + varint_size t signed v))
unfolding writer_varint
writer_varint-addr t signed field_number v w w' b small has h =
    counted-addr (tag_size field_number varint + varint_size t signed v)
      (serialize_varint t signed true field_number v) w w' b
      (λ b' wrote. varint-addr t signed true field_number v b b' small wrote) has h
