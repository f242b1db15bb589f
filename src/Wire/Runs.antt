-- ===== src/Wire/Runs.antt =====
-- The wire format's theorems at concrete buffers.
use phaser.Prelude.{◌+◌, ◌^◌, ◌<◌, ◌≡◌, ◌≢◌, refl, arith, true, false}
use phaser.Memory.{store32, load32}
use phaser.Payload.{is_valid_magic, to_address}
use phaser.Wire.{ProtoBuffer, ok, err, stuck, dynamic_buffer, fixed_buffer, has_space_for}
use phaser.Wire.Ints.{
  int32, uint32, uint64, to_varint_wire, from_varint_wire, varint_size_loop,
  from_varint_wire-to_varint_wire,
}
use phaser.Wire.Write.{put_varint, put_byte, reserve, serialize_raw_varint}
use phaser.Prelude.{some}
use phaser.Wire.Ints.{varint, tag_size, make_tag, varint_size}
use phaser.Wire.Write.{
  ProtoWriter, writer_varint, counted, finish_write, serialize_varint, serialize_tag,
}
use phaser.Wire.Counted.{writer_varint-addr}
use phaser.Wire.Read.{
  deserialize_varint, deserialize_length_delimited, deserialize_fixed32, deserialize_fixed64,
  copy_raw, skip_tag, skip_varint,
}
use phaser.Wire.Varint.{Reads, deserialize_varint-serialize_raw_varint}
use phaser.Wire.Infer.{
  Span, phaser_format, infer_message_wire_format, is_structurally_valid_phaser, received,
  message_of, OffsetsFit, infer_message_wire_format-phaser, offsets_fail, free_list_fails,
  metadata_fails, bitmaps_fit,
}
use phaser.Wire.Bounds.{Advanced, skip_tag-Advanced, deserialize-Advanced, skip_varint-Finishes}

abbrev empty : ProtoBuffer
empty = dynamic_buffer 16

-- 300 takes two bytes.
abbrev full : ProtoBuffer
full = put_varint 9 300 empty

wrote : serialize_raw_varint uint32 false true 300 empty ≡ (full, ok tt)
unfolding serialize_raw_varint reserve has_space_for dynamic_buffer to_varint_wire varint_size_loop
wrote = refl

abbrev reader : ProtoBuffer
reader = record full { addr = 0 }

reader-Reads : Reads reader empty full
unfolding put_varint put_byte dynamic_buffer
reader-Reads = (refl, omega arith, λ p lo hi. refl)

deserialize_varint-serialize_raw_varint_example :
    deserialize_varint uint32 false reader ≡ (record reader { addr = full.addr }, ok 300)
deserialize_varint-serialize_raw_varint_example =
    deserialize_varint-serialize_raw_varint uint32 false true 300 empty full reader tt (omega arith)
      wrote reader-Reads

-- The value -3 of an int32_t.
from_varint_wire-to_varint_wire_example :
    (to_varint_wire int32 true 4294967293 < 2 ^ 64)
    × (from_varint_wire int32 true (to_varint_wire int32 true 4294967293) ≡ 4294967293)
from_varint_wire-to_varint_wire_example =
    from_varint_wire-to_varint_wire int32 true 4294967293 tt (omega arith)

abbrev header : Span
header = record {
  bytes =
      store32 (store32 (store32 (store32 (store32 (λ p. 0) 0 0x8448_5000) 4 40) 8 56) 12 256) 16 48;
  size = 64;
}

header-format : infer_message_wire_format header ≡ phaser_format
unfolding infer_message_wire_format is_structurally_valid_phaser offsets_fail free_list_fails
    metadata_fails bitmaps_fit load32 store32
header-format = refl

infer_message_wire_format-phaser_example :
    (is_valid_magic (received header) ≡ true)
    × OffsetsFit header
    × (to_address (received header) (message_of header) header.size 4 ≡ message_of header)
infer_message_wire_format-phaser_example = infer_message_wire_format-phaser header header-format

-- Nothing but continuation bytes.
abbrev endless : ProtoBuffer
endless = fixed_buffer (λ p. 255) 12

skip_tag-Advanced_example : Advanced endless (skip_tag 10 endless).0
unfolding fixed_buffer
skip_tag-Advanced_example = skip_tag-Advanced 10 endless (omega arith)

deserialize-Advanced_example :
    Advanced endless (deserialize_varint uint64 false endless).0
    × Advanced endless (deserialize_length_delimited endless).0
    × Advanced endless (copy_raw 13 endless).0
    × Advanced endless (deserialize_fixed32 endless).0
    × Advanced endless (deserialize_fixed64 endless).0
unfolding fixed_buffer
deserialize-Advanced_example = deserialize-Advanced uint64 false 13 endless (omega arith)

skip_varint-Finishes_example : (skip_varint endless).1 ≢ err stuck
unfolding fixed_buffer
skip_varint-Finishes_example = skip_varint-Finishes endless (omega arith)

-- Field 1 with the value 300, counted and written.
abbrev writer : ProtoWriter
writer = record { buffer = some empty; size = 0 }

abbrev writer_after : ProtoWriter
writer_after = (writer_varint uint32 false 1 300 writer).0

writer-wrote : writer_varint uint32 false 1 300 writer ≡ (writer_after, ok tt)
unfolding writer_varint counted finish_write serialize_varint serialize_tag serialize_raw_varint
    reserve has_space_for dynamic_buffer to_varint_wire varint_size_loop make_tag put_varint
    put_byte
writer-wrote = refl

writer_varint-addr_example :
    (b' : ProtoBuffer) × (writer_after.buffer ≡ some b')
    × (writer_after.size ≡ 0 + (tag_size 1 varint + varint_size uint32 false 300))
    × (b'.addr ≡ empty.addr + (tag_size 1 varint + varint_size uint32 false 300))
writer_varint-addr_example =
    writer_varint-addr uint32 false 1 300 writer writer_after empty (omega arith) refl writer-wrote
