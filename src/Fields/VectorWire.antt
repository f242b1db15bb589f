-- ===== src/Fields/VectorWire.antt =====
-- A PrimitiveVectorField on the wire (phaser/runtime/vectors.h), packed or not, with values of a fixed size or
-- varints. The values are given by their bits.
use phaser.Prelude.{ℕ, zero, suc, ◌+◌, ◌*◌, Bool, not, ◌==◌, if◌then◌else◌}
use phaser.Prelude.{List, [], ◌∷◌, length}
use phaser.Memory.{Mem, read_bytes}
use phaser.Wire.{M, pure, ◌>>◌}
use phaser.Wire.Ints.{
  IntType, WireType, varint, fixed32, fixed64, varint_size, tag_size, length_delimited_size,
}
use phaser.Wire.Write.{
  serialize_varint, serialize_raw_varint, serialize_fixed32, serialize_fixed64,
  serialize_length_delimited, serialize_length_delimited_header,
}
use phaser.Fields.{Message, FieldLoc, FieldType, size_of, int_type, load_value}
use phaser.Fields.Vectors.{size, values_at}

-- The values of the vector from `addr` on, as their bits.
unfoldable pub bits_from : Mem → ℕ → ℕ → ℕ → List ℕ
bits_from m t zero addr = []
bits_from m t (suc n) addr = load_value m addr t ∷ bits_from m t n (addr + t)

-- The loops that add up the sizes of varints, with and without their tags.
unfoldable pub varints_size : IntType → Bool → List ℕ → ℕ → ℕ
unfolding varint_size
varints_size i signed [] length = length
varints_size i signed (v ∷ vs) length = varints_size i signed vs (length + varint_size i signed v)

unfoldable pub tagged_size : IntType → Bool → ℕ → List ℕ → ℕ → ℕ
unfolding varint_size tag_size
tagged_size i signed number [] length = length
tagged_size i signed number (v ∷ vs) length =
    tagged_size i signed number vs (length + (tag_size number varint + varint_size i signed v))

abbrev pub fixed_wire_type : ℕ → WireType
fixed_wire_type t = if t == 8 then fixed64 else fixed32

-- SerializedSize of the values of a field, given whether there is an address for them.
unfoldable pub values_size : Bool → Bool → Bool → ℕ → FieldType → Bool → List ℕ → ℕ
unfolding length_delimited_size varints_size tagged_size tag_size
values_size packed fixed_size signed number t there vs =
    if length vs == 0
    then 0
    else if packed
    then (if fixed_size
        then length_delimited_size number (length vs * size_of t)
        else if there
        then length_delimited_size number (varints_size (int_type t) signed vs 0)
        else 0)
    else if fixed_size
    then length_delimited_size number
        (length vs * (tag_size number (fixed_wire_type (size_of t)) + size_of t))
    else if there
    then length_delimited_size number (tagged_size (int_type t) signed number vs 0)
    else 0

unfoldable pub vector_serialized_size : Bool → Bool → Bool → Message → FieldLoc → FieldType → ℕ
unfolding size values_at bits_from values_size
vector_serialized_size packed fixed_size signed message loc t =
    let base = values_at message loc (size_of t) in
    values_size packed fixed_size signed loc.number t (not (base == 0))
      (bits_from message.runtime.pb.bytes (size_of t) (size message loc (size_of t)) base)

-- The loops of Serialize.
unfoldable pub serialize_varints : IntType → Bool → Bool → List ℕ → M (Unit {0})
unfolding serialize_raw_varint
serialize_varints i signed check_space [] = pure tt
serialize_varints i signed check_space (v ∷ vs) =
    serialize_raw_varint i signed check_space v >> serialize_varints i signed check_space vs

unfoldable pub serialize_tagged : IntType → Bool → Bool → ℕ → List ℕ → M (Unit {0})
unfolding serialize_varint
serialize_tagged i signed check_space number [] = pure tt
serialize_tagged i signed check_space number (v ∷ vs) =
    serialize_varint i signed check_space number v
    >> serialize_tagged i signed check_space number vs

unfoldable pub serialize_fixed_each : ℕ → Bool → ℕ → List ℕ → M (Unit {0})
unfolding serialize_fixed32 serialize_fixed64
serialize_fixed_each t check_space number [] = pure tt
serialize_fixed_each t check_space number (v ∷ vs) =
    (if t == 8
      then serialize_fixed64 check_space number v
      else serialize_fixed32 check_space number v)
    >> serialize_fixed_each t check_space number vs

-- Packed values that are no varints are written as they are in memory, `raw`.
unfoldable pub serialize_values :
    Bool → Bool → Bool → Bool → ℕ → FieldType → Bool → List ℕ → List ℕ → M (Unit {0})
unfolding varints_size serialize_varints serialize_tagged serialize_fixed_each
    serialize_length_delimited serialize_length_delimited_header
serialize_values packed fixed_size signed check_space number t there vs raw =
    if length vs == 0
    then pure tt
    else if not there
    then pure tt
    else if packed
    then (if fixed_size
        then serialize_length_delimited check_space number raw
        else (serialize_length_delimited_header check_space number
              (varints_size (int_type t) signed vs 0)
            >> serialize_varints (int_type t) signed check_space vs))
    else if fixed_size
    then serialize_fixed_each (size_of t) check_space number vs
    else serialize_tagged (int_type t) signed check_space number vs

unfoldable pub serialize_vector :
    Bool → Bool → Bool → Bool → Message → FieldLoc → FieldType → M (Unit {0})
unfolding size values_at bits_from serialize_values read_bytes
serialize_vector packed fixed_size signed check_space message loc t =
    let base = values_at message loc (size_of t) in
    let n = size message loc (size_of t) in
    let m = message.runtime.pb.bytes in
    serialize_values packed fixed_size signed check_space loc.number t (not (base == 0))
      (bits_from m (size_of t) n base) (read_bytes m base (n * size_of t))
