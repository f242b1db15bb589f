-- ===== src/Fields/Scalar.antt =====
-- Primitive and enum fields (phaser/runtime/fields.h): DEFINE_PRIMITIVE_FIELD and EnumField, whose
-- underlying type is int32_t.
use phaser.Prelude.{ℕ, ◌+◌, ◌%◌, ◌^◌, Bool, ◌==◌, if◌then◌else◌, none, some}
use phaser.Message.{runtime_to_address}
use phaser.Wire.{ProtoBuffer, Result, ok, err, M}
use phaser.Wire.Ints.{varint, fixed32, fixed64, tag_size, varint_size}
use phaser.Wire.Write.{serialize_varint, serialize_fixed32, serialize_fixed64}
use phaser.Wire.Read.{deserialize_varint, deserialize_fixed32, deserialize_fixed64}
use phaser.Fields.{
  Message, FieldLoc, Outcome, FieldType, size_of, int_type, load_value, find_field_offset,
  find_field_id, is_present_bit, store_value, clear_value,
}

-- Get
unfoldable pub get : Message → FieldLoc → FieldType → ℕ
unfolding find_field_offset runtime_to_address
get message loc t = elim (find_field_offset message loc) [
  | none ↦ 0
  | some offset ↦
      let addr =
        runtime_to_address message.runtime ((message.start + offset) % 2 ^ 32) (size_of t) in
      if addr == 0 then 0 else load_value message.runtime.pb.bytes addr (size_of t)
]

-- IsPresent
unfoldable pub is_present : Message → FieldLoc → Bool
unfolding find_field_id is_present_bit
is_present message loc = is_present_bit message (find_field_id message loc)

-- Set and Clear
unfoldable pub set : Message → FieldLoc → FieldType → ℕ → Outcome Message
unfolding store_value
set message loc t v = store_value message loc t v

unfoldable pub clear : Message → FieldLoc → Outcome Message
unfolding clear_value
clear message loc = clear_value message loc

-- Assign, from a field of the same type in a message `other`.
unfoldable pub assign : Message → FieldLoc → FieldType → Message → FieldLoc → Outcome Message
unfolding is_present get set clear
assign message loc t other other_loc =
    if is_present other other_loc
    then set message loc t (get other other_loc t)
    else clear message loc

-- SerializedSize, of a field with FixedSize or without.
unfoldable pub serialized_size : Bool → Bool → Message → FieldLoc → FieldType → ℕ
unfolding get
serialized_size fixed_size signed message loc t =
    let value = get message loc t in
    let wire_type = if size_of t == 8 then fixed64 else fixed32 in
    if fixed_size
    then tag_size loc.number wire_type + size_of t
    else tag_size loc.number varint + varint_size (int_type t) signed value

-- Serialize
unfoldable pub serialize : Bool → Bool → Bool → Message → FieldLoc → FieldType → M (Unit {0})
unfolding get
serialize fixed_size signed check_space message loc t =
    let value = get message loc t in
    if fixed_size
    then (if size_of t == 8
        then serialize_fixed64 check_space loc.number value
        else serialize_fixed32 check_space loc.number value)
    else serialize_varint (int_type t) signed check_space loc.number value

-- Deserialize: the buffer, and the message where a value was read.
unfoldable pub deserialize :
    Bool
    → Bool
    → Message
    → FieldLoc
    → FieldType
    → ProtoBuffer
    → ProtoBuffer × Result (Outcome Message)
unfolding set
deserialize fixed_size signed message loc t b =
    let read : M ℕ =
      if fixed_size
      then (if size_of t == 8 then deserialize_fixed64 else deserialize_fixed32)
      else deserialize_varint (int_type t) signed in
    let (b', value) = read b in
    elim value [ ok v ↦ (b', ok (set message loc t v)) | err e ↦ (b', err e) ]
