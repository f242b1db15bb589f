-- ===== src/Fields/ArrayWire.antt =====
-- A PrimitiveArrayField on the wire (phaser/runtime/arrays.h): a repeated field, of no more values than the
-- array has. What was read before an error stays in the array.
use phaser.Prelude.{ℕ, zero, suc, ◌+◌, ◌*◌, ◌/◌, ◌%◌, Bool, true, false, not, ◌==◌, ltb, leb}
use phaser.Prelude.{if◌then◌else◌, List, [], ◌∷◌, length}
use phaser.Memory.{Mem, write_bytes, read_bytes}
use phaser.Wire.{ProtoBuffer, Result, ok, err, Error, stuck, M, pure, ◌>>◌, eof, fixed_buffer}
use phaser.Wire.Ints.{tag_size, length_delimited_size}
use phaser.Wire.Write.{serialize_length_delimited, serialize_length_delimited_header}
use phaser.Wire.Read.{
  deserialize_varint, deserialize_fixed32, deserialize_fixed64, deserialize_length_delimited,
}
use phaser.Ros.{little_endian_bytes}
use phaser.Fields.{
  Message, FieldLoc, FieldType, size_of, int_type, load_value, Outcome, done, threw, undefined,
  out_of_fuel, with_buffer,
}
use phaser.Fields.VectorWire.{
  varints_size, tagged_size, fixed_wire_type, serialize_varints, serialize_tagged,
  serialize_fixed_each,
}
use phaser.Fields.Arrays.{
  array_count, active_count, array_values, storage_pointer, get_at, set_active_count,
  ensure_storage,
}

-- The value that bytes are.
abbrev pub value_of : ℕ → List ℕ → ℕ
value_of t bytes = load_value (write_bytes (λ p. 0) 0 bytes) 0 t

-- GetAt of the indexes from `i` on.
unfoldable pub array_bits : Message → FieldLoc → ℕ → ℕ → ℕ → ℕ → List ℕ
unfolding get_at write_bytes
array_bits message loc n t zero i = []
array_bits message loc n t (suc left) i =
    value_of t (get_at message loc n t i) ∷ array_bits message loc n t left (i + 1)

-- SerializedSize
unfoldable pub array_size : Bool → Bool → Bool → ℕ → FieldType → List ℕ → ℕ
unfolding length_delimited_size varints_size tagged_size tag_size
array_size packed fixed_size signed number t vs =
    if length vs == 0
    then 0
    else if packed
    then length_delimited_size number
        (if fixed_size then length vs * size_of t else varints_size (int_type t) signed vs 0)
    else if fixed_size
    then length vs * (tag_size number (fixed_wire_type (size_of t)) + size_of t)
    else tagged_size (int_type t) signed number vs 0

unfoldable pub array_serialized_size : Bool → Bool → Bool → Message → FieldLoc → ℕ → FieldType → ℕ
unfolding array_size array_bits active_count
array_serialized_size packed fixed_size signed message loc n t =
    let size = active_count message loc n (size_of t) in
    array_size packed fixed_size signed loc.number t (array_bits message loc n (size_of t) size 0)

-- Serialize, of the values `vs` and, as they are in memory, `raw`.
unfoldable pub serialize_array_values :
    Bool → Bool → Bool → Bool → ℕ → FieldType → Bool → List ℕ → List ℕ → M (Unit {0})
unfolding varints_size serialize_varints serialize_tagged serialize_fixed_each
    serialize_length_delimited serialize_length_delimited_header
serialize_array_values packed fixed_size signed check_space number t there vs raw =
    if length vs == 0
    then pure tt
    else if packed
    then (if fixed_size
        then (if there then serialize_length_delimited check_space number raw else pure tt)
        else (serialize_length_delimited_header check_space number
              (varints_size (int_type t) signed vs 0)
            >> serialize_varints (int_type t) signed check_space vs))
    else if fixed_size
    then serialize_fixed_each (size_of t) check_space number vs
    else serialize_tagged (int_type t) signed check_space number vs

unfoldable pub serialize_array :
    Bool → Bool → Bool → Bool → Message → FieldLoc → ℕ → FieldType → M (Unit {0})
unfolding serialize_array_values array_bits active_count storage_pointer read_bytes
serialize_array packed fixed_size signed check_space message loc n t =
    let base = storage_pointer message loc (size_of t) in
    let size = active_count message loc n (size_of t) in
    serialize_array_values packed fixed_size signed check_space loc.number t (not (base == 0))
      (array_bits message loc n (size_of t) size 0)
      (read_bytes message.runtime.pb.bytes base (size * size_of t))

-- The status of a read: the wire format's, or what arrays report themselves.
pub data ArrayStatus : Type 0 where
  success partial_element overflow allocation_failed : ArrayStatus
  failed : Error → ArrayStatus

-- `if (!EnsureStorage(...)) return` with the error, and what is stored otherwise.
abbrev pub stored : Outcome (Message × Bool) → (Message → Message) → Outcome Message × ArrayStatus
stored (done (message, true)) k = (done (k message), success)
stored (done (message, false)) k = (done message, allocation_failed)
stored threw k = (threw, success)
stored undefined k = (undefined, success)
stored out_of_fuel k = (out_of_fuel, success)

-- What follows on a value that was stored.
abbrev pub go_on :
    Outcome Message × ArrayStatus
    → (Message → Outcome Message × ArrayStatus)
    → Outcome Message × ArrayStatus
go_on (done message, success) k = k message
go_on stopped k = stopped

-- Values stored from the index `parsed` on, after which there are `count`.
unfoldable pub store_parsed : FieldLoc → ℕ → ℕ → ℕ → List ℕ → Message → Message
unfolding array_values write_bytes set_active_count
store_parsed loc t parsed count bytes message =
    let b = message.runtime.pb in
    let base = array_values message loc t in
    set_active_count
      (with_buffer message (record b { bytes = write_bytes b.bytes (base + parsed * t) bytes })) loc
      count

module _ (realloc : Mem → ℕ → ℕ → Mem) where
  -- A value that was read becomes the value `parsed`.
  unfoldable pub store_read :
      Message → FieldLoc → FieldType → ℕ → Result ℕ → Outcome Message × ArrayStatus
  unfolding ensure_storage store_parsed
  store_read message loc t parsed (err e) = (done message, failed e)
  store_read message loc t parsed (ok v) =
      stored (ensure_storage realloc message loc (size_of t) (parsed + 1))
        (store_parsed loc (size_of t) parsed (parsed + 1) (little_endian_bytes (size_of t) v))

  -- The loop over the buffer of a packed field of varints.
  unfoldable pub read_varints :
      ℕ
      → Bool
      → Message
      → FieldLoc
      → ℕ
      → FieldType
      → ℕ
      → ProtoBuffer
      → Outcome Message × ArrayStatus
  unfolding eof deserialize_varint store_read
  read_varints zero signed message loc n t parsed b = (done message, failed stuck)
  read_varints (suc fuel) signed message loc n t parsed b =
      let (b', value) = deserialize_varint (int_type t) signed b in
      let more =
        go_on (store_read message loc t parsed value)
          λ message. read_varints fuel signed message loc n t (parsed + 1) b' in
      if eof b
      then (done message, success)
      else if leb n parsed
      then (done message, overflow)
      else more

  -- The payload of a packed field.
  unfoldable pub read_payload :
      Bool → Bool → Message → FieldLoc → ℕ → FieldType → List ℕ → Outcome Message × ArrayStatus
  unfolding array_count ensure_storage store_parsed read_varints fixed_buffer write_bytes
  read_payload fixed_size signed message loc n t bytes =
      let parsed = array_count message loc (size_of t) in
      let count = length bytes / size_of t in
      let whole = if fixed_size then length bytes % size_of t == 0 else true in
      if not whole
      then (done message, partial_element)
      else if ltb n (parsed + count)
      then (done message, overflow)
      else if fixed_size
      then stored (ensure_storage realloc message loc (size_of t) n)
          (store_parsed loc (size_of t) parsed (parsed + count) bytes)
      else read_varints (suc (length bytes)) signed message loc n t parsed
          (fixed_buffer (write_bytes (λ p. 0) 0 bytes) (length bytes))

  -- Deserialize
  unfoldable pub deserialize_array :
      Bool
      → Bool
      → Bool
      → Message
      → FieldLoc
      → ℕ
      → FieldType
      → ProtoBuffer
      → ProtoBuffer × (Outcome Message × ArrayStatus)
  unfolding array_count deserialize_length_delimited deserialize_fixed32 deserialize_fixed64
      deserialize_varint read_payload store_read
  deserialize_array packed fixed_size signed message loc n t b =
      let parsed = array_count message loc (size_of t) in
      let (b', payload) = deserialize_length_delimited b in
      let fixed = if size_of t == 8 then deserialize_fixed64 else deserialize_fixed32 in
      let single : M ℕ = if fixed_size then fixed else deserialize_varint (int_type t) signed in
      let (b1, value) = single b in
      if packed
      then elim payload [
        | err e ↦ (b', (done message, failed e))
        | ok bytes ↦ (b', read_payload fixed_size signed message loc n t bytes)
      ]
      else if leb n parsed
      then (b, (done message, overflow))
      else (b1, store_read message loc t parsed value)
