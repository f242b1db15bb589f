-- ===== src/Fields/VectorRead.antt =====
-- Reading a PrimitiveVectorField from the wire (phaser/runtime/vectors.h). What was read before an error
-- stays in the vector.
use phaser.Prelude.{ℕ, zero, suc, ◌/◌, ◌%◌, Bool, ◌==◌, if◌then◌else◌}
use phaser.Prelude.{List, length}
use phaser.Memory.{Mem, write_bytes}
use phaser.Wire.{ProtoBuffer, Result, ok, err, Error, stuck, M, eof, fixed_buffer}
use phaser.Wire.Read.{
  deserialize_varint, deserialize_fixed32, deserialize_fixed64, deserialize_length_delimited,
}
use phaser.Ros.{little_endian_bytes}
use phaser.Fields.{
  Message, FieldLoc, FieldType, size_of, int_type, Outcome, done, threw, undefined, out_of_fuel,
  with_buffer,
}
use phaser.Fields.Vectors.{values_at}
use phaser.Fields.Change.{push_back, resize, then_do}

-- The status of a read: the wire format's, or that a packed field ends within a value.
pub data Status : Type 0 where
  success partial_element : Status
  failed : Error → Status

module _ (realloc : Mem → ℕ → ℕ → Mem) where
  -- A value that was read is pushed.
  abbrev pub push_read :
      Message
      → FieldLoc
      → FieldType
      → ProtoBuffer × Result ℕ
      → ProtoBuffer × (Outcome Message × Status)
  unfolding push_back
  push_read message loc t (b, ok v) =
      (b, (push_back realloc message loc (size_of t) (little_endian_bytes (size_of t) v), success))
  push_read message loc t (b, err e) = (b, (done message, failed e))

  -- The loop over the buffer of a packed field of varints.
  unfoldable pub read_packed :
      ℕ → Bool → Message → FieldLoc → FieldType → ProtoBuffer → Outcome Message × Status
  unfolding eof deserialize_varint push_back
  read_packed zero signed message loc t b = (done message, failed stuck)
  read_packed (suc fuel) signed message loc t b =
      let (b', (pushed, status)) =
        push_read message loc t (deserialize_varint (int_type t) signed b) in
      let more : Outcome Message × Status = elim pushed [
        | done message' ↦ read_packed fuel signed message' loc t b'
        | threw ↦ (threw, success)
        | undefined ↦ (undefined, success)
        | out_of_fuel ↦ (out_of_fuel, success)
      ] in
      if eof b then (done message, success) else elim status [
        | success ↦ more
        | partial_element ↦ (pushed, partial_element)
        | failed e ↦ (pushed, failed e)
      ]

  -- A packed field of values of a fixed size replaces the values. Where there is no address for them, the code
  -- copies to nullptr.
  unfoldable pub read_packed_fixed :
      Message → FieldLoc → FieldType → List ℕ → Outcome Message × Status
  unfolding resize values_at write_bytes
  read_packed_fixed message loc t bytes =
      let store : Message → Outcome Message = λ message.
        let b = message.runtime.pb in
        if length bytes == 0
        then done message
        else if values_at message loc (size_of t) == 0
        then undefined
        else done (
            with_buffer message (record b {
              bytes = write_bytes b.bytes (values_at message loc (size_of t)) bytes;
            })) in
      if length bytes % size_of t == 0
      then (
        then_do (resize realloc message loc (size_of t) (length bytes / size_of t)) store,
        success,
      )
      else (done message, partial_element)

  -- Deserialize
  unfoldable pub deserialize_vector :
      Bool
      → Bool
      → Bool
      → Message
      → FieldLoc
      → FieldType
      → ProtoBuffer
      → ProtoBuffer × (Outcome Message × Status)
  unfolding deserialize_length_delimited deserialize_fixed32 deserialize_fixed64 deserialize_varint
      read_packed read_packed_fixed fixed_buffer write_bytes
  deserialize_vector packed fixed_size signed message loc t b =
      let (b', data_read) = deserialize_length_delimited b in
      let fixed = if size_of t == 8 then deserialize_fixed64 else deserialize_fixed32 in
      let single : M ℕ = if fixed_size then fixed else deserialize_varint (int_type t) signed in
      if packed
      then elim data_read [
        | err e ↦ (b', (done message, failed e))
        | ok bytes ↦ (
          b',
          if fixed_size
              then read_packed_fixed message loc t bytes
              else read_packed (suc (length bytes)) signed message loc t
                  (fixed_buffer (write_bytes (λ p. 0) 0 bytes) (length bytes)),
        )
      ]
      else push_read message loc t (single b)
