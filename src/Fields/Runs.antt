-- ===== src/Fields/Runs.antt =====
-- The theorems on fields at concrete messages.
use phaser.Prelude.{ℕ, ◌+◌, ◌-◌, ◌^◌, ◌≤◌, ◌≡◌, ◌≢◌, refl, inl, arith, true, false}
use phaser.Prelude.{List, [], ◌∷◌, some}
use phaser.Memory.{Mem, read_bytes, write_bytes, load32, load64, store8, store32, store64}
use phaser.Memory.Words.{Apart}
use phaser.Payload.{is_valid_magic, new_buffer, init_free_list}
use phaser.Payload.Vectors.{num_elements, block_capacity}
use phaser.Payload.Pushed.{HasRoom}
use phaser.Message.{runtime_to_address, clamp_element_count, trusted_size}
use phaser.Wire.{ProtoBuffer, ok, fixed_buffer}
use phaser.Wire.Ints.{int32}
use phaser.Wire.{has_space_for, check}
use phaser.Wire.Ints.{to_varint_wire, varint_size_loop, varint_size, make_tag, from_varint_wire}
use phaser.Wire.Read.{
  deserialize_length_delimited, deserialize_varint, read_varint, take_byte, take_bytes,
}
use phaser.Wire.Write.{
  serialize_varint, serialize_tag, serialize_raw_varint, reserve, put_varint, put_byte,
  serialize_length_delimited_header,
}
use phaser.Fields.{find_field_offset}
use phaser.Fields.{Message, FieldLoc, done, integer}
use phaser.Fields.Scalar.{get, set, is_present}
use phaser.Fields.Vectors.{size, get_values, values_at, base_offset, header}
use phaser.Fields.Change.{insert}
use phaser.Fields.VectorWire.{
  bits_from, serialize_values, serialize_tagged, serialize_varints, varints_size, serialize_vector,
  vector_serialized_size,
}
use phaser.Fields.Moves.{insert_at}
use phaser.Fields.Insert.{IsMutable, vector_values, insert-insert_at}
use phaser.Fields.Stored.{IsPlaced, set-get}
use phaser.Fields.Sizes.{excess, serialize_vector-addr}
use phaser.Fields.Arrays.{
  array_base, array_count, array_values, active_count, storage_pointer, get_at,
}
use phaser.Fields.ArrayWire.{
  array_bits, serialize_array_values, serialize_array, array_serialized_size, overflow,
  deserialize_array,
}
use phaser.Fields.Iterators.{begin, end}
use phaser.Fields.Walk.{walk, IsReadable, walk-get_values}
use phaser.Fields.ArraySizes.{serialize_array-addr}
use phaser.Fields.Overflow.{negative-overflow}

abbrev zeros : Mem
zeros = λ p. 0

-- A message at 48 with the numbers 5 and 6 in a vector field 16 bytes behind its start; their block is at 104.
abbrev bytes : Mem
bytes = store32 (store32 (store64 (store32 (store32 zeros 64 2) 68 104) 96 64) 104 5) 108 6

abbrev message : Message
message = record {
  runtime = record {
    pb = record (new_buffer false 256 true zeros) { bytes = bytes };
    size_or_mark = 0;
    is_mutable = true;
  };
  start = 48;
  field_locations_known = true;
  mutable = true;
}

message-IsMutable : IsMutable message
message-IsMutable = record { handle = refl; buffer = refl; known = refl }

abbrev number_field : FieldLoc
number_field = record { offset = 8; id = 3; number = 1 }

abbrev vector_field : FieldLoc
vector_field = record { offset = 16; id = 2 ^ 32 - 1; number = 2 }

number-IsPlaced : IsPlaced message number_field (integer int32)
unfolding store32 store64
number-IsPlaced = record {
  mutable = message-IsMutable;
  start = omega arith;
  value = omega arith;
  mask = omega arith;
  id = omega arith;
  byte = omega arith;
  apart = inl (omega arith);
}

set-get_example :
    (message' : Message) × (set message number_field (integer int32) 77 ≡ done message')
    × (get message' number_field (integer int32) ≡ 77)
    × (is_present message' number_field ≡ true)
    × ((p : ℕ) → Apart 56 4 p → p ≢ 52 → message'.runtime.pb.bytes p ≡ bytes p)
set-get_example = set-get message number_field (integer int32) number-IsPlaced 77 (omega arith)

vector-HasRoom : HasRoom (message.runtime.pb) 64 4
unfolding new_buffer init_free_list load32 load64 store32 store64 block_capacity
vector-HasRoom = record {
  there = λ e. omega (arith, e);
  size = omega arith;
  value = omega arith;
  block = omega arith;
  inside = omega arith;
  room = omega arith;
  apart = inl (omega arith);
}

vector-count : 1 ≤ num_elements message.runtime.pb 64
unfolding load32 store32 store64
vector-count = omega arith

abbrev seven : List ℕ
seven = 7 ∷ 0 ∷ 0 ∷ 0 ∷ []

abbrev keep : Mem → ℕ → ℕ → Mem
keep m old new = m

insert-insert_at_example :
    (message2 : Message) × (insert keep message vector_field 4 1 seven ≡ done message2)
    × (vector_values message2 vector_field 4
        ≡ insert_at 1 seven (vector_values message vector_field 4))
insert-insert_at_example =
    insert-insert_at keep message vector_field message-IsMutable 4 seven vector-HasRoom refl
      (omega arith, (omega arith, (omega arith, (omega arith, tt)))) 1 vector-count

-- The vector as a field of the wire format that is not packed: four bytes for the two numbers.
abbrev output : ProtoBuffer
output = fixed_buffer zeros 32

abbrev output_after : ProtoBuffer
output_after =
    (serialize_vector false false false true message vector_field (integer int32) output).0

vector-wrote :
    serialize_vector false false false true message vector_field (integer int32) output
    ≡ (output_after, ok tt)
unfolding serialize_vector size values_at bits_from serialize_values read_bytes find_field_offset
    header runtime_to_address clamp_element_count trusted_size base_offset load32 store32 store64
    serialize_tagged serialize_varint serialize_tag serialize_raw_varint reserve has_space_for
    fixed_buffer to_varint_wire varint_size_loop make_tag new_buffer init_free_list put_varint
    put_byte
vector-wrote = refl

vector_size : size message vector_field 4 ≢ 0
unfolding size find_field_offset header runtime_to_address clamp_element_count trusted_size load32
    store32 store64 new_buffer init_free_list
vector_size = λ e. omega (arith, e)

vector-there : values_at message vector_field 4 ≢ 0
unfolding values_at base_offset find_field_offset header runtime_to_address load32 store32 store64
vector-there = λ e. omega (arith, e)

serialize_vector-addr_example :
    output_after.addr + excess 2 false (output_after.addr - output.addr)
    ≡ output.addr + vector_serialized_size false false false message vector_field (integer int32)
serialize_vector-addr_example =
    serialize_vector-addr false false false true message vector_field (integer int32) output
      output_after (omega arith) (λ e. absurd (ground (arith, e))) vector_size vector-there
      vector-wrote

-- The same two numbers as an array of three values, of which two are there, packed.
abbrev array_after : ProtoBuffer
array_after =
    (serialize_array true false false true message vector_field 3 (integer int32) output).0

array-wrote :
    serialize_array true false false true message vector_field 3 (integer int32) output
    ≡ (array_after, ok tt)
unfolding serialize_array array_bits active_count array_count get_at storage_pointer array_values
    array_base serialize_array_values serialize_varints varints_size varint_size
    serialize_length_delimited_header read_bytes write_bytes header runtime_to_address
    clamp_element_count trusted_size load32 store32 store64 serialize_tag serialize_raw_varint
    reserve has_space_for fixed_buffer to_varint_wire varint_size_loop make_tag new_buffer
    init_free_list put_varint put_byte store8
array-wrote = refl

array-there : storage_pointer message vector_field 4 ≢ 0
unfolding storage_pointer array_values array_base header runtime_to_address load32 store32 store64
array-there = λ e. omega (arith, e)

serialize_array-addr_example :
    array_after.addr
    ≡ output.addr + array_serialized_size true false false message vector_field 3 (integer int32)
serialize_array-addr_example =
    serialize_array-addr true false false true message vector_field 3 (integer int32) output
      array_after (omega arith) (λ e. absurd (ground (arith, e))) array-there array-wrote

-- The varint of -1 as the payload of an array of one int32_t.
abbrev minus_one : List ℕ
minus_one = 255 ∷ 255 ∷ 255 ∷ 255 ∷ 255 ∷ 255 ∷ 255 ∷ 255 ∷ 255 ∷ 1 ∷ []

abbrev input : ProtoBuffer
input = fixed_buffer (write_bytes zeros 0 (10 ∷ minus_one)) 11

abbrev input_after : ProtoBuffer
input_after = (deserialize_length_delimited input).0

minus_one-read : deserialize_length_delimited input ≡ (input_after, ok minus_one)
unfolding deserialize_length_delimited fixed_buffer write_bytes deserialize_varint read_varint check
    take_byte store8 from_varint_wire take_bytes read_bytes
minus_one-read = refl

minus_one-size : 10 ≡ varints_size int32 false ((2 ^ 32 - 1) ∷ []) 0
unfolding varints_size varint_size varint_size_loop to_varint_wire
minus_one-size = refl

negative-overflow_example :
    deserialize_array keep true false false message vector_field 1 (integer int32) input
    ≡ (input_after, (done message, overflow))
negative-overflow_example =
    negative-overflow keep message vector_field ((2 ^ 32 - 1) ∷ []) minus_one input input_after
      (λ e. omega (arith, e)) (omega arith, omega arith, tt) minus_one-read minus_one-size

message-IsReadable : IsReadable message.runtime
unfolding new_buffer init_free_list is_valid_magic trusted_size
message-IsReadable = record { magic = refl; some_bytes = inl refl; small = omega arith }

walk-get_values_example :
    walk
      (size message vector_field 4)
      message
      4
      (begin message vector_field)
      (end message vector_field 4)
    ≡ some (get_values message vector_field 4)
walk-get_values_example = walk-get_values message vector_field 4 message-IsReadable (omega arith)
