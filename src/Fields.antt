-- ===== src/Fields.antt =====
-- phaser/runtime/fields.h: the fields of a message with a single value, and what fields have in common.
-- A field knows its place in the message's compiled layout; a message that was written with another
-- version of its schema is searched for the field on each access. A message here has a runtime.
pub mod Scalar
pub mod Text
pub mod Vectors
pub mod Change
pub mod VectorWire
pub mod VectorRead
pub mod Arrays
pub mod ArrayWire
pub mod Values
pub mod Stored
pub mod Moves
pub mod Insert
pub mod Written
pub mod Sizes
pub mod ArraySizes
pub mod Overflow
pub mod Iterators
pub mod Walk
pub mod Runs
use phaser.Prelude.{
  ℕ, ◌+◌, ◌-◌, ◌*◌, ◌/◌, ◌%◌, ◌^◌, Bool, ◌==◌, if◌then◌else◌, List, Option, none, some,
}
use phaser.Memory.{Mem, load32, load64, store8, store32, store64}
use phaser.Payload.{Buffer}
use phaser.Payload.Presence.{set_presence_bit, clear_presence_bit}
use phaser.Message.{Runtime, runtime_is_present}
use phaser.Message.FieldTable.{Location, located, missing, stuck, find_field}
use phaser.Wire.Ints.{IntType, int32, int64, width}

-- A Message: `start` is absolute_binary_offset.
pub record Message : Type 0 where
  pub runtime : Runtime
  pub start : ℕ
  pub field_locations_known : Bool
  pub mutable : Bool

-- A field's place: Offset(), Id() and Number(). The id of a field without a presence bit is -1.
pub record FieldLoc : Type 0 where
  pub offset : ℕ
  pub id : ℕ
  pub number : ℕ

-- What a change of a message does: it throws on a readonly message, and is
-- undefined where the code reads outside of a vector. `out_of_fuel` is no outcome of the
-- code: a loop of the payload buffer ran out of its fuel.
pub data Outcome {ℓ} (A : Type ℓ) : Type ℓ where
  done : A → Outcome A
  threw undefined out_of_fuel : Outcome A

abbrev pub map_outcome {ℓ κ} : {A : Type ℓ} {B : Type κ} → (A → B) → Outcome A → Outcome B
map_outcome f (done a) = done (f a)
map_outcome f threw = threw
map_outcome f undefined = undefined
map_outcome f out_of_fuel = out_of_fuel

-- AlignedOffset<T>, for a size of T that is a power of two.
unfoldable pub aligned_offset : ℕ → ℕ → ℕ
aligned_offset t offset = (offset + t - 1) / t * t

-- FindFieldOffset; `none` is -1, for a field that is not there.
abbrev pub location_offset : Location → Option ℕ
location_offset (located offset id) = some offset
location_offset missing = none
location_offset stuck = none

abbrev pub location_id : Location → ℕ
location_id (located offset id) = id
location_id missing = 2 ^ 32 - 1
location_id stuck = 2 ^ 32 - 1

unfoldable pub find_field_offset : Message → FieldLoc → Option ℕ
unfolding find_field
find_field_offset message loc =
    let found = location_offset (find_field message.runtime message.start loc.number) in
    if message.field_locations_known then some (loc.offset) else found

-- FindFieldId
unfoldable pub find_field_id : Message → FieldLoc → ℕ
unfolding find_field
find_field_id message loc =
    let found = location_id (find_field message.runtime message.start loc.number) in
    if message.field_locations_known then loc.id else found

-- IsPresentBit; the presence mask is 4 bytes behind the message's start.
unfoldable pub is_present_bit : Message → ℕ → Bool
unfolding runtime_is_present
is_present_bit message field_id =
    runtime_is_present message.runtime field_id ((message.start + 4) % 2 ^ 32)

abbrev pub with_buffer : Message → Buffer → Message
with_buffer message b = record message { runtime = record message.runtime { pb = b } }

-- GetBufferAddr and RequireMutable: what is done with the buffer of a mutable message.
abbrev pub with_mutable {ℓ} : {A : Type ℓ} → Message → (Buffer → Outcome A) → Outcome A
with_mutable message change = if message.mutable then change message.runtime.pb else threw

-- A single value: an integer or a bool, a float or a double, by its bits.
pub data FieldType : Type 0 where
  integer : IntType → FieldType
  float double : FieldType

abbrev pub size_of : FieldType → ℕ
size_of (integer t) = width t / 8
size_of float = 4
size_of double = 8

-- The type that an integer's varint is of; a float and a double have none.
abbrev pub int_type : FieldType → IntType
int_type (integer t) = t
int_type float = int32
int_type double = int64

-- A value of `t` bytes, for a `t` of 1, 4 or 8, through a typed pointer.
abbrev pub load_value : Mem → ℕ → ℕ → ℕ
load_value m a t = if t == 8 then load64 m a else if t == 4 then load32 m a else m a

abbrev pub store_bytes : Mem → ℕ → ℕ → ℕ → Mem
store_bytes m a t v =
    if t == 8 then store64 m a v else if t == 4 then store32 m a v else store8 m a v

-- StoreValue
unfoldable pub store_value : Message → FieldLoc → FieldType → ℕ → Outcome Message
unfolding set_presence_bit
store_value message loc t v = with_mutable message λ b.
    let stored = record b {
      bytes = store_bytes b.bytes ((message.start + loc.offset) % 2 ^ 32) (size_of t) v;
    } in
    done (with_buffer message (set_presence_bit stored loc.id ((message.start + 4) % 2 ^ 32)))

-- ClearValue
unfoldable pub clear_value : Message → FieldLoc → Outcome Message
unfolding clear_presence_bit
clear_value message loc =
    with_mutable message
      λ b. done (with_buffer message (clear_presence_bit b loc.id ((message.start + 4) % 2 ^ 32)))
