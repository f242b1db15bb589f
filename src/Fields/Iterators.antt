-- ===== src/Fields/Iterators.antt =====
-- FieldIterator (phaser/runtime/iterators.h), and the iterators of a PrimitiveVectorField
-- (phaser/runtime/vectors.h). `t` is sizeof(T); an EnumFieldIterator is the same code for an int32_t.
use phaser.Prelude.{ℕ, ◌+◌, ◌-◌, ◌*◌, ◌%◌, ◌^◌, Bool, false, ◌==◌, if◌then◌else◌}
use phaser.Prelude.{List}
use phaser.Memory.{read_bytes}
use phaser.Message.{runtime_to_address}
use phaser.Fields.{Message, FieldLoc}
use phaser.Fields.Vectors.{base_offset, size, zero_value}

-- The field that an iterator is of is an argument of what reads through it.
pub record FieldIterator : Type 0 where
  pub offset : ℕ
  pub reverse : Bool

-- `offset` moved by `bytes`, as a uint32_t.
abbrev pub moved_up : FieldIterator → ℕ → FieldIterator
moved_up it bytes = record it { offset = (it.offset + bytes) % 2 ^ 32 }

abbrev pub moved_back : FieldIterator → ℕ → FieldIterator
moved_back it bytes = record it { offset = (it.offset + 2 ^ 32 - bytes % 2 ^ 32) % 2 ^ 32 }

-- operator++ and operator--
unfoldable pub increment : FieldIterator → ℕ → FieldIterator
increment it t = if it.reverse then moved_back it t else moved_up it t

unfoldable pub decrement : FieldIterator → ℕ → FieldIterator
decrement it t = if it.reverse then moved_up it t else moved_back it t

-- operator+ and operator-
unfoldable pub plus : FieldIterator → ℕ → ℕ → FieldIterator
plus it t i = if it.reverse then moved_back it (i * t) else moved_up it (i * t)

unfoldable pub minus : FieldIterator → ℕ → ℕ → FieldIterator
minus it t i = if it.reverse then moved_up it (i * t) else moved_back it (i * t)

-- operator*
unfoldable pub dereference : Message → FieldIterator → ℕ → List ℕ
unfolding runtime_to_address read_bytes
dereference message it t =
    let addr = runtime_to_address message.runtime it.offset t in
    if addr == 0 then zero_value t else read_bytes message.runtime.pb.bytes addr t

-- operator==, of two iterators of one field
abbrev pub same_place : FieldIterator → FieldIterator → Bool
same_place it other = it.offset == other.offset

-- begin and end
unfoldable pub begin : Message → FieldLoc → FieldIterator
unfolding base_offset
begin message loc = record { offset = base_offset message loc % 2 ^ 32; reverse = false }

unfoldable pub end : Message → FieldLoc → ℕ → FieldIterator
unfolding base_offset size
end message loc t = record {
  offset = (base_offset message loc + size message loc t * t) % 2 ^ 32;
  reverse = false;
}
