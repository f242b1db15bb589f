-- ===== src/Ros.antt =====
-- phaser/runtime/ros_wireformat.h: the ROS1 wire format, read by a ROSReader and written to a ROSBuffer.
-- A value of an arithmetic type is its bits, a number below 2 ^ (8 * width) for a type of `width`
-- bytes; a bool has one byte. Enums have the width of int32_t. An operation returns the reader or
-- buffer it leaves and a status or a value.
pub mod Reader
pub mod Writer
pub mod Growth
pub mod Bytes
pub mod Space
pub mod Wrote
pub mod Ends
pub mod Roundtrip
pub mod Runs
use phaser.Prelude.{ℕ, zero, suc, ◌+◌, ◌-◌, ◌*◌, ◌/◌, ◌%◌, ◌^◌, Bool, true, false, not, ◌==◌}
use phaser.Prelude.{List, [], ◌∷◌, ◌++◌, if◌then◌else◌}
use phaser.Memory.{Mem, store8, write_bytes}

-- The errors, by their messages; `stuck` is none of the code's: the loop that doubles the capacity ran
-- out of fuel.
pub data Error : Type 0 where
  truncated truncated_string array_overflow truncated_array : Error
  allocation_failure null_output output_overflow no_space growth_failure : Error
  null_source string_too_long sequence_too_long stuck : Error

pub data Result {ℓ} (A : Type ℓ) : Type ℓ where
  ok : A → Result A
  err : Error → Result A

-- ROSReader's data_ and position_: the input is the `length` bytes from 0 on.
pub record RosReader : Type 0 where
  pub input : Mem
  pub length : ℕ
  pub position : ℕ

-- ROSBuffer; `is_null` is `data_ == nullptr`, and `bytes` are those behind `data_`.
pub record RosBuffer : Type 0 where
  pub owned : Bool
  pub allocation_failed : Bool
  pub is_null : Bool
  pub capacity : ℕ
  pub size : ℕ
  pub bytes : Mem

-- The bytes of a value, lowest first: its storage on a little-endian host.
abbrev pub little_endian_bytes : ℕ → ℕ → List ℕ
little_endian_bytes zero value = []
little_endian_bytes (suc width) value = value % 256 ∷ little_endian_bytes width (value / 256)

-- The storage of an array of values on a little-endian host.
abbrev pub array_storage : ℕ → List ℕ → List ℕ
array_storage width [] = []
array_storage width (value ∷ values) = little_endian_bytes width value ++ array_storage width values

-- The loop of StoreLittleEndian on another host.
unfoldable pub store_loop : Mem → ℕ → ℕ → ℕ → Mem
store_loop m out zero value = m
store_loop m out (suc width) value = store_loop (store8 m out value) (out + 1) width (value / 256)

-- StoreLittleEndian, on a host that is little-endian or not.
unfoldable pub store_little_endian : Bool → Mem → ℕ → ℕ → ℕ → Mem
unfolding store_loop write_bytes
store_little_endian little m out width value =
    if little
    then write_bytes m out (little_endian_bytes width value)
    else store_loop m out width value

-- ROSBuffer::Encode for the arithmetic types but bool, and for bool.
unfoldable pub encode : Bool → Mem → ℕ → ℕ → ℕ → Mem
unfolding store_little_endian
encode little m out width value = store_little_endian little m out width value

unfoldable pub encode_bool : Mem → ℕ → Bool → Mem
encode_bool m out value = store8 m out (if value then 1 else 0)

-- The loop of Decode: `bits |= byte << (i * 8)`, whose bits are clear from there on.
unfoldable pub decode_loop : Mem → ℕ → ℕ → ℕ → ℕ → ℕ
decode_loop m addr zero i bits = bits
decode_loop m addr (suc left) i bits =
    decode_loop m addr left (i + 1) (bits + m (addr + i) * 2 ^ (i * 8))

-- ROSReader::Decode for the arithmetic types but bool, and for bool.
unfoldable pub decode : Mem → ℕ → ℕ → ℕ
unfolding decode_loop
decode m addr width = decode_loop m addr width 0 0

unfoldable pub decode_bool : Mem → ℕ → Bool
decode_bool m addr = not (m addr == 0)
