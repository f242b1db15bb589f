-- ===== src/Ros/Writer.antt =====
-- The writes of a ROSBuffer, and a ROSMessageWriter's, which check for room or trust the caller
-- (phaser/runtime/ros_wireformat.h).
use phaser.Prelude.{ℕ, zero, suc, ◌+◌, ◌-◌, ◌*◌, ◌/◌, ◌^◌, Bool, true, false, not, ◌&&◌, ◌||◌}
use phaser.Prelude.{ltb, leb, ◌==◌, if◌then◌else◌, Option, none, some, List, [], ◌∷◌, length, take}
use phaser.Memory.{Mem, fill, write_bytes}
use phaser.Ros.{
  array_overflow, allocation_failure, null_output, output_overflow, no_space, growth_failure,
  null_source, string_too_long, sequence_too_long, stuck, Result, ok, err, RosBuffer, array_storage,
  store_little_endian,
}

-- ROSBuffer(initial_size), with what malloc returns.
unfoldable pub owned_buffer : ℕ → Option Mem → RosBuffer
owned_buffer initial_size memory = record {
  owned = true;
  allocation_failed = elim memory [ none ↦ true | some m ↦ false ];
  is_null = elim memory [ none ↦ true | some m ↦ false ];
  capacity = if ltb initial_size 16 then 16 else initial_size;
  size = 0;
  bytes = elim memory [ none ↦ (λ p. 0) | some m ↦ m ];
}

-- ROSBuffer(data, size)
unfoldable pub fixed_buffer : Bool → ℕ → Mem → RosBuffer
fixed_buffer is_null size memory = record {
  owned = false;
  allocation_failed = false;
  is_null = is_null;
  capacity = size;
  size = 0;
  bytes = memory;
}

-- What MoveFrom leaves of the other buffer.
unfoldable pub moved_from : RosBuffer → RosBuffer
moved_from other = record other {
  owned = false;
  allocation_failed = false;
  is_null = true;
  capacity = 0;
  size = 0;
}

-- Clear
unfoldable pub clear : RosBuffer → RosBuffer
clear b = record b { size = 0 }

-- The loop that doubles the capacity.
unfoldable pub double_capacity : ℕ → ℕ → ℕ → Option ℕ
double_capacity zero new_capacity required = none
double_capacity (suc fuel) new_capacity required =
    let doubled = double_capacity fuel (new_capacity * 2) required in
    if leb required new_capacity
    then some new_capacity
    else if ltb ((2 ^ 64 - 1) / 2) new_capacity
    then some required
    else doubled

abbrev pub capacity_fuel : ℕ
capacity_fuel = 64

-- `realloc` of the storage: from the bytes, the old and the new size to the new bytes.
module _ (realloc : Mem → ℕ → ℕ → Option Mem) where
  -- EnsureSpaceSlow
  unfoldable pub ensure_space_slow : RosBuffer → ℕ → RosBuffer × Result (Unit {0})
  unfolding double_capacity
  ensure_space_slow b n =
      let required = b.size + n in
      let grow : ℕ → RosBuffer × Result (Unit {0}) = λ new_capacity.
        elim (realloc b.bytes b.capacity new_capacity) [
          | none ↦ (record b { allocation_failed = true }, err growth_failure)
          | some replacement ↦
              (record b { is_null = false; bytes = replacement; capacity = new_capacity }, ok tt)
        ] in
      if b.allocation_failed
      then (b, err allocation_failure)
      else if b.is_null && not (b.capacity == 0)
      then (b, err null_output)
      else if ltb (2 ^ 64 - 1 - b.size) n
      then (b, err output_overflow)
      else if leb required b.capacity
      then (b, ok tt)
      else if not b.owned
      then (b, err no_space)
      else elim (double_capacity capacity_fuel b.capacity required) [
        | none ↦ (b, err stuck)
        | some new_capacity ↦ grow new_capacity
      ]

  -- EnsureSpace
  unfoldable pub ensure_space : RosBuffer → ℕ → RosBuffer × Result (Unit {0})
  unfolding ensure_space_slow
  ensure_space b n =
      if not b.is_null && not b.allocation_failed && leb n (b.capacity - b.size)
      then (b, ok tt)
      else ensure_space_slow b n

  -- Reserve<kCheckSpace>
  unfoldable pub reserve : Bool → RosBuffer → ℕ → RosBuffer × Result (Unit {0})
  unfolding ensure_space
  reserve check_space b n = if check_space then ensure_space b n else (b, ok tt)

  -- What a write does once there is room.
  abbrev pub with_room :
      {A : Type 0}
      → RosBuffer × Result (Unit {0})
      → (RosBuffer → RosBuffer × Result A)
      → RosBuffer × Result A
  with_room (b, err e) k = (b, err e)
  with_room (b, ok u) k = k b

  -- `memcpy(data_ + size_, source, n)` and `size_ += n`
  abbrev pub append : RosBuffer → List ℕ → RosBuffer
  append b source = record b {
    bytes = write_bytes b.bytes b.size source;
    size = b.size + length source;
  }

  -- Extend: where the bytes start.
  unfoldable pub extend : RosBuffer → ℕ → RosBuffer × Result ℕ
  unfolding ensure_space
  extend b n = with_room (ensure_space b n) λ b. (record b { size = b.size + n }, ok b.size)

  -- TryWrite: `write` gets the bytes and the free space and returns the end of what it wrote.
  unfoldable pub try_write : RosBuffer → (Mem → ℕ → ℕ → Mem × Option ℕ) → RosBuffer × Bool
  try_write b write =
      let (m, end) = write b.bytes b.size b.capacity in
      if b.is_null || b.allocation_failed then (b, false) else elim end [
        | none ↦ (record b { bytes = m }, false)
        | some e ↦ (record b { bytes = m; size = e }, true)
      ]

  -- WriteRaw; the source `none` is null.
  unfoldable pub write_raw : RosBuffer → Option (List ℕ) → ℕ → RosBuffer × Result (Unit {0})
  unfolding ensure_space
  write_raw b source n = if n == 0 then (b, ok tt) else elim source [
    | none ↦ (b, err null_source)
    | some bytes ↦ with_room (ensure_space b n) λ b. (append b (take n bytes), ok tt)
  ]

  -- WriteZeros
  unfoldable pub write_zeros : Bool → RosBuffer → ℕ → RosBuffer × Result (Unit {0})
  unfolding reserve
  write_zeros check_space b n = with_room (reserve check_space b n) λ b.
      if n == 0
      then (b, ok tt)
      else (record b { bytes = fill b.bytes b.size 0 n; size = b.size + n }, ok tt)

  module _ (little : Bool) where
    -- WriteLittleEndianUnchecked
    unfoldable pub write_little_endian_unchecked : RosBuffer → ℕ → ℕ → RosBuffer
    unfolding store_little_endian
    write_little_endian_unchecked b width value = record b {
      bytes = store_little_endian little b.bytes b.size width value;
      size = b.size + width;
    }

    -- Write of the bits of an integer, a float or a double, and of a bool.
    unfoldable pub write : Bool → RosBuffer → ℕ → ℕ → RosBuffer × Result (Unit {0})
    unfolding reserve write_little_endian_unchecked
    write check_space b width value =
        with_room (reserve check_space b width)
          λ b. (write_little_endian_unchecked b width value, ok tt)

    unfoldable pub write_bool : Bool → RosBuffer → Bool → RosBuffer × Result (Unit {0})
    unfolding write
    write_bool check_space b value = write check_space b 1 (if value then 1 else 0)

    -- WriteString
    unfoldable pub write_string : Bool → RosBuffer → List ℕ → RosBuffer × Result (Unit {0})
    unfolding reserve write_little_endian_unchecked
    write_string check_space b value =
        if ltb (2 ^ 32 - 1) (length value)
        then (b, err string_too_long)
        else with_room (reserve check_space b (4 + length value)) λ b.
          let counted = write_little_endian_unchecked b 4 (length value) in
          if length value == 0 then (counted, ok tt) else (append counted value, ok tt)

    -- WriteSequenceLength
    unfoldable pub write_sequence_length : Bool → RosBuffer → ℕ → RosBuffer × Result (Unit {0})
    unfolding write
    write_sequence_length check_space b n =
        if ltb (2 ^ 32 - 1) n then (b, err sequence_too_long) else write check_space b 4 n

    -- The loop of WriteArray on a host that is not little-endian.
    unfoldable pub write_each : Bool → RosBuffer → ℕ → List ℕ → RosBuffer × Result (Unit {0})
    unfolding write
    write_each check_space b width [] = (b, ok tt)
    write_each check_space b width (value ∷ values) =
        with_room (write check_space b width value) λ b. write_each check_space b width values

    -- WriteArray, bool aside.
    unfoldable pub write_array : Bool → RosBuffer → ℕ → List ℕ → RosBuffer × Result (Unit {0})
    unfolding reserve write_each
    write_array check_space b width values =
        if ltb ((2 ^ 64 - 1) / width) (length values)
        then (b, err array_overflow)
        else with_room (reserve check_space b (length values * width)) λ b.
          if length values == 0
          then (b, ok tt)
          else if little
          then (append b (array_storage width values), ok tt)
          else write_each check_space b width values

    -- WriteArray of bools, whose storage is copied as it is.
    unfoldable pub write_bool_array : Bool → RosBuffer → List ℕ → RosBuffer × Result (Unit {0})
    unfolding reserve
    write_bool_array check_space b values =
        with_room (reserve check_space b (length values))
          λ b. if length values == 0 then (b, ok tt) else (append b values, ok tt)
