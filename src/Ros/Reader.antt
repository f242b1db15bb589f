-- ===== src/Ros/Reader.antt =====
-- The reads of a ROSReader (phaser/runtime/ros_wireformat.h).
use phaser.Prelude.{ℕ, zero, suc, ◌+◌, ◌-◌, ◌*◌, ◌/◌, ◌^◌, Bool}
use phaser.Prelude.{ltb, ◌==◌, if◌then◌else◌, List, [], ◌∷◌}
use phaser.Memory.{read_bytes}
use phaser.Ros.{
  truncated, truncated_string, array_overflow, truncated_array, Result, ok, err, RosReader, decode,
  decode_bool,
}

unfoldable pub remaining : RosReader → ℕ
remaining r = r.length - r.position

unfoldable pub eof : RosReader → Bool
eof r = r.position == r.length

abbrev pub advance : RosReader → ℕ → RosReader
advance r n = record r { position = r.position + n }

-- ReadUnchecked
unfoldable pub read_unchecked : RosReader → ℕ → RosReader × ℕ
unfolding decode
read_unchecked r width = (advance r width, decode r.input r.position width)

-- ReadRawUnchecked: where the bytes start.
unfoldable pub read_raw_unchecked : RosReader → ℕ → RosReader × ℕ
read_raw_unchecked r n = (advance r n, r.position)

-- Read, and Read of a bool.
unfoldable pub read : RosReader → ℕ → RosReader × Result ℕ
unfolding remaining read_unchecked
read r width =
    let (r', value) = read_unchecked r width in
    if ltb (remaining r) width then (r, err truncated) else (r', ok value)

unfoldable pub read_bool : RosReader → RosReader × Result Bool
unfolding remaining decode_bool
read_bool r =
    if ltb (remaining r) 1
    then (r, err truncated)
    else (advance r 1, ok (decode_bool r.input r.position))

-- ReadString: the view is its start and its length.
unfoldable pub read_string : RosReader → RosReader × Result (ℕ × ℕ)
unfolding remaining read_unchecked
read_string r =
    let (r', n) = read_unchecked r 4 in
    if ltb (remaining r) 4
    then (r, err truncated)
    else if ltb (remaining r') n
    then (r', err truncated_string)
    else (advance r' n, ok (r'.position, n))

-- ReadSequenceLength
unfoldable pub read_sequence_length : RosReader → RosReader × Result ℕ
unfolding read
read_sequence_length r = read r 4

-- ReadRaw
unfoldable pub read_raw : RosReader → ℕ → RosReader × Result (ℕ × ℕ)
unfolding remaining
read_raw r n = if ltb (remaining r) n then (r, err truncated) else (advance r n, ok (r.position, n))

-- The value of a type of `width` bytes whose storage on a little-endian host is the bytes from
-- `addr` on.
abbrev pub values_at : (ℕ → ℕ) → ℕ → ℕ → ℕ → List ℕ
unfolding decode
values_at m addr width zero = []
values_at m addr width (suc n) = decode m addr width ∷ values_at m (addr + width) width n

abbrev pub prepend : ℕ → Result (List ℕ) → Result (List ℕ)
prepend value (ok values) = ok (value ∷ values)
prepend value (err e) = err e

-- The loop of ReadArray on a host that is not little-endian.
unfoldable pub read_each : RosReader → ℕ → ℕ → RosReader × Result (List ℕ)
unfolding read
read_each r width zero = (r, ok [])
read_each r width (suc n) =
    let (r', first) = read r width in
    elim first [
      | err e ↦ (r', err e)
      | ok value ↦ let (r'', rest) = read_each r' width n in (r'', prepend value rest)
    ]

-- ReadArray of `n` values, bool aside; memcpy fills the array on a little-endian host.
unfoldable pub read_array : Bool → RosReader → ℕ → ℕ → RosReader × Result (List ℕ)
unfolding remaining decode read_each
read_array little r width n =
    let byte_size = n * width in
    if ltb ((2 ^ 64 - 1) / width) n
    then (r, err array_overflow)
    else if ltb (remaining r) byte_size
    then (r, err truncated_array)
    else if n == 0
    then (r, ok [])
    else if little
    then (advance r byte_size, ok (values_at r.input r.position width n))
    else read_each r width n

-- ReadArray of `n` bools: the bytes are copied as they are.
unfoldable pub read_bool_array : RosReader → ℕ → RosReader × Result (List ℕ)
unfolding remaining read_bytes
read_bool_array r n =
    if ltb (remaining r) n
    then (r, err truncated_array)
    else if n == 0
    then (r, ok [])
    else (advance r n, ok (read_bytes r.input r.position n))
