-- ===== src/Ros/Roundtrip.antt =====
-- Reading back what was written (phaser/runtime/ros_wireformat.h).
use phaser.Prelude.{List, ◌++◌, length, ◌∙◌}
use phaser.Memory.{read_bytes}
use phaser.Ros.{truncated_string, decode}
use phaser.Prelude.{ℕ, ◌+◌, ◌-◌, ◌*◌, ◌^◌, ◌≤◌, ◌<◌, ◌≡◌, arith}
use phaser.Prelude.{ltb, if◌then◌else◌, false}
use phaser.Ros.{ok, err, truncated, RosReader, little_endian_bytes}
use phaser.Ros.Reader.{advance, read, read_string, read_unchecked, remaining}
use phaser.Ros.Bytes.{Holds, Holds-parts, Holds-read_bytes, decode-Holds}

-- Read returns the value whose bytes, lowest first, it stands at, and steps over them, for any
-- value of a type of any width, if the bytes are there.
pub read-Holds :
    (r : RosReader) (width value : ℕ)
    → Holds r.input r.position (little_endian_bytes width value)
    → value < 2 ^ (width * 8)
    → r.position + width ≤ r.length
    → read r width ≡ (advance r width, ok value)
unfolding read
read-Holds r width value h small room =
    let t : ltb (r.length - r.position) width ≡ false = ground arith in
    let v = decode-Holds (r.input) (r.position) width value h small in
    λ i. if t i then (r, err truncated) else (advance r width, ok (v i))

module _ (r : RosReader) (n : ℕ) (enough : r.position + 4 + n ≤ r.length) where
  read_string_at :
      decode r.input r.position 4 ≡ n
      → read_string r ≡ (advance (advance r 4) n, ok (r.position + 4, n))
  unfolding read_string read_unchecked remaining
  read_string_at e =
      let t : ltb (r.length - r.position) 4 ≡ false = ground arith in
      let u : ltb (r.length - (r.position + 4)) n ≡ false = ground arith in
      (λ i.
        if t i
        then (r, err truncated)
        else if ltb (r.length - (r.position + 4)) (e i)
        then (advance r 4, err truncated_string)
        else (advance (advance r 4) (e i), ok (r.position + 4, e i)))
      ∙ λ i.
          if u i
          then (advance r 4, err truncated_string)
          else (advance (advance r 4) n, ok (r.position + 4, n))

-- Where the bytes that WriteString appends for a string of fewer than 2 ^ 32 bytes stand in the
-- input, ReadString returns the string's place and length, steps over it, and the bytes there are
-- the string's.
pub read_string-Holds :
    (r : RosReader) (value : List ℕ)
    → Holds r.input r.position (little_endian_bytes 4 (length value) ++ value)
    → length value < 2 ^ 32
    → r.position + 4 + length value ≤ r.length
    → (read_string r ≡ (advance (advance r 4) (length value), ok (r.position + 4, length value)))
      × (read_bytes r.input (r.position + 4) (length value) ≡ value)
read_string-Holds r value h small room =
    let (counted, held) =
      Holds-parts (r.input) (r.position) (little_endian_bytes 4 (length value)) value h in
    (
      read_string_at r (length value) room
          (decode-Holds (r.input) (r.position) 4 (length value) counted small),
      Holds-read_bytes (r.input) (r.position + 4) value held,
    )
