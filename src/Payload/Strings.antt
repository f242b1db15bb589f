-- ===== src/Payload/Strings.antt =====
-- Strings in a payload buffer (phaser/runtime/payload_buffer.h and payload_buffer.cc).
use phaser.Prelude.{ℕ, ◌+◌, ◌-◌, ◌≤◌, ◌<◌, ◌≡◌, arith}
use phaser.Prelude.{ltb, ◌==◌, if◌then◌else◌, Option, none, some}
use phaser.Memory.{load32}
use phaser.Payload.{Buffer, to_address, is_valid_address}

-- GetStringView and its siblings on a StringHeader at `addr` that they trust: where the bytes are
-- and how many, or `none` for the empty string.
unfoldable pub string_view : Buffer → ℕ → Option (ℕ × ℕ)
unfolding to_address
string_view b addr =
    let p = to_address b (load32 b.bytes addr) 0 1 in
    if p == 0 then none else some (p + 4, load32 b.bytes p)

-- BoundedString; `none` is {nullptr, 0}.
unfoldable pub bounded_string : Buffer → ℕ → ℕ → Option (ℕ × ℕ)
unfolding to_address
bounded_string b header_offset buffer_size =
    let hdr = to_address b header_offset buffer_size 4 in
    let len_word = to_address b (load32 b.bytes hdr) buffer_size 4 in
    let limit = if buffer_size == 0 then b.full_size else buffer_size in
    let data_off = len_word + 4 in
    let avail = limit - data_off in
    let len = load32 b.bytes len_word in
    if hdr == 0
    then none
    else if len_word == 0
    then none
    else if ltb limit data_off
    then none
    else some (data_off, if ltb avail len then avail else len)

-- StringSize(header_offset, buffer_size)
unfoldable pub bounded_string_size : Buffer → ℕ → ℕ → ℕ
unfolding bounded_string
bounded_string_size b header_offset buffer_size =
    elim (bounded_string b header_offset buffer_size) [ none ↦ 0 | some (_, len) ↦ len ]

-- Whatever a buffer holds, a string that BoundedString returns lies with its length word in the
-- bytes received, and is no longer than the length word says.
pub bounded_string-inside :
    (b : Buffer) (header_offset buffer_size start len : ℕ)
    → 0 < buffer_size
    → bounded_string b header_offset buffer_size ≡ some (start, len)
    → (4 ≤ start)
      × (start + len ≤ buffer_size)
      × (header_offset + 4 ≤ buffer_size)
      × (start ≡ load32 b.bytes header_offset + 4)
      × (len ≤ load32 b.bytes (start - 4))
unfolding bounded_string to_address is_valid_address
bounded_string-inside b header_offset buffer_size start len pos h = ground arith
