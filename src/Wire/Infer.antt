-- ===== src/Wire/Infer.antt =====
-- Telling the wire formats apart (phaser/runtime/wireformat.h): LoadWireUint32,
-- IsStructurallyValidPhaser and InferMessageWireFormat, on received bytes.
use phaser.Prelude.{
  ℕ, ◌+◌, ◌-◌, ◌*◌, ◌%◌, ◌≤◌, ◌<◌, ◌≡◌, refl, ◌⊎◌, inl, inr, arith, Bool, true, false, not, ◌&&◌,
  ◌||◌,
}
use phaser.Prelude.{ltb, leb, ◌==◌, if◌then◌else◌, [], ◌∷◌}
use phaser.Memory.{Mem, load32}
use phaser.Payload.{
  Buffer, clear_bit, bitmap_bit, fixed_buffer_magic, movable_buffer_magic, header_size,
  free_header_size, is_valid_magic, is_valid_address, to_address,
}

pub data MessageWireFormat : Type 0 where
  protobuf_format phaser_format unknown_format : MessageWireFormat

-- The received bytes: what they are, and how many.
pub record Span : Type 0 where
  pub bytes : Mem
  pub size : ℕ

-- LoadWireUint32 is the little-endian load.
abbrev pub load_wire_uint32 : Span → ℕ → ℕ
load_wire_uint32 data' offset = load32 data'.bytes offset

-- The fields of the header, in the order of PayloadBuffer.
abbrev pub magic_of : Span → ℕ
magic_of s = load_wire_uint32 s 0

abbrev pub message_of : Span → ℕ
message_of s = load_wire_uint32 s 4

abbrev pub hwm_of : Span → ℕ
hwm_of s = load_wire_uint32 s 8

abbrev pub full_size_of : Span → ℕ
full_size_of s = load_wire_uint32 s 12

abbrev pub free_list_of : Span → ℕ
free_list_of s = load_wire_uint32 s 16

abbrev pub metadata_of : Span → ℕ
metadata_of s = load_wire_uint32 s 20

abbrev pub bitmap_of : Span → ℕ → ℕ
bitmap_of s i = load_wire_uint32 s (24 + i * 4)

-- A head of a small block list is 0, or behind the header and below the high water mark.
abbrev pub bitmap_fits : ℕ → ℕ → ℕ → Bool
bitmap_fits minimum_header hwm bitmap = bitmap == 0 || (leb minimum_header bitmap && ltb bitmap hwm)

-- The tests on full_size, hwm and message, on the free list and on the metadata, each for the header
-- size `minimum`.
unfoldable pub offsets_fail : ℕ → Span → Bool
offsets_fail minimum s =
    ltb (full_size_of s) minimum
    || (ltb (hwm_of s) minimum
        || (ltb (full_size_of s) (hwm_of s)
            || (ltb s.size (hwm_of s)
                || (ltb (message_of s) minimum
                    || (not (message_of s % 8 == 0) || ltb (hwm_of s - 4) (message_of s))))))

unfoldable pub free_list_fails : ℕ → Span → Bool
free_list_fails minimum s =
    not (free_list_of s == 0)
    && (ltb (free_list_of s) minimum
        || (ltb (s.size - free_header_size) (free_list_of s)
            || ltb (full_size_of s - free_header_size) (free_list_of s)))

unfoldable pub metadata_fails : ℕ → Span → Bool
metadata_fails minimum s =
    not (metadata_of s == 0) && (ltb (metadata_of s) minimum || leb (hwm_of s) (metadata_of s))

unfoldable pub bitmaps_fit : ℕ → Span → Bool
bitmaps_fit minimum s =
    bitmap_fits minimum (hwm_of s) (bitmap_of s 0)
    && (bitmap_fits minimum (hwm_of s) (bitmap_of s 1)
        && (bitmap_fits minimum (hwm_of s) (bitmap_of s 2)
            && bitmap_fits minimum (hwm_of s) (bitmap_of s 3)))

abbrev base_magic : Span → ℕ
base_magic s = clear_bit bitmap_bit (magic_of s)

abbrev unknown_magic : Span → Bool
unknown_magic s =
    not (base_magic s == movable_buffer_magic) && not (base_magic s == fixed_buffer_magic)

abbrev minimum_header : Span → ℕ
minimum_header s = if base_magic s == movable_buffer_magic then header_size + 8 else header_size

unfoldable pub is_structurally_valid_phaser : Span → Bool
unfolding offsets_fail free_list_fails metadata_fails bitmaps_fit
is_structurally_valid_phaser s =
    if ltb s.size header_size
    then false
    else if unknown_magic s
    then false
    else if offsets_fail (minimum_header s) s
    then false
    else if free_list_fails (minimum_header s) s
    then false
    else if metadata_fails (minimum_header s) s
    then false
    else bitmaps_fit (minimum_header s) s

unfoldable pub infer_message_wire_format : Span → MessageWireFormat
unfolding is_structurally_valid_phaser
infer_message_wire_format s =
    if s.size == 0 || not (s.bytes 0 == 0)
    then protobuf_format
    else if is_structurally_valid_phaser s
    then phaser_format
    else unknown_format

-- The received bytes as a payload buffer.
abbrev pub received : Span → Buffer
received s = record {
  magic = magic_of s;
  message = message_of s;
  hwm = hwm_of s;
  full_size = full_size_of s;
  free_list = free_list_of s;
  metadata = metadata_of s;
  bitmaps = bitmap_of s 0 ∷ bitmap_of s 1 ∷ bitmap_of s 2 ∷ bitmap_of s 3 ∷ [];
  bytes = s.bytes;
}

guard_passed : (t x : Bool) → (if t then false else x) ≡ true → (t ≡ false) × (x ≡ true)
guard_passed true x h = cc
guard_passed false x h = (refl, h)

-- The message's first word is below the high water mark, which is within both sizes.
abbrev pub OffsetsFit : Span → Type 0
OffsetsFit s =
    (header_size ≤ hwm_of s)
    × (hwm_of s ≤ full_size_of s)
    × (hwm_of s ≤ s.size)
    × (header_size ≤ message_of s)
    × (message_of s % 8 ≡ 0)
    × (message_of s + 4 ≤ hwm_of s)

offsets_pass :
    (minimum : ℕ) (s : Span) → 40 ≤ minimum → offsets_fail minimum s ≡ false → OffsetsFit s
unfolding offsets_fail
offsets_pass minimum s low h = ground arith

inferred-valid :
    (s : Span) → infer_message_wire_format s ≡ phaser_format → is_structurally_valid_phaser s ≡ true
unfolding infer_message_wire_format
inferred-valid s h = ground arith

-- What the tests on the header come to.
valid-bounds :
    (s : Span)
    → is_structurally_valid_phaser s ≡ true
    → ((clear_bit bitmap_bit (magic_of s) ≡ movable_buffer_magic)
        ⊎ (clear_bit bitmap_bit (magic_of s) ≡ fixed_buffer_magic))
      × OffsetsFit s
unfolding is_structurally_valid_phaser
valid-bounds s h =
    let (size, h1) = guard_passed (ltb s.size header_size) _ h in
    let (known, h2) = guard_passed (unknown_magic s) _ h1 in
    let (offsets, h3) = guard_passed (offsets_fail (minimum_header s) s) _ h2 in
    (ground arith, offsets_pass (minimum_header s) s (ground arith) offsets)

magic_valid :
    (w : ℕ) (b : Buffer)
    → b.magic ≡ w
    → (clear_bit bitmap_bit w ≡ movable_buffer_magic)
      ⊎ (clear_bit bitmap_bit w ≡ fixed_buffer_magic)
    → is_valid_magic b ≡ true
unfolding is_valid_magic
magic_valid w b e (inl h) =
    let h' : clear_bit bitmap_bit b.magic ≡ movable_buffer_magic = rw e h in rw h' refl
magic_valid w b e (inr h) =
    let h' : clear_bit bitmap_bit b.magic ≡ fixed_buffer_magic = rw e h in rw h' refl

to_address-inside :
    (b : Buffer) (offset size : ℕ)
    → is_valid_magic b ≡ true
    → 0 < offset
    → offset + 4 ≤ size
    → to_address b offset size 4 ≡ offset
unfolding to_address is_valid_address
to_address-inside b offset size v pos h = rw v (ground arith)

-- Bytes that InferMessageWireFormat takes for a payload buffer have a valid magic; the high water
-- mark is behind the header, within the size of the buffer and within the bytes received; and the
-- message is a multiple of 8 behind the header whose first word was received, so that ToAddress
-- accepts it.
pub infer_message_wire_format-phaser :
    (s : Span)
    → infer_message_wire_format s ≡ phaser_format
    → (is_valid_magic (received s) ≡ true)
      × OffsetsFit s
      × (to_address (received s) (message_of s) s.size 4 ≡ message_of s)
infer_message_wire_format-phaser s h =
    let (magic, fit) = valid-bounds s (inferred-valid s h) in
    let v = magic_valid (magic_of s) (received s) refl magic in
    let (a, b, size, low, aligned, room) = fit in
    (v, fit, to_address-inside (received s) (message_of s) s.size v (omega arith) (omega arith))
