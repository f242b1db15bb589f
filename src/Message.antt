-- ===== src/Message.antt =====
-- phaser/runtime/message.h: the runtime of a message, through which its handle reads and writes the
-- payload buffer. A mutable runtime's buffer was built by the process and its offsets are trusted; a
-- readonly runtime's was received, and only its first `size_or_mark` bytes are known to be there.
-- A runtime here has a buffer: `pb` is not null.
pub mod FieldTable
pub mod Lookup
pub mod Fits
pub mod Trust
pub mod Chunks
pub mod Elements
pub mod Inside
pub mod Reset
pub mod Emptied
pub mod Freed
pub mod Metadata
pub mod Hints
pub mod Runs
use phaser.Prelude.{ℕ, ◌+◌, ◌-◌, ◌*◌, ◌/◌, ◌%◌, ◌^◌, Bool, true, false, not, ◌&&◌, ◌||◌}
use phaser.Prelude.{ltb, leb, ◌==◌, if◌then◌else◌, Option, none, some}
use phaser.Memory.{Mem, load32}
use phaser.Payload.{Buffer, bit, to_address, to_offset}
use phaser.Payload.Small.{decode_size}
use phaser.Payload.Strings.{bounded_string}

pub record Runtime : Type 0 where
  pub pb : Buffer
  pub size_or_mark : ℕ
  pub is_mutable : Bool

-- MessageRuntime(p, size, is_mutable): a readonly size is clamped to 1 .. UINT32_MAX.
unfoldable pub make_runtime : Buffer → ℕ → Bool → Runtime
make_runtime pb size is_mutable = record {
  pb = pb;
  size_or_mark =
      if is_mutable
      then 0
      else if size == 0
      then 1
      else if ltb (2 ^ 32 - 1) size
      then 2 ^ 32 - 1
      else size;
  is_mutable = is_mutable;
}

unfoldable pub buffer_size : Runtime → ℕ
buffer_size r = if r.is_mutable then 0 else r.size_or_mark

unfoldable pub reset_mark : Runtime → ℕ
reset_mark r = if r.is_mutable then r.size_or_mark else 0

unfoldable pub trusted_size : Runtime → ℕ
trusted_size r = if r.is_mutable then r.pb.full_size else r.size_or_mark

-- ToAddress<T>, with `nbytes` for sizeof(T): a mutable buffer's offsets are not checked.
unfoldable pub runtime_to_address : Runtime → ℕ → ℕ → ℕ
unfolding to_address
runtime_to_address r offset nbytes =
    if r.is_mutable then offset else to_address r.pb offset r.size_or_mark nbytes

unfoldable pub runtime_to_offset : Runtime → ℕ → ℕ → ℕ
unfolding to_offset
runtime_to_offset r addr nbytes =
    if r.is_mutable then addr else to_offset r.pb addr r.size_or_mark nbytes

-- MutableStringView; `none` is the empty view.
unfoldable pub mutable_string_view : Runtime → ℕ → Option (ℕ × ℕ)
mutable_string_view r header_offset =
    let str = load32 r.pb.bytes header_offset in
    if str == 0 then none else some (str + 4, load32 r.pb.bytes str)

-- GetStringView
unfoldable pub get_string_view : Runtime → ℕ → Option (ℕ × ℕ)
unfolding mutable_string_view bounded_string buffer_size
get_string_view r header_offset =
    if r.is_mutable
    then mutable_string_view r header_offset
    else bounded_string r.pb header_offset (buffer_size r)

-- IsPresent; the field id -1 of a field without a presence bit is 2 ^ 32 - 1.
unfoldable pub runtime_is_present : Runtime → ℕ → ℕ → Bool
unfolding runtime_to_address
runtime_is_present r k presence_mask_offset =
    let p = runtime_to_address r ((presence_mask_offset + k / 8) % 2 ^ 32) 1 in
    if k == 2 ^ 32 - 1 then false else if p == 0 then false else bit (k % 8) (r.pb.bytes p) == 1

unfoldable pub clamp_element_count : Runtime → ℕ → ℕ → ℕ → ℕ
unfolding trusted_size
clamp_element_count r data_offset claimed elem_size =
    let limit = trusted_size r in
    let available = (limit - data_offset) / elem_size in
    if data_offset == 0 || elem_size == 0
    then 0
    else if leb limit data_offset
    then 0
    else if ltb claimed available
    then claimed
    else available

unfoldable pub allocated_capacity : Runtime → ℕ → ℕ → ℕ
unfolding runtime_to_address decode_size
allocated_capacity r data_offset elem_size =
    let block = runtime_to_address r data_offset 4 in
    if elem_size == 0 || ltb data_offset 8
    then 0
    else if block == 0
    then 0
    else decode_size (load32 r.pb.bytes (block - 8)) / elem_size
