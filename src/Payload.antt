-- ===== src/Payload.antt =====
-- phaser/runtime/payload_buffer.h: the header of a PayloadBuffer, its magic word, and the
-- conversions between addresses and offsets.
--
-- An address inside the buffer is its offset from the buffer's start, so that moving the buffer
-- changes no address, and 0 stands for nullptr (the code never hands out the header's own address).
-- The header's fields are the fields of `Buffer`; the bytes behind the header are `bytes`.
pub mod Words
pub mod Small
pub mod Alloc
pub mod Release
pub mod Chain
pub mod Stamp
pub mod Carve
pub mod Taken
pub mod Fit
pub mod FromList
pub mod InPlace
pub mod Joined
pub mod Placed
pub mod Freed
pub mod Free
pub mod Roundtrip
pub mod Lifo
pub mod Strings
pub mod StringCopy
pub mod SetString
pub mod StringView
pub mod Presence
pub mod Realloc
pub mod Vectors
pub mod Pushed
pub mod Runs
use phaser.Prelude.{ℕ, ◌+◌, ◌-◌, ◌*◌, ◌/◌, ◌%◌, ◌^◌, Bool, true, false, not, ◌&&◌, ◌||◌}
use phaser.Prelude.{ltb, leb, ◌==◌, if◌then◌else◌, List, [], ◌∷◌}
use phaser.Memory.{Mem, load32, store32}

-- Without `magic & 1 << 24` and the like at hand for variables, single bits are read by division.
abbrev pub bit : ℕ → ℕ → ℕ
bit k w = w / 2 ^ k % 2

abbrev pub set_bit : ℕ → ℕ → ℕ
set_bit k w = w - bit k w * 2 ^ k + 2 ^ k

abbrev pub clear_bit : ℕ → ℕ → ℕ
clear_bit k w = w - bit k w * 2 ^ k

abbrev pub fixed_buffer_magic : ℕ
fixed_buffer_magic = 0x8448_5000

abbrev pub movable_buffer_magic : ℕ
movable_buffer_magic = 0x8648_5000

abbrev pub bitmap_bit : ℕ
bitmap_bit = 24

abbrev pub allocation_failed_bit : ℕ
allocation_failed_bit = 30

-- sizeof(PayloadBuffer), sizeof(FreeBlockHeader), sizeof(uint64_t) and sizeof(Resizer *)
abbrev pub header_size : ℕ
header_size = 40

abbrev pub free_header_size : ℕ
free_header_size = 8

pub record Buffer : Type 0 where
  pub magic : ℕ
  pub message : ℕ
  pub hwm : ℕ
  pub full_size : ℕ
  pub free_list : ℕ
  pub metadata : ℕ
  pub bitmaps : List ℕ
  pub bytes : Mem

unfoldable pub bitmaps_enabled : Buffer → Bool
bitmaps_enabled b = bit bitmap_bit b.magic == 1

-- `magic & ~kMagicFlagsMask`
abbrev pub plain_magic : ℕ → ℕ
plain_magic w = clear_bit allocation_failed_bit (clear_bit bitmap_bit w)

unfoldable pub is_valid_magic : Buffer → Bool
is_valid_magic b =
    plain_magic b.magic == fixed_buffer_magic || plain_magic b.magic == movable_buffer_magic

unfoldable pub is_moveable : Buffer → Bool
is_moveable b = plain_magic b.magic == movable_buffer_magic

unfoldable pub allocation_failed : Buffer → Bool
allocation_failed b = bit allocation_failed_bit b.magic == 1

unfoldable pub mark_allocation_failed : Buffer → Buffer
mark_allocation_failed b = record b {
  magic = set_bit allocation_failed_bit b.magic;
  free_list = 0;
  bitmaps = 0 ∷ 0 ∷ 0 ∷ 0 ∷ [];
}

unfoldable pub clear_allocation_failed : Buffer → Buffer
clear_allocation_failed b = record b { magic = clear_bit allocation_failed_bit b.magic }

-- IsValidAddress(addr, size, nbytes) for an address at or above the buffer's start.
unfoldable pub is_valid_address : Buffer → ℕ → ℕ → ℕ → Bool
is_valid_address b addr size nbytes =
    let size' = if size == 0 then b.full_size else size in
    not (nbytes == 0) && (not (leb size' addr) && leb nbytes (size' - addr))

-- ToAddress<T>(offset, size) with `nbytes` for sizeof(T), or 1 where T is void.
unfoldable pub to_address : Buffer → ℕ → ℕ → ℕ → ℕ
unfolding is_valid_magic is_valid_address
to_address b offset size nbytes =
    if offset == 0
    then 0
    else if not (is_valid_magic b)
    then 0
    else if not (is_valid_address b offset size nbytes)
    then 0
    else offset

-- ToOffset(addr, size): the same tests on an address.
unfoldable pub to_offset : Buffer → ℕ → ℕ → ℕ → ℕ
unfolding is_valid_magic is_valid_address
to_offset b addr size nbytes =
    if addr == 0
    then 0
    else if not (is_valid_magic b)
    then 0
    else if not (is_valid_address b addr size nbytes)
    then 0
    else addr

-- UpdateHWM(BufferOffset)
unfoldable pub update_hwm : Buffer → ℕ → Buffer
update_hwm b off = if ltb b.hwm off then record b { hwm = off } else b

-- UpdateHWM(void *)
unfoldable pub update_hwm_address : Buffer → ℕ → Buffer
unfolding update_hwm to_offset
update_hwm_address b p = update_hwm b (to_offset b p 0 1)

-- FreeList()
unfoldable pub free_list_head : Buffer → ℕ
unfolding to_address
free_list_head b = to_address b b.free_list 0 free_header_size

-- ToAddress<FreeBlockHeader>(block->next)
unfoldable pub next_block : Buffer → ℕ → ℕ
unfolding to_address
next_block b block = to_address b (load32 b.bytes (block + 4)) 0 free_header_size

-- `*next_ptr = v`, where next_ptr is &free_list if there is no previous free block and
-- &prev->next otherwise.
unfoldable pub set_link : Buffer → ℕ → ℕ → Buffer
set_link b prev v =
    if prev == 0
    then record b { free_list = v }
    else record b { bytes = store32 b.bytes (prev + 4) v }

-- `*next_ptr`
unfoldable pub link : Buffer → ℕ → ℕ
link b prev = if prev == 0 then b.free_list else load32 b.bytes (prev + 4)

-- InitFreeList(), with the constructors' field initialisers.
unfoldable pub init_free_list : Buffer → Buffer
unfolding to_offset is_moveable
init_free_list b =
    let start = if is_moveable b then header_size + 8 else header_size in
    let b' = record b {
      bytes =
          store32 (store32 b.bytes start ((b.full_size + 2 ^ 32 - start) % 2 ^ 32)) (start + 4) 0;
    } in
    let off = to_offset b' start 0 free_header_size in record b' { free_list = off; hwm = off }

-- PayloadBuffer(size, bitmap_allocator), in memory with the given bytes; `movable` tells the second
-- constructor, which also stores the resizer's address behind the header.
unfoldable pub new_buffer : Bool → ℕ → Bool → Mem → Buffer
unfolding init_free_list
new_buffer movable size bitmap_allocator bytes = init_free_list (record {
  magic =
      (if movable then movable_buffer_magic else fixed_buffer_magic)
      + (if bitmap_allocator then 2 ^ 24 else 0);
  message = 0;
  hwm = 0;
  full_size = size;
  free_list = 0;
  metadata = 0;
  bitmaps = 0 ∷ 0 ∷ 0 ∷ 0 ∷ [];
  bytes = bytes;
})
