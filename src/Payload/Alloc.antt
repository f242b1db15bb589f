-- ===== src/Payload/Alloc.antt =====
-- Allocation (phaser/runtime/payload_buffer.h and payload_buffer.cc): TryAllocateInPlace, Allocate,
-- AllocateSlow, AllocateSmallBlock and the growth of a movable buffer.
--
-- An operation returns the new buffer and the address of the block, 0 for nullptr. `none` says that
-- a loop ran out of its fuel. A walk along the free list gets `full_size` rounds: the blocks of a
-- sorted list are apart and take 8 bytes each. `resize` is the resizer's effect on the bytes.
use phaser.Prelude.{ℕ, zero, suc, ◌+◌, ◌-◌, ◌*◌, ◌/◌, ◌%◌, ◌^◌, Bool, false, not, ◌&&◌, ◌||◌}
use phaser.Prelude.{ltb, leb, ◌==◌, if◌then◌else◌, Option, none, some, get_or, set}
use phaser.Memory.{Mem, load32, store32, store64, fill}
use phaser.Payload.{
  Buffer, free_header_size, bitmaps_enabled, is_moveable, allocation_failed, mark_allocation_failed,
  to_address, to_offset, update_hwm, update_hwm_address, free_list_head, next_block, set_link,
}
use phaser.Payload.Words.{add32, sub32, align_size, small_word}
use phaser.Payload.Small.{small_block_index, small_block_size, bitmap_run_index}

-- `*reinterpret_cast<BufferOffset *>(addr)`: a free small block holds the next one of its class.
unfoldable pub pop_small : Buffer → ℕ → ℕ → Buffer
pop_small b index addr = record b { bitmaps = set b.bitmaps index (load32 b.bytes addr) }

-- The size word of the block with its header at `header` and, if `clear`, zeros in the `block_size`
-- bytes behind it.
unfoldable pub stamp : Mem → ℕ → ℕ → ℕ → Bool → Mem
stamp m header size_word block_size clear =
    let m' = store64 m header size_word in if clear then fill m' (header + 8) 0 block_size else m'

unfoldable pub finish_block : Buffer → ℕ → ℕ → ℕ → Bool → Buffer
finish_block b addr size_word block_size clear = record b {
  bytes = stamp b.bytes (addr - 8) size_word block_size clear;
}

-- TryAllocateInPlace, from "Carve from the start of the first free block" on.
unfoldable pub carve_first : Buffer → ℕ → ℕ → Bool → Buffer × ℕ
carve_first b block_size size_word clear =
    let first = b.free_list in
    let full_length = add32 block_size 8 in
    let length = load32 b.bytes first in
    let rest_offset = add32 first full_length in
    let b' = record b {
      bytes =
          store32 (store32 b.bytes (rest_offset + 4) (load32 b.bytes (first + 4))) rest_offset
            (sub32 length full_length);
      free_list = rest_offset;
    } in
    if first == 0 || ltb (sub32 b.full_size free_header_size) first
    then (b, 0)
    else if ltb length (add32 full_length free_header_size)
    then (b, 0)
    else (
      update_hwm (record b' { bytes = stamp b'.bytes first size_word block_size clear })
          (add32 rest_offset free_header_size),
      first + 8,
    )

unfoldable pub try_small : Buffer → ℕ → ℕ → Bool → Buffer × ℕ
try_small b n index clear =
    let head = get_or b.bitmaps index 0 in
    let block_size = small_block_size index in
    if head == 0
    then carve_first b block_size (small_word n) clear
    else if ltb (sub32 b.full_size block_size) head
    then (b, 0)
    else (finish_block (pop_small b index head) head (small_word n) block_size clear, head)

-- The class of a request, if small blocks are enabled for it.
unfoldable pub small_class : Buffer → ℕ → Bool → Option ℕ
unfolding bitmaps_enabled small_block_index
small_class b n enable_small_block =
    if enable_small_block && bitmaps_enabled b then small_block_index n else none

unfoldable pub try_allocate_in_place : Buffer → ℕ → Bool → Bool → Buffer × ℕ
try_allocate_in_place b n clear enable_small_block =
    if n == 0 || ltb b.full_size n then (b, 0) else elim (small_class b n enable_small_block) [
      | some index ↦ try_small b n index clear
      | none ↦
          let block_size = (n + 7) % 2 ^ 32 / 8 * 8 in carve_first b block_size block_size clear
    ]

-- TakeStartOfFreeBlock: the buffer, and the size of the block's payload.
unfoldable pub take_start_of_free_block : Buffer → ℕ → ℕ → ℕ → ℕ → Buffer × ℕ
unfolding set_link to_offset update_hwm update_hwm_address
take_start_of_free_block b block num_bytes length prev =
    let rem = sub32 (load32 b.bytes block) length in
    let next = block + length in
    let after = load32 b.bytes (block + 4) in
    let split = record b { bytes = store32 (store32 b.bytes next rem) (next + 4) after } in
    let whole = set_link b prev after in
    if leb free_header_size rem
    then (
      update_hwm_address (set_link split prev (to_offset split next 0 free_header_size)) (next + 8),
      num_bytes,
    )
    else (
      update_hwm whole (add32 (load32 whole.bytes (block + 4)) free_header_size),
      sub32 (load32 whole.bytes block) 8,
    )

-- A free block that is big enough: it is taken, its size word is written, and it is cleared.
unfoldable pub take_block : Buffer → ℕ → ℕ → ℕ → ℕ → Bool → Buffer × ℕ
take_block b n full_length prev free_block clear =
    let (b', n') = take_start_of_free_block b free_block n (full_length % 2 ^ 32) prev in
    (record b' { bytes = stamp b'.bytes free_block n' (full_length - 8) clear }, free_block + 8)

-- The outcome of a walk along the free list: a block with the one before it, or its end.
pub data Search : Type 0 where
  found : ℕ → ℕ → Search
  exhausted : ℕ → Search

-- The loop of AllocateSlow.
unfoldable pub find_fit : Buffer → ℕ → ℕ → ℕ → ℕ → Option Search
find_fit b full_length zero prev free_block = none
find_fit b full_length (suc fuel) prev free_block =
    let rest = find_fit b full_length fuel free_block (next_block b free_block) in
    if free_block == 0
    then some (exhausted prev)
    else if leb full_length (load32 b.bytes free_block)
    then some (found prev free_block)
    else rest

-- "find the end of the free list"
unfoldable pub last_block : Buffer → ℕ → ℕ → ℕ → Option ℕ
last_block b zero prev free_block = none
last_block b (suc fuel) prev free_block =
    let rest = last_block b fuel free_block (next_block b free_block) in
    if free_block == 0 then some prev else rest

-- `while (new_size < full_length) new_size *= 2`, in size_t.
unfoldable pub double_until : ℕ → ℕ → ℕ → Option ℕ
double_until zero new_size full_length = none
double_until (suc fuel) new_size full_length =
    let rest = double_until fuel (new_size * 2 % 2 ^ 64) full_length in
    if ltb new_size full_length then rest else some new_size

-- "Expand the free list to include the new memory", which starts at `old_size`; `prev` is the last
-- free block.
unfoldable pub expand_free_list : Buffer → ℕ → ℕ → ℕ → Buffer
expand_free_list b old_size new_size prev =
    let length = load32 b.bytes prev in
    let joined = record b {
      bytes = store32 b.bytes prev ((length + (new_size + 2 ^ 64 - old_size)) % 2 ^ 32);
    } in
    let fresh = record b {
      bytes =
          store32 (store32 b.bytes (old_size + 4) 0) old_size
            ((new_size + 2 ^ 64 - old_size) % 2 ^ 32);
    } in
    if not (prev == 0) && prev + length == old_size
    then joined
    else set_link fresh prev (to_offset fresh old_size 0 free_header_size)

module _ (resize : Mem → ℕ → ℕ → Mem) where
  -- The resizer and the code behind it; `none` if the walk or the doubling runs out of fuel.
  unfoldable pub grow : Buffer → ℕ → Option Buffer
  grow b full_length = elim (double_until 64 (b.full_size * 2) full_length) [
    | none ↦ none
    | some new_size ↦
        let b' = record b {
          bytes = resize b.bytes b.full_size new_size;
          full_size = new_size % 2 ^ 32;
        } in
        elim (last_block b' (suc b'.full_size) 0 (free_list_head b')) [
          | none ↦ none
          | some prev ↦ some (expand_free_list b' b.full_size new_size prev)
        ]
  ]

  -- AllocateInline over the AllocateSlow that it calls.
  unfoldable pub allocate_over :
      (Buffer → ℕ → Bool → Bool → Option (Buffer × ℕ))
      → Buffer
      → ℕ
      → Bool
      → Bool
      → Option (Buffer × ℕ)
  allocate_over slow b n clear enable_small_block =
      let (b', addr) = try_allocate_in_place b n clear enable_small_block in
      if addr == 0 then slow b' n clear enable_small_block else some (b', addr)

  -- AllocateSmallBlock over the Allocate that it calls.
  unfoldable pub allocate_small_block :
      (Buffer → ℕ → Bool → Bool → Option (Buffer × ℕ)) → Buffer → ℕ → ℕ → Bool → Option (Buffer × ℕ)
  allocate_small_block allocate b size index clear =
      let block_size = small_block_size index in
      let head = get_or b.bitmaps index 0 in
      let addr = to_address b head 0 1 in
      let finish : Buffer → ℕ → Buffer × ℕ =
        λ b' p. (finish_block b' p (small_word size) block_size clear, p) in
      let popped = if addr == 0 then some (b, 0) else some (finish (pop_small b index addr) addr) in
      if head == 0
      then elim (allocate b block_size false false) [
        | none ↦ none
        | some (b', p) ↦ some (if p == 0 then (b', 0) else finish b' p)
      ]
      else popped

  -- AllocateSlow from the rounding of `n` on; `allocate` is the Allocate that it retries with.
  unfoldable pub allocate_from_list :
      (Buffer → ℕ → Bool → Bool → Option (Buffer × ℕ))
      → Buffer
      → ℕ
      → Bool
      → Bool
      → Option (Buffer × ℕ)
  allocate_from_list allocate b n clear enable_small_block =
      let full_length = n + 8 in
      elim (find_fit b full_length (suc b.full_size) 0 (free_list_head b)) [
        | none ↦ none
        | some (found prev free_block) ↦ some (take_block b n full_length prev free_block clear)
        | some (exhausted _) ↦
            if not (is_moveable b)
            then some (mark_allocation_failed b, 0)
            else elim (grow b full_length) [
              | none ↦ none
              | some b' ↦ allocate b' n clear enable_small_block
            ]
      ]

  -- AllocateSlow. The fuel counts the rounds of growth.
  unfoldable pub allocate_slow : ℕ → Buffer → ℕ → Bool → Bool → Option (Buffer × ℕ)
  allocate_slow zero b n clear enable_small_block = none
  allocate_slow (suc fuel) b n clear enable_small_block =
      let again = allocate_over (allocate_slow fuel) in
      if n == 0 || allocation_failed b
      then some (b, 0)
      else elim (if enable_small_block && bitmaps_enabled b then bitmap_run_index n else none) [
        | some index ↦ allocate_small_block again b n index clear
        | none ↦ allocate_from_list again b (align_size n) clear enable_small_block
      ]

  -- Allocate. A call grows the buffer at most twice, and one call more reaches a small block.
  unfoldable pub allocate : Buffer → ℕ → Bool → Bool → Option (Buffer × ℕ)
  allocate = allocate_over (allocate_slow 5)
