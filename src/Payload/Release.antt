-- ===== src/Payload/Release.antt =====
-- Free, FreeSlow, FreeSmallBlock, FreeAt and AllocateMany with their helpers
-- (phaser/runtime/payload_buffer.h and payload_buffer.cc).
use phaser.Prelude.{ℕ, zero, suc, ◌+◌, ◌-◌, ◌*◌, ◌%◌, ◌^◌, Bool, true, false, not, ◌&&◌, ◌||◌}
use phaser.Prelude.{ltb, leb, ◌==◌, if◌then◌else◌, List, [], ◌∷◌, Option, none, some, get_or, set}
use phaser.Memory.{Mem, load32, load64, store32, store64, fill}
use phaser.Payload.{
  Buffer, allocation_failed, to_offset, free_list_head, next_block, set_link, free_header_size,
}
use phaser.Payload.Words.{add32, sub32, align_size, is_small_word}
use phaser.Payload.Small.{small_block_index, index_of_encoded_size}
use phaser.Payload.Alloc.{allocate}

-- FreeSmallBlock, and the inline case of Free.
unfoldable pub push_small : Buffer → ℕ → ℕ → Buffer
push_small b p index = record b {
  bytes = store32 b.bytes p (get_or b.bitmaps index 0);
  bitmaps = set b.bitmaps index p;
}

-- FreeSmallBlock, which tests the block's address.
unfoldable pub free_small_block : Buffer → ℕ → ℕ → Buffer
free_small_block b p index = record b {
  bytes = store32 b.bytes p (get_or b.bitmaps index 0);
  bitmaps = set b.bitmaps index (to_offset b p 0 1);
}

-- MergeWithAboveIfPossible; `alloc_block` is the address of the payload.
unfoldable pub merge_with_above : Buffer → ℕ → ℕ → ℕ → ℕ → ℕ → Buffer
merge_with_above b alloc_block alloc_header free_block prev alloc_length =
    let joined = store32 b.bytes (alloc_header + 4) (load32 b.bytes (free_block + 4)) in
    let joined_length = (alloc_length + 8 + load32 joined free_block) % 2 ^ 32 in
    let apart = store32 b.bytes alloc_header (add32 (load32 b.bytes alloc_header) 8) in
    let b' = record b {
      bytes =
          if alloc_block + alloc_length == free_block
          then store32 joined alloc_header joined_length
          else store32 apart (alloc_header + 4) (to_offset b free_block 0 free_header_size);
    } in
    set_link b' prev (to_offset b' alloc_header 0 free_header_size)

-- MergeWithBelowIfPossible: the buffer, and whether the blocks were merged.
unfoldable pub merge_with_below : Buffer → ℕ → ℕ → Buffer × Bool
merge_with_below b free_block prev =
    let m = store32 b.bytes (prev + 4) (load32 b.bytes (free_block + 4)) in
    let merged = store32 m prev (add32 (load32 m prev) (load32 m free_block)) in
    if prev + load32 b.bytes prev == free_block
    then (record b { bytes = merged }, true)
    else (b, false)

unfoldable pub insert_at_end : Buffer → ℕ → ℕ → ℕ → Buffer
insert_at_end b free_block prev length =
    let b' = record b { bytes = store32 (store32 b.bytes free_block length) (free_block + 4) 0 } in
    set_link b' prev (to_offset b' free_block 0 free_header_size)

-- The loop of FreeSlow, with what follows it.
unfoldable pub free_loop : Buffer → ℕ → ℕ → ℕ → ℕ → ℕ → Option Buffer
free_loop b p alloc_length zero prev free_block = none
free_loop b p alloc_length (suc fuel) prev free_block =
    let alloc_header = p - 8 in
    let above = merge_with_above b p alloc_header free_block prev alloc_length in
    let below = merge_with_below b alloc_header prev in
    let at_end =
      if not (prev == 0) && below.1
      then below.0
      else insert_at_end b alloc_header prev (add32 (load32 b.bytes alloc_header) 8) in
    let rest = free_loop b p alloc_length fuel free_block (next_block b free_block) in
    if free_block == 0
    then some at_end
    else if ltb alloc_header free_block
    then some (if prev == 0 then above else (merge_with_below above alloc_header prev).0)
    else rest

unfoldable pub free_slow : Buffer → ℕ → Option Buffer
free_slow b p =
    let alloc_length = load64 b.bytes (p - 8) in
    let free_block = free_list_head b in
    let only = store32 (store32 b.bytes (p - 8) ((alloc_length + 8) % 2 ^ 32)) (p - 8 + 4) 0 in
    if p == 0 then some b else elim (index_of_encoded_size alloc_length) [
      | some index ↦ some (free_small_block b p index)
      | none ↦
          if free_block == 0
          then some (record b { bytes = only; free_list = to_offset b (p - 8) 0 free_header_size })
          else free_loop b p alloc_length (suc b.full_size) 0 free_block
    ]

unfoldable pub free : Buffer → ℕ → Option Buffer
free b p =
    let size_word = load64 b.bytes (p - 8) in
    if p == 0 || allocation_failed b
    then some b
    else elim (if is_small_word size_word then small_block_index (size_word % 256) else none) [
      | some index ↦ some (push_small b p index)
      | none ↦ free_slow b p
    ]

-- FreeAt: an offset outside the buffer is ignored.
unfoldable pub free_at : Buffer → ℕ → Option Buffer
free_at b offset =
    if leb 8 offset && leb offset (sub32 b.full_size 4) then free b offset else some b

-- The loop of AllocateMany: it writes a size word in front of each of `n` blocks from `p` on.
unfoldable pub split_blocks : Mem → ℕ → ℕ → ℕ → Mem × List ℕ
split_blocks m len zero p = (m, [])
split_blocks m len (suc n) p =
    let (m', blocks) = split_blocks (store64 m p len) len n (p + len + 8) in (m', (p + 8) ∷ blocks)

module _ (resize : Mem → ℕ → ℕ → Mem) where
  unfoldable pub allocate_many : Buffer → ℕ → ℕ → Bool → Option (Buffer × List ℕ)
  allocate_many b size n clear =
      let full_length = n * (align_size size + 8) in
      elim (allocate resize b (full_length % 2 ^ 32) false false) [
        | none ↦ none
        | some (b', start) ↦
            let cleared = if clear then fill b'.bytes start 0 full_length else b'.bytes in
            let (m, blocks) = split_blocks cleared (align_size size) n start in
            some (if start == 0 then (b', []) else (record b' { bytes = m }, blocks))
      ]
