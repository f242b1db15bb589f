-- ===== src/Payload/Realloc.antt =====
-- Realloc with ShrinkBlock, ExpandIntoFreeBlockAbove and MergeWithFreeBlockBelow, and
-- AllocateMainMessage, AllocateMetadata and NewMessage (phaser/runtime/payload_buffer.h and
-- payload_buffer.cc).
use phaser.Prelude.{ℕ, zero, suc, ◌+◌, ◌-◌, ◌%◌, ◌^◌, Bool, true, false, not, ◌&&◌}
use phaser.Prelude.{ltb, leb, ◌==◌, if◌then◌else◌, List, length, Option, none, some}
use phaser.Memory.{Mem, load32, load64, store32, store64, fill, copy, write_bytes}
use phaser.Payload.{
  Buffer, free_header_size, bitmaps_enabled, to_address, to_offset, update_hwm_address,
  free_list_head, next_block, set_link,
}
use phaser.Payload.Words.{sub32, align_size, small_word}
use phaser.Payload.Small.{bitmap_run_index, index_of_encoded_size}
use phaser.Payload.Alloc.{allocate}
use phaser.Payload.Release.{free}

-- ShrinkBlock: `p` is the address of the payload, its header and its length word are 8 bytes below.
unfoldable pub shrink_block : Buffer → ℕ → ℕ → ℕ → Option Buffer
unfolding free
shrink_block b p orig_length new_length =
    let rem = sub32 orig_length new_length in
    let newp = p + new_length in
    let cut = record b { bytes = store64 (store64 b.bytes (p - 8) new_length) newp (rem - 8) } in
    if leb free_header_size rem then free cut (newp + 8) else some b

-- ExpandIntoFreeBlockAbove: `prev` is the free block before `free_block`, 0 if there is none.
unfoldable pub expand_into_free_block_above : Buffer → ℕ → ℕ → ℕ → ℕ → ℕ → ℕ → Bool → Buffer
unfolding to_offset next_block update_hwm_address set_link
expand_into_free_block_above b free_block new_length len_diff free_remaining len_ptr prev clear =
    let next = next_block b free_block in
    let new_block = free_block + len_diff in
    let sized = store32 (store64 b.bytes len_ptr new_length) new_block free_remaining in
    let b1 = record b {
      bytes = store32 sized (new_block + 4) (to_offset b next 0 free_header_size);
    } in
    let b2 =
      update_hwm_address (set_link b1 prev (to_offset b new_block 0 free_header_size)) new_block in
    if clear then record b2 { bytes = fill b2.bytes free_block 0 len_diff } else b2

-- MergeWithFreeBlockBelow: the buffer, and the address of the moved payload.
unfoldable pub merge_with_free_block_below : Buffer → ℕ → ℕ → ℕ → ℕ → ℕ → Bool → Buffer × ℕ
unfolding to_offset set_link
merge_with_free_block_below b alloc_block prev free_block new_length orig_length clear =
    let next = load32 b.bytes (free_block + 4) in
    let remaining = (load32 b.bytes free_block + orig_length + 2 ^ 32 - new_length) % 2 ^ 32 in
    let moved =
      copy (store64 b.bytes free_block new_length) (free_block + 8) alloc_block orig_length in
    let cleared =
      if clear
      then fill moved (free_block + 8 + orig_length) 0 (new_length - orig_length)
      else moved in
    let newb = free_block + new_length + 8 in
    let split = record b { bytes = store32 (store32 cleared newb remaining) (newb + 4) next } in
    (
      if leb free_header_size remaining
          then set_link split prev (to_offset split newb 0 free_header_size)
          else set_link (record b { bytes = cleared }) prev next,
      free_block + 8,
    )

-- How the walk along the free list ends: the block grows where it is, with the free block above it,
-- or moves down into the free block below it, or has to move elsewhere.
pub data Place : Type 0 where
  expand_above : ℕ → ℕ → Place
  merge_below : ℕ → ℕ → Place
  elsewhere : Place

-- The loop of Realloc. `alloc_block` is the block's header; its payload has `orig_length` bytes, and
-- `diff` more are wanted.
unfoldable pub find_place : Buffer → ℕ → ℕ → ℕ → ℕ → ℕ → ℕ → ℕ → Option Place
unfolding next_block
find_place b alloc_block orig_length diff zero prev_prev prev free_block = none
find_place b alloc_block orig_length diff (suc fuel) prev_prev prev free_block =
    let rest =
      find_place b alloc_block orig_length diff fuel prev free_block (next_block b free_block) in
    let free_length = load32 b.bytes free_block in
    let below =
      if not (prev == 0)
      then (if prev + load32 b.bytes prev == alloc_block && leb diff (load32 b.bytes prev)
          then some (merge_below prev_prev prev)
          else some elsewhere)
      else rest in
    let above = ltb diff free_length && ltb free_header_size (free_length - diff) in
    if free_block == 0
    then some elsewhere
    else if ltb alloc_block free_block
    then (if alloc_block + 8 + orig_length == free_block && above
        then some (expand_above prev free_block)
        else below)
    else rest

module _ (resize : Mem → ℕ → ℕ → Mem) where
  -- "allocate a new one, copy the memory and free the old block": `copied` bytes are kept, and
  -- cleared from `from` on.
  unfoldable pub move_block : Buffer → ℕ → ℕ → ℕ → ℕ → Bool → Bool → Option (Buffer × ℕ)
  unfolding to_offset to_address allocate free
  move_block b p n copied from clear enable_small_block =
      let p_offset = to_offset b p 0 1 in
      elim (allocate resize b n false enable_small_block) [
        | none ↦ none
        | some (b', newp) ↦
            let p' = to_address b' p_offset 0 1 in
            let kept = copy b'.bytes newp p' copied in
            let cleared =
              if clear && ltb from n then fill kept (newp + from) 0 (n - from) else kept in
            if newp == 0 then some (b', 0) else elim (free (record b' { bytes = cleared }) p') [
              | none ↦ none
              | some b'' ↦ some (b'', newp)
            ]
      ]

  -- Realloc of a small block of the class `index`, whose size word is `word`.
  unfoldable pub realloc_small : Buffer → ℕ → ℕ → ℕ → ℕ → Bool → Bool → Option (Buffer × ℕ)
  unfolding bitmaps_enabled bitmap_run_index move_block
  realloc_small b p n word index clear enable_small_block =
      let decoded_length = word % 256 in
      let same_class : Bool = elim (bitmap_run_index n) [
        | none ↦ false
        | some index' ↦ index' == index
      ] in
      let resized = store64 b.bytes (p - 8) (small_word n) in
      let cleared =
        if clear && ltb decoded_length n
        then fill resized (p + decoded_length) 0 (n - decoded_length)
        else resized in
      if enable_small_block && (bitmaps_enabled b && same_class)
      then some (record b { bytes = cleared }, p)
      else move_block b p n (if ltb n decoded_length then n else decoded_length) decoded_length
          clear enable_small_block

  -- Realloc of any other block, after `n` was aligned.
  unfoldable pub realloc_block : Buffer → ℕ → ℕ → ℕ → Bool → Bool → Option (Buffer × ℕ)
  unfolding shrink_block expand_into_free_block_above merge_with_free_block_below find_place
      free_list_head move_block
  realloc_block b p n orig_length clear enable_small_block =
      let diff = (n + 2 ^ 64 - orig_length) % 2 ^ 32 in
      if n == orig_length
      then some (b, p)
      else if ltb n orig_length
      then elim (shrink_block b p (orig_length % 2 ^ 32) n) [ none ↦ none | some b' ↦ some (b', p) ]
      else elim (find_place b (p - 8) orig_length diff (suc b.full_size) 0 0 (free_list_head b)) [
        | none ↦ none
        | some (expand_above prev free_block) ↦ some (
          expand_into_free_block_above b free_block n diff (sub32 (load32 b.bytes free_block) diff)
              (p - 8) prev clear,
          p,
        )
        | some (merge_below prev_prev prev) ↦
            some (merge_with_free_block_below b p prev_prev prev n (orig_length % 2 ^ 32) clear)
        | some elsewhere ↦ move_block b p n orig_length orig_length clear enable_small_block
      ]

  unfoldable pub realloc : Buffer → ℕ → ℕ → Bool → Bool → Option (Buffer × ℕ)
  unfolding allocate realloc_small realloc_block index_of_encoded_size align_size
  realloc b p n clear enable_small_block =
      let orig_length = load64 b.bytes (p - 8) in
      if p == 0 then allocate resize b n clear true else elim (index_of_encoded_size orig_length) [
        | some index ↦ realloc_small b p n orig_length index clear enable_small_block
        | none ↦ realloc_block b p (align_size n) orig_length clear enable_small_block
      ]

  unfoldable pub allocate_main_message : Buffer → ℕ → Option (Buffer × ℕ)
  unfolding allocate to_offset
  allocate_main_message b size = elim (allocate resize b (size % 2 ^ 32) true true) [
    | none ↦ none
    | some (b', msg) ↦ some (record b' { message = to_offset b' msg 0 1 }, msg)
  ]

  -- The code does not test the address that it copies to.
  unfoldable pub allocate_metadata : Buffer → List ℕ → Option Buffer
  unfolding allocate to_offset
  allocate_metadata b md = elim (allocate resize b (length md % 2 ^ 32) false true) [
    | none ↦ none
    | some (b', m) ↦
        let b'' = record b' { bytes = write_bytes b'.bytes m md } in
        some (record b'' { metadata = to_offset b'' m 0 1 })
  ]

  -- NewMessage: `offset` is where the new message's offset goes.
  unfoldable pub new_message : Buffer → ℕ → ℕ → Option (Buffer × ℕ)
  unfolding allocate to_offset to_address
  new_message b size offset = elim (allocate resize b size true true) [
    | none ↦ none
    | some (b', msg) ↦
        let p = to_address b' offset 0 4 in
        some (record b' { bytes = store32 b'.bytes p (to_offset b' msg 0 1) }, msg)
  ]
