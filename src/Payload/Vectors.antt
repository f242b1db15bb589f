-- ===== src/Payload/Vectors.antt =====
-- Vectors in a payload buffer (phaser/runtime/payload_buffer.h). `t` is sizeof(T), a value of the
-- type T is its bytes, and `hdr` is the address of the VectorHeader. A result has the new buffer and
-- the Boolean that the code returns; `none` says that a loop ran out of fuel.
use phaser.Prelude.{ℕ, ◌+◌, ◌-◌, ◌*◌, ◌/◌, ◌%◌, ◌^◌, Bool, true, false, not, ◌&&◌}
use phaser.Prelude.{ltb, leb, ◌==◌, if◌then◌else◌, List, Option, none, some}
use phaser.Memory.{Mem, load32, load64, store32, store64, write_bytes, read_bytes}
use phaser.Payload.{Buffer, mark_allocation_failed, to_address, to_offset}
use phaser.Payload.Words.{add32, small_word, is_small_word}
use phaser.Payload.Small.{small_block_index, small_block_size, decode_size}
use phaser.Payload.Alloc.{allocate}
use phaser.Payload.Release.{free}
use phaser.Payload.Realloc.{realloc}

abbrev pub num_elements : Buffer → ℕ → ℕ
num_elements b hdr = load32 b.bytes hdr

abbrev pub data_offset : Buffer → ℕ → ℕ
data_offset b hdr = load32 b.bytes (hdr + 4)

abbrev max32 : ℕ → ℕ → ℕ
max32 a b = if ltb a b then b else a

-- The fast path of VectorPush: the capacity of the block behind a size word.
unfoldable pub block_capacity : ℕ → ℕ
unfolding small_block_index small_block_size
block_capacity size_word =
    if is_small_word size_word
    then elim (small_block_index (size_word % 256)) [
      | none ↦ 0
      | some index ↦ small_block_size index
    ]
    else size_word

-- The fast path of VectorPush for a block with room: the size word of a small block is raised to
-- cover the elements.
unfoldable pub push_in_place : Buffer → ℕ → ℕ → ℕ → List ℕ → Buffer
push_in_place b hdr t needed v =
    let block = data_offset b hdr in
    let size_word = load64 b.bytes (block - 8) % 2 ^ 32 in
    let sized =
      if is_small_word size_word && ltb (size_word % 256) needed
      then store64 b.bytes (block - 8) (small_word needed)
      else b.bytes in
    let stored = write_bytes sized (block + needed - t) v in
    record b { bytes = store32 stored hdr (add32 (load32 stored hdr) 1) }

module _ (resize : Mem → ℕ → ℕ → Mem) where
  -- `new_hdr->data = (*self)->ToOffset(vecp)`, if there is a block and the header is still there.
  unfoldable pub set_data : Option (Buffer × ℕ) → ℕ → Option (Buffer × ℕ)
  unfolding to_address to_offset
  set_data none hdr_offset = none
  set_data (some (b, vecp)) hdr_offset =
      let new_hdr = to_address b hdr_offset 0 8 in
      if vecp == 0
      then some (b, 0)
      else if new_hdr == 0
      then some (b, 0)
      else some (record b { bytes = store32 b.bytes (new_hdr + 4) (to_offset b vecp 0 1) }, new_hdr)

  -- The vector's block with room for the next element: the buffer and the vector's header, 0 if
  -- there is no space.
  unfoldable pub grow_for_push : Buffer → ℕ → ℕ → Bool → Option (Buffer × ℕ)
  unfolding set_data to_address to_offset allocate realloc decode_size
  grow_for_push b hdr t enable_small_block =
      let hdr_offset = to_offset b hdr 0 8 in
      let block = to_address b (data_offset b hdr) 0 4 in
      let current_size = decode_size (load32 b.bytes (block - 8)) in
      let needed = (num_elements b hdr + 1) * t % 2 ^ 32 in
      let new_size = max32 needed (max32 (current_size * 2 % 2 ^ 32) (2 * t)) in
      if data_offset b hdr == 0
      then set_data (allocate resize b (2 * t % 2 ^ 32) true enable_small_block) hdr_offset
      else if block == 0
      then some (b, 0)
      else if ltb current_size needed
      then set_data (realloc resize b block new_size true enable_small_block) hdr_offset
      else some (b, hdr)

  -- "Assign value": the element behind the last one.
  unfoldable pub append_value : Option (Buffer × ℕ) → ℕ → List ℕ → Option (Buffer × Bool)
  unfolding to_address
  append_value none t v = none
  append_value (some (b, hdr)) t v =
      let valuep = to_address b (data_offset b hdr) 0 t in
      let stored = write_bytes b.bytes (valuep + num_elements b hdr * t) v in
      let b' = record b { bytes = store32 stored hdr (add32 (load32 stored hdr) 1) } in
      if hdr == 0 then some (b, false) else if valuep == 0 then some (b, false) else some (b', true)

  unfoldable pub vector_push_slow : Buffer → ℕ → ℕ → List ℕ → Bool → Option (Buffer × Bool)
  unfolding grow_for_push append_value
  vector_push_slow b hdr t v enable_small_block =
      append_value (grow_for_push b hdr t enable_small_block) t v

  unfoldable pub vector_push : Buffer → ℕ → ℕ → List ℕ → Bool → Option (Buffer × Bool)
  unfolding block_capacity push_in_place vector_push_slow
  vector_push b hdr t v enable_small_block =
      let needed = (num_elements b hdr + 1) % 2 ^ 32 * t % 2 ^ 32 in
      let data_at = data_offset b hdr in
      let size_word = load64 b.bytes (data_at - 8) % 2 ^ 32 in
      let slow = vector_push_slow b hdr t v enable_small_block in
      if hdr == 0
      then some (b, false)
      else if not (data_at == 0)
          && (leb needed b.full_size
              && (leb data_at (b.full_size - needed) && leb needed (block_capacity size_word)))
      then some (push_in_place b hdr t needed v, true)
      else slow

  -- The outcome of VectorReserve and VectorResize once the data was set.
  unfoldable pub is_set : Option (Buffer × ℕ) → Option (Buffer × Bool)
  is_set none = none
  is_set (some (b, hdr)) = some (b, not (hdr == 0))

  unfoldable pub vector_reserve : Buffer → ℕ → ℕ → ℕ → Bool → Option (Buffer × Bool)
  unfolding is_set set_data to_address to_offset allocate realloc decode_size
  vector_reserve b hdr t n enable_small_block =
      let hdr_offset = to_offset b hdr 0 8 in
      let block = to_address b (data_offset b hdr) 0 4 in
      let current_size = decode_size (load32 b.bytes (block - 8)) in
      let too_big = ltb ((2 ^ 32 - 1) / t) n in
      if hdr == 0
      then some (b, false)
      else if n == 0
      then some (b, true)
      else if data_offset b hdr == 0
      then (if too_big
          then some (mark_allocation_failed b, false)
          else is_set (set_data (allocate resize b (n * t) false enable_small_block) hdr_offset))
      else if block == 0
      then some (b, false)
      else if ltb current_size (n * t % 2 ^ 64)
      then (if too_big
          then some (mark_allocation_failed b, false)
          else is_set
              (set_data (realloc resize b block (n * t) false enable_small_block) hdr_offset))
      else some (b, true)

  -- `hdr->num_elements = n`
  unfoldable pub set_count : Option (Buffer × ℕ) → ℕ → Option (Buffer × Bool)
  set_count none n = none
  set_count (some (b, hdr)) n =
      if hdr == 0
      then some (b, false)
      else some (record b { bytes = store32 b.bytes hdr (n % 2 ^ 32) }, true)

  unfoldable pub vector_resize : Buffer → ℕ → ℕ → ℕ → Option (Buffer × Bool)
  unfolding set_count set_data to_address to_offset allocate realloc decode_size
  vector_resize b hdr t n =
      let hdr_offset = to_offset b hdr 0 8 in
      let block = to_address b (data_offset b hdr) 0 4 in
      let current_size = decode_size (load32 b.bytes (block - 8)) in
      if hdr == 0
      then some (b, false)
      else if ltb ((2 ^ 32 - 1) / t) n
      then some (mark_allocation_failed b, false)
      else if data_offset b hdr == 0
      then (if n == 0
          then set_count (some (b, hdr)) n
          else set_count (set_data (allocate resize b (n * t) true true) hdr_offset) n)
      else if block == 0
      then some (b, false)
      else if ltb current_size (n * t)
      then set_count (set_data (realloc resize b block (n * t) true true) hdr_offset) n
      else set_count (some (b, hdr)) n

unfoldable pub vector_clear : Buffer → ℕ → Option Buffer
unfolding free to_address
vector_clear b hdr =
    let freed =
      if data_offset b hdr == 0 then some b else free b (to_address b (data_offset b hdr) 0 1) in
    elim freed [
      | none ↦ none
      | some b' ↦ some (record b' { bytes = store32 (store32 b'.bytes (hdr + 4) 0) hdr 0 })
    ]

-- VectorGet; `none` is the zero of T.
unfoldable pub vector_get : Buffer → ℕ → ℕ → ℕ → Option (List ℕ)
unfolding to_address
vector_get b hdr t index =
    let addr = to_address b (data_offset b hdr) 0 t in
    if leb (num_elements b hdr) index
    then none
    else if addr == 0
    then none
    else some (read_bytes b.bytes (addr + index * t) t)
