-- ===== src/Message/Chunks.antt =====
-- The chunks of a vector of messages (phaser/runtime/message.h and payload_buffer.h): reading the
-- layout of its data, finding an element, and releasing the vector.
use phaser.Prelude.{ℕ, zero, suc, ◌+◌, ◌-◌, ◌*◌, ◌/◌, ◌%◌, ◌^◌, Bool, not, ◌&&◌, ◌||◌}
use phaser.Prelude.{ltb, ◌==◌, if◌then◌else◌, Option, none, some}
use phaser.Memory.{Mem, load32, store32}
use phaser.Payload.{Buffer}
use phaser.Payload.Release.{free_at}
use phaser.Message.{Runtime, trusted_size, runtime_to_address}

-- PayloadAt, with `nbytes` for sizeof(T): the address, 0 for nullptr.
unfoldable pub payload_at : Buffer → ℕ → ℕ → ℕ → ℕ
payload_at b offset count nbytes =
    if offset == 0 || (ltb b.full_size offset || ltb ((b.full_size - offset) / nbytes) count)
    then 0
    else offset

unfoldable pub offset_at : Buffer → ℕ → ℕ
unfolding payload_at
offset_at b field = let p = payload_at b field 1 4 in if p == 0 then 0 else load32 b.bytes p

abbrev pub max_chunks : ℕ
max_chunks = 31

-- MessageVectorLayout
pub record Layout : Type 0 where
  pub block : ℕ
  pub stride : ℕ
  pub first_capacity : ℕ
  pub directory : ℕ
  pub num_chunks : ℕ

abbrev pub no_layout : Layout
no_layout = record { block = 0; stride = 0; first_capacity = 0; directory = 0; num_chunks = 0 }

unfoldable pub layout_capacity : Layout → ℕ
layout_capacity l = l.first_capacity * 2 ^ l.num_chunks % 2 ^ 64

-- The words of MessageVectorBlock, and of its directory.
abbrev pub stride_of : Mem → ℕ → ℕ
stride_of m block = load32 m block

abbrev pub first_capacity_of : Mem → ℕ → ℕ
first_capacity_of m block = load32 m (block + 4)

abbrev pub directory_of : Mem → ℕ → ℕ
directory_of m block = load32 m (block + 12)

-- The chunks listed in the directory at `directory`, 0 if there is none.
abbrev pub chunks_of : Mem → ℕ → ℕ
chunks_of m directory = if directory == 0 then 0 else load32 m directory

abbrev pub layout_of : Mem → ℕ → Layout
layout_of m block = record {
  block = block;
  stride = stride_of m block;
  first_capacity = first_capacity_of m block;
  directory = directory_of m block;
  num_chunks = chunks_of m (directory_of m block);
}

-- The tests on the block and its first chunk, and on the directory.
unfoldable pub block_fails : Mem → ℕ → ℕ → Bool
block_fails m size block =
    ltb (stride_of m block) 8
    || (not (stride_of m block % 8 == 0)
        || (first_capacity_of m block == 0
            || ltb size (block + 16 + first_capacity_of m block * stride_of m block)))

unfoldable pub directory_fails : Mem → ℕ → ℕ → Bool
directory_fails m size directory =
    not (directory == 0)
    && (ltb size (directory + 4)
        || (ltb max_chunks (load32 m directory)
            || ltb size (directory + (load32 m directory + 1) * 4)))

unfoldable pub load_received_layout : Runtime → ℕ → Layout
unfolding trusted_size block_fails directory_fails
load_received_layout r block =
    let size = trusted_size r in
    let m = r.pb.bytes in
    if block == 0 || ltb size (block + 16)
    then no_layout
    else if block_fails m size block
    then no_layout
    else if directory_fails m size (directory_of m block)
    then no_layout
    else layout_of m block

unfoldable pub load_layout : Runtime → ℕ → Layout
unfolding load_received_layout
load_layout r block =
    if not r.is_mutable then load_received_layout r block else layout_of r.pb.bytes block

-- The number of bits of a uint32_t, and `__builtin_clz` of one that is not 0.
unfoldable pub bit_width : ℕ → ℕ → ℕ
bit_width zero n = 0
bit_width (suc fuel) n = let rest = bit_width fuel (n / 2) in if n == 0 then 0 else rest + 1

unfoldable pub clz : ℕ → ℕ
unfolding bit_width
clz n = 32 - bit_width 32 n

-- The shift of MessageVectorElement: the chunk of `index` starts at `first_capacity << shift`.
unfoldable pub chunk_shift : ℕ → ℕ → ℕ
chunk_shift first_capacity index =
    let shift = (clz first_capacity + 2 ^ 32 - clz index) % 2 ^ 32 in
    if ltb index (first_capacity * 2 ^ shift % 2 ^ 64) then shift - 1 else shift

unfoldable pub message_vector_element : Runtime → Layout → ℕ → ℕ
unfolding trusted_size
message_vector_element r l index =
    let shift = chunk_shift l.first_capacity index in
    let chunk = load32 r.pb.bytes (l.directory + (shift + 1) * 4) in
    let start = l.first_capacity * 2 ^ shift in
    let offset = chunk + (index - start) * l.stride in
    if ltb index l.first_capacity
    then (l.block + 16 + index * l.stride) % 2 ^ 32
    else if chunk == 0
    then 0
    else if not r.is_mutable && ltb (trusted_size r) (offset + l.stride)
    then 0
    else offset % 2 ^ 32

-- ReleaseMessageVector. `release` is ReleaseMessageContents<T> of the element's type, with what it
-- does to the buffer.
module _ (release : Runtime → ℕ → Option Runtime) where
  -- The elements from `i` on.
  unfoldable pub release_elements : Runtime → Layout → ℕ → ℕ → Option Runtime
  unfolding message_vector_element layout_capacity
  release_elements r l zero i = some r
  release_elements r l (suc count) i =
      let element = message_vector_element r l i in
      let released : Option Runtime = if element == 0 then some r else release r element in
      let next : Option Runtime = elim released [
        | none ↦ none
        | some r' ↦ release_elements r' l count (i + 1)
      ] in
      if ltb i (layout_capacity l) then next else some r

  -- The chunks from `k` on.
  unfoldable pub free_chunks : Buffer → ℕ → ℕ → ℕ → Option Buffer
  unfolding free_at offset_at
  free_chunks b directory zero k = some b
  free_chunks b directory (suc count) k = elim (free_at b (offset_at b (directory + k * 4))) [
    | none ↦ none
    | some b' ↦ free_chunks b' directory count (k + 1)
  ]

  -- From the chunks on, with the vector's header emptied.
  unfoldable pub free_vector : Buffer → Layout → Option Buffer
  unfolding free_chunks
  free_vector b l = elim (free_chunks b l.directory l.num_chunks 1) [
    | none ↦ none
    | some b1 ↦ elim (free_at b1 l.directory) [ none ↦ none | some b2 ↦ free_at b2 l.block ]
  ]

  unfoldable pub release_message_vector : Runtime → ℕ → Option Runtime
  unfolding release_elements free_vector load_layout runtime_to_address
  release_message_vector r header =
      let hdr = runtime_to_address r header 8 in
      let block = load32 r.pb.bytes (hdr + 4) in
      let l = load_layout r block in
      let emptied : Runtime → Buffer → Runtime = λ r' b.
        let cleared = runtime_to_address (record r' { pb = b }) header 8 in
        record r' {
          pb = record b { bytes = store32 (store32 b.bytes cleared 0) (cleared + 4) 0 };
        } in
      let freed : Runtime → Option Runtime =
        λ r'. elim (free_vector (r'.pb) l) [ none ↦ none | some b ↦ some (emptied r' b) ] in
      if hdr == 0 || block == 0
      then some r
      else elim (release_elements r l (load32 r.pb.bytes hdr) 0) [
        | none ↦ none
        | some r' ↦ freed r'
      ]

-- ReleaseVectorData
unfoldable pub release_vector_data : Buffer → ℕ → Option Buffer
unfolding payload_at free_at
release_vector_data b field =
    let hdr = payload_at b field 1 8 in
    if hdr == 0 then some b else free_at b (load32 b.bytes (hdr + 4))
