-- ===== src/Payload/Small.antt =====
-- The size classes of small blocks (phaser/runtime/payload_buffer.h, payload_buffer.cc).
use phaser.Prelude.{ℕ, ◌+◌, ◌*◌, ◌/◌, ◌%◌, ◌^◌, ◌≤◌, ◌<◌, ◌≡◌, refl, Option, none, some, arith}
use phaser.Prelude.{leb, if◌then◌else◌, List, [], ◌∷◌}
use phaser.Payload.Words.{small_word, is_small_word}

-- `none` is the index -1.
unfoldable pub small_block_index : ℕ → Option ℕ
small_block_index n =
    if leb n 16
    then some 0
    else if leb n 32
    then some 1
    else if leb n 64
    then some 2
    else if leb n 128
    then some 3
    else none

unfoldable pub small_block_size : ℕ → ℕ
small_block_size index = 16 * 2 ^ index

abbrev pub small_block_sizes : List ℕ
small_block_sizes = 16 ∷ 32 ∷ 64 ∷ 128 ∷ []

-- The loop of BitmapRunIndex, over the sizes from index `i` on.
unfoldable pub first_class : ℕ → List ℕ → ℕ → Option ℕ
first_class i [] n = none
first_class i (size ∷ sizes) n =
    let rest = first_class (i + 1) sizes n in if leb n size then some i else rest

unfoldable pub bitmap_run_index : ℕ → Option ℕ
unfolding first_class
bitmap_run_index n = first_class 0 small_block_sizes n

-- BitmapRunIndexFromEncodedSize
unfoldable pub index_of_encoded_size : ℕ → Option ℕ
unfolding bitmap_run_index
index_of_encoded_size word = if is_small_word word then bitmap_run_index (word % 256) else none

-- DecodeSize and DecodedSize, of the size word in front of a block
unfoldable pub decode_size : ℕ → ℕ
decode_size word = if is_small_word word then word % 256 else word % 2 ^ 32

-- The loop over the table of sizes and the ladder of comparisons choose the same class for every
-- size.
pub bitmap_run_index-eq-small_block_index : (n : ℕ) → bitmap_run_index n ≡ small_block_index n
unfolding bitmap_run_index small_block_index
bitmap_run_index-eq-small_block_index n = ground arith

-- The size word written for a small block of at most 128 bytes leads back to the class of that
-- size and to the size itself.
pub small_word_lem :
    (n : ℕ)
    → n ≤ 128
    → (index_of_encoded_size (small_word n) ≡ small_block_index n)
      × (decode_size (small_word n) ≡ n)
unfolding index_of_encoded_size decode_size
small_word_lem n h =
    let flag : (2 ^ 31 + n) / 2 ^ 31 % 2 ≡ 1 = omega arith in
    let low : (2 ^ 31 + n) % 256 ≡ n = omega arith in
    (rw (flag, low) (bitmap_run_index-eq-small_block_index n), rw (flag, low))

-- A class is one of four, and its blocks hold the size that was asked for.
pub small_block_index_fits :
    (n i : ℕ)
    → small_block_index n ≡ some i
    → (i < 4) × (n ≤ small_block_size i) × (small_block_size i ≤ 128) × (n ≤ 128)
unfolding small_block_index
small_block_index_fits n i h = ground (arith, sizes)
  where
    sizes :
        (small_block_size 0 ≡ 16)
        × (small_block_size 1 ≡ 32)
        × (small_block_size 2 ≡ 64)
        × (small_block_size 3 ≡ 128)
    sizes = unfold small_block_size in (refl, refl, refl, refl)
