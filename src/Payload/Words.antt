-- ===== src/Payload/Words.antt =====
-- uint32_t arithmetic of the allocator, and the size word in front of an allocated block
-- (phaser/runtime/payload_buffer.h and payload_buffer.cc).
use phaser.Prelude.{ℕ, ◌+◌, ◌-◌, ◌*◌, ◌/◌, ◌%◌, ◌^◌, ◌≤◌, ◌<◌, ◌≡◌, Bool, arith, ◌==◌}

abbrev pub add32 : ℕ → ℕ → ℕ
add32 a b = (a + b) % 2 ^ 32

abbrev pub sub32 : ℕ → ℕ → ℕ
sub32 a b = (a + 2 ^ 32 - b) % 2 ^ 32

-- AlignSize(s, 8): `(s + 7) & ~7` in 32 bits.
unfoldable pub align_size : ℕ → ℕ
align_size s = (s + 7) % 2 ^ 32 / 8 * 8

-- `kSmallBlockFlag | size` for a size of at most 128.
abbrev pub small_word : ℕ → ℕ
small_word size = 2 ^ 31 + size

-- `(word & kSmallBlockFlag) != 0`
abbrev pub is_small_word : ℕ → Bool
is_small_word word = word / 2 ^ 31 % 2 == 1

-- Below the last seven values of uint32_t the size is rounded up to a multiple of 8, by less than 8.
pub align_size_bounds :
    (s : ℕ) → s + 7 < 2 ^ 32 → (s ≤ align_size s) × (align_size s < s + 8) × (align_size s % 8 ≡ 0)
unfolding align_size
align_size_bounds s h = omega arith
