-- ===== src/Payload/StringView.antt =====
-- A string that was written to its block is the string that is read
-- (phaser/runtime/payload_buffer.h and payload_buffer.cc).
use phaser.Prelude.{ℕ, ◌+◌, ◌^◌, ◌≤◌, ◌<◌, ◌≡◌, ◌⊎◌, inl, arith, ap, ◌∙◌}
use phaser.Prelude.{true, List, some, length}
use phaser.Memory.{Mem, load32, store32, read_bytes, write_bytes}
use phaser.Memory.Words.{load32-Same, store32_other, load32-store32_self, load32-store32_apart}
use phaser.Memory.Bytes.{
  IsBytes, write_bytes_other, read_bytes_same, read_bytes-write_bytes, take-length,
}
use phaser.Payload.{Buffer, is_valid_magic}
use phaser.Payload.Chain.{to_address_valid}
use phaser.Payload.Strings.{string_view}
use phaser.Payload.SetString.{outside, put_string, write_string}

module _ (b : Buffer) (xs : List ℕ) (block hdr : ℕ) (magic : is_valid_magic b ≡ true)
    (lim : b.full_size < 2 ^ 32) (bytes : IsBytes xs) (pos : 0 < block)
    (fit : block + 4 + length xs ≤ b.full_size)
    (apart : (hdr + 4 ≤ block) ⊎ (block + 4 + length xs ≤ hdr)) where
  after : Buffer
  after = write_string (put_string (outside xs)) b block (length xs) hdr

  sized : Mem
  sized = store32 b.bytes block (length xs)

  after_bytes : after.bytes ≡ store32 (write_bytes sized (block + 4) xs) hdr block
  unfolding after sized write_string put_string
  after_bytes =
      ap (λ ys. store32 (write_bytes (store32 b.bytes block (length xs)) (block + 4) ys) hdr block)
        (take-length xs)

  header_word : load32 after.bytes hdr ≡ block
  header_word = rw after_bytes (load32-store32_self _ hdr block (omega arith))

  length_word : load32 after.bytes block ≡ length xs
  unfolding sized
  length_word = rw after_bytes (
      load32-store32_apart (write_bytes sized (block + 4) xs) hdr block block (ground arith)
      ∙ load32-Same sized (write_bytes sized (block + 4) xs) block
          (λ p lo hi. write_bytes_other sized (block + 4) xs p (inl (omega arith)))
      ∙ load32-store32_self b.bytes block (length xs) (omega arith))

  -- After a string from outside the buffer was written to a block, and the block's offset to a
  -- header apart from it, GetStringView finds it in a valid buffer that the block lies in: its
  -- place, its length and its bytes.
  pub string_view-write_string :
      (string_view (write_string (put_string (outside xs)) b block (length xs) hdr) hdr
        ≡ some (block + 4, length xs))
      × (read_bytes
            (write_string (put_string (outside xs)) b block (length xs) hdr).bytes
            (block + 4)
            (length xs)
          ≡ xs)
  unfolding string_view after write_string
  string_view-write_string = (
    rw
        (
          header_word,
          (to_address_valid after block 1 magic pos (omega arith) (omega arith)).0,
          length_word,
        )
        (ground arith),
    ap (λ m. read_bytes m (block + 4) (length xs)) after_bytes
        ∙ read_bytes_same (write_bytes sized (block + 4) xs)
            (store32 (write_bytes sized (block + 4) xs) hdr block) (block + 4) (length xs)
            (λ p lo hi. store32_other (write_bytes sized (block + 4) xs) hdr block p (ground arith))
        ∙ read_bytes-write_bytes sized (block + 4) xs bytes,
  )
