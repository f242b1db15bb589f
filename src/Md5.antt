-- ===== src/Md5.antt =====
-- phaser/runtime/md5.cc: the MD5 digest of a byte string. A uint32_t is a number below 2 ^ 32, and a pointer to
-- bytes is the list of the bytes from there on.
pub mod Reference
pub mod Blocks
pub mod Compress
pub mod Padding
pub mod Digest
pub mod Runs
use phaser.Prelude.{ℕ, zero, suc, ◌+◌, ◌-◌, ◌*◌, ◌/◌, ◌%◌, ◌^◌, Bool, true, false, ltb, leb, ◌==◌}
use phaser.Prelude.{if◌then◌else◌, List, [], ◌∷◌, ◌++◌, length, get_or, set, drop}
use Prim.Native.Nat.{bit_and, bit_or, bit_xor}

abbrev pub constants : List ℕ
constants =
    0xd76aa478 ∷ 0xe8c7b756 ∷ 0x242070db ∷ 0xc1bdceee ∷ 0xf57c0faf ∷ 0x4787c62a ∷ 0xa8304613
    ∷ 0xfd469501 ∷ 0x698098d8 ∷ 0x8b44f7af ∷ 0xffff5bb1 ∷ 0x895cd7be ∷ 0x6b901122 ∷ 0xfd987193
    ∷ 0xa679438e ∷ 0x49b40821 ∷ 0xf61e2562 ∷ 0xc040b340 ∷ 0x265e5a51 ∷ 0xe9b6c7aa ∷ 0xd62f105d
    ∷ 0x02441453 ∷ 0xd8a1e681 ∷ 0xe7d3fbc8 ∷ 0x21e1cde6 ∷ 0xc33707d6 ∷ 0xf4d50d87 ∷ 0x455a14ed
    ∷ 0xa9e3e905 ∷ 0xfcefa3f8 ∷ 0x676f02d9 ∷ 0x8d2a4c8a ∷ 0xfffa3942 ∷ 0x8771f681 ∷ 0x6d9d6122
    ∷ 0xfde5380c ∷ 0xa4beea44 ∷ 0x4bdecfa9 ∷ 0xf6bb4b60 ∷ 0xbebfbc70 ∷ 0x289b7ec6 ∷ 0xeaa127fa
    ∷ 0xd4ef3085 ∷ 0x04881d05 ∷ 0xd9d4d039 ∷ 0xe6db99e5 ∷ 0x1fa27cf8 ∷ 0xc4ac5665 ∷ 0xf4292244
    ∷ 0x432aff97 ∷ 0xab9423a7 ∷ 0xfc93a039 ∷ 0x655b59c3 ∷ 0x8f0ccc92 ∷ 0xffeff47d ∷ 0x85845dd1
    ∷ 0x6fa87e4f ∷ 0xfe2ce6e0 ∷ 0xa3014314 ∷ 0x4e0811a1 ∷ 0xf7537e82 ∷ 0xbd3af235 ∷ 0x2ad7d2bb
    ∷ 0xeb86d391 ∷ []

abbrev pub rotations : List ℕ
rotations =
    7 ∷ 12 ∷ 17 ∷ 22 ∷ 7 ∷ 12 ∷ 17 ∷ 22 ∷ 7 ∷ 12 ∷ 17 ∷ 22 ∷ 7 ∷ 12 ∷ 17 ∷ 22 ∷ 5 ∷ 9 ∷ 14 ∷ 20 ∷ 5
    ∷ 9 ∷ 14 ∷ 20 ∷ 5 ∷ 9 ∷ 14 ∷ 20 ∷ 5 ∷ 9 ∷ 14 ∷ 20 ∷ 4 ∷ 11 ∷ 16 ∷ 23 ∷ 4 ∷ 11 ∷ 16 ∷ 23 ∷ 4 ∷ 11
    ∷ 16 ∷ 23 ∷ 4 ∷ 11 ∷ 16 ∷ 23 ∷ 6 ∷ 10 ∷ 15 ∷ 21 ∷ 6 ∷ 10 ∷ 15 ∷ 21 ∷ 6 ∷ 10 ∷ 15 ∷ 21 ∷ 6 ∷ 10
    ∷ 15 ∷ 21 ∷ []

-- `~x`
abbrev pub complement : ℕ → ℕ
complement x = 2 ^ 32 - 1 - x

-- RotateLeft
unfoldable pub rotate_left : ℕ → ℕ → ℕ
rotate_left value count = bit_or (value * 2 ^ count % 2 ^ 32) (value / 2 ^ (32 - count))

-- ReadLittleEndian32 at the byte `at` of the block.
unfoldable pub read_little_endian32 : List ℕ → ℕ → ℕ
read_little_endian32 bytes at =
    bit_or
      (bit_or (bit_or (get_or bytes at 0) (get_or bytes (at + 1) 0 * 2 ^ 8))
        (get_or bytes (at + 2) 0 * 2 ^ 16))
      (get_or bytes (at + 3) 0 * 2 ^ 24)

-- The words of a block from the word `i` on.
unfoldable pub words_from : List ℕ → ℕ → ℕ → List ℕ
unfolding read_little_endian32
words_from block zero i = []
words_from block (suc left) i = read_little_endian32 block (i * 4) ∷ words_from block left (i + 1)

pub record State : Type 0 where
  pub a : ℕ
  pub b : ℕ
  pub c : ℕ
  pub d : ℕ

-- `function` and `word_index` of the round `i`.
unfoldable pub function : ℕ → State → ℕ
function i s =
    if ltb i 16
    then bit_or (bit_and s.b s.c) (bit_and (complement s.b) s.d)
    else if ltb i 32
    then bit_or (bit_and s.d s.b) (bit_and (complement s.d) s.c)
    else if ltb i 48
    then bit_xor (bit_xor s.b s.c) s.d
    else bit_xor s.c (bit_or s.b (complement s.d))

unfoldable pub word_index : ℕ → ℕ
word_index i =
    if ltb i 16
    then i
    else if ltb i 32
    then (5 * i + 1) % 16
    else if ltb i 48
    then (3 * i + 5) % 16
    else 7 * i % 16

unfoldable pub round : List ℕ → ℕ → State → State
unfolding function word_index rotate_left
round words i s =
    let sum =
      (s.a + function i s + get_or constants i 0 + get_or words (word_index i) 0) % 2 ^ 32 in
    record {
      a = s.d;
      b = (s.b + rotate_left sum (get_or rotations i 0)) % 2 ^ 32;
      c = s.b;
      d = s.c;
    }

unfoldable pub rounds : List ℕ → ℕ → ℕ → State → State
unfolding round
rounds words zero i s = s
rounds words (suc left) i s = rounds words left (i + 1) (round words i s)

-- ProcessBlock
unfoldable pub process_block : List ℕ → State → State
unfolding words_from rounds
process_block block s =
    let r = rounds (words_from block 16 0) 64 0 s in
    record {
      a = (s.a + r.a) % 2 ^ 32;
      b = (s.b + r.b) % 2 ^ 32;
      c = (s.c + r.c) % 2 ^ 32;
      d = (s.d + r.d) % 2 ^ 32;
    }

-- HexDigit, as the character's code.
unfoldable pub hex_digit : ℕ → ℕ
hex_digit value = if ltb value 10 then 48 + value else 87 + value

abbrev pub initial : State
initial = record { a = 0x67452301; b = 0xefcdab89; c = 0x98badcfe; d = 0x10325476 }

-- The loop over whole blocks of the input: the state, and the bytes that remain.
unfoldable pub whole_blocks : ℕ → List ℕ → State → State × List ℕ
unfolding process_block
whole_blocks zero bytes s = (s, bytes)
whole_blocks (suc fuel) bytes s =
    let rest = whole_blocks fuel (drop 64 bytes) (process_block bytes s) in
    if leb 64 (length bytes) then rest else (s, bytes)

unfoldable pub zero_bytes : ℕ → List ℕ
zero_bytes zero = []
zero_bytes (suc n) = 0 ∷ zero_bytes n

-- The loop that puts the length at the end of the tail, from its byte `i` on.
unfoldable pub put_length : ℕ → ℕ → ℕ → ℕ → List ℕ → List ℕ
put_length bit_length tail_size zero i tail = tail
put_length bit_length tail_size (suc left) i tail =
    put_length bit_length tail_size left (i + 1)
      (set tail (tail_size - 8 + i) (bit_length / 2 ^ (i * 8) % 256))

abbrev pub tail_size : ℕ → ℕ
tail_size remaining = if ltb remaining 56 then 64 else 128

-- `tail`, for the bytes that remain of an input of `size` bytes.
unfoldable pub tail_of : List ℕ → ℕ → List ℕ
unfolding zero_bytes put_length
tail_of rest size =
    let remaining = length rest in
    put_length (size * 8 % 2 ^ 64) (tail_size remaining) 8 0
      (set (rest ++ zero_bytes (128 - remaining)) remaining 0x80)

unfoldable pub hex_bytes : ℕ → ℕ → ℕ → List ℕ
unfolding hex_digit
hex_bytes word zero i = []
hex_bytes word (suc left) i =
    let byte = word / 2 ^ (i * 8) % 256 in
    hex_digit (byte / 16) ∷ (hex_digit (byte % 16) ∷ hex_bytes word left (i + 1))

unfoldable pub digest : State → List ℕ
unfolding hex_bytes
digest s = hex_bytes s.a 4 0 ++ (hex_bytes s.b 4 0 ++ (hex_bytes s.c 4 0 ++ hex_bytes s.d 4 0))

-- Md5
unfoldable pub md5 : List ℕ → List ℕ
unfolding whole_blocks tail_of process_block digest
md5 input =
    let (s, rest) = whole_blocks (length input) input initial in
    let tail = tail_of rest (length input) in
    let s' = process_block tail s in
    if tail_size (length rest) == 128 then digest (process_block (drop 64 tail) s') else digest s'
