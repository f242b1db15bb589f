-- ===== src/Memory.antt =====
-- The bytes that a payload buffer lies in, addressed by offset from the buffer's start, and the
-- accesses that phaser/runtime makes to them through typed pointers: little-endian uint32_t and
-- uint64_t loads and stores, memset and memcpy / memmove.
pub mod Words
pub mod Moves
pub mod Bytes
use phaser.Prelude.{ℕ, ◌+◌, ◌-◌, ◌*◌, ◌/◌, ◌%◌, ◌^◌, ltb, leb, ◌==◌, ◌&&◌, if◌then◌else◌}
use phaser.Prelude.{Bool, List, [], ◌∷◌, zero, suc}

abbrev pub Mem : Type 0
Mem = ℕ → ℕ

-- `p[i]` with `p` a `uint8_t *`: one byte is written.
unfoldable pub store8 : Mem → ℕ → ℕ → Mem
store8 m a v p = if p == a then v % 256 else m p

-- Whether `p` is one of the `n` bytes from `a` on.
abbrev pub inside : ℕ → ℕ → ℕ → Bool
inside a n p = leb a p && ltb p (a + n)

unfoldable pub load32 : Mem → ℕ → ℕ
load32 m a = m a + 256 * m (a + 1) + 65536 * m (a + 2) + 16777216 * m (a + 3)

unfoldable pub store32 : Mem → ℕ → ℕ → Mem
store32 m a v p =
    if p == a
    then v % 256
    else if p == a + 1
    then v / 256 % 256
    else if p == a + 2
    then v / 65536 % 256
    else if p == a + 3
    then v / 16777216 % 256
    else m p

unfoldable pub load64 : Mem → ℕ → ℕ
unfolding load32
load64 m a = load32 m a + 2 ^ 32 * load32 m (a + 4)

unfoldable pub store64 : Mem → ℕ → ℕ → Mem
unfolding store32
store64 m a v = store32 (store32 m a (v % 2 ^ 32)) (a + 4) (v / 2 ^ 32 % 2 ^ 32)

-- memset(a, v, n)
unfoldable pub fill : Mem → ℕ → ℕ → ℕ → Mem
fill m a v n p = if inside a n p then v else m p

-- memcpy(dst, src, n) and memmove(dst, src, n) inside one memory.
unfoldable pub copy : Mem → ℕ → ℕ → ℕ → Mem
copy m dst src n p = if inside dst n p then m (src + (p - dst)) else m p

-- memcpy of bytes that lie elsewhere.
unfoldable pub write_bytes : Mem → ℕ → List ℕ → Mem
write_bytes m a [] = m
write_bytes m a (x ∷ xs) = store8 (write_bytes m (a + 1) xs) a x

-- The `n` bytes from `a` on.
unfoldable pub read_bytes : Mem → ℕ → ℕ → List ℕ
read_bytes m a zero = []
read_bytes m a (suc n) = m a ∷ read_bytes m (a + 1) n
