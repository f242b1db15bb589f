-- ===== src/Memory/Moves.antt =====
-- 64-bit words, memset and memcpy.
use phaser.Prelude.{ℕ, ◌+◌, ◌-◌, ◌/◌, ◌%◌, ◌^◌, ◌≤◌, ◌<◌, ◌≡◌, ◌⊎◌, inl, arith}
use phaser.Memory.{Mem, load32, store32, load64, store64, fill, copy}
use phaser.Memory.Words.{
  Apart, load32-Same, store32_other, load32-store32_self, load32-store32_apart,
}

pub store64_other : (m : Mem) (a v p : ℕ) → Apart a 8 p → store64 m a v p ≡ m p
unfolding store64
store64_other m a v p h = ground (
  arith,
  store32_other (store32 m a (v % 2 ^ 32)) (a + 4) (v / 2 ^ 32 % 2 ^ 32) p,
  store32_other m a (v % 2 ^ 32) p,
)

pub load64-store64_self : (m : Mem) (a v : ℕ) → v < 2 ^ 64 → load64 (store64 m a v) a ≡ v
unfolding load64 store64
load64-store64_self m a v h = omega (
  arith,
  load32-store32_apart (store32 m a (v % 2 ^ 32)) (a + 4) (v / 2 ^ 32 % 2 ^ 32) a
      (inl (omega arith)),
  load32-store32_self m a (v % 2 ^ 32) (omega arith),
  load32-store32_self (store32 m a (v % 2 ^ 32)) (a + 4) (v / 2 ^ 32 % 2 ^ 32) (omega arith),
)

pub fill_other : (m : Mem) (a v n p : ℕ) → Apart a n p → fill m a v n p ≡ m p
unfolding fill
fill_other m a v n p h = ground arith

pub fill_at : (m : Mem) (a v n p : ℕ) → a ≤ p → p < a + n → fill m a v n p ≡ v
unfolding fill
fill_at m a v n p lo hi = ground arith

pub copy_other : (m : Mem) (dst src n p : ℕ) → Apart dst n p → copy m dst src n p ≡ m p
unfolding copy
copy_other m dst src n p h = ground arith

pub copy_at : (m : Mem) (dst src n i : ℕ) → i < n → copy m dst src n (dst + i) ≡ m (src + i)
unfolding copy
copy_at m dst src n i h = let e : dst + i - dst ≡ i = omega arith in ground arith

-- A 32-bit load sees no write of `n` bytes from `a` on that is apart from it.
module _ (m : Mem) (a n b : ℕ) (apart : (b + 4 ≤ a) ⊎ (a + n ≤ b)) where
  byte-Apart : (p : ℕ) → b ≤ p → p < b + 4 → Apart a n p
  byte-Apart p lo hi = ground arith

  pub load32-fill_apart : (v : ℕ) → load32 (fill m a v n) b ≡ load32 m b
  load32-fill_apart v =
      load32-Same m (fill m a v n) b λ p lo hi. fill_other m a v n p (byte-Apart p lo hi)

pub load32-store64_apart :
    (m : Mem) (a v b : ℕ) → (b + 4 ≤ a) ⊎ (a + 8 ≤ b) → load32 (store64 m a v) b ≡ load32 m b
load32-store64_apart m a v b h =
    load32-Same m (store64 m a v) b λ p lo hi. store64_other m a v p (byte-Apart m a 8 b h p lo hi)

pub load64-fill_apart :
    (m : Mem) (a v n b : ℕ) → (b + 8 ≤ a) ⊎ (a + n ≤ b) → load64 (fill m a v n) b ≡ load64 m b
unfolding load64
load64-fill_apart m a v n b h = ground (
  arith,
  load32-fill_apart m a n b (ground arith) v,
  load32-fill_apart m a n (b + 4) (ground arith) v,
)
