-- ===== src/Memory/Words.antt =====
-- A word that is stored is read back, and a store touches no other byte.
use phaser.Prelude.{ℕ, ◌+◌, ◌/◌, ◌%◌, ◌^◌, ◌≤◌, ◌<◌, ◌≡◌, ◌⊎◌, inl, inr, arith}
use phaser.Memory.{Mem, load32, store32}

-- Two memories agree on the `n` bytes from `a` on.
abbrev pub Same : Mem → Mem → ℕ → ℕ → Type 0
Same m m' a n = (p : ℕ) → a ≤ p → p < a + n → m' p ≡ m p

-- `p` is not one of the `n` bytes from `a` on.
abbrev pub Apart : ℕ → ℕ → ℕ → Type 0
Apart a n p = (p < a) ⊎ (a + n ≤ p)

pub store32_other : (m : Mem) (a v p : ℕ) → Apart a 4 p → store32 m a v p ≡ m p
unfolding store32
store32_other m a v p (inl h) = ground arith
store32_other m a v p (inr h) = ground arith

pub load32-Same : (m m' : Mem) (a : ℕ) → Same m m' a 4 → load32 m' a ≡ load32 m a
unfolding load32
load32-Same m m' a h = omega (
  arith,
  h a (omega arith) (omega arith),
  h (a + 1) (omega arith) (omega arith),
  h (a + 2) (omega arith) (omega arith),
  h (a + 3) (omega arith) (omega arith),
)

store32_at :
    (m : Mem) (a v : ℕ)
    → (store32 m a v a ≡ v % 256)
      × (store32 m a v (a + 1) ≡ v / 256 % 256)
      × (store32 m a v (a + 2) ≡ v / 65536 % 256)
      × (store32 m a v (a + 3) ≡ v / 16777216 % 256)
unfolding store32
store32_at m a v = (ground arith, ground arith, ground arith, ground arith)

pub load32-store32_self : (m : Mem) (a v : ℕ) → v < 2 ^ 32 → load32 (store32 m a v) a ≡ v
unfolding load32
load32-store32_self m a v h = let (e0, e1, e2, e3) = store32_at m a v in omega arith

pub load32-store32_apart :
    (m : Mem) (a v b : ℕ) → (b + 4 ≤ a) ⊎ (a + 4 ≤ b) → load32 (store32 m a v) b ≡ load32 m b
load32-store32_apart m a v b (inl h) =
    load32-Same m _ b (λ p lo hi. store32_other m a v p (inl (omega arith)))
load32-store32_apart m a v b (inr h) =
    load32-Same m _ b (λ p lo hi. store32_other m a v p (inr (omega arith)))
