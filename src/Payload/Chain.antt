-- ===== src/Payload/Chain.antt =====
-- The free list of a payload buffer as a list of blocks: what the bytes have to hold for the offset
-- `p` to head a list of blocks in ascending order, apart, from `lo` up to the buffer's end.

use phaser.Prelude.{ℕ, ◌+◌, ◌^◌, ◌≤◌, ◌<◌, ◌≡◌, inl, arith, ◌∙◌, sym}
use mathlib.Core.Path.{subst}
use phaser.Prelude.{true, List, [], ◌∷◌, length}
use phaser.Memory.{Mem, load32}
use phaser.Memory.Words.{Apart, load32-Same}
use phaser.Payload.{Buffer, header_size, is_valid_magic, to_address, to_offset}

abbrev pub Blocks : Type 0
Blocks = List (ℕ × ℕ)

abbrev pub IsChain : Mem → ℕ → ℕ → ℕ → Blocks → Type 0
IsChain m lim lo p [] = p ≡ 0
IsChain m lim lo p ((a, n) ∷ bs) =
    (p ≡ a)
    × (lo ≤ a)
    × (8 ≤ n)
    × (a + n ≤ lim)
    × (load32 m a ≡ n)
    × IsChain m lim (a + n) (load32 m (a + 4)) bs

-- The byte `p` lies in none of the blocks.
abbrev pub Outside : ℕ → Blocks → Type 0
Outside p [] = Unit {0}
Outside p ((a, n) ∷ bs) = Apart a n p × Outside p bs

abbrev pub total : Blocks → ℕ
total [] = 0
total ((a, n) ∷ bs) = n + total bs

-- A buffer whose free list is `bs`.
pub record IsFree (b : Buffer) (bs : Blocks) : Type 0 where
  pub magic : is_valid_magic b ≡ true
  pub size : b.full_size < 2 ^ 32
  pub chain : IsChain b.bytes b.full_size header_size b.free_list bs

pub below-Outside :
    (m : Mem) (lim lo p q : ℕ) (bs : Blocks) → IsChain m lim lo q bs → p < lo → Outside p bs
below-Outside m lim lo p q [] c h = tt
below-Outside m lim lo p q ((a, n) ∷ bs) (e, l, k, f, w, c) h =
    (inl (omega arith), below-Outside m lim (a + n) p _ bs c (omega arith))

-- A chain depends on the bytes from `lo` on alone.
pub IsChain-same :
    (m m' : Mem) (lim lo q : ℕ) (bs : Blocks)
    → ((p : ℕ) → lo ≤ p → p < lim → m' p ≡ m p)
    → IsChain m lim lo q bs
    → IsChain m' lim lo q bs
IsChain-same m m' lim lo q [] same c = c
IsChain-same m m' lim lo q ((a, n) ∷ bs) same (e, l, k, f, w, c) =
    let e0 : load32 m' a ≡ load32 m a =
      load32-Same m m' a (λ p x y. same p (omega arith) (omega arith)) in
    let e4 : load32 m' (a + 4) ≡ load32 m (a + 4) =
      load32-Same m m' (a + 4) (λ p x y. same p (omega arith) (omega arith)) in
    (
      e,
      l,
      k,
      f,
      e0 ∙ w,
      rw e4 (IsChain-same m m' lim (a + n) _ bs (λ p x y. same p (omega arith) y) c),
    )

pub IsChain-lower :
    (m : Mem) (lim lo lo' q : ℕ) (bs : Blocks)
    → lo' ≤ lo
    → IsChain m lim lo q bs
    → IsChain m lim lo' q bs
IsChain-lower m lim lo lo' q [] h c = c
IsChain-lower m lim lo lo' q ((a, n) ∷ bs) h (e, l, k, f, w, c) = (e, omega arith, k, f, w, c)

pub IsChain-lim :
    (m : Mem) (lim lim' lo q : ℕ) (bs : Blocks)
    → lim' ≡ lim
    → IsChain m lim lo q bs
    → IsChain m lim' lo q bs
IsChain-lim m lim lim' lo q bs e c = subst (λ x. IsChain m x lo q bs) (sym e) c

pub IsChain-bytes :
    (m m' : Mem) (lim lo q : ℕ) (bs : Blocks)
    → m' ≡ m
    → IsChain m lim lo q bs
    → IsChain m' lim lo q bs
IsChain-bytes m m' lim lo q bs e c = subst (λ x. IsChain x lim lo q bs) (sym e) c

-- The list is no longer than the bytes that it covers.
pub length-chain :
    (m : Mem) (lim lo q : ℕ) (bs : Blocks) → lo ≤ lim → IsChain m lim lo q bs → length bs + lo ≤ lim
length-chain m lim lo q [] h c = omega arith
length-chain m lim lo q ((a, n) ∷ bs) h (e, l, k, f, w, c) =
    omega (arith, length-chain m lim (a + n) _ bs f c)

-- An offset that leaves room for a free block's header passes the tests of ToAddress and ToOffset.
pub to_address_valid :
    (b : Buffer) (off k : ℕ)
    → is_valid_magic b ≡ true
    → 0 < off
    → 0 < k
    → off + k ≤ b.full_size
    → (to_address b off 0 k ≡ off) × (to_offset b off 0 k ≡ off)
unfolding to_address to_offset
to_address_valid b off k v pos kpos h = ground arith

pub to_address-chain :
    (b : Buffer) (lo q : ℕ) (bs : Blocks)
    → is_valid_magic b ≡ true
    → 0 < lo
    → IsChain b.bytes b.full_size lo q bs
    → to_address b q 0 8 ≡ q
unfolding to_address
to_address-chain b lo q [] v pos c = rw c
to_address-chain b lo q ((a, n) ∷ bs) v pos (e, l, k, f, w, c) =
    rw e ((to_address_valid b a 8 v (omega arith) (omega arith) (omega arith)).0)
