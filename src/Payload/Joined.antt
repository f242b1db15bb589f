-- ===== src/Payload/Joined.antt =====
-- Putting a block back on the free list: the specification of FreeSlow on lists of blocks, and what
-- its helpers do to the words of the list (phaser/runtime/payload_buffer.cc).
use phaser.Prelude.{ℕ, ◌+◌, ◌-◌, ◌^◌, ◌%◌, ◌≤◌, ◌<◌, ◌≡◌, refl, inl, inr, true, false, arith, ◌∙◌}
use phaser.Prelude.{[], ◌∷◌, ltb, ◌==◌, if◌then◌else◌, Bool-cases}
use phaser.Memory.{Mem, load32, load64, store32}
use phaser.Memory.Words.{Apart, store32_other, load32-store32_self, load32-store32_apart}
use phaser.Payload.{Buffer}
use phaser.Payload.Release.{merge_with_below}
use phaser.Payload.Chain.{Blocks, IsChain, IsChain-same, IsChain-bytes}
use phaser.Payload.Taken.{SameHeader, head_lt}

-- The block `(c, k)` in front of the free block `(d, m)`.
abbrev pub above : ℕ → ℕ → ℕ → ℕ → Blocks → Blocks
above c k d m bs = if c + k == d then (c, k + m) ∷ bs else (c, k) ∷ (d, m) ∷ bs

-- The free block `(a, n)` in front of the list.
abbrev pub below : ℕ → ℕ → Blocks → Blocks
below a n [] = (a, n) ∷ []
below a n ((c, k) ∷ bs) = if a + n == c then (a, n + k) ∷ bs else (a, n) ∷ (c, k) ∷ bs

-- The block `(c, k)` put back behind the free block `(a, n)`. Where it follows the last free block
-- directly, the code adds its payload to that block and not its 8 bytes of size word.
abbrev pub release_after : ℕ → ℕ → ℕ → ℕ → Blocks → Blocks
release_after a n c k [] = if a + n == c then (a, n + (k - 8)) ∷ [] else (a, n) ∷ (c, k) ∷ []
release_after a n c k ((d, m) ∷ bs) =
    let rest = release_after d m c k bs in
    if ltb c d then below a n (above c k d m bs) else (a, n) ∷ rest

abbrev pub release : ℕ → ℕ → Blocks → Blocks
release c k [] = (c, k) ∷ []
release c k ((d, m) ∷ bs) = if ltb c d then above c k d m bs else release_after d m c k bs

-- The low and the high half of a size word below 2 ^ 32.
pub halves :
    (m : Mem) (a w : ℕ) → load64 m a ≡ w → w < 2 ^ 32 → (load32 m a ≡ w) × (load32 m (a + 4) ≡ 0)
unfolding load64
halves m a w e h = (omega arith, omega arith)

-- MergeWithBelowIfPossible joins the second block of a chain to the first if they are adjacent.
module _ (b : Buffer) (a n c k lo : ℕ) (bs : Blocks) (lim : b.full_size < 2 ^ 32) (low : lo ≤ a)
    (room : 8 ≤ n) (order : a + n ≤ c) (fit : c + k ≤ b.full_size) (first : load32 b.bytes a ≡ n)
    (second : load32 b.bytes c ≡ k)
    (tail : IsChain b.bytes b.full_size (c + k) (load32 b.bytes (c + 4)) bs) where
  next : ℕ
  next = load32 b.bytes (c + 4)

  joined : Mem
  joined = store32 (store32 b.bytes (a + 4) next) a (n + k)

  joined_other : (p : ℕ) → Apart a 8 p → joined p ≡ b.bytes p
  unfolding joined
  joined_other p h = ground (
    arith,
    store32_other b.bytes (a + 4) next p,
    store32_other (store32 b.bytes (a + 4) next) a (n + k) p,
  )

  next-lt : next < 2 ^ 32
  unfolding next
  next-lt = head_lt b.bytes b.full_size (c + k) _ bs lim (tail)

  joined_words : (load32 joined a ≡ n + k) × (load32 joined (a + 4) ≡ next)
  unfolding joined
  joined_words = ground (
    arith,
    next-lt,
    load32-store32_self (store32 b.bytes (a + 4) next) a (n + k) (omega arith),
    load32-store32_apart (store32 b.bytes (a + 4) next) a (n + k) (a + 4),
    load32-store32_self b.bytes (a + 4) next next-lt,
  )

  -- The blocks are adjacent: both words of the lower header are written.
  merge_with_below_joins : a + n ≡ c → merge_with_below b c a ≡ (record b { bytes = joined }, true)
  unfolding merge_with_below joined next
  merge_with_below_joins h =
      let l : load32 b.bytes a ≡ n = first in
      let l' : load32 b.bytes c ≡ k = second in
      let w : load32 (store32 b.bytes (a + 4) (load32 b.bytes (c + 4))) a ≡ n =
        load32-store32_apart b.bytes (a + 4) _ a (inl (omega arith)) ∙ l in
      let w' : load32 (store32 b.bytes (a + 4) (load32 b.bytes (c + 4))) c ≡ k =
        load32-store32_apart b.bytes (a + 4) _ c (inr (omega arith)) ∙ l' in
      let sum : (n + k) % 2 ^ 32 ≡ n + k = omega arith in rw (l, h, w, w', sum) (ground arith)

  merge_with_below_keeps : (a + n == c) ≡ false → merge_with_below b c a ≡ (b, false)
  unfolding merge_with_below
  merge_with_below_keeps h = let l : load32 b.bytes a ≡ n = first in rw (l, h)

  pub below_frame : (p : ℕ) → Apart a 8 p → (merge_with_below b c a).0.bytes p ≡ b.bytes p
  below_frame p out = elim (Bool-cases (a + n == c)) [
    | inl h ↦ rw (merge_with_below_joins (ground arith)) (joined_other p out)
    | inr h ↦ rw (merge_with_below_keeps h)
  ]

  -- Adjacent blocks become one.
  pub joins-IsChain :
      a + n ≡ c → IsChain (merge_with_below b c a).0.bytes b.full_size lo a ((a, n + k) ∷ bs)
  unfolding next
  joins-IsChain at =
      let end : a + (n + k) ≡ c + k = omega arith in
      IsChain-bytes joined (merge_with_below b c a).0.bytes b.full_size lo a ((a, n + k) ∷ bs)
        (rw (merge_with_below_joins at))
        (
          refl,
          low,
          omega arith,
          omega arith,
          joined_words.0,
          rw (joined_words.1, end)
              (IsChain-same b.bytes joined b.full_size (c + k) next bs
                (λ p x y. joined_other p (inr (omega arith))) tail),
        )

  pub merge_with_below-SameHeader :
      SameHeader b (merge_with_below b c a).0
      × ((merge_with_below b c a).0.free_list ≡ b.free_list)
      × ((merge_with_below b c a).1 ≡ (a + n == c))
  unfolding merge_with_below
  merge_with_below-SameHeader = ground arith

  -- MergeWithBelowIfPossible on two blocks of one chain.
  pub below-IsChain :
      IsChain b.bytes b.full_size lo a ((a, n) ∷ (c, k) ∷ bs)
      → IsChain (merge_with_below b c a).0.bytes b.full_size lo a (below a n ((c, k) ∷ bs))
  below-IsChain chain = elim (Bool-cases (a + n == c)) [
    | inl h ↦ rw h (joins-IsChain (ground arith))
    | inr h ↦ rw (merge_with_below_keeps h, h) chain
  ]
