-- ===== src/Payload/Carve.antt =====
-- First fit on a list of free blocks: the specification of taking a block from the free list of a
-- payload buffer.
use phaser.Prelude.{ℕ, ◌+◌, ◌-◌, ◌≤◌, ◌<◌, ◌≡◌, leb, if◌then◌else◌, [], ◌∷◌, Option, none, some}
use phaser.Prelude.{◌↔◌, Option-cases, inl, inr, arith}
use phaser.Memory.{Mem}
use phaser.Memory.Words.{Apart}
use phaser.Payload.Chain.{Blocks, IsChain, Outside, below-Outside, total}

-- The first block of `full` bytes or more loses its lower part, or all of it where less than a free
-- block's header would be left. The result is the block taken and the list that is left.
unfoldable pub carve : ℕ → Blocks → Option ((ℕ × ℕ) × Blocks)
carve full [] = none
carve full ((a, n) ∷ bs) =
    if leb full n
    then some (if leb 8 (n - full) then ((a, full), (a + full, n - full) ∷ bs) else ((a, n), bs))
    else elim (carve full bs) [ none ↦ none | some (taken, rest) ↦ some (taken, (a, n) ∷ rest) ]

-- The block taken has room, and the list that is left makes up for the rest of the bytes.
pub carve-total :
    (full : ℕ) (bs bs' : Blocks) (a n : ℕ)
    → carve full bs ≡ some ((a, n), bs')
    → (full ≤ n) × (n < full + 8) × (total bs ≡ n + total bs')
unfolding carve
carve-total full [] bs' a n h = ground arith
carve-total full ((c, k) ∷ bs) bs' a n h = elim (Option-cases (carve full bs)) [
  | inl e ↦ ground arith
  | inr (((a', n'), rest), e) ↦ ground (arith, carve-total full bs rest a' n' e)
]

-- A byte was free exactly when it is in the block taken or still free.
pub carve_bytes :
    (full : ℕ) (bs bs' : Blocks) (a n p : ℕ)
    → carve full bs ≡ some ((a, n), bs')
    → Outside p bs ↔ (Apart a n p × Outside p bs')
unfolding carve
carve_bytes full [] bs' a n p h = ground arith
carve_bytes full ((c, k) ∷ bs) bs' a n p h = elim (Option-cases (carve full bs)) [
  | inl e ↦ ground arith
  | inr (((a', n'), rest), e) ↦ ground (arith, carve_bytes full bs rest a' n' p e)
]

-- In a chain the block taken shares no byte with what is left.
pub carve_apart :
    (m : Mem) (lim lo q full : ℕ) (bs bs' : Blocks) (a n p : ℕ)
    → IsChain m lim lo q bs
    → carve full bs ≡ some ((a, n), bs')
    → a ≤ p
    → p < a + n
    → (lo ≤ a) × Outside p bs'
unfolding carve
carve_apart m lim lo q full [] bs' a n p chain h x y = ground arith
carve_apart m lim lo q full ((c, k) ∷ bs) bs' a n p (e, l, j, f, w, chain) h x y =
    let below : (p < c + k) → Outside p bs = below-Outside m lim (c + k) p _ bs chain in
    elim (Option-cases (carve full bs)) [
      | inl e ↦ ground arith
      | inr (((a', n'), rest), e) ↦
          ground (arith, carve_apart m lim (c + k) _ full bs rest a' n' p chain e)
    ]
