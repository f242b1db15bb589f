-- ===== src/Message/Elements.antt =====
-- Where the elements of a vector of messages are (phaser/runtime/message.h).
use phaser.Prelude.{
  ℕ, zero, suc, ◌+◌, ◌-◌, ◌*◌, ◌/◌, ◌%◌, ◌^◌, ◌≤◌, ◌<◌, ◌≡◌, refl, sym, ap, ◌∙◌, ◌⊎◌, inl, inr,
  arith,
}
use phaser.Prelude.{Bool, true, false, ltb, ◌==◌, if◌then◌else◌}
use phaser.Message.Chunks.{bit_width, clz, chunk_shift}
use native.Mathlib.Numerals.{towards_suc}
use native.Mathlib.Nat.{pow-suc, one-le-pow, pow-le-pow_right, mul-le-mul_right}

pow-one : (k : ℕ) → 2 ^ (k + 1) ≡ 2 * 2 ^ k
pow-one k = simp towards_suc (omega arith)

pow-add : (a d : ℕ) → 2 ^ (a + d) ≡ 2 ^ a * 2 ^ d
pow-add a zero = let e : a + 0 ≡ a = omega arith in ap (λ k. 2 ^ k) e ∙ omega arith
pow-add a (suc d) =
    let e : a + suc d ≡ a + d + 1 = omega arith in
    let f : suc d ≡ d + 1 = omega arith in
    let p : 2 ^ suc d ≡ 2 * 2 ^ d = ap (λ k. 2 ^ k) f ∙ pow-one d in
    ap (λ k. 2 ^ k) e ∙ pow-one (a + d) ∙ omega (arith, pow-add a d, ap (λ (x : ℕ). 2 ^ a * x) p)

bit_width-zero : (fuel : ℕ) → bit_width fuel 0 ≡ 0
unfolding bit_width
bit_width-zero zero = refl
bit_width-zero (suc fuel) = refl

-- A number of `fuel` bits or fewer is below the power of its width, and not below the power before.
bit_width-bounds :
    (fuel n : ℕ)
    → n < 2 ^ fuel
    → 0 < n
    → (n < 2 ^ bit_width fuel n)
      × (2 ^ bit_width fuel n ≤ 2 * n)
      × (bit_width fuel n ≤ fuel)
      × (0 < bit_width fuel n)
unfolding bit_width
bit_width-bounds zero n h pos = absurd (omega arith)
bit_width-bounds (suc fuel) n h pos = elim (cases) [
  | inl one ↦
      let half : n / 2 ≡ 0 = omega arith in
      let e : (n == 0) ≡ false = ground arith in
      rw (e, half, bit_width-zero fuel) (omega arith, omega arith, omega arith, omega arith)
  | inr more ↦
      let (a, b, c, d) =
        bit_width-bounds fuel (n / 2) (omega (arith, pow-suc 2 fuel)) (omega arith) in
      let e : (n == 0) ≡ false = ground arith in
      let p = pow-one (bit_width fuel (n / 2)) in
      rw e (omega (arith, p), omega (arith, p), omega arith, omega arith)
]
  where
    cases : (n ≡ 1) ⊎ (2 ≤ n)
    cases = ground arith

-- The arithmetic of the shift: `W` is the power of the index's width, `X` the start of a chunk.
module _ (first index a d : ℕ) (low : first < 2 ^ a) (high : 2 ^ a ≤ 2 * first)
    (index-low : index < 2 ^ (a + d)) (index-high : 2 ^ (a + d) ≤ 2 * index) where
  start_bounds : (first * 2 ^ d < 2 ^ (a + d)) × (2 ^ (a + d) ≤ 2 * (first * 2 ^ d))
  start_bounds =
      let below = mul-le-mul_right (2 ^ d) (next low) in
      let above = mul-le-mul_right (2 ^ d) high in
      let one = one-le-pow d 2 two in (omega (arith, pow-add a d), omega (arith, pow-add a d))
    where
      next : {x y : ℕ} → x < y → x + 1 ≤ y
      next h = omega arith

      two : 0 < 2
      two = omega arith

  -- Where the chunk starts behind the index, the one before it holds the index.
  earlier :
      index < first * 2 ^ d
      → first ≤ index
      → (0 < d) × (first * 2 ^ (d - 1) ≤ index) × (index < 2 * (first * 2 ^ (d - 1)))
  earlier h above = elim (cases d) [
    | inl e ↦
        let same : first * 2 ^ d ≡ first = ap (λ k. first * 2 ^ k) e ∙ omega arith in
        absurd (omega arith)
    | inr (d', e) ↦
        let p : 2 ^ d ≡ 2 * 2 ^ d' = ap (λ k. 2 ^ k) e ∙ pow-one d' in
        let q : d - 1 ≡ d' = omega arith in
        let bounds = start_bounds in
        let double : first * 2 ^ d ≡ 2 * (first * 2 ^ d') =
          omega (arith, ap (λ (x : ℕ). first * x) p) in
        rw q (omega arith, omega arith, omega arith)
  ]
    where
      cases : (k : ℕ) → (k ≡ 0) ⊎ ((k' : ℕ) × (k ≡ k' + 1))
      cases zero = inl refl
      cases (suc k) = inr (k, omega arith)

-- The widths of two numbers in order are in order.
width-le :
    (a c first index : ℕ)
    → 2 ^ a ≤ 2 * first
    → index < 2 ^ c
    → first ≤ index
    → (d : ℕ) × (c ≡ a + d)
width-le a c first index high low above = elim (cases) [
  | inl le ↦ (c - a, omega arith)
  | inr lt ↦
      let up : 2 ^ (c + 1) ≤ 2 ^ a = pow-le-pow_right two lt in absurd (omega (arith, pow-one c))
]
  where
    cases : (a ≤ c) ⊎ (c + 1 ≤ a)
    cases = ground arith

    two : 0 < 2
    two = omega arith

-- The shift from the two widths.
module _ (first index a d : ℕ) (above : first ≤ index) (lim : index < 2 ^ 32) (pos : 0 < first)
    (width : bit_width 32 first ≡ a) (index-width : bit_width 32 index ≡ a + d) where
  bounds_a : (first < 2 ^ a) × (2 ^ a ≤ 2 * first) × (a ≤ 32)
  bounds_a =
      let (x, y, z, w) = bit_width-bounds 32 first (omega arith) pos in rw (sym width) (x, y, z)

  bounds_d : (index < 2 ^ (a + d)) × (2 ^ (a + d) ≤ 2 * index) × (a + d ≤ 32)
  bounds_d =
      let (x, y, z, w) = bit_width-bounds 32 index lim (omega arith) in
      rw (sym index-width) (x, y, z)

  shift_eq : chunk_shift first index ≡ (if ltb index (first * 2 ^ d % 2 ^ 64) then d - 1 else d)
  unfolding chunk_shift clz
  shift_eq =
      let e : (32 - a + 2 ^ 32 - (32 - (a + d))) % 2 ^ 32 ≡ d = omega (arith, bounds_a, bounds_d) in
      rw (width, index-width, e)

module _ (first index : ℕ) (pos : 0 < first) (above : first ≤ index) (lim : index < 2 ^ 32) where
  -- The shift that MessageVectorElement computes from the leading zeros of an index below 2 ^ 32,
  -- at or above a positive first capacity, is the one with first capacity * 2 ^ shift at most the
  -- index and the index below twice that, and is below 32.
  pub chunk_shift-bounds :
      (first * 2 ^ chunk_shift first index ≤ index)
      × (index < 2 * (first * 2 ^ chunk_shift first index))
      × (chunk_shift first index < 32)
  chunk_shift-bounds =
      let (x, y, z, w) = bit_width-bounds 32 first (omega arith) pos in
      let (x', y', z', w') = bit_width-bounds 32 index lim (omega arith) in
      let a = bit_width 32 first in
      let (d, e) = width-le a (bit_width 32 index) first index y x' above in
      let eq = shift_eq first index a d above lim pos refl e in
      let widths : 2 ^ bit_width 32 index ≡ 2 ^ (a + d) = ap (λ k. 2 ^ k) e in
      let (below, above') = start_bounds first index a d x y (omega arith) (omega arith) in
      elim (cases d) [
        | inl lt ↦
            let (some, low, high) =
              earlier first index a d x y (omega arith) (omega arith) lt above in
            let here : chunk_shift first index ≡ d - 1 =
              eq ∙ chosen (ltb index (first * 2 ^ d % 2 ^ 64)) d (ground arith) in
            rw here (low, high, omega arith)
        | inr ge ↦
            let here : chunk_shift first index ≡ d =
              eq ∙ kept (ltb index (first * 2 ^ d % 2 ^ 64)) d (ground arith) in
            rw here (omega arith, omega arith, omega arith)
      ]
    where
      cases : (d : ℕ) → (index < first * 2 ^ d) ⊎ (first * 2 ^ d ≤ index)
      cases d = ground arith

      chosen : (t : Bool) (d : ℕ) → t ≡ true → (if t then d - 1 else d) ≡ d - 1
      chosen t d h = rw h

      kept : (t : Bool) (d : ℕ) → t ≡ false → (if t then d - 1 else d) ≡ d
      kept t d h = rw h
