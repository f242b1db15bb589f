-- ===== src/Payload/StringCopy.antt =====
-- internal::CopyString (phaser/runtime/payload_buffer.h): short strings are copied by words that
-- may overlap.
use phaser.Prelude.{ℕ, zero, suc, ◌+◌, ◌-◌, ◌*◌, ◌/◌, ◌%◌, ◌^◌, ◌≤◌, ◌<◌, ◌≡◌, ◌⊎◌, inl, inr, arith}
use phaser.Prelude.{ltb, leb, if◌then◌else◌}
use phaser.Memory.{Mem, load32, load64, store8, store32, store64, copy, inside}

unfoldable pub copy_string : Mem → ℕ → ℕ → ℕ → Mem
copy_string m dst src n =
    let ends8 = store64 (store64 m dst (load64 m src)) (dst + n - 8) (load64 m (src + n - 8)) in
    let ends4 = store32 (store32 m dst (load32 m src)) (dst + n - 4) (load32 m (src + n - 4)) in
    let m1 = store8 m dst (m src) in
    let m2 = store8 m1 (dst + n / 2) (m1 (src + n / 2)) in
    let bytes3 = store8 m2 (dst + n - 1) (m2 (src + n - 1)) in
    let lower = store64 (store64 m dst (load64 m src)) (dst + 8) (load64 m (src + 8)) in
    let words4 =
      store64 (store64 lower (dst + n - 16) (load64 m (src + n - 16))) (dst + n - 8)
        (load64 m (src + n - 8)) in
    if leb n 16
    then (if leb 8 n then ends8 else if leb 4 n then ends4 else if ltb 0 n then bytes3 else m)
    else if leb n 32
    then words4
    else copy m dst src n

-- Storing a loaded word copies its bytes.
module _ (m : Mem) (small : (p : ℕ) → m p < 256) (m' : Mem) (dst src : ℕ) where
  store32-load32 :
      (p : ℕ)
      → store32 m' dst (load32 m src) p ≡ (if inside dst 4 p then m (src + (p - dst)) else m' p)
  unfolding store32 load32
  store32-load32 p = ground (arith, small src, small (src + 1), small (src + 2), small (src + 3))

module _ (m : Mem) (small : (p : ℕ) → m p < 256) (m' : Mem) (dst src : ℕ) where
  load32-lt : (a : ℕ) → load32 m a < 2 ^ 32
  unfolding load32
  load32-lt a = omega (arith, small a, small (a + 1), small (a + 2), small (a + 3))

  store64-load64 :
      (p : ℕ)
      → store64 m' dst (load64 m src) p ≡ (if inside dst 8 p then m (src + (p - dst)) else m' p)
  unfolding store64 load64
  store64-load64 p =
      let low : (load32 m src + 2 ^ 32 * load32 m (src + 4)) % 2 ^ 32 ≡ load32 m src =
        omega (arith, load32-lt src) in
      let high : (load32 m src + 2 ^ 32 * load32 m (src + 4)) / 2 ^ 32 % 2 ^ 32
          ≡ load32 m (src + 4) =
        omega (arith, load32-lt src, load32-lt (src + 4)) in
      rw (low, high)
        (ground (
          arith,
          store32-load32 m small (store32 m' dst (load32 m src)) (dst + 4) (src + 4) p,
          store32-load32 m small m' dst src p,
        ))

module _ (m : Mem) (dst src n : ℕ) (small : (p : ℕ) → m p < 256) (p : ℕ) where
  two_words : 8 ≤ n → n ≤ 16 → copy_string m dst src n p ≡ copy m dst src n p
  unfolding copy_string copy
  two_words lo hi = ground (
    arith,
    store64-load64 m small (store64 m dst (load64 m src)) (dst + n - 8) (src + n - 8) p,
    store64-load64 m small m dst src p,
  )

  two_halves : 4 ≤ n → n < 8 → copy_string m dst src n p ≡ copy m dst src n p
  unfolding copy_string copy
  two_halves lo hi = ground (
    arith,
    store32-load32 m small (store32 m dst (load32 m src)) (dst + n - 4) (src + n - 4) p,
    store32-load32 m small m dst src p,
  )

  four_words : 16 < n → n ≤ 32 → copy_string m dst src n p ≡ copy m dst src n p
  unfolding copy_string copy
  four_words lo hi =
      let m1 = store64 m dst (load64 m src) in
      let m2 = store64 m1 (dst + 8) (load64 m (src + 8)) in
      let m3 = store64 m2 (dst + n - 16) (load64 m (src + n - 16)) in
      ground (
        arith,
        store64-load64 m small m3 (dst + n - 8) (src + n - 8) p,
        store64-load64 m small m2 (dst + n - 16) (src + n - 16) p,
        store64-load64 m small m1 (dst + 8) (src + 8) p,
        store64-load64 m small m dst src p,
      )

three_bytes :
    (m : Mem) (dst src n : ℕ)
    → ((p : ℕ) → m p < 256)
    → (p : ℕ) → (dst + n ≤ src) ⊎ (src + n ≤ dst)
    → n < 4
    → copy_string m dst src n p ≡ copy m dst src n p
unfolding copy_string copy store8
three_bytes m dst src zero small p apart h = ground arith
three_bytes m dst src (suc zero) small p apart h = ground (arith, small src)
three_bytes m dst src (suc (suc zero)) small p apart h = ground (arith, small src, small (src + 1))
three_bytes m dst src (suc (suc (suc zero))) small p apart h =
    ground (arith, small src, small (src + 1), small (src + 2))
three_bytes m dst src (suc (suc (suc (suc n)))) small p apart h = absurd (omega arith)

-- CopyString, with its overlapping words, leaves the memory that memcpy leaves, for every length,
-- if the source and the destination are apart and memory holds bytes.
pub copy_string-copy :
    (m : Mem) (dst src n : ℕ)
    → ((p : ℕ) → m p < 256)
    → (dst + n ≤ src) ⊎ (src + n ≤ dst)
    → (p : ℕ) → copy_string m dst src n p ≡ copy m dst src n p
copy_string-copy m dst src n small apart p = elim (cases) [
  | inl h ↦ three_bytes m dst src n small p apart h
  | inr (inl (lo, hi)) ↦ two_halves m dst src n small p lo hi
  | inr (inr (inl (lo, hi))) ↦ two_words m dst src n small p lo hi
  | inr (inr (inr (inl (lo, hi)))) ↦ four_words m dst src n small p lo hi
  | inr (inr (inr (inr h))) ↦ unfold copy_string in ground arith
]
  where
    cases : (n < 4) ⊎ ((4 ≤ n) × (n < 8)) ⊎ ((8 ≤ n) × (n ≤ 16)) ⊎ ((16 < n) × (n ≤ 32)) ⊎ (32 < n)
    cases = ground arith
