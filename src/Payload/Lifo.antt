-- ===== src/Payload/Lifo.antt =====
-- A small block that is freed is the next one of its class to be allocated
-- (phaser/runtime/payload_buffer.h).
use phaser.Prelude.{ℕ, zero, suc, ◌+◌, ◌-◌, ◌%◌, ◌^◌, ◌≤◌, ◌<◌, ◌≡◌, refl, arith, ap, ◌∙◌}
use phaser.Prelude.{Bool, true, false, List, [], ◌∷◌, some, length, get_or, set, ◌==◌}
use phaser.Memory.{load32, load64}
use phaser.Memory.Words.{load32-store32_self}
use phaser.Payload.{Buffer, bitmaps_enabled, allocation_failed}
use phaser.Payload.Small.{small_block_size, small_block_index, small_block_index_fits}
use phaser.Payload.Words.{small_word, is_small_word}
use phaser.Payload.Alloc.{pop_small, finish_block, try_small, try_allocate_in_place, small_class}
use phaser.Payload.Release.{push_small, free}

get_or-set : (xs : List ℕ) (i v d : ℕ) → i < length xs → get_or (set xs i v) i d ≡ v
get_or-set [] i v d h = absurd (omega arith)
get_or-set (x ∷ xs) zero v d h = refl
get_or-set (x ∷ xs) (suc i) v d h = get_or-set xs i v d (omega arith)

set-set : (xs : List ℕ) (i v d : ℕ) → set (set xs i v) i (get_or xs i d) ≡ xs
set-set [] i v d = refl
set-set (x ∷ xs) zero v d = refl
set-set (x ∷ xs) (suc i) v d = ap (λ ys. x ∷ ys) (set-set xs i v d)

-- A class with a head: the head is popped.
try_small-head :
    (c : Buffer) (n index : ℕ) (clear : Bool)
    → 0 < get_or c.bitmaps index 0
    → c.full_size < 2 ^ 32
    → get_or c.bitmaps index 0 + small_block_size index ≤ c.full_size
    → ((try_small c n index clear).1 ≡ get_or c.bitmaps index 0)
      × ((try_small c n index clear).0.bitmaps
          ≡ set c.bitmaps index (load32 c.bytes (get_or c.bitmaps index 0)))
unfolding try_small pop_small finish_block
try_small-head c n index clear pos lim inside = ground arith

-- The path of TryAllocateInPlace to a small block.
try_allocate_in_place-small :
    (c : Buffer) (n index : ℕ) (clear : Bool)
    → small_class c n true ≡ some index
    → 0 < n
    → n ≤ c.full_size
    → try_allocate_in_place c n clear true ≡ try_small c n index clear
unfolding try_allocate_in_place
try_allocate_in_place-small c n index clear class pos fits = ground arith

free-small :
    (b : Buffer) (p k index : ℕ)
    → 0 < p
    → load64 b.bytes (p - 8) ≡ small_word k
    → k ≤ 128
    → small_block_index k ≡ some index
    → allocation_failed b ≡ false
    → free b p ≡ some (push_small b p index)
unfolding free
free-small b p k index pos word small kind sound =
    let flag : is_small_word (load64 b.bytes (p - 8)) ≡ true = rw word (ground arith) in
    let low : load64 b.bytes (p - 8) % 256 ≡ k = rw word (omega arith) in
    let there : (p == 0) ≡ false = ground arith in rw (there, sound, flag, low, kind)

module _ (b : Buffer) (p n index : ℕ) (clear : Bool) (class : small_class b n true ≡ some index)
    (pos : 0 < n) (fits : n ≤ b.full_size) (one : index < length b.bitmaps)
    (head : get_or b.bitmaps index 0 < 2 ^ 32) (block : 0 < p) (lim : b.full_size < 2 ^ 32)
    (inside : p + small_block_size index ≤ b.full_size) where
  pushed_class : small_class (push_small b p index) n true ≡ some index
  unfolding small_class push_small bitmaps_enabled
  pushed_class = class

  top : get_or (push_small b p index).bitmaps index 0 ≡ p
  unfolding push_small
  top = get_or-set b.bitmaps index p 0 one

  back :
      set (push_small b p index).bitmaps index (load32 (push_small b p index).bytes p) ≡ b.bitmaps
  unfolding push_small
  back =
      ap (λ v. set (set b.bitmaps index p) index v)
        (load32-store32_self b.bytes p (get_or b.bitmaps index 0) head)
      ∙ set-set b.bitmaps index p 0

  popped :
      ((try_allocate_in_place (push_small b p index) n clear true).1 ≡ p)
      × ((try_allocate_in_place (push_small b p index) n clear true).0.bitmaps ≡ b.bitmaps)
  unfolding push_small
  popped =
      let pb = push_small b p index in
      let same_size : pb.full_size ≡ b.full_size = refl in
      let path = try_allocate_in_place-small pb n index clear pushed_class pos (omega arith) in
      let (first, lists) =
        try_small-head pb n index clear (omega (arith, top)) lim (omega (arith, top)) in
      (
        ap (λ (r : Buffer × ℕ). r.1) path ∙ first ∙ top,
        ap (λ (r : Buffer × ℕ). r.0.bitmaps) path
            ∙ lists
            ∙ ap (λ v. set pb.bitmaps index (load32 pb.bytes v)) top
            ∙ back,
      )

  -- In a buffer that has not failed, freeing a small block, whose size word is that of a request
  -- of its class, and then allocating any number of bytes of that class in place returns the block
  -- again, and the lists of free small blocks are those from before.
  pub try_allocate_in_place-free :
      (k : ℕ)
      → load64 b.bytes (p - 8) ≡ small_word k
      → small_block_index k ≡ some index
      → allocation_failed b ≡ false
      → (b' : Buffer) × (free b p ≡ some b')
        × ((try_allocate_in_place b' n clear true).1 ≡ p)
        × ((try_allocate_in_place b' n clear true).0.bitmaps ≡ b.bitmaps)
  try_allocate_in_place-free k word kind sound =
      let (i, fit, size, small) = small_block_index_fits k index kind in
      (push_small b p index, free-small b p k index block word small kind sound, popped.0, popped.1)
