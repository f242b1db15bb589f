-- ===== src/Payload/Roundtrip.antt =====
-- A new buffer, and allocation followed by release (phaser/runtime/payload_buffer.h and
-- payload_buffer.cc).
use phaser.Prelude.{ℕ, ◌+◌, ◌-◌, ◌^◌, ◌≤◌, ◌<◌, ◌≡◌, inl, Bool, true, false, arith, ◌∙◌, ap}
use phaser.Prelude.{[], ◌∷◌, some, ◌%◌}
use mathlib.Core.Path.{subst}
use phaser.Memory.{Mem, load32, load64, store32}
use phaser.Memory.Words.{load32-store32_self, load32-store32_apart}
use phaser.Payload.{
  Buffer, is_valid_magic, allocation_failed, new_buffer, init_free_list, is_moveable, to_offset,
  is_valid_address,
}
use phaser.Payload.Alloc.{carve_first}
use phaser.Payload.Release.{free}
use phaser.Payload.Chain.{Blocks, IsFree, IsChain}
use phaser.Payload.InPlace.{carve_first-TookBlock}
use phaser.Payload.Freed.{ApartFrom}
use phaser.Payload.Free.{IsBlock, free-release}

abbrev first_block : Bool → ℕ
first_block true = 48
first_block false = 40

-- What InitFreeList writes for a free block of the size `n`.
init_words :
    (m : Mem) (start n : ℕ)
    → n < 2 ^ 32
    → (load32 (store32 (store32 m start n) (start + 4) 0) start ≡ n)
      × (load32 (store32 (store32 m start n) (start + 4) 0) (start + 4) ≡ 0)
init_words m start n h = (
  load32-store32_apart (store32 m start n) (start + 4) 0 start (inl (omega arith))
      ∙ load32-store32_self m start n h,
  load32-store32_self (store32 m start n) (start + 4) 0 (omega arith),
)

-- A new buffer of at least 56 and fewer than 2 ^ 32 bytes is valid and has one free block, all
-- that is behind the header and, in a movable buffer, behind the resizer's address.
pub new_buffer-IsFree :
    (movable bitmap_allocator : Bool) (size : ℕ) (bytes : Mem)
    → 56 ≤ size
    → size < 2 ^ 32
    → IsFree
        (new_buffer movable size bitmap_allocator bytes)
        ((first_block movable, size - first_block movable) ∷ [])
unfolding new_buffer init_free_list is_valid_magic is_moveable to_offset is_valid_address
new_buffer-IsFree true bitmap_allocator size bytes h lt =
    let n : (size + 2 ^ 32 - 48) % 2 ^ 32 ≡ size - 48 = omega arith in
    let (w, w') = init_words bytes 48 (size - 48) (omega arith) in
    elim bitmap_allocator [
      | true ↦ record { magic = ground arith; size = ground arith; chain = ground arith }
      | false ↦ record { magic = ground arith; size = ground arith; chain = ground arith }
    ]
new_buffer-IsFree false bitmap_allocator size bytes h lt =
    let n : (size + 2 ^ 32 - 40) % 2 ^ 32 ≡ size - 40 = omega arith in
    let (w, w') = init_words bytes 40 (size - 40) (omega arith) in
    elim bitmap_allocator [
      | true ↦ record { magic = ground arith; size = ground arith; chain = ground arith }
      | false ↦ record { magic = ground arith; size = ground arith; chain = ground arith }
    ]

ApartFrom-later :
    (m : Mem) (lim lo q c k : ℕ) (bs : Blocks)
    → IsChain m lim lo q bs
    → c + k ≤ lo
    → ApartFrom c k bs
ApartFrom-later m lim lo q c k [] chain h = tt
ApartFrom-later m lim lo q c k ((a, n) ∷ bs) (e, l, j, f, w, chain) h =
    (inl (omega arith), ApartFrom-later m lim (a + n) _ c k bs chain (omega arith))

-- Allocating from the start of the first free block, with room for a free block's header left, and
-- freeing the block again succeeds, and the free list is the one before. The block is smaller than
-- 2 ^ 31 - 8 bytes and the buffer has not failed.
pub free-carve_first :
    (b : Buffer) (a n size : ℕ) (clear : Bool) (bs : Blocks)
    → IsFree b ((a, n) ∷ bs)
    → size + 16 ≤ n
    → size + 8 < 2 ^ 31
    → allocation_failed b ≡ false
    → (b' : Buffer) × (free (carve_first b size size clear).0 (carve_first b size size clear).1
        ≡ some b')
      × IsFree b' ((a, n) ∷ bs)
unfolding allocation_failed
free-carve_first b a n size clear bs free_list fits small sound =
    let (at, took) = carve_first-TookBlock b a n size size clear bs free_list fits (omega arith) in
    let chain = took.list.chain in
    let word : load64 (carve_first b size size clear).0.bytes a ≡ size + 8 - 8 =
      took.word ∙ omega arith in
    let block : IsBlock (carve_first b size size clear).0 ((a + (size + 8), n - (size + 8)) ∷ bs) a
        (size + 8) =
      record {
        room = omega arith;
        low = free_list.chain.1;
        fit = omega (arith, chain.3);
        apart =
            (inl (omega arith), ApartFrom-later _ _ _ _ a (size + 8) bs (chain.5) (omega arith));
        word = word;
        small = small;
      } in
    let (b', e, put) =
      free-release (carve_first b size size clear).0 a (size + 8) _ (took.list) block
        (rw (took.same.magic) sound) in
    (
      b',
      ap (free (carve_first b size size clear).0) at ∙ e,
      subst (λ q. IsFree b' q) (ground arith) (put.list),
    )
