-- ===== src/Payload/FromList.antt =====
-- Allocation from the free list of a payload buffer: AllocateSlow past the small blocks, and the
-- inline case that carves from the first block.
use phaser.Prelude.{ℕ, suc, ◌+◌, ◌-◌, ◌≤◌, ◌<◌, ◌≡◌, refl, inl, Bool, true, false, arith, ◌∙◌, ap}
use phaser.Prelude.{some, none, length, Option}
use phaser.Memory.{Mem, load64}
use phaser.Payload.{
  Buffer, is_valid_magic, is_moveable, link, free_list_head, mark_allocation_failed, header_size,
}
use phaser.Payload.Alloc.{found, exhausted, find_fit, take_block, allocate_from_list}
use phaser.Payload.Carve.{carve}
use phaser.Payload.Chain.{Blocks, IsFree, Outside, length-chain, to_address-chain}
use phaser.Payload.Taken.{Taken, SameHeader}
use phaser.Payload.Fit.{find_fit-found, find_fit-exhausted}

-- `b'` is `b` after the block at `a` was taken from its free list `bs`, which has become `bs'`, for a
-- request of `k` bytes: only free bytes have changed, the block has the size word `w` and, if
-- `clear`, zeros, and its bytes are apart from the list.
pub record TookBlock (b b' : Buffer) (k : ℕ) (clear : Bool) (bs bs' : Blocks) (a w : ℕ)
    : Type 0 where
  pub list : IsFree b' bs'
  pub frame : (p : ℕ) → Outside p bs → b'.bytes p ≡ b.bytes p
  pub word : load64 b'.bytes a ≡ w
  pub zero : clear ≡ true → (p : ℕ) → a + 8 ≤ p → p < a + 8 + k → b'.bytes p ≡ 0
  pub same : SameHeader b b'

Taken→TookBlock :
    (b b' : Buffer) (k : ℕ) (clear : Bool) (bs bs' : Blocks) (a n : ℕ)
    → IsFree b bs
    → Taken b b' 0 header_size k clear bs bs' a n
    → TookBlock b b' k clear bs bs' a (n - 8)
unfolding link is_valid_magic
Taken→TookBlock b b' k clear bs bs' a n f t = record {
  list = record {
    magic = rw t.same.magic (f.magic);
    size = rw t.same.full_size (f.size);
    chain = rw t.same.full_size (t.chain);
  };
  frame = λ p out. t.frame p (inl refl) out;
  word = t.word;
  zero = t.zero;
  same = t.same;
}

take_block_address :
    (b : Buffer) (k f prev a : ℕ) (clear : Bool)
    → take_block b k f prev a clear ≡ ((take_block b k f prev a clear).0, a + 8)
unfolding take_block
take_block_address b k f prev a clear = refl

pub head_lem : (b : Buffer) (bs : Blocks) → IsFree b bs → free_list_head b ≡ b.free_list
unfolding free_list_head
head_lem b bs free =
    to_address-chain b header_size b.free_list bs (free.magic) (omega arith) (free.chain)

module _ (b : Buffer) (bs : Blocks) (free : IsFree b bs) (room : header_size ≤ b.full_size) where
  short : length bs < suc b.full_size
  short =
      omega (arith, length-chain b.bytes b.full_size header_size b.free_list bs room (free.chain))

  module _ (resize : Mem → ℕ → ℕ → Mem) (allocate : Buffer → ℕ → Bool → Bool → Option (Buffer × ℕ))
      (k : ℕ) (clear enable_small_block : Bool) where
    -- In a valid buffer, at least as large as its header, where first fit finds a block on the
    -- free list for k + 8 bytes, the allocation of k bytes past the small blocks succeeds with
    -- that block: the new free list is the one that first fit leaves, only free bytes change, the
    -- block has its size word and, if asked for, zeros.
    pub allocate_from_list-carve :
        (bs' : Blocks) (a n : ℕ)
        → carve (k + 8) bs ≡ some ((a, n), bs')
        → (b' : Buffer) × (allocate_from_list resize allocate b k clear enable_small_block
            ≡ some (b', a + 8))
          × TookBlock b b' k clear bs bs' a (n - 8)
    unfolding allocate_from_list link
    allocate_from_list-carve bs' a n e =
        let (pr, pa, at, walk, taken) =
          find_fit-found b (free.magic) (free.size) k clear (suc b.full_size) 0 header_size
            b.free_list bs bs' a n (omega arith) (inl refl) refl (free.chain) short e in
        let walk' : find_fit b (k + 8) (suc b.full_size) 0 (free_list_head b) ≡ some (found pr pa) =
          rw (head_lem b bs free) walk in
        (
          (take_block b k (k + 8) pr pa clear).0,
          rw (walk', allocate_from_list)
              (ap some (take_block_address b k (k + 8) pr pa clear ∙ rw at)),
          Taken→TookBlock b _ k clear bs bs' a n free taken,
        )

    -- In a valid fixed buffer, at least as large as its header, where first fit finds no block for
    -- k + 8 bytes, the allocation past the small blocks fails: it returns nullptr and marks the
    -- buffer.
    pub allocate_from_list-full :
        carve (k + 8) bs ≡ none
        → is_moveable b ≡ false
        → allocate_from_list resize allocate b k clear enable_small_block
          ≡ some (mark_allocation_failed b, 0)
    unfolding allocate_from_list
    allocate_from_list-full e fixed =
        let (last, walk) =
          find_fit-exhausted b (free.magic) (free.size) k clear (suc b.full_size) 0 header_size
            b.free_list bs (omega arith) (free.chain) short e in
        let walk' : find_fit b (k + 8) (suc b.full_size) 0 (free_list_head b)
            ≡ some (exhausted last) =
          rw (head_lem b bs free) walk in
        rw (walk', allocate_from_list, fixed)
