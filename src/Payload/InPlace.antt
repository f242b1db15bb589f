-- ===== src/Payload/InPlace.antt =====
-- The inline case of allocation that carves from the start of the first free block
-- (TryAllocateInPlace, phaser/runtime/payload_buffer.h).
use phaser.Prelude.{ℕ, ◌+◌, ◌-◌, ◌^◌, ◌≤◌, ◌<◌, ◌≡◌, inr, Bool, arith, ◌∙◌}
use phaser.Prelude.{◌∷◌}
use phaser.Memory.{Mem, load32, store32}
use phaser.Memory.Words.{Apart, store32_other, load32-store32_self, load32-store32_apart}
use phaser.Payload.{update_hwm, Buffer, is_valid_magic, header_size}
use phaser.Payload.Alloc.{stamp, carve_first}
use phaser.Payload.Stamp.{stamp_other, stamp_word, stamp_zero, load32-stamp}
use phaser.Payload.Chain.{Blocks, IsChain, IsFree, IsChain-same, IsChain-lim}
use phaser.Payload.Taken.{SameHeader, head_lt}
use phaser.Payload.FromList.{TookBlock}

module _ (b : Buffer) (a n size word : ℕ) (clear : Bool) (bs : Blocks)
    (free : IsFree b ((a, n) ∷ bs)) (fits : size + 16 ≤ n) (word-lt : word < 2 ^ 64) where
  after : ℕ
  after = load32 b.bytes (a + 4)

  rest_stores : Mem
  rest_stores =
      store32 (store32 b.bytes (a + (size + 8) + 4) after) (a + (size + 8)) (n - (size + 8))

  result : Buffer
  result = (carve_first b size word clear).0

  carve_first_lem :
      (result.bytes ≡ stamp rest_stores a word size clear)
      × (result.free_list ≡ a + (size + 8))
      × ((carve_first b size word clear).1 ≡ a + 8)
      × SameHeader b result
  unfolding result rest_stores after carve_first update_hwm
  carve_first_lem = let c = free.chain in let s = free.size in ground (arith, c.0, c.4)

  rest_other : (p : ℕ) → Apart (a + (size + 8)) 8 p → rest_stores p ≡ b.bytes p
  unfolding rest_stores
  rest_other p h = ground (
    arith,
    store32_other (store32 b.bytes (a + (size + 8) + 4) after) (a + (size + 8)) (n - (size + 8)) p,
    store32_other b.bytes (a + (size + 8) + 4) after p,
  )

  after-lt : after < 2 ^ 32
  unfolding after
  after-lt = head_lt b.bytes b.full_size (a + n) _ bs (free.size) (free.chain.5)

  rest_words :
      (load32 rest_stores (a + (size + 8)) ≡ n - (size + 8))
      × (load32 rest_stores (a + (size + 8) + 4) ≡ after)
  unfolding rest_stores
  rest_words =
      let s = free.size in
      let c = free.chain in
      ground (
        arith,
        after-lt,
        load32-store32_self (store32 b.bytes (a + (size + 8) + 4) after) (a + (size + 8))
            (n - (size + 8)) (omega arith),
        load32-store32_apart (store32 b.bytes (a + (size + 8) + 4) after) (a + (size + 8))
            (n - (size + 8)) (a + (size + 8) + 4),
        load32-store32_self b.bytes (a + (size + 8) + 4) after after-lt,
      )

  frame : (p : ℕ) → Apart a n p → result.bytes p ≡ b.bytes p
  frame p h =
      rw (carve_first_lem.0)
        (stamp_other rest_stores a word size clear p (ground arith) ∙ rest_other p (ground arith))

  word_at : (x : ℕ) → a + (size + 8) ≤ x → load32 result.bytes x ≡ load32 rest_stores x
  word_at x h =
      rw (carve_first_lem.0) (load32-stamp rest_stores a word size clear x (inr (omega arith)))

  rest-IsChain :
      IsChain result.bytes b.full_size (a + n) (load32 result.bytes (a + (size + 8) + 4)) bs
  unfolding after
  rest-IsChain = rw (word_at (a + (size + 8) + 4) (omega arith) ∙ rest_words.1) (
      IsChain-same b.bytes result.bytes b.full_size (a + n) _ bs
        (λ p lo hi. frame p (inr (omega arith))) (free.chain.5))

  -- In a valid buffer, where the first free block has room for the block and a free block's
  -- header, the inline allocation returns its lower part and leaves the rest free; only free bytes
  -- change, the size word, below 2 ^ 64, is written, and the payload is cleared if asked for.
  pub carve_first-TookBlock :
      ((carve_first b size word clear).1 ≡ a + 8)
      × TookBlock b
          (carve_first b size word clear).0
          size
          clear
          ((a, n) ∷ bs)
          ((a + (size + 8), n - (size + 8)) ∷ bs)
          a
          word
  unfolding is_valid_magic result
  carve_first-TookBlock =
      let s = carve_first_lem.3 in
      let c = free.chain in
      let end : a + (size + 8) + (n - (size + 8)) ≡ a + n = omega arith in
      (
        carve_first_lem.2,
        record {
          list = record {
            magic = rw s.magic (free.magic);
            size = rw s.full_size (free.size);
            chain =
                IsChain-lim result.bytes b.full_size _ header_size result.free_list
                  ((a + (size + 8), n - (size + 8)) ∷ bs) (s.full_size)
                  (
                    carve_first_lem.1,
                    omega arith,
                    omega arith,
                    omega arith,
                    word_at (a + (size + 8)) (omega arith) ∙ rest_words.0,
                    rw end rest-IsChain,
                  );
          };
          frame = λ p out. frame p out.0;
          word = rw (carve_first_lem.0) (stamp_word rest_stores a word size clear word-lt);
          zero = λ e p lo hi.
              rw (carve_first_lem.0) (stamp_zero rest_stores a word size clear p e lo hi);
          same = s;
        },
      )
