-- ===== src/Payload/Free.antt =====
-- Free on a block that was taken from the free list, against the specification
-- (phaser/runtime/payload_buffer.h and payload_buffer.cc).
use phaser.Prelude.{
  ℕ, suc, ◌+◌, ◌-◌, ◌^◌, ◌%◌, ◌≤◌, ◌<◌, ◌≡◌, refl, inl, inr, true, false, arith, ◌∙◌, ap, sym,
}
use phaser.Prelude.{[], ◌∷◌, ltb, ◌==◌, Bool-cases, some, none}
use mathlib.Core.Path.{subst}
use phaser.Memory.{load64}
use phaser.Memory.Words.{Apart}
use phaser.Payload.{
  Buffer, is_valid_magic, allocation_failed, link, set_link, header_size, to_offset,
}
use phaser.Payload.Words.{is_small_word}
use phaser.Payload.Small.{index_of_encoded_size}
use phaser.Payload.Release.{merge_with_above, insert_at_end, free_loop, free_slow, free}
use phaser.Payload.Joined.{release_after, release, halves}
use phaser.Payload.Placed.{
  Placed, insert_at_end-Placed, merge_with_above-Placed, above_lem, above_length, above_rest,
}
use phaser.Payload.Chain.{Blocks, IsChain, IsFree, Outside, IsChain-lim, length-chain}
use phaser.Payload.Taken.{SameHeader}
use phaser.Payload.FromList.{head_lem}
use phaser.Payload.Freed.{ApartFrom, free_loop-release, loop_skip}

-- `b'` is `b` with the block `(c, k)` put back: only free bytes and bytes of the block have changed.
pub record PutBack (b b' : Buffer) (c k : ℕ) (bs : Blocks) : Type 0 where
  pub list : IsFree b' (release c k bs)
  pub frame : (p : ℕ) → Outside p bs → Apart c k p → b'.bytes p ≡ b.bytes p
  pub same : SameHeader b b'

-- A block of `k` bytes at `c`, apart from the free list, with its size word.
pub record IsBlock (b : Buffer) (bs : Blocks) (c k : ℕ) : Type 0 where
  pub room : 8 ≤ k
  pub low : header_size ≤ c
  pub fit : c + k ≤ b.full_size
  pub apart : ApartFrom c k bs
  pub word : load64 b.bytes c ≡ k - 8
  pub small : k < 2 ^ 31

Placed→PutBack :
    (b b' : Buffer) (c k len : ℕ) (bs rest : Blocks)
    → IsFree b bs
    → 8 ≤ k
    → Placed b b' 0 header_size c len rest
    → release c k bs ≡ (c, len) ∷ rest
    → PutBack b b' c k bs
unfolding link is_valid_magic
Placed→PutBack b b' c k len bs rest free_bs room t e = record {
  list = record {
    magic = rw (t.same.magic) (free_bs.magic);
    size = rw (t.same.full_size) (free_bs.size);
    chain =
        rw (t.linked, e)
          (IsChain-lim b'.bytes b.full_size b'.full_size header_size c ((c, len) ∷ rest)
            (t.same.full_size) (t.chain));
  };
  frame = λ p out away. t.frame p (inl refl) (ground arith);
  same = t.same;
}

module _ (b : Buffer) (c k : ℕ) where
  abbrev Result : Blocks → Type 0
  Result bs = (b' : Buffer) × (free_slow b (c + 8) ≡ some b') × PutBack b b' c k bs

  word_test :
      (bs : Blocks)
      → IsBlock b bs c k
      → (is_small_word (load64 b.bytes c) ≡ false)
        × (index_of_encoded_size (load64 b.bytes c) ≡ none)
  unfolding index_of_encoded_size
  word_test bs blk =
      let t : is_small_word (k - 8) ≡ false = ground (arith, blk.small) in
      (rw (blk.word) t, rw (blk.word, t))

  -- The first tests of FreeSlow on a block of the free list's kind.
  free_slow_list :
      (bs : Blocks)
      → IsFree b bs
      → IsBlock b bs c k
      → (b.free_list == 0) ≡ false
      → free_slow b (c + 8) ≡ free_loop b (c + 8) (k - 8) (suc b.full_size) 0 b.free_list
  unfolding free_slow
  free_slow_list bs free_bs blk h =
      let back : c + 8 - 8 ≡ c = omega arith in
      let some_block : (c + 8 == 0) ≡ false = ground arith in
      let t = (word_test bs blk).1 in
      rw (back, some_block, t, head_lem b bs free_bs, h, back, blk.word)

  only_walk : IsFree b [] → IsBlock b [] c k → free_slow b (c + 8) ≡ some (insert_at_end b c 0 k)
  unfolding free_slow insert_at_end set_link to_offset
  only_walk free_bs blk =
      let back : c + 8 - 8 ≡ c = omega arith in
      let some_block : (c + 8 == 0) ≡ false = ground arith in
      let t = (word_test [] blk).1 in
      let none_free : (b.free_list == 0) ≡ true = ground (arith, free_bs.chain) in
      let sum : (k - 8 + 8) % 2 ^ 32 ≡ k = omega (arith, blk.small, blk.room) in
      rw (back, some_block, t, head_lem b [] free_bs, none_free, back, blk.word, sum)

  -- In front of the first free block.
  loop_first :
      (fuel d : ℕ)
      → 0 < d
      → ltb c d ≡ true
      → free_loop b (c + 8) (k - 8) (suc fuel) 0 d ≡ some (merge_with_above b (c + 8) c d 0 (k - 8))
  unfolding free_loop
  loop_first fuel d pos h =
      let back : c + 8 - 8 ≡ c = omega arith in
      let some_block : (d == 0) ≡ false = ground arith in rw (back, some_block, h)

  free_slow_only : IsFree b [] → IsBlock b [] c k → Result []
  free_slow_only free_bs blk = (
    insert_at_end b c 0 k,
    only_walk free_bs blk,
    Placed→PutBack b (insert_at_end b c 0 k) c k k [] [] free_bs (blk.room)
        (insert_at_end-Placed b 0 header_size c (free_bs.size) (inl refl) (blk.low) k
          (free_bs.magic) (omega (arith, blk.low)) (blk.room) (blk.fit))
        refl,
  )

  free_slow_front :
      (d m : ℕ) (bs : Blocks)
      → IsFree b ((d, m) ∷ bs)
      → IsBlock b ((d, m) ∷ bs) c k
      → ltb c d ≡ true
      → Result ((d, m) ∷ bs)
  free_slow_front d m bs free_bs blk front =
      let chain = free_bs.chain in
      let at : b.free_list ≡ d = chain.0 in
      let upper : IsChain b.bytes b.full_size (c + k) d ((d, m) ∷ bs) =
        (refl, ground (arith, blk.apart), chain.2, chain.3, chain.4, chain.5) in
      (
        merge_with_above b (c + 8) c d 0 (k - 8),
        free_slow_list ((d, m) ∷ bs) free_bs blk (ground (arith, chain.1))
            ∙ ap (free_loop b (c + 8) (k - 8) (suc b.full_size) 0) at
            ∙ loop_first b.full_size d (omega (arith, chain.1)) front,
        Placed→PutBack b (merge_with_above b (c + 8) c d 0 (k - 8)) c k (above_length c k d m)
            ((d, m) ∷ bs) (above_rest c k d m bs) free_bs (blk.room)
            (merge_with_above-Placed b 0 header_size c (free_bs.size) (inl refl) (blk.low) k d m bs
              (free_bs.magic) (omega (arith, blk.low)) (blk.room) (upper.1)
              ((halves b.bytes c (k - 8) (blk.word) (omega (arith, blk.small))).0) upper)
            (rw front (above_lem c k d m bs)),
      )

  free_slow_behind :
      (d m : ℕ) (bs : Blocks)
      → IsFree b ((d, m) ∷ bs)
      → IsBlock b ((d, m) ∷ bs) c k
      → ltb c d ≡ false
      → Result ((d, m) ∷ bs)
  unfolding is_valid_magic
  free_slow_behind d m bs free_bs blk behind =
      let chain = free_bs.chain in
      let at : b.free_list ≡ d = chain.0 in
      let here : IsChain b.bytes b.full_size header_size d ((d, m) ∷ bs) =
        (refl, chain.1, chain.2, chain.3, chain.4, chain.5) in
      let order : d + m ≤ c = ground (arith, blk.apart, blk.room) in
      let (b', walk, t) =
        free_loop-release b c k (free_bs.magic) (free_bs.size) (blk.room) (blk.fit) (blk.word)
          b.full_size d m header_size bs (omega arith) order here (blk.apart.1)
          (omega
            (arith, length-chain b.bytes b.full_size (d + m) _ bs (chain.3) (chain.5), chain.1)) in
      (
        b',
        free_slow_list ((d, m) ∷ bs) free_bs blk (ground (arith, chain.1))
            ∙ loop_skip b c k (free_bs.magic) (free_bs.size) (blk.room) (blk.fit) (blk.word)
                b.full_size 0 b.free_list d m header_size bs (omega arith) chain behind walk,
        record {
          list = record {
            magic = rw (t.same.magic) (free_bs.magic);
            size = rw (t.same.full_size) (free_bs.size);
            chain =
                subst (λ q. IsChain b'.bytes b'.full_size header_size q (release c k ((d, m) ∷ bs)))
                  (sym (t.head ∙ at))
                  (rw behind (
                    IsChain-lim b'.bytes b.full_size b'.full_size header_size d
                      (release_after d m c k bs) (t.same.full_size) (t.chain)));
          };
          frame = λ p out away. t.frame p out.0 out.1 away;
          same = t.same;
        },
      )

free_slow-release :
    (b : Buffer) (c k : ℕ) (bs : Blocks) → IsFree b bs → IsBlock b bs c k → Result b c k bs
free_slow-release b c k [] free_bs blk = free_slow_only b c k free_bs blk
free_slow-release b c k ((d, m) ∷ bs) free_bs blk = elim (Bool-cases (ltb c d)) [
  | inl front ↦ free_slow_front b c k d m bs free_bs blk front
  | inr behind ↦ free_slow_behind b c k d m bs free_bs blk behind
]

-- Freeing a block of k bytes, below 2 ^ 31, that lies apart from the free list of a valid buffer
-- that has not failed succeeds, and the new free list is the specification's: the block is
-- inserted in order and joined to the free blocks next to it. Only free bytes and bytes of the
-- block change. Where the block follows the last free block directly, that block grows by k - 8
-- bytes only, as in the code.
pub free-release :
    (b : Buffer) (c k : ℕ) (bs : Blocks)
    → IsFree b bs
    → IsBlock b bs c k
    → allocation_failed b ≡ false
    → (b' : Buffer) × (free b (c + 8) ≡ some b') × PutBack b b' c k bs
unfolding free
free-release b c k bs free_bs blk sound =
    let (b', e, t) = free_slow-release b c k bs free_bs blk in
    let back : c + 8 - 8 ≡ c = omega arith in
    let some_block : (c + 8 == 0) ≡ false = ground arith in
    (b', rw (back, some_block, sound, (word_test b c k bs blk).0) e, t)
