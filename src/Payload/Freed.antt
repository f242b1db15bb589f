-- ===== src/Payload/Freed.antt =====
-- FreeSlow puts a block back on the free list as the specification says
-- (phaser/runtime/payload_buffer.cc).
use phaser.Prelude.{
  ℕ, zero, suc, ◌+◌, ◌-◌, ◌^◌, ◌≤◌, ◌<◌, ◌≡◌, refl, ◌⊎◌, inl, inr, true, false, arith, ◌∙◌, sym,
}
use phaser.Prelude.{[], ◌∷◌, ltb, ◌==◌, Bool-cases, length, some, Option}
use phaser.Memory.{load32, load64}
use phaser.Memory.Words.{Apart, load32-Same}
use phaser.Payload.{Buffer, is_valid_magic, link, next_block}
use phaser.Payload.Words.{add32}
use phaser.Payload.Release.{merge_with_above, merge_with_below, insert_at_end, free_loop}
use phaser.Payload.Joined.{
  above, below, release_after, halves, joins-IsChain, below-IsChain, below_frame,
  merge_with_below-SameHeader,
}
use phaser.Payload.Placed.{
  Placed, insert_at_end-Placed, merge_with_above-Placed, above_lem, above_length, above_rest,
}
use phaser.Payload.Chain.{Blocks, IsChain, Outside, IsChain-lim, below-Outside}
use phaser.Payload.Taken.{SameHeader}
use phaser.Payload.Fit.{next_block-chain}

-- The block `(c, k)` shares no byte with the free blocks.
abbrev pub ApartFrom : ℕ → ℕ → Blocks → Type 0
ApartFrom c k [] = Unit {0}
ApartFrom c k ((a, n) ∷ bs) = ((c + k ≤ a) ⊎ (a + n ≤ c)) × ApartFrom c k bs

-- `b'` is `b` with the block `(c, k)` freed behind the free block `(a, n)`: `bs` has become `bs'`.
pub record Freed (b b' : Buffer) (a n lo c k : ℕ) (bs bs' : Blocks) : Type 0 where
  pub chain : IsChain b'.bytes b.full_size lo a bs'
  pub head : b'.free_list ≡ b.free_list
  pub frame : (p : ℕ) → Apart a n p → Outside p bs → Apart c k p → b'.bytes p ≡ b.bytes p
  pub same : SameHeader b b'

SameHeader-trans : (b b' b'' : Buffer) → SameHeader b b' → SameHeader b' b'' → SameHeader b b''
SameHeader-trans b b' b'' s t = record {
  magic = t.magic ∙ s.magic;
  message = t.message ∙ s.message;
  full_size = t.full_size ∙ s.full_size;
  metadata = t.metadata ∙ s.metadata;
  bitmaps = t.bitmaps ∙ s.bitmaps;
}

-- A block that was placed behind the free block `(a, n)` is on the list that starts there.
Placed-cons :
    (b b' : Buffer) (a n lo c len : ℕ) (rest : Blocks)
    → 0 < a
    → lo ≤ a
    → 8 ≤ n
    → a + n ≤ c
    → a + n ≤ b.full_size
    → load32 b.bytes a ≡ n
    → Placed b b' a (a + n) c len rest
    → IsChain b'.bytes b.full_size lo a ((a, n) ∷ (c, len) ∷ rest)
unfolding link
Placed-cons b b' a n lo c len rest pos low room order fit word t =
    let own : load32 b'.bytes (a + 4) ≡ c = ground (arith, t.linked) in
    (
      refl,
      low,
      room,
      fit,
      load32-Same b.bytes b'.bytes a
            (λ p x y. t.frame p (inr (inl (omega arith))) (inl (omega arith)))
          ∙ word,
      rw own (t.chain),
    )

module _ (b : Buffer) (c k : ℕ) (valid : is_valid_magic b ≡ true) (lim : b.full_size < 2 ^ 32)
    (room : 8 ≤ k) (fit : c + k ≤ b.full_size) (word : load64 b.bytes c ≡ k - 8) where
  size_word : (load32 b.bytes c ≡ k - 8) × (load32 b.bytes (c + 4) ≡ 0)
  size_word = halves b.bytes c (k - 8) word (omega arith)

  module _ (a n lo : ℕ) (pos : 0 < lo) (order : a + n ≤ c) where
    -- Behind the last free block, adjacent to it.
    end_joined :
        IsChain b.bytes b.full_size lo a ((a, n) ∷ [])
        → a + n ≡ c
        → Freed b (merge_with_below b c a).0 a n lo c k [] ((a, n + (k - 8)) ∷ [])
    end_joined chain at =
        let (w, w') = size_word in
        let s =
          merge_with_below-SameHeader b a n c (k - 8) lo [] lim (chain.1) (chain.2) order
            (omega arith) (chain.4) w w' in
        record {
          chain =
              joins-IsChain b a n c (k - 8) lo [] lim (chain.1) (chain.2) order (omega arith)
                (chain.4) w w' at;
          head = s.1;
          frame = λ p out free apart.
              below_frame b a n c (k - 8) lo [] lim (chain.1) (chain.2) order (omega arith)
                (chain.4) w w' p (ground arith);
          same = s.0;
        }

    -- Behind the last free block, apart from it.
    end_apart :
        IsChain b.bytes b.full_size lo a ((a, n) ∷ [])
        → Freed b (insert_at_end b c a k) a n lo c k [] ((a, n) ∷ (c, k) ∷ [])
    end_apart chain =
        let t =
          insert_at_end-Placed b a (a + n) c lim (inr (omega (arith, chain.2))) order k valid
            (omega arith) room fit in
        record {
          chain =
              Placed-cons b (insert_at_end b c a k) a n lo c k [] (omega (arith, chain.1)) (chain.1)
                (chain.2) order (chain.3) (chain.4) t;
          head = t.head (ground (arith, chain.1));
          frame = λ p out free apart. t.frame p (inr (ground (arith, chain.2))) (ground arith);
          same = t.same;
        }

    -- In front of the free block `(d, m)`, and behind `(a, n)`.
    between :
        (d m : ℕ) (bs : Blocks)
        → IsChain b.bytes b.full_size lo a ((a, n) ∷ (d, m) ∷ bs)
        → c + k ≤ d
        → Freed b
            (merge_with_below (merge_with_above b (c + 8) c d a (k - 8)) c a).0
            a
            n
            lo
            c
            k
            ((d, m) ∷ bs)
            (below a n (above c k d m bs))
    between d m bs chain front =
        let upper : IsChain b.bytes b.full_size (c + k) d ((d, m) ∷ bs) =
          (refl, front, chain.5.2, chain.5.3, chain.5.4, chain.5.5) in
        let t =
          merge_with_above-Placed b a (a + n) c lim (inr (omega (arith, chain.2))) order k d m bs
            valid (omega arith) room front (size_word.0) upper in
        let b1 = merge_with_above b (c + 8) c d a (k - 8) in
        let len = above_length c k d m in
        let rest = above_rest c k d m bs in
        let ch =
          IsChain-lim b1.bytes b.full_size b1.full_size lo a ((a, n) ∷ (c, len) ∷ rest)
            (t.same.full_size)
            (Placed-cons b b1 a n lo c len rest (omega (arith, chain.1)) (chain.1) (chain.2) order
              (chain.3) (chain.4) t) in
        let lim1 : b1.full_size < 2 ^ 32 = rw (t.same.full_size) lim in
        let s =
          merge_with_below-SameHeader b1 a n c len lo rest lim1 (ch.1) (ch.2) order (ch.5.3) (ch.4)
            (ch.5.4) (ch.5.5) in
        record {
          chain = rw (above_lem c k d m bs) (
              IsChain-lim (merge_with_below b1 c a).0.bytes b1.full_size b.full_size lo a
                (below a n ((c, len) ∷ rest)) (sym (t.same.full_size))
                (below-IsChain b1 a n c len lo rest lim1 (ch.1) (ch.2) order (ch.5.3) (ch.4)
                  (ch.5.4) (ch.5.5) ch));
          head = s.1 ∙ t.head (ground (arith, chain.1));
          frame = λ p out free apart.
              below_frame b1 a n c len lo rest lim1 (ch.1) (ch.2) order (ch.5.3) (ch.4) (ch.5.4)
                (ch.5.5) p (ground (arith, chain.2))
              ∙ t.frame p (inr (ground (arith, chain.2))) (ground arith);
          same = SameHeader-trans b b1 (merge_with_below b1 c a).0 (t.same) (s.0);
        }

  -- The rounds of the loop: two ways to end behind the last free block, the insertion in front of
  -- a free block, and the step past one.
  back : c + 8 - 8 ≡ c
  back = omega arith

  loop_end_joined :
      (fuel a : ℕ)
      → 0 < a
      → (merge_with_below b c a).1 ≡ true
      → free_loop b (c + 8) (k - 8) (suc fuel) a 0 ≡ some (merge_with_below b c a).0
  unfolding free_loop
  loop_end_joined fuel a pos h =
      let some_prev : (a == 0) ≡ false = ground arith in rw (back, some_prev, h)

  loop_end_apart :
      (fuel a : ℕ)
      → 0 < a
      → (merge_with_below b c a).1 ≡ false
      → free_loop b (c + 8) (k - 8) (suc fuel) a 0 ≡ some (insert_at_end b c a k)
  unfolding free_loop
  loop_end_apart fuel a pos h =
      let some_prev : (a == 0) ≡ false = ground arith in
      let w : load32 b.bytes c ≡ k - 8 = size_word.0 in
      let sum : add32 (k - 8) 8 ≡ k = omega arith in rw (back, some_prev, h, w, sum)

  loop_front :
      (fuel a d : ℕ)
      → 0 < a
      → 0 < d
      → ltb c d ≡ true
      → free_loop b (c + 8) (k - 8) (suc fuel) a d
        ≡ some (merge_with_below (merge_with_above b (c + 8) c d a (k - 8)) c a).0
  unfolding free_loop
  loop_front fuel a d pos pos' h =
      let some_prev : (a == 0) ≡ false = ground arith in
      let some_block : (d == 0) ≡ false = ground arith in rw (back, some_prev, some_block, h)

  loop_next :
      (fuel a d : ℕ)
      → 0 < d
      → ltb c d ≡ false
      → free_loop b (c + 8) (k - 8) (suc fuel) a d
        ≡ free_loop b (c + 8) (k - 8) fuel d (next_block b d)
  unfolding free_loop
  loop_next fuel a d pos h =
      let some_block : (d == 0) ≡ false = ground arith in rw (back, some_block, h)

  pub loop_skip :
      (fuel a cur d m lo : ℕ) (bs : Blocks) {r : Option Buffer}
      → 0 < lo
      → IsChain b.bytes b.full_size lo cur ((d, m) ∷ bs)
      → ltb c d ≡ false
      → free_loop b (c + 8) (k - 8) fuel d (load32 b.bytes (d + 4)) ≡ r
      → free_loop b (c + 8) (k - 8) (suc fuel) a cur ≡ r
  loop_skip fuel a cur d m lo bs pos chain h walk =
      let at : cur ≡ d = chain.0 in
      rw at (
        loop_next fuel a d (omega (arith, chain)) h
        ∙ rw (next_block-chain b valid lim (d + m) d bs (omega (arith, chain)) (chain.5)) walk)

  abbrev pub Releases : ℕ → ℕ → ℕ → ℕ → Blocks → Type 0
  Releases fuel a n lo bs =
      (b' : Buffer) × (free_loop b (c + 8) (k - 8) fuel a (load32 b.bytes (a + 4)) ≡ some b')
      × Freed b b' a n lo c k bs (release_after a n c k bs)

  -- A free block in front of the walk stays as it is.
  Freed-cons :
      (b' : Buffer) (a n lo d m : ℕ) (bs bs' : Blocks)
      → a + n ≤ c
      → IsChain b.bytes b.full_size lo a ((a, n) ∷ (d, m) ∷ bs)
      → Freed b b' d m (a + n) c k bs bs'
      → Freed b b' a n lo c k ((d, m) ∷ bs) ((a, n) ∷ bs')
  Freed-cons b' a n lo d m bs bs' order chain t =
      let front : (p : ℕ) → p < a + 8 → b'.bytes p ≡ b.bytes p = λ p h.
        t.frame p (inl (omega (arith, chain)))
          (below-Outside b.bytes b.full_size (d + m) p _ bs (chain.5.5) (omega (arith, chain)))
          (inl (omega (arith, chain.2))) in
      let own : load32 b'.bytes (a + 4) ≡ d =
        load32-Same b.bytes b'.bytes (a + 4) (λ p x y. front p (omega arith)) ∙ chain.5.0 in
      record {
        chain = (
          refl,
          chain.1,
          chain.2,
          chain.3,
          load32-Same b.bytes b'.bytes a (λ p x y. front p (omega arith)) ∙ chain.4,
          rw own (t.chain),
        );
        head = t.head;
        frame = λ p out free apart. t.frame p free.0 free.1 apart;
        same = t.same;
      }

  pub free_loop-release :
      (fuel a n lo : ℕ) (bs : Blocks)
      → 0 < lo
      → a + n ≤ c
      → IsChain b.bytes b.full_size lo a ((a, n) ∷ bs)
      → ApartFrom c k bs
      → length bs < fuel
      → Releases fuel a n lo bs
  free_loop-release zero a n lo bs pos order chain apart h = absurd (omega arith)
  free_loop-release (suc fuel) a n lo [] pos order chain apart h =
      let (w, w') = size_word in
      let s =
        merge_with_below-SameHeader b a n c (k - 8) lo [] lim (chain.1) (chain.2) order
          (omega arith) (chain.4) w w' in
      elim (Bool-cases (a + n == c)) [
        | inl at ↦ (
          (merge_with_below b c a).0,
          rw (chain.5) (loop_end_joined fuel a (omega arith) (s.2 ∙ at)),
          rw at (end_joined a n lo pos order chain (ground arith)),
        )
        | inr away ↦ (
          insert_at_end b c a k,
          rw (chain.5) (loop_end_apart fuel a (omega arith) (s.2 ∙ away)),
          rw away (end_apart a n lo pos order chain),
        )
      ]
  free_loop-release (suc fuel) a n lo ((d, m) ∷ bs) pos order chain apart h =
      let at : load32 b.bytes (a + 4) ≡ d = chain.5.0 in
      elim (Bool-cases (ltb c d)) [
        | inl front ↦ (
          (merge_with_below (merge_with_above b (c + 8) c d a (k - 8)) c a).0,
          rw at (loop_front fuel a d (omega arith) (omega (arith, chain.5)) front),
          rw front (between a n lo pos order d m bs chain (ground (arith, chain.5))),
        )
        | inr behind ↦
            let (b', walk, t) =
              free_loop-release fuel d m (a + n) bs (omega arith) (ground (arith, chain.5))
                (refl, chain.5.1, chain.5.2, chain.5.3, chain.5.4, chain.5.5) (apart.1)
                (omega arith) in
            (
              b',
              loop_skip fuel a _ d m (a + n) bs (omega arith) (chain.5) behind walk,
              rw behind (Freed-cons b' a n lo d m bs _ order chain t),
            )
      ]
