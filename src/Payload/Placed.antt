-- ===== src/Payload/Placed.antt =====
-- Writing the header of a free block and the link to it: what MergeWithAboveIfPossible and
-- InsertNewFreeBlockAtEnd do to the free list (phaser/runtime/payload_buffer.cc).
use phaser.Prelude.{
  ℕ, ◌+◌, ◌-◌, ◌^◌, ◌%◌, ◌≤◌, ◌<◌, ◌≡◌, refl, ◌⊎◌, inl, inr, true, false, arith, ◌∙◌, ap,
}
use phaser.Prelude.{[], ◌∷◌, ◌==◌, if◌then◌else◌, Bool-cases}
use phaser.Memory.{Mem, load32, store32}
use phaser.Memory.Words.{Apart, store32_other, load32-store32_self, load32-store32_apart}
use phaser.Payload.{Buffer, is_valid_magic, set_link, link, to_offset}
use phaser.Payload.Words.{add32}
use phaser.Payload.Release.{merge_with_above, insert_at_end}
use phaser.Payload.Joined.{above}
use phaser.Payload.Chain.{Blocks, IsChain, IsChain-same, to_address_valid}
use phaser.Payload.Taken.{
  SameHeader, linked, linked_other, load32-linked, load32-linked_self, head_lt,
}

-- `b'` is `b` with the free block `(c, len)` written and linked behind `prev`, in front of `rest`.
pub record Placed (b b' : Buffer) (prev lo c len : ℕ) (rest : Blocks) : Type 0 where
  pub chain : IsChain b'.bytes b.full_size lo c ((c, len) ∷ rest)
  pub linked : link b' prev ≡ c
  pub head : (prev == 0) ≡ false → b'.free_list ≡ b.free_list
  pub frame :
      (p : ℕ) → ((prev == 0) ≡ true) ⊎ Apart (prev + 4) 4 p → Apart c 8 p → b'.bytes p ≡ b.bytes p
  pub same : SameHeader b b'

-- The head of `above`, and what follows it.
abbrev pub above_length : ℕ → ℕ → ℕ → ℕ → ℕ
above_length c k d m = if c + k == d then k + m else k

abbrev pub above_rest : ℕ → ℕ → ℕ → ℕ → Blocks → Blocks
above_rest c k d m bs = if c + k == d then bs else (d, m) ∷ bs

pub above_lem :
    (c k d m : ℕ) (bs : Blocks)
    → above c k d m bs ≡ (c, above_length c k d m) ∷ above_rest c k d m bs
above_lem c k d m bs = ground arith

module _ (b : Buffer) (prev lo c : ℕ) (lim : b.full_size < 2 ^ 32)
    (before : ((prev == 0) ≡ true) ⊎ (prev + 8 ≤ lo)) (low : lo ≤ c) where
  -- The header is written to the bytes `x`, the link last.
  placed :
      (b' : Buffer) (x : Mem) (len next : ℕ) (rest : Blocks)
      → 8 ≤ len
      → c + len ≤ b.full_size
      → load32 x c ≡ len
      → load32 x (c + 4) ≡ next
      → ((p : ℕ) → Apart c 8 p → x p ≡ b.bytes p)
      → IsChain b.bytes b.full_size (c + len) next rest
      → b'.bytes ≡ linked x prev c
      → b'.free_list ≡ (if prev == 0 then c else b.free_list)
      → SameHeader b b'
      → Placed b b' prev lo c len rest
  unfolding link
  placed b' x len next rest room fit word word' other chain e f same =
      let stay : (p : ℕ)
          → ((prev == 0) ≡ true) ⊎ Apart (prev + 4) 4 p
          → Apart c 8 p
          → b'.bytes p ≡ b.bytes p =
        λ p out free. rw e (linked_other x prev c lo before p out ∙ other p free) in
      let at : load32 b'.bytes (c + 4) ≡ next =
        rw e (load32-linked x prev c lo before (c + 4) (omega arith) ∙ word') in
      record {
        chain = (
          refl,
          low,
          room,
          fit,
          rw e (load32-linked x prev c lo before c low ∙ word),
          rw at (
              IsChain-same b.bytes b'.bytes b.full_size (c + len) next rest
                (λ p y z. stay p (ground arith) (inr (omega arith))) chain),
        );
        linked =
            ground (
              arith,
              load32-linked_self x prev c lo before,
              ap (λ (t : Mem). load32 t (prev + 4)) e,
            );
        head = λ h. ground arith;
        frame = stay;
        same = same;
      }

  -- `*next_ptr = ToOffset(c)`, with the bytes `x`.
  relinked : Mem → Buffer
  relinked x = set_link (record b { bytes = x }) prev (to_offset (record b { bytes = x }) c 0 8)

  relinked_lem :
      (x : Mem)
      → is_valid_magic b ≡ true
      → 0 < c
      → c + 8 ≤ b.full_size
      → ((relinked x).bytes ≡ linked x prev c)
        × ((relinked x).free_list ≡ (if prev == 0 then c else b.free_list))
        × SameHeader b (relinked x)
  unfolding relinked set_link to_offset
  relinked_lem x valid pos fit = ground arith

  -- InsertNewFreeBlockAtEnd
  pub insert_at_end-Placed :
      (len : ℕ)
      → is_valid_magic b ≡ true
      → 0 < c
      → 8 ≤ len
      → c + len ≤ b.full_size
      → Placed b (insert_at_end b c prev len) prev lo c len []
  unfolding insert_at_end relinked
  insert_at_end-Placed len valid pos room fit =
      let x : Mem = store32 (store32 b.bytes c len) (c + 4) 0 in
      let facts = relinked_lem x valid pos (omega arith) in
      placed (insert_at_end b c prev len) x len 0 [] room fit
        (load32-store32_apart (store32 b.bytes c len) (c + 4) 0 c (inl (omega arith))
          ∙ load32-store32_self b.bytes c len (omega arith))
        (load32-store32_self (store32 b.bytes c len) (c + 4) 0 (omega arith))
        (λ p h.
          ground (
            arith,
            store32_other (store32 b.bytes c len) (c + 4) 0 p,
            store32_other b.bytes c len p,
          ))
        refl facts.0 facts.1 facts.2

  -- A block of `k` bytes in front of the free block `(d, m)`, with its size word written.
  module _ (k d m : ℕ) (bs : Blocks) (valid : is_valid_magic b ≡ true) (pos : 0 < c) (room : 8 ≤ k)
      (fit : c + k ≤ d) (word : load32 b.bytes c ≡ k - 8)
      (chain : IsChain b.bytes b.full_size (c + k) d ((d, m) ∷ bs)) where
    after : ℕ
    after = load32 b.bytes (d + 4)

    joined : Mem
    joined = store32 (store32 b.bytes (c + 4) after) c (k + m)

    apart : Mem
    apart = store32 (store32 b.bytes c k) (c + 4) d

    after-lt : after < 2 ^ 32
    unfolding after
    after-lt = head_lt b.bytes b.full_size (d + m) _ bs lim (chain.5)

    above_joins : c + k ≡ d → merge_with_above b (c + 8) c d prev (k - 8) ≡ relinked joined
    unfolding merge_with_above relinked joined after
    above_joins h =
        let test : c + 8 + (k - 8) ≡ d = omega arith in
        let l : load32 (store32 b.bytes (c + 4) (load32 b.bytes (d + 4))) d ≡ m =
          load32-store32_apart b.bytes (c + 4) _ d (inr (omega arith)) ∙ chain.4 in
        let sum : (k - 8 + 8 + m) % 2 ^ 32 ≡ k + m = omega (arith, chain) in
        rw (l, sum) (ground arith)

    above_keeps :
        (c + k == d) ≡ false → merge_with_above b (c + 8) c d prev (k - 8) ≡ relinked apart
    unfolding merge_with_above relinked apart
    above_keeps h =
        let o : to_offset b d 0 8 ≡ d =
          (to_address_valid b d 8 valid (omega arith) (omega arith) (omega (arith, chain))).1 in
        let sum : add32 (k - 8) 8 ≡ k = omega (arith, chain) in rw (word, sum, o) (ground arith)

    joined-Placed : c + k ≡ d → Placed b (relinked joined) prev lo c (k + m) bs
    unfolding joined after
    joined-Placed h =
        let facts = relinked_lem joined valid pos (omega (arith, chain)) in
        let end : c + (k + m) ≡ d + m = omega arith in
        placed (relinked joined) joined (k + m) after bs (omega arith) (omega (arith, chain))
          (load32-store32_self (store32 b.bytes (c + 4) after) c (k + m) (omega (arith, chain)))
          (load32-store32_apart (store32 b.bytes (c + 4) after) c (k + m) (c + 4)
              (inr (omega arith))
            ∙ load32-store32_self b.bytes (c + 4) after after-lt)
          (λ p h'. ground (
            arith,
            store32_other (store32 b.bytes (c + 4) after) c (k + m) p,
            store32_other b.bytes (c + 4) after p,
          ))
          (rw end (chain.5)) (facts.0) (facts.1) (facts.2)

    apart-Placed : Placed b (relinked apart) prev lo c k ((d, m) ∷ bs)
    unfolding apart
    apart-Placed =
        let facts = relinked_lem apart valid pos (omega (arith, chain)) in
        placed (relinked apart) apart k d ((d, m) ∷ bs) room (omega (arith, chain))
          (load32-store32_apart (store32 b.bytes c k) (c + 4) d c (inl (omega arith))
            ∙ load32-store32_self b.bytes c k (omega (arith, chain)))
          (load32-store32_self (store32 b.bytes c k) (c + 4) d (omega (arith, chain)))
          (λ p h'.
            ground
              (arith, store32_other (store32 b.bytes c k) (c + 4) d p, store32_other b.bytes c k p))
          chain (facts.0) (facts.1) (facts.2)

    -- MergeWithAboveIfPossible puts the block in front of the free block, as one with it if they are
    -- adjacent.
    pub merge_with_above-Placed :
        Placed b
          (merge_with_above b (c + 8) c d prev (k - 8))
          prev
          lo
          c
          (above_length c k d m)
          (above_rest c k d m bs)
    merge_with_above-Placed = elim (Bool-cases (c + k == d)) [
      | inl h ↦ rw (h, above_joins (ground arith)) (joined-Placed (ground arith))
      | inr h ↦ rw (h, above_keeps h) apart-Placed
    ]
