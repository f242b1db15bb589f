-- ===== src/Payload/Taken.antt =====
-- TakeStartOfFreeBlock and the rest of taking a block from the free list of a payload buffer.
use phaser.Prelude.{
  ℕ, ◌+◌, ◌-◌, ◌%◌, ◌^◌, ◌≤◌, ◌<◌, ◌≡◌, ◌⊎◌, inl, inr, Bool, true, false, arith, ◌∙◌, ap,
}
use phaser.Prelude.{if◌then◌else◌, ◌==◌, [], ◌∷◌, leb, some, Bool-cases, leb→le, sym, some_eq}
use phaser.Memory.{Mem, load32, load64, store32}
use phaser.Memory.Words.{Apart, store32_other, load32-store32_self, load32-store32_apart}
use phaser.Payload.{Buffer, is_valid_magic, link}
use phaser.Payload.Alloc.{stamp, take_start_of_free_block, take_block}
use mathlib.Core.Path.{subst}
use phaser.Payload.Carve.{carve}
use phaser.Payload.Stamp.{stamp_other, stamp_word, stamp_zero, load32-stamp}
use phaser.Payload.Chain.{Blocks, IsChain, Outside, IsChain-same, IsChain-lower}

-- `*next_ptr = v`, on the bytes.
abbrev pub linked : Mem → ℕ → ℕ → Mem
linked m prev v = if prev == 0 then m else store32 m (prev + 4) v

module _ (b : Buffer) (a k f prev : ℕ) (valid : is_valid_magic b ≡ true)
    (lim : b.full_size < 2 ^ 32) (pos : 0 < a) (small : f ≤ load32 b.bytes a)
    (fit : a + load32 b.bytes a ≤ b.full_size) where
  split_lem :
      8 ≤ load32 b.bytes a - f
      → ((take_start_of_free_block b a k f prev).0.bytes
          ≡ linked
              (store32
                (store32 b.bytes (a + f) (load32 b.bytes a - f))
                (a + f + 4)
                (load32 b.bytes (a + 4)))
              prev
              (a + f))
        × ((take_start_of_free_block b a k f prev).0.free_list
            ≡ (if prev == 0 then a + f else b.free_list))
        × ((take_start_of_free_block b a k f prev).1 ≡ k)
  unfolding take_start_of_free_block
  split_lem h = ground arith

  whole_lem :
      ((prev == 0) ≡ true) ⊎ (prev + 8 ≤ a)
      → 8 ≤ load32 b.bytes a
      → load32 b.bytes a < f + 8
      → ((take_start_of_free_block b a k f prev).0.bytes
          ≡ linked b.bytes prev (load32 b.bytes (a + 4)))
        × ((take_start_of_free_block b a k f prev).0.free_list
            ≡ (if prev == 0 then load32 b.bytes (a + 4) else b.free_list))
        × ((take_start_of_free_block b a k f prev).1 ≡ load32 b.bytes a - 8)
  unfolding take_start_of_free_block
  whole_lem before room h =
      ground (arith, load32-store32_apart b.bytes (prev + 4) (load32 b.bytes (a + 4)) a)

-- The fields that no allocation from the free list touches.
pub record SameHeader (b b' : Buffer) : Type 0 where
  pub magic : b'.magic ≡ b.magic
  pub message : b'.message ≡ b.message
  pub full_size : b'.full_size ≡ b.full_size
  pub metadata : b'.metadata ≡ b.metadata
  pub bitmaps : b'.bitmaps ≡ b.bitmaps

take_start-SameHeader :
    (b : Buffer) (a k f prev : ℕ) → SameHeader b (take_start_of_free_block b a k f prev).0
unfolding take_start_of_free_block
take_start-SameHeader b a k f prev = ground arith

-- `b'` is `b` after the block at `a` of `n` bytes was taken for a request of `k` bytes, seen from
-- the free block `prev`: the list `bs` behind it has become `bs'`, only free bytes and the link in
-- `prev` have changed, and the block has its size word and, if `clear`, zeros.
pub record Taken (b b' : Buffer) (prev lo k : ℕ) (clear : Bool) (bs bs' : Blocks) (a n : ℕ)
    : Type 0 where
  pub chain : IsChain b'.bytes b.full_size lo (link b' prev) bs'
  pub head : (prev == 0) ≡ false → b'.free_list ≡ b.free_list
  pub frame :
      (p : ℕ) → ((prev == 0) ≡ true) ⊎ Apart (prev + 4) 4 p → Outside p bs → b'.bytes p ≡ b.bytes p
  pub word : load64 b'.bytes a ≡ n - 8
  pub zero : clear ≡ true → (p : ℕ) → a + 8 ≤ p → p < a + 8 + k → b'.bytes p ≡ 0
  pub same : SameHeader b b'

pub head_lt :
    (m : Mem) (lim lo q : ℕ) (bs : Blocks) → lim < 2 ^ 32 → IsChain m lim lo q bs → q < 2 ^ 32
head_lt m lim lo q [] h c = omega arith
head_lt m lim lo q ((a, n) ∷ bs) h c = omega arith

module _ (m : Mem) (prev v lo : ℕ) (before : ((prev == 0) ≡ true) ⊎ (prev + 8 ≤ lo)) where
  pub linked_other : (p : ℕ) → ((prev == 0) ≡ true) ⊎ Apart (prev + 4) 4 p → linked m prev v p ≡ m p
  linked_other p h = ground (arith, store32_other m (prev + 4) v p)

  pub load32-linked : (x : ℕ) → lo ≤ x → load32 (linked m prev v) x ≡ load32 m x
  load32-linked x h = ground (arith, load32-store32_apart m (prev + 4) v x)

  pub load32-linked_self :
      (prev == 0) ≡ false → v < 2 ^ 32 → load32 (linked m prev v) (prev + 4) ≡ v
  load32-linked_self h lt = ground (arith, load32-store32_self m (prev + 4) v)

-- A block of at least `k + 8` bytes behind `prev`, in front of the chain `bs`.
module _ (b : Buffer) (a n k prev lo : ℕ) (clear : Bool) (bs : Blocks)
    (valid : is_valid_magic b ≡ true) (lim : b.full_size < 2 ^ 32) (pos : 0 < lo)
    (before : ((prev == 0) ≡ true) ⊎ (prev + 8 ≤ lo)) (fit : k + 8 ≤ n)
    (chain : IsChain b.bytes b.full_size lo a ((a, n) ∷ bs)) where
  after : ℕ
  after = load32 b.bytes (a + 4)

  result : Buffer
  result = (take_block b k (k + 8) prev a clear).0

  rest_stores : Mem
  rest_stores = store32 (store32 b.bytes (a + (k + 8)) (n - (k + 8))) (a + (k + 8) + 4) after

  split_bytes :
      8 ≤ n - (k + 8)
      → (result.bytes ≡ stamp (linked rest_stores prev (a + (k + 8))) a k k clear)
        × (result.free_list ≡ (if prev == 0 then a + (k + 8) else b.free_list))
  unfolding result after rest_stores take_block
  split_bytes h = ground (
    arith,
    (chain.4),
    split_lem b a k (k + 8) prev valid lim (omega arith) (omega (arith, chain.4))
        (omega (arith, chain.4)) (omega (arith, chain.4)),
  )

  whole_bytes :
      n < k + 16
      → (result.bytes ≡ stamp (linked b.bytes prev after) a (n - 8) k clear)
        × (result.free_list ≡ (if prev == 0 then after else b.free_list))
  unfolding result after rest_stores take_block
  whole_bytes h = ground (
    arith,
    whole_lem b a k (k + 8) prev valid lim (omega arith) (omega arith) (omega arith) (ground arith)
        (omega arith) (omega arith),
  )

  stamped : ℕ → Mem → ℕ → Mem
  stamped w m v = stamp (linked m prev v) a w k clear

  -- Every byte but those of the block and of the link is as it was.
  stamped_other :
      (w : ℕ) (m : Mem) (v p : ℕ)
      → ((prev == 0) ≡ true) ⊎ Apart (prev + 4) 4 p
      → Apart a (8 + k) p
      → stamped w m v p ≡ m p
  unfolding stamped
  stamped_other w m v p out free =
      stamp_other (linked m prev v) a w k clear p free ∙ linked_other m prev v lo before p out

  stamped_word : (w : ℕ) (m : Mem) (v : ℕ) → w < 2 ^ 64 → load64 (stamped w m v) a ≡ w
  unfolding stamped
  stamped_word w m v h = stamp_word (linked m prev v) a w k clear h

  stamped_zero :
      (w : ℕ) (m : Mem) (v p : ℕ) → clear ≡ true → a + 8 ≤ p → p < a + 8 + k → stamped w m v p ≡ 0
  unfolding stamped
  stamped_zero w m v p c lo' hi = stamp_zero (linked m prev v) a w k clear p c lo' hi

  -- What lies behind the block is read as before.
  load32-stamped :
      (w : ℕ) (m : Mem) (v x : ℕ) → a + (8 + k) ≤ x → load32 (stamped w m v) x ≡ load32 m x
  unfolding stamped
  load32-stamped w m v x h =
      load32-stamp (linked m prev v) a w k clear x (inr (omega arith))
      ∙ load32-linked m prev v lo before x (omega arith)

  link-stamped :
      (b' : Buffer) (w : ℕ) (m : Mem) (v : ℕ)
      → v < 2 ^ 32
      → b'.bytes ≡ stamped w m v
      → b'.free_list ≡ (if prev == 0 then v else b.free_list)
      → link b' prev ≡ v
  unfolding stamped link
  link-stamped b' w m v h e f = ground (
    arith,
    load32-stamp (linked m prev v) a w k clear (prev + 4),
    load32-linked_self m prev v lo before,
    ap (λ (t : Mem). load32 t (prev + 4)) e,
  )

  -- The free list changes at its head alone.
  kept_head :
      (v : ℕ)
      → result.free_list ≡ (if prev == 0 then v else b.free_list)
      → (prev == 0) ≡ false
      → result.free_list ≡ b.free_list
  kept_head v e h = ground arith

  result-SameHeader : SameHeader b result
  unfolding result take_block
  result-SameHeader =
      let s = take_start-SameHeader b a k ((k + 8) % 2 ^ 32) prev in
      record {
        magic = s.magic;
        message = s.message;
        full_size = s.full_size;
        metadata = s.metadata;
        bitmaps = s.bitmaps;
      }

  tail-IsChain :
      (m' : Mem)
      → ((x : ℕ) → a + n ≤ x → x < b.full_size → m' x ≡ b.bytes x)
      → IsChain m' b.full_size (a + n) after bs
  unfolding after
  tail-IsChain m' same = IsChain-same b.bytes m' b.full_size (a + n) _ bs same (chain.5)

  rest_stores_other : (p : ℕ) → Apart (a + (k + 8)) 8 p → rest_stores p ≡ b.bytes p
  unfolding rest_stores
  rest_stores_other p h = ground (
    arith,
    store32_other (store32 b.bytes (a + (k + 8)) (n - (k + 8))) (a + (k + 8) + 4) after p,
    store32_other b.bytes (a + (k + 8)) (n - (k + 8)) p,
  )

  after-lt : after < 2 ^ 32
  unfolding after
  after-lt = head_lt b.bytes b.full_size (a + n) _ bs lim (chain.5)

  rest_words :
      (load32 rest_stores (a + (k + 8)) ≡ n - (k + 8))
      × (load32 rest_stores (a + (k + 8) + 4) ≡ after)
  unfolding rest_stores
  rest_words = ground (
    arith,
    after-lt,
    load32-store32_apart (store32 b.bytes (a + (k + 8)) (n - (k + 8))) (a + (k + 8) + 4) after
        (a + (k + 8)),
    load32-store32_self b.bytes (a + (k + 8)) (n - (k + 8)) (omega arith),
    load32-store32_self (store32 b.bytes (a + (k + 8)) (n - (k + 8))) (a + (k + 8) + 4) after
        after-lt,
  )

  split-frame :
      8 ≤ n - (k + 8)
      → (p : ℕ) → ((prev == 0) ≡ true) ⊎ Apart (prev + 4) 4 p
      → Apart a n p
      → result.bytes p ≡ b.bytes p
  split-frame h p out free =
      let e : result.bytes ≡ stamped k rest_stores (a + (k + 8)) =
        unfold stamped in (split_bytes h).0 in
      rw e (
        stamped_other k rest_stores (a + (k + 8)) p out (ground arith)
        ∙ rest_stores_other p (ground arith))

  split-Taken :
      8 ≤ n - (k + 8)
      → Taken b result prev lo k clear ((a, n) ∷ bs) ((a + (k + 8), n - (k + 8)) ∷ bs) a (k + 8)
  split-Taken h =
      let e : result.bytes ≡ stamped k rest_stores (a + (k + 8)) =
        unfold stamped in (split_bytes h).0 in
      let at = load32-stamped k rest_stores (a + (k + 8)) in
      let w = at (a + (k + 8)) (omega arith) in
      let l' : load32 result.bytes (a + (k + 8) + 4) ≡ after =
        rw e (at (a + (k + 8) + 4) (omega arith) ∙ rest_words.1) in
      let end : a + (k + 8) + (n - (k + 8)) ≡ a + n = omega arith in
      record {
        chain = (
          link-stamped result k rest_stores (a + (k + 8)) (omega arith) e (split_bytes h).1,
          omega arith,
          h,
          omega arith,
          rw e (w ∙ rest_words.0),
          rw (l', end)
              (tail-IsChain result.bytes
                λ x lo' hi. split-frame h x (ground arith) (inr (omega arith))),
        );
        head = kept_head (a + (k + 8)) (split_bytes h).1;
        frame = λ p out free. split-frame h p out free.0;
        word = rw e (stamped_word k rest_stores (a + (k + 8)) (omega arith) ∙ omega arith);
        zero = λ c p lo' hi. rw e (stamped_zero k rest_stores (a + (k + 8)) p c lo' hi);
        same = result-SameHeader;
      }

  whole-Taken : n < k + 16 → Taken b result prev lo k clear ((a, n) ∷ bs) bs a n
  whole-Taken h =
      let e : result.bytes ≡ stamped (n - 8) b.bytes after = unfold stamped in (whole_bytes h).0 in
      let other : (p : ℕ)
          → ((prev == 0) ≡ true) ⊎ Apart (prev + 4) 4 p
          → Apart a n p
          → result.bytes p ≡ b.bytes p =
        λ p out free. rw e (stamped_other (n - 8) b.bytes after p out (ground arith)) in
      record {
        chain = rw (link-stamped result (n - 8) b.bytes after after-lt e (whole_bytes h).1) (
            IsChain-lower result.bytes b.full_size (a + n) lo after bs (omega arith)
              (tail-IsChain result.bytes λ x lo' hi. other x (ground arith) (inr (omega arith))));
        head = kept_head after (whole_bytes h).1;
        frame = λ p out free. other p out free.0;
        word = rw e (stamped_word (n - 8) b.bytes after (omega arith));
        zero = λ c p lo' hi. rw e (stamped_zero (n - 8) b.bytes after p c lo' hi);
        same = result-SameHeader;
      }

  -- Taking the block at the head of a chain is first fit on the chain.
  pub take_block-Taken :
      (bs' : Blocks) (a' n' : ℕ)
      → carve (k + 8) ((a, n) ∷ bs) ≡ some ((a', n'), bs')
      → Taken b (take_block b k (k + 8) prev a clear).0 prev lo k clear ((a, n) ∷ bs) bs' a' n'
  unfolding carve result
  take_block-Taken bs' a' n' h = elim (Bool-cases (leb 8 (n - (k + 8)))) [
    | inl room ↦
        let e : carve (k + 8) ((a, n) ∷ bs) ≡ some ((a, k + 8), (a + (k + 8), n - (k + 8)) ∷ bs) =
          ground arith in
        subst P (some_eq (sym e ∙ h)) (split-Taken (omega (arith, leb→le)))
    | inr tight ↦
        let e : carve (k + 8) ((a, n) ∷ bs) ≡ some ((a, n), bs) = ground arith in
        subst P (some_eq (sym e ∙ h)) (whole-Taken (ground arith))
  ]
    where
      P : (ℕ × ℕ) × Blocks → Type 0
      P r = Taken b result prev lo k clear ((a, n) ∷ bs) r.1 r.0.0 r.0.1
