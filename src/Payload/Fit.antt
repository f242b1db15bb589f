-- ===== src/Payload/Fit.antt =====
-- The walk of AllocateSlow along the free list is first fit on the list of blocks.
use phaser.Prelude.{
  ℕ, zero, suc, ◌+◌, ◌^◌, ◌≤◌, ◌<◌, ◌≡◌, refl, ◌⊎◌, inl, inr, Bool, true, false, arith, ◌∙◌, ap,
}
use phaser.Prelude.{
  ◌==◌, [], ◌∷◌, leb, some, none, Bool-cases, Option-cases, length, leb→le, some_eq, sym, Option,
}
use mathlib.Core.Path.{subst}
use phaser.Memory.{load32}
use phaser.Memory.Words.{load32-Same}
use phaser.Payload.{Buffer, is_valid_magic, link, next_block}
use phaser.Payload.Alloc.{Search, found, exhausted, find_fit, take_block}
use phaser.Payload.Carve.{carve}
use phaser.Payload.Chain.{Blocks, IsChain, below-Outside, to_address-chain}
use phaser.Payload.Taken.{Taken, take_block-Taken}

module _ (b : Buffer) (valid : is_valid_magic b ≡ true) (lim : b.full_size < 2 ^ 32) where
  pub next_block-chain :
      (lo a : ℕ) (bs : Blocks)
      → 0 < lo
      → IsChain b.bytes b.full_size lo (load32 b.bytes (a + 4)) bs
      → next_block b a ≡ load32 b.bytes (a + 4)
  unfolding next_block
  next_block-chain lo a bs pos c = to_address-chain b lo _ bs valid pos c

  module _ (k : ℕ) (clear : Bool) where
    -- A block in front of the chain sees what was taken further down.
    Taken-cons :
        (prev lo a n : ℕ) (bs bs' : Blocks) (b' : Buffer) (a' n' : ℕ)
        → 0 < lo
        → ((prev == 0) ≡ true) ⊎ (prev + 8 ≤ lo)
        → link b prev ≡ a
        → IsChain b.bytes b.full_size lo a ((a, n) ∷ bs)
        → Taken b b' a (a + n) k clear bs bs' a' n'
        → Taken b b' prev lo k clear ((a, n) ∷ bs) ((a, n) ∷ bs') a' n'
    unfolding link
    Taken-cons prev lo a n bs bs' b' a' n' pos before linked (e, l, j, f, w, c) t = record {
      chain = (
        same_link,
        l,
        j,
        f,
        load32-Same b.bytes b'.bytes a (λ p x y. front p (omega arith)) ∙ w,
        rest,
      );
      head = λ h. t.head (ground arith);
      frame = λ p out free. t.frame p (inr (ground arith)) free.1;
      word = t.word;
      zero = t.zero;
      same = t.same;
    }
      where
        front : (p : ℕ) → p < a + 4 → b'.bytes p ≡ b.bytes p
        front p h =
            t.frame p (inr (inl h))
              (below-Outside b.bytes b.full_size (a + n) p _ bs c (omega arith))

        same_link : link b' prev ≡ a
        same_link = elim before [
          | inl e ↦ ground (arith, linked, t.head (ground arith))
          | inr h ↦ ground (
            arith,
            linked,
            t.head (ground arith),
            load32-Same b.bytes b'.bytes (prev + 4) (λ p x y. front p (omega arith)),
          )
        ]

        own : link b' a ≡ load32 b'.bytes (a + 4)
        own = ground arith

        rest : IsChain b'.bytes b.full_size (a + n) (load32 b'.bytes (a + 4)) bs'
        rest = rw own at (t.chain)

    find_fit_fits :
        (fuel prev cur : ℕ)
        → 0 < cur
        → k + 8 ≤ load32 b.bytes cur
        → find_fit b (k + 8) (suc fuel) prev cur ≡ some (found prev cur)
    unfolding find_fit
    find_fit_fits fuel prev cur pos h = ground arith

    find_fit_next :
        (fuel prev cur : ℕ)
        → 0 < cur
        → load32 b.bytes cur < k + 8
        → find_fit b (k + 8) (suc fuel) prev cur ≡ find_fit b (k + 8) fuel cur (next_block b cur)
    unfolding find_fit
    find_fit_next fuel prev cur pos h = ground arith

    -- A block that is too small is passed over.
    find_fit_skip :
        (fuel prev lo cur a n : ℕ) (bs : Blocks) {r : Option Search}
        → 0 < lo
        → IsChain b.bytes b.full_size lo cur ((a, n) ∷ bs)
        → leb (k + 8) n ≡ false
        → find_fit b (k + 8) fuel a (load32 b.bytes (a + 4)) ≡ r
        → find_fit b (k + 8) (suc fuel) prev cur ≡ r
    find_fit_skip fuel prev lo cur a n bs pos c tight walk =
        let at : cur ≡ a = c.0 in
        rw at (
          find_fit_next fuel prev a (omega arith) (ground arith)
          ∙ rw (next_block-chain (a + n) a bs (omega arith) (c.5)) walk)

    abbrev Finds : ℕ → ℕ → ℕ → ℕ → Blocks → Blocks → ℕ → ℕ → Type 0
    Finds fuel prev lo cur bs bs' a' n' =
        (pr : ℕ) × (pa : ℕ) × (pa ≡ a')
        × (find_fit b (k + 8) fuel prev cur ≡ some (found pr pa))
        × Taken b (take_block b k (k + 8) pr pa clear).0 prev lo k clear bs bs' a' n'

    -- First fit behind a block that is too small.
    abbrev onward : ℕ → ℕ → Option ((ℕ × ℕ) × Blocks) → Option ((ℕ × ℕ) × Blocks)
    onward a n none = none
    onward a n (some (taken, rest)) = some (taken, (a, n) ∷ rest)

    onward-none : (a n : ℕ) (o : Option ((ℕ × ℕ) × Blocks)) → onward a n o ≡ none → o ≡ none
    onward-none a n none h = refl
    onward-none a n (some x) h = cc

    carve_next :
        (a n : ℕ) (bs : Blocks)
        → leb (k + 8) n ≡ false
        → carve (k + 8) ((a, n) ∷ bs) ≡ onward a n (carve (k + 8) bs)
    unfolding carve
    carve_next a n bs h = ground arith

    link_self : (a : ℕ) → 0 < a → link b a ≡ load32 b.bytes (a + 4)
    unfolding link
    link_self a h = ground arith

    step :
        (fuel prev lo cur a n : ℕ) (bs rest : Blocks) (a' n' : ℕ)
        → 0 < lo
        → ((prev == 0) ≡ true) ⊎ (prev + 8 ≤ lo)
        → link b prev ≡ cur
        → IsChain b.bytes b.full_size lo cur ((a, n) ∷ bs)
        → leb (k + 8) n ≡ false
        → Finds fuel a (a + n) (load32 b.bytes (a + 4)) bs rest a' n'
        → Finds (suc fuel) prev lo cur ((a, n) ∷ bs) ((a, n) ∷ rest) a' n'
    step fuel prev lo cur a n bs rest a' n' pos before linked c tight (pr, pa, same, walk, taken) =
        let at : cur ≡ a = c.0 in
        (
          pr,
          pa,
          same,
          find_fit_skip fuel prev lo cur a n bs pos c tight walk,
          Taken-cons prev lo a n bs rest _ a' n' pos before (linked ∙ at) (rw at at c) taken,
        )

    -- Where first fit finds a block, the walk finds it, and taking it does what first fit says.
    pub find_fit-found :
        (fuel prev lo cur : ℕ) (bs bs' : Blocks) (a' n' : ℕ)
        → 0 < lo
        → ((prev == 0) ≡ true) ⊎ (prev + 8 ≤ lo)
        → link b prev ≡ cur
        → IsChain b.bytes b.full_size lo cur bs
        → length bs < fuel
        → carve (k + 8) bs ≡ some ((a', n'), bs')
        → Finds fuel prev lo cur bs bs' a' n'
    find_fit-found zero prev lo cur bs bs' a' n' pos before linked c fuel e = absurd (omega arith)
    find_fit-found (suc fuel) prev lo cur [] bs' a' n' pos before linked c h e = unfold carve in cc
    find_fit-found (suc fuel) prev lo cur ((a, n) ∷ bs) bs' a' n' pos before linked c h e =
        elim (Bool-cases (leb (k + 8) n)) [
          | inl fits ↦
              let at : cur ≡ a = c.0 in
              (
                prev,
                a,
                unfold carve in ground arith,
                rw at (find_fit_fits fuel prev a (omega arith) (omega (arith, leb→le, c.4))),
                take_block-Taken b a n k prev lo clear bs valid lim pos before
                    (omega (arith, leb→le)) (rw at at c) bs' a' n' e,
              )
          | inr tight ↦ elim (Option-cases (carve (k + 8) bs)) [
            | inl ended ↦ unfold carve in cc (carve_next a n bs tight, ended)
            | inr ((taken, rest), er) ↦
                subst (λ r. Finds (suc fuel) prev lo cur ((a, n) ∷ bs) r.1 r.0.0 r.0.1)
                  (some_eq (sym (carve_next a n bs tight ∙ ap (onward a n) er) ∙ e))
                  (step fuel prev lo cur a n bs rest taken.0 taken.1 pos before linked c tight (
                    find_fit-found fuel a (a + n) (load32 b.bytes (a + 4)) bs rest taken.0 taken.1
                      (omega arith) (inr (omega arith)) (link_self a (omega arith)) (c.5)
                      (omega arith) er))
          ]
        ]

    -- Where first fit finds none, the walk ends at the end of the list.
    pub find_fit-exhausted :
        (fuel prev lo cur : ℕ) (bs : Blocks)
        → 0 < lo
        → IsChain b.bytes b.full_size lo cur bs
        → length bs < fuel
        → carve (k + 8) bs ≡ none
        → (last : ℕ) × (find_fit b (k + 8) fuel prev cur ≡ some (exhausted last))
    find_fit-exhausted zero prev lo cur bs pos c h e = absurd (omega arith)
    find_fit-exhausted (suc fuel) prev lo cur [] pos c h e = (prev, unfold find_fit in ground arith)
    find_fit-exhausted (suc fuel) prev lo cur ((a, n) ∷ bs) pos c h e =
        elim (Bool-cases (leb (k + 8) n)) [
          | inl fits ↦ unfold carve in absurd (ground arith)
          | inr tight ↦
              let (last, walk) =
                find_fit-exhausted fuel a (a + n) (load32 b.bytes (a + 4)) bs (omega arith) (c.5)
                  (omega arith)
                  (onward-none a n (carve (k + 8) bs) (sym (carve_next a n bs tight) ∙ e)) in
              (last, find_fit_skip fuel prev lo cur a n bs pos c tight walk)
        ]
