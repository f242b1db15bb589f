-- ===== src/Payload/Stamp.antt =====
-- What writing the size word of a block and clearing it leaves behind.
use phaser.Prelude.{ℕ, ◌+◌, ◌^◌, ◌≤◌, ◌<◌, ◌≡◌, ◌⊎◌, inl, Bool, true, false, arith, ◌∙◌}
use phaser.Memory.{Mem, load32, load64, store64}
use phaser.Memory.Words.{Apart, load32-Same}
use phaser.Memory.Moves.{store64_other, load64-store64_self, fill_other, fill_at, load64-fill_apart}
use phaser.Payload.Alloc.{stamp}

module _ (m : Mem) (a w k : ℕ) where
  pub stamp_other : (clear : Bool) (p : ℕ) → Apart a (8 + k) p → stamp m a w k clear p ≡ m p
  unfolding stamp
  stamp_other true p h =
      fill_other (store64 m a w) (a + 8) 0 k p (ground arith) ∙ store64_other m a w p (ground arith)
  stamp_other false p h = store64_other m a w p (ground arith)

  pub stamp_word : (clear : Bool) → w < 2 ^ 64 → load64 (stamp m a w k clear) a ≡ w
  unfolding stamp
  stamp_word true h =
      load64-fill_apart (store64 m a w) (a + 8) 0 k a (inl (omega arith))
      ∙ load64-store64_self m a w h
  stamp_word false h = load64-store64_self m a w h

  pub stamp_zero :
      (clear : Bool) (p : ℕ) → clear ≡ true → a + 8 ≤ p → p < a + 8 + k → stamp m a w k clear p ≡ 0
  unfolding stamp
  stamp_zero true p c lo hi = fill_at (store64 m a w) (a + 8) 0 k p lo hi
  stamp_zero false p c lo hi = cc

  pub load32-stamp :
      (clear : Bool) (b : ℕ)
      → (b + 4 ≤ a) ⊎ (a + 8 + k ≤ b)
      → load32 (stamp m a w k clear) b ≡ load32 m b
  load32-stamp clear b h =
      load32-Same m (stamp m a w k clear) b λ p lo hi. stamp_other clear p (ground arith)
