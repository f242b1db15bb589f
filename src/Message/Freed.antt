-- ===== src/Message/Freed.antt =====
-- The buffer after everything allocated since the mark was freed (phaser/runtime/message.h).
use phaser.Prelude.{ℕ, ◌+◌, ◌-◌, ◌*◌, ◌%◌, ◌^◌, ◌≤◌, ◌<◌, ◌≡◌, ◌≢◌, ◌⊎◌, inl, inr, arith}
use phaser.Prelude.{◌==◌, ◌∙◌, sym, refl, Bool, true, false, List, [], ◌∷◌, map, ◌||◌}
use mathlib.Core.Path.{subst}
use phaser.Memory.{Mem, store32}
use phaser.Memory.Words.{store32_other, load32-store32_self, load32-store32_apart}
use phaser.Payload.{
  Buffer, bit, clear_bit, plain_magic, allocation_failed_bit, is_valid_magic, allocation_failed,
  clear_allocation_failed,
}
use phaser.Payload.Chain.{IsFree}
use phaser.Message.{Runtime, reset_mark}
use phaser.Message.Metadata.{get_runtime_control, count_of, capacity_of}
use phaser.Message.Reset.{
  all_zero, keep_entries, is_unfit, reaches_past, free_from, free_since_mark,
}
use phaser.Message.Emptied.{entries, entries-same, below, keep_entries-Kept}

clear_failed : (w : ℕ) → plain_magic (clear_bit allocation_failed_bit w) ≡ plain_magic w
clear_failed w = omega arith

failed_cleared : (w : ℕ) → bit allocation_failed_bit (clear_bit allocation_failed_bit w) ≡ 0
failed_cleared w = omega arith

all_zero-map : (xs : List ℕ) → all_zero (map (λ head. 0) xs) ≡ true
all_zero-map [] = refl
all_zero-map (x ∷ xs) = all_zero-map xs

free_from-IsFree :
    (b : Buffer) (mark : ℕ)
    → is_valid_magic b ≡ true
    → b.full_size < 2 ^ 32
    → 40 ≤ mark
    → mark + 8 ≤ b.full_size
    → IsFree (free_from b mark) ((mark, b.full_size - mark) ∷ [])
unfolding free_from clear_allocation_failed is_valid_magic
free_from-IsFree b mark valid size low fit =
    let n : (b.full_size + 2 ^ 32 - mark) % 2 ^ 32 ≡ b.full_size - mark = omega arith in
    record {
      magic =
          subst (λ w. (w == 0x8448_5000 || w == 0x8648_5000) ≡ true) (sym (clear_failed (b.magic)))
            valid;
      size = size;
      chain = (
        refl,
        low,
        omega arith,
        omega arith,
        load32-store32_apart _ (mark + 4) 0 mark (inl (omega arith))
            ∙ load32-store32_self _ mark _ (omega arith)
            ∙ n,
        load32-store32_self _ (mark + 4) 0 (omega arith),
      );
    }

free_from_sound :
    (b : Buffer) (mark : ℕ)
    → (allocation_failed (free_from b mark) ≡ false) × (all_zero (free_from b mark).bitmaps ≡ true)
unfolding free_from clear_allocation_failed allocation_failed
free_from_sound b mark = (ground (arith, failed_cleared (b.magic)), all_zero-map (b.bitmaps))

module _ (r : Runtime) where
  abbrev pub mark : ℕ
  mark = reset_mark r

  abbrev pub control : ℕ
  control = get_runtime_control r

  abbrev loop : Mem × ℕ
  loop = keep_entries r.pb.bytes control mark (count_of r.pb.bytes control) 0 0

  abbrev recounted : Buffer
  recounted = record r.pb { bytes = store32 loop.0 (control + 12) loop.1 }

  -- The ways in which FreeSinceMark ends.
  abbrev Ends : Bool × Runtime → Type 0
  Ends (false, q) = q ≡ r
  Ends (true, q) =
      (is_unfit r.pb mark ≡ false)
      × (((control ≡ 0) × (q.pb ≡ free_from r.pb mark))
          ⊎ ((control ≢ 0)
              × (reaches_past r.pb mark control ≡ false)
              × (q.pb ≡ free_from recounted mark)))

  unfit : is_unfit r.pb mark ≡ true → free_since_mark r ≡ (false, r)
  unfolding free_since_mark
  unfit u = ground arith

  bare :
      is_unfit r.pb mark ≡ false
      → control ≡ 0
      → free_since_mark r ≡ (true, record r { pb = free_from r.pb mark })
  unfolding free_since_mark
  bare u e = ground arith

  past :
      is_unfit r.pb mark ≡ false
      → control ≢ 0
      → reaches_past r.pb mark control ≡ true
      → free_since_mark r ≡ (false, r)
  unfolding free_since_mark
  past u ne h = ground arith

  freed :
      is_unfit r.pb mark ≡ false
      → control ≢ 0
      → reaches_past r.pb mark control ≡ false
      → free_since_mark r ≡ (true, record r { pb = free_from recounted mark })
  unfolding free_since_mark
  freed u ne h = ground arith

  free_since_mark-Ends : Ends (free_since_mark r)
  free_since_mark-Ends = elim cases [
    | inl u ↦ subst Ends (sym (unfit u)) refl
    | inr (u, inl e) ↦ subst Ends (sym (bare u e)) (u, inl (e, refl))
    | inr (u, inr (ne, inl h)) ↦ subst Ends (sym (past u ne h)) refl
    | inr (u, inr (ne, inr h)) ↦ subst Ends (sym (freed u ne h)) (u, inr (ne, h, refl))
  ]
    where
      cases :
          (is_unfit r.pb mark ≡ true)
          ⊎ ((is_unfit r.pb mark ≡ false)
              × ((control ≡ 0)
                  ⊎ ((control ≢ 0)
                      × ((reaches_past r.pb mark control ≡ true)
                          ⊎ (reaches_past r.pb mark control ≡ false)))))
      cases = ground arith

  -- A buffer with one free block from the mark on, no failed allocation and no free small blocks.
  abbrev pub IsEmptied : Buffer → Type 0
  IsEmptied b =
      IsFree b ((mark, r.pb.full_size - mark) ∷ [])
      × (allocation_failed b ≡ false)
      × (all_zero b.bitmaps ≡ true)

  fits :
      is_unfit r.pb mark ≡ false
      → 40 ≤ r.pb.full_size
      → r.pb.full_size < 2 ^ 32
      → mark + 8 ≤ r.pb.full_size
  unfolding is_unfit
  fits u large size = ground arith

  -- Where FreeSinceMark says that it freed everything since the mark, in a valid buffer of at
  -- least 40 and fewer than 2 ^ 32 bytes with the mark behind its header, all from the mark to the
  -- end of the buffer is one free block, a failed allocation is undone and no small block is left
  -- on a list. Where it does not, it changed nothing.
  pub free_since_mark-IsEmptied :
      is_valid_magic r.pb ≡ true
      → 40 ≤ r.pb.full_size
      → r.pb.full_size < 2 ^ 32
      → 40 ≤ mark
      → ((free_since_mark r).0 ≡ true → IsEmptied (free_since_mark r).1.pb)
        × ((free_since_mark r).0 ≡ false → (free_since_mark r).1 ≡ r)
  unfolding is_valid_magic
  free_since_mark-IsEmptied valid large size low = result (free_since_mark r) free_since_mark-Ends
    where
      emptied :
          (b : Buffer)
          → is_valid_magic b ≡ true
          → b.full_size ≡ r.pb.full_size
          → is_unfit r.pb mark ≡ false
          → IsEmptied (free_from b mark)
      emptied b ok e u = (
        subst (λ n. IsFree (free_from b mark) ((mark, n - mark) ∷ [])) e
            (free_from-IsFree b mark ok (rw e size) low (rw e (fits u large size))),
        (free_from_sound b mark).0,
        (free_from_sound b mark).1,
      )

      result :
          (x : Bool × Runtime) → Ends x → (x.0 ≡ true → IsEmptied x.1.pb) × (x.0 ≡ false → x.1 ≡ r)
      result (false, q) e = (λ t. absurd (ground (arith, t)), λ f. e)
      result (true, q) (u, inl (e, at)) = (
        λ t. subst IsEmptied (sym at) (emptied (r.pb) valid refl u),
        λ f. absurd (ground (arith, f)),
      )
      result (true, q) (u, inr (ne, h, at)) = (
        λ t. subst IsEmptied (sym at) (emptied recounted valid refl u),
        λ f. absurd (ground (arith, f)),
      )

  -- The words of the control block once the entries were recounted and the free block written.
  freed_words :
      (n : ℕ)
      → loop.1 ≡ n
      → n < 2 ^ 32
      → control + 24 + n * 16 ≤ mark
      → (count_of (free_from recounted mark).bytes control ≡ n)
        × (entries (free_from recounted mark).bytes control n 0 ≡ entries loop.0 control n 0)
  unfolding free_from clear_allocation_failed
  freed_words n e small room = (
    load32-store32_apart _ (mark + 4) 0 (control + 12) (inl (omega arith))
        ∙ load32-store32_apart _ mark _ (control + 12) (inl (omega arith))
        ∙ load32-store32_self loop.0 (control + 12) loop.1 (omega arith)
        ∙ e,
    entries-same loop.0 (free_from recounted mark).bytes control n 0 (λ p lo hi.
        store32_other _ (mark + 4) 0 p (inl (omega arith))
        ∙ store32_other _ mark _ p (inl (omega arith))
        ∙ store32_other loop.0 (control + 12) loop.1 p (inr (omega arith))),
  )

  control_here : r.is_mutable ≡ true → control ≢ 0 → control ≡ r.pb.metadata
  unfolding get_runtime_control
  control_here m ne = ground arith

  room_below :
      reaches_past r.pb mark control ≡ false
      → r.pb.metadata + 24 + capacity_of r.pb.bytes control * 16 ≤ mark
  unfolding reaches_past
  room_below h = ground arith

  -- Where FreeSinceMark freed everything since the mark in a mutable buffer, of at least 40 and
  -- fewer than 2 ^ 32 bytes, with a control block whose count is within its capacity, the control
  -- block has exactly the entries whose metadata lies below the mark, in their order.
  pub free_since_mark-below :
      r.is_mutable ≡ true
      → control ≢ 0
      → count_of r.pb.bytes control ≤ capacity_of r.pb.bytes control
      → r.pb.full_size < 2 ^ 32
      → 40 ≤ r.pb.full_size
      → (free_since_mark r).0 ≡ true
      → entries
          (free_since_mark r).1.pb.bytes
          control
          (count_of (free_since_mark r).1.pb.bytes control)
          0
        ≡ below mark (entries r.pb.bytes control (count_of r.pb.bytes control) 0)
  free_since_mark-below mutable ne full size large done =
      result (free_since_mark r) free_since_mark-Ends done
    where
      result :
          (x : Bool × Runtime)
          → Ends x
          → x.0 ≡ true
          → entries x.1.pb.bytes control (count_of x.1.pb.bytes control) 0
            ≡ below mark (entries r.pb.bytes control (count_of r.pb.bytes control) 0)
      result (false, q) e t = absurd (ground (arith, t))
      result (true, q) (u, inl (e, at)) t = absurd (ne e)
      result (true, q) (u, inr (ne', h, at)) t =
          let (list, few, same) =
            keep_entries-Kept (r.pb.bytes) control mark (count_of r.pb.bytes control) 0 0
              (omega arith) in
          let here = control_here mutable ne in
          let room = room_below h in
          let inside = fits u large size in
          let (count, words) = freed_words loop.1 refl (omega arith) (omega arith) in
          subst
            (λ b.
              entries b.bytes control (count_of b.bytes control) 0
              ≡ below mark (entries r.pb.bytes control (count_of r.pb.bytes control) 0))
            (sym at)
            ((λ j. entries (free_from recounted mark).bytes control (count j) 0) ∙ words ∙ list)
