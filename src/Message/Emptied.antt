-- ===== src/Message/Emptied.antt =====
-- What freeing everything past the mark leaves (phaser/runtime/message.h): one free block, and the
-- metadata that lies below the mark.
use phaser.Prelude.{ℕ, zero, suc, ◌+◌, ◌*◌, ◌^◌, ◌≤◌, ◌<◌, ◌≡◌, ◌⊎◌, inl, inr, arith}
use phaser.Prelude.{ltb, if◌then◌else◌, ◌∙◌, ap, sym, refl}
use phaser.Prelude.{List, [], ◌∷◌, ◌++◌}
use mathlib.Core.Path.{subst}
use phaser.Memory.{Mem, load32, load64, copy}
use phaser.Memory.Words.{load32-Same}
use phaser.Memory.Moves.{copy_other, copy_at}
use phaser.Message.Metadata.{entry_at, entry_key, entry_data}
use phaser.Message.Reset.{keep_entries}

abbrev pub entries : Mem → ℕ → ℕ → ℕ → List (ℕ × ℕ)
entries m control zero i = []
entries m control (suc n) i =
    (entry_key m control i, entry_data m control i) ∷ entries m control n (i + 1)

-- The entries whose metadata lies below the mark.
abbrev pub below : ℕ → List (ℕ × ℕ) → List (ℕ × ℕ)
below mark [] = []
below mark ((key, offset) ∷ es) =
    let rest = below mark es in if ltb offset mark then (key, offset) ∷ rest else rest

pub entries-same :
    (m m' : Mem) (control n i : ℕ)
    → ((p : ℕ) → entry_at control i ≤ p → p < entry_at control (i + n) → m' p ≡ m p)
    → entries m' control n i ≡ entries m control n i
unfolding load64
entries-same m m' control zero i same = refl
entries-same m m' control (suc n) i same =
    let here = same in
    let word : (d : ℕ)
        → d ≤ 12
        → load32 m' (entry_at control i + d) ≡ load32 m (entry_at control i + d) =
      λ d h.
        load32-Same m m' (entry_at control i + d) (λ p x y. same p (omega arith) (omega arith)) in
    let w0 : load32 m' (entry_at control i) ≡ load32 m (entry_at control i) =
      load32-Same m m' (entry_at control i) (λ p x y. same p (omega arith) (omega arith)) in
    let k : entry_key m' control i ≡ entry_key m control i =
      λ j. w0 j + 2 ^ 32 * word 4 (omega arith) j in
    let rest = entries-same m m' control n (i + 1) (λ p x y. same p (omega arith) (omega arith)) in
    λ j. (k j, word 8 (omega arith) j) ∷ rest j

entries_snoc :
    (m : Mem) (control n i : ℕ)
    → entries m control (suc n) i
      ≡ entries m control n i ++ (entry_key m control (i + n), entry_data m control (i + n)) ∷ []
entries_snoc m control zero i =
    let e : i ≡ i + 0 = omega arith in
    λ j. (entry_key m control (e j), entry_data m control (e j)) ∷ []
entries_snoc m control (suc n) i =
    let e : i + 1 + n ≡ i + suc n = omega arith in
    ap (λ es. (entry_key m control i, entry_data m control i) ∷ es)
      (entries_snoc m control n (i + 1) ∙ (λ j.
        entries m control n (i + 1)
        ++ (entry_key m control (e j), entry_data m control (e j)) ∷ []))

append_assoc : (xs ys zs : List (ℕ × ℕ)) → (xs ++ ys) ++ zs ≡ xs ++ (ys ++ zs)
append_assoc [] ys zs = refl
append_assoc (x ∷ xs) ys zs = ap (λ es. x ∷ es) (append_assoc xs ys zs)

append_nil : (xs : List (ℕ × ℕ)) → xs ++ [] ≡ xs
append_nil [] = refl
append_nil (x ∷ xs) = ap (λ es. x ∷ es) (append_nil xs)

-- A word that was copied is read from its new place.
load32-copy_at :
    (m : Mem) (dst src n d : ℕ)
    → d + 4 ≤ n
    → load32 (copy m dst src n) (dst + d) ≡ load32 m (src + d)
unfolding load32
load32-copy_at m dst src n d h =
    let byte : (k : ℕ) → d + k < n → copy m dst src n (dst + d + k) ≡ m (src + d + k) = λ k lt.
      let e : dst + d + k ≡ dst + (d + k) = omega arith in
      let f : src + (d + k) ≡ src + d + k = omega arith in
      ap (copy m dst src n) e ∙ copy_at m dst src n (d + k) lt ∙ ap m f in
    let b0 = copy_at m dst src n d (omega arith) in
    let b1 = byte 1 (omega arith) in
    let b2 = byte 2 (omega arith) in
    let b3 = byte 3 (omega arith) in λ j. b0 j + 256 * b1 j + 65536 * b2 j + 16777216 * b3 j

module _ (m : Mem) (control mark : ℕ) where
  abbrev moved : ℕ → ℕ → Mem
  moved i kept = copy m (entry_at control kept) (entry_at control i) 16

  moved_entry :
      (i kept : ℕ)
      → (entry_key (moved i kept) control kept ≡ entry_key m control i)
        × (entry_data (moved i kept) control kept ≡ entry_data m control i)
  unfolding load64
  moved_entry i kept =
      let dst = entry_at control kept in
      let src = entry_at control i in
      let e : dst ≡ dst + 0 = omega arith in
      let f : src + 0 ≡ src = omega arith in
      let w0 : load32 (moved i kept) dst ≡ load32 m src =
        ap (load32 (moved i kept)) e
        ∙ load32-copy_at m dst src 16 0 (omega arith)
        ∙ ap (load32 m) f in
      let w4 = load32-copy_at m dst src 16 4 (omega arith) in
      (λ j. w0 j + 2 ^ 32 * w4 j, load32-copy_at m dst src 16 8 (omega arith))

  -- The entries kept so far, with entry `i` moved behind them, and the entries after it.
  moved_kept :
      (i kept : ℕ)
      → kept ≤ i
      → entries (moved i kept) control (kept + 1) 0
        ≡ entries m control kept 0 ++ (entry_key m control i, entry_data m control i) ∷ []
  moved_kept i kept h =
      let (k, d) = moved_entry i kept in
      let same = entries-same m (moved i kept) control kept 0 (λ p lo hi.
        copy_other m (entry_at control kept) (entry_at control i) 16 p (inl (omega arith))) in
      let z : 0 + kept ≡ kept = omega arith in
      let next : kept + 1 ≡ suc kept = omega arith in
      ap (λ n. entries (moved i kept) control n 0) next
      ∙ entries_snoc (moved i kept) control kept 0
      ∙ (λ j.
          entries (moved i kept) control kept 0
          ++ (entry_key (moved i kept) control (z j), entry_data (moved i kept) control (z j)) ∷ [])
      ∙ (λ j. same j ++ (k j, d j) ∷ [])

  moved_later :
      (i kept left : ℕ)
      → kept ≤ i
      → entries (moved i kept) control left (i + 1) ≡ entries m control left (i + 1)
  moved_later i kept left h = entries-same m (moved i kept) control left (i + 1) (λ p lo hi.
      copy_other m (entry_at control kept) (entry_at control i) 16 p (inr (omega arith)))

  keep_taken :
      (left i kept : ℕ)
      → entry_data m control i < mark
      → keep_entries m control mark (suc left) i kept
        ≡ keep_entries (moved i kept) control mark left (i + 1) (kept + 1)
  unfolding keep_entries
  keep_taken left i kept h = ground arith

  keep_dropped :
      (left i kept : ℕ)
      → mark ≤ entry_data m control i
      → keep_entries m control mark (suc left) i kept
        ≡ keep_entries m control mark left (i + 1) kept
  unfolding keep_entries
  keep_dropped left i kept h = ground arith

-- The loop leaves the entries it kept before, and behind them those of the rest that lie below the mark.
abbrev pub Kept : Mem → ℕ → ℕ → ℕ → ℕ → ℕ → Mem × ℕ → Type 0
Kept m control mark left i kept (m', n) =
    (entries m' control n 0 ≡ entries m control kept 0 ++ below mark (entries m control left i))
    × (n ≤ kept + left)
    × ((p : ℕ) → (p < entry_at control 0) ⊎ (entry_at control (i + left) ≤ p) → m' p ≡ m p)

pub keep_entries-Kept :
    (m : Mem) (control mark left i kept : ℕ)
    → kept ≤ i
    → Kept m control mark left i kept (keep_entries m control mark left i kept)
unfolding keep_entries
keep_entries-Kept m control mark zero i kept h =
    (sym (append_nil (entries m control kept 0)), omega arith, λ p out. refl)
keep_entries-Kept m control mark (suc left) i kept h = elim cases [
  | inl lt ↦
      let (list, few, same) =
        keep_entries-Kept (moved m control mark i kept) control mark left (i + 1) (kept + 1)
          (omega arith) in
      subst (Kept m control mark (suc left) i kept) (sym (keep_taken m control mark left i kept lt))
        (
          list
              ∙ (λ j.
                  moved_kept m control mark i kept h j
                  ++ below mark (moved_later m control mark i kept left h j))
              ∙ append_assoc (entries m control kept 0) _ _
              ∙ ap (λ es. entries m control kept 0 ++ es) (sym (below_taken lt)),
          omega arith,
          λ p out.
              same p (outer p out)
              ∙ copy_other m (entry_at control kept) (entry_at control i) 16 p (apart p out),
        )
  | inr le ↦
      let (list, few, same) = keep_entries-Kept m control mark left (i + 1) kept (omega arith) in
      subst (Kept m control mark (suc left) i kept)
        (sym (keep_dropped m control mark left i kept le))
        (
          list ∙ ap (λ es. entries m control kept 0 ++ es) (sym (below_dropped le)),
          omega arith,
          λ p out. same p (outer p out),
        )
]
  where
    cases : (entry_data m control i < mark) ⊎ (mark ≤ entry_data m control i)
    cases = ground arith

    below_taken :
        entry_data m control i < mark
        → below mark (entries m control (suc left) i)
          ≡ (entry_key m control i, entry_data m control i)
            ∷ below mark (entries m control left (i + 1))
    below_taken lt = ground arith

    below_dropped :
        mark ≤ entry_data m control i
        → below mark (entries m control (suc left) i) ≡ below mark (entries m control left (i + 1))
    below_dropped le = ground arith

    outer :
        (p : ℕ)
        → (p < entry_at control 0) ⊎ (entry_at control (i + suc left) ≤ p)
        → (p < entry_at control 0) ⊎ (entry_at control (i + 1 + left) ≤ p)
    outer p out = ground arith

    apart :
        (p : ℕ)
        → (p < entry_at control 0) ⊎ (entry_at control (i + suc left) ≤ p)
        → (p < entry_at control kept) ⊎ (entry_at control kept + 16 ≤ p)
    apart p out = ground arith
