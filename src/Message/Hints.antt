-- ===== src/Message/Hints.antt =====
-- What the two lookups of installed metadata find (phaser/runtime/message.h).
use phaser.Prelude.{
  ℕ, zero, suc, ◌+◌, ◌≤◌, ◌<◌, ◌≡◌, ◌≢◌, refl, ◌⊎◌, inl, inr, Bool, true, false, ◌&&◌, arith,
}
use phaser.Prelude.{ltb, ◌==◌, Option, none, some, ◌∙◌, ap, sym}
use mathlib.Core.Path.{subst}
use phaser.Memory.{Mem}
use phaser.Message.{Runtime}
use phaser.Message.Metadata.{
  get_runtime_control, get_metadata, get_metadata_hint, find_key, count_of, entry_key,
}

-- What the loop finds in the `left` entries from `i` on: the first with the key, or that there is none.
abbrev Finds : Mem → ℕ → ℕ → ℕ → ℕ → Option ℕ → Type 0
Finds m control key left i none = (j : ℕ) → i ≤ j → j < i + left → entry_key m control j ≢ key
Finds m control key left i (some k) =
    (i ≤ k)
    × (k < i + left)
    × (entry_key m control k ≡ key)
    × ((j : ℕ) → i ≤ j → j < k → entry_key m control j ≢ key)

module _ (m : Mem) (control key : ℕ) where
  find_key_here :
      (left i : ℕ) → entry_key m control i ≡ key → find_key m control key (suc left) i ≡ some i
  unfolding find_key
  find_key_here left i e = ground arith

  find_key_later :
      (left i : ℕ)
      → entry_key m control i ≢ key
      → find_key m control key (suc left) i ≡ find_key m control key left (i + 1)
  unfolding find_key
  find_key_later left i e = ground arith

  find_key-none : (i : ℕ) → find_key m control key zero i ≡ none
  unfolding find_key
  find_key-none i = refl

  Finds-later :
      (left i : ℕ) (x : Option ℕ)
      → entry_key m control i ≢ key
      → Finds m control key left (i + 1) x
      → Finds m control key (suc left) i x
  Finds-later left i none ne absent = λ j a b e. elim (split j a) [
    | inl q ↦ ne (subst (λ k. entry_key m control k ≡ key) q e)
    | inr q ↦ absent j q (omega arith) e
  ]
    where
      split : (j : ℕ) → i ≤ j → (j ≡ i) ⊎ (i + 1 ≤ j)
      split j a = ground arith
  Finds-later left i (some k) ne (a, b, e, first) = (
    omega arith,
    omega arith,
    e,
    λ j c d q. elim (split j c) [
      | inl p ↦ ne (subst (λ k. entry_key m control k ≡ key) p q)
      | inr p ↦ first j p d q
    ],
  )
    where
      split : (j : ℕ) → i ≤ j → (j ≡ i) ⊎ (i + 1 ≤ j)
      split j c = ground arith

  find_key-Finds : (left i : ℕ) → Finds m control key left i (find_key m control key left i)
  find_key-Finds zero i =
      subst (Finds m control key 0 i) (sym (find_key-none i)) (λ j a b. absurd (omega arith))
  find_key-Finds (suc left) i = elim (cases i) [
    | inl e ↦
        subst (Finds m control key (suc left) i) (sym (find_key_here left i e))
          (omega arith, omega arith, e, λ j a b. absurd (omega arith))
    | inr ne ↦
        subst (Finds m control key (suc left) i) (sym (find_key_later left i ne))
          (Finds-later left i _ ne (find_key-Finds left (i + 1)))
  ]
    where
      cases : (i : ℕ) → (entry_key m control i ≡ key) ⊎ (entry_key m control i ≢ key)
      cases i = ground arith

-- No two of the control block's entries have the same key.
abbrev pub HasDistinctKeys : Mem → ℕ → Type 0
HasDistinctKeys m control =
    (i j : ℕ)
    → i < count_of m control
    → j < count_of m control
    → entry_key m control i ≡ entry_key m control j
    → i ≡ j

hint_hit :
    (m : Mem) (control key guess : ℕ)
    → HasDistinctKeys m control
    → guess < count_of m control
    → entry_key m control guess ≡ key
    → find_key m control key (count_of m control) 0 ≡ some guess
hint_hit m control key guess distinct inside e =
    at (find_key m control key (count_of m control) 0)
      (find_key-Finds m control key (count_of m control) 0)
  where
    at : (x : Option ℕ) → Finds m control key (count_of m control) 0 x → x ≡ some guess
    at none absent = absurd (absent guess (omega arith) (omega arith) e)
    at (some k) (a, b, f, first) = ap some (distinct k guess (omega arith) inside (f ∙ sym e))

module _ (r : Runtime) (key guess : ℕ) where
  abbrev control : ℕ
  control = get_runtime_control r

  abbrev hit : Bool
  hit = ltb guess (count_of r.pb.bytes control) && entry_key r.pb.bytes control guess == key

  hint_none : control ≡ 0 → (get_metadata_hint r key guess).0 ≡ get_metadata r key
  unfolding get_metadata_hint get_metadata
  hint_none e = ground arith

  hint_guess :
      control ≢ 0
      → hit ≡ true
      → find_key r.pb.bytes control key (count_of r.pb.bytes control) 0 ≡ some guess
      → (get_metadata_hint r key guess).0 ≡ get_metadata r key
  unfolding get_metadata_hint get_metadata
  hint_guess ne h e = ground arith

  hint_search : control ≢ 0 → hit ≡ false → (get_metadata_hint r key guess).0 ≡ get_metadata r key
  unfolding get_metadata_hint get_metadata
  hint_search ne h = ground arith

  -- In a control block whose keys are distinct, GetMetadata with a hint finds the metadata that
  -- GetMetadata without one finds, whatever the hint.
  pub get_metadata_hint-get_metadata :
      HasDistinctKeys (r.pb.bytes) (get_runtime_control r)
      → (get_metadata_hint r key guess).0 ≡ get_metadata r key
  get_metadata_hint-get_metadata distinct = elim cases [
    | inl e ↦ hint_none e
    | inr (ne, inl (lt, e, h)) ↦
        hint_guess ne h (hint_hit (r.pb.bytes) control key guess distinct lt e)
    | inr (ne, inr h) ↦ hint_search ne h
  ]
    where
      cases :
          (control ≡ 0)
          ⊎ ((control ≢ 0)
              × (((guess < count_of r.pb.bytes control)
                    × (entry_key r.pb.bytes control guess ≡ key)
                    × (hit ≡ true))
                  ⊎ (hit ≡ false)))
      cases = ground arith
