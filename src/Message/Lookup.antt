-- ===== src/Message/Lookup.antt =====
-- Looking a field up in its message's table finds the field's entry, or tells that there is none
-- (phaser/runtime/message.h).
use phaser.Prelude.{
  ℕ, zero, suc, ◌+◌, ◌-◌, ◌*◌, ◌/◌, ◌%◌, ◌^◌, ◌≤◌, ◌<◌, ◌≡◌, ◌≢◌, refl, sym, ◌⊎◌, inl, inr, arith,
}
use mathlib.Core.Path.{subst}
use phaser.Memory.{Mem, load32}
use phaser.Message.FieldTable.{
  Location, located, missing, stuck, location_of, entry_number, entry_location, search_entries,
  find_legacy_field, find_hybrid_field, dense_base, dense_span, sparse_count, dense_fields,
  sparse_fields,
}

-- What a lookup of `number` among the entries from `lo` up to `hi` has to return: the place in an
-- entry with that number, or `missing` where no entry has it.
abbrev pub Locates : Mem → ℕ → ℕ → ℕ → ℕ → Location → Type 0
Locates m entries lo hi number (located offset id) =
    (k : ℕ) × (lo ≤ k)
    × (k < hi)
    × (entry_number m entries k ≡ number)
    × (entry_location m entries k ≡ located offset id)
Locates m entries lo hi number missing =
    (k : ℕ) → lo ≤ k → k < hi → entry_number m entries k ≢ number
Locates m entries lo hi number stuck = ⊥

-- The entries are in ascending order of their numbers, with no number twice.
abbrev pub IsAscending : Mem → ℕ → ℕ → Type 0
IsAscending m entries count =
    (i j : ℕ) → i < j → j < count → entry_number m entries i < entry_number m entries j

module _ (m : Mem) (entries number : ℕ) where
  Locates-wider :
      (lo lo' hi hi' : ℕ) (x : Location)
      → lo ≤ lo'
      → hi' ≤ hi
      → ((k : ℕ) → lo ≤ k → k < hi → (k < lo') ⊎ (hi' ≤ k) → entry_number m entries k ≢ number)
      → Locates m entries lo' hi' number x
      → Locates m entries lo hi number x
  Locates-wider lo lo' hi hi' (located o i) l h out (k, a, b, e, f) =
      (k, omega arith, omega arith, e, f)
  Locates-wider lo lo' hi hi' missing l h out none =
      λ k a b. elim (between k) [ inl (c, d) ↦ none k c d | inr away ↦ out k a b away ]
    where
      between : (k : ℕ) → ((lo' ≤ k) × (k < hi')) ⊎ ((k < lo') ⊎ (hi' ≤ k))
      between k = ground arith
  Locates-wider lo lo' hi hi' stuck l h out none = none

  -- One round of the search.
  module _ (fuel left right : ℕ) where
    abbrev mid : ℕ
    mid = left + (right - left) / 2

    search_empty : right ≤ left → search_entries m entries number (suc fuel) left right ≡ missing
    unfolding search_entries
    search_empty h = ground arith

    search_hit :
        left < right
        → entry_number m entries mid ≡ number
        → search_entries m entries number (suc fuel) left right ≡ entry_location m entries mid
    unfolding search_entries
    search_hit h e = ground arith

    search_upper :
        left < right
        → entry_number m entries mid < number
        → search_entries m entries number (suc fuel) left right
          ≡ search_entries m entries number fuel (mid + 1) right
    unfolding search_entries
    search_upper h lt = ground arith

    search_lower :
        left < right
        → number < entry_number m entries mid
        → search_entries m entries number (suc fuel) left right
          ≡ search_entries m entries number fuel left mid
    unfolding search_entries
    search_lower h lt = ground arith

  module _ (count : ℕ) (ascending : IsAscending m entries count) where
    search_entries-Locates :
        (fuel left right : ℕ)
        → right ≤ count
        → right - left < fuel
        → Locates m entries left right number (search_entries m entries number fuel left right)
    search_entries-Locates zero left right fits h = absurd (omega arith)
    search_entries-Locates (suc fuel) left right fits h =
        let c = left + (right - left) / 2 in
        elim (cases c) [
          | inl empty ↦
              subst (λ x. Locates m entries left right number x)
                (sym (search_empty fuel left right empty)) (λ k a b e. omega arith)
          | inr (inl (room, e)) ↦
              subst (λ x. Locates m entries left right number x)
                (sym (search_hit fuel left right room e)) (c, omega arith, omega arith, e, refl)
          | inr (inr (inl (room, lt))) ↦
              subst (λ x. Locates m entries left right number x)
                (sym (search_upper fuel left right room lt))
                (Locates-wider left (c + 1) right right _ (omega arith) (omega arith)
                  (λ k a b out e. ground (arith, ascending k c))
                  (search_entries-Locates fuel (c + 1) right fits (omega arith)))
          | inr (inr (inr (room, lt))) ↦
              subst (λ x. Locates m entries left right number x)
                (sym (search_lower fuel left right room lt))
                (Locates-wider left left right c _ (omega arith) (omega arith)
                  (λ k a b out e. ground (arith, ascending c k))
                  (search_entries-Locates fuel left c (omega arith) (omega arith)))
        ]
      where
        cases :
            (c : ℕ)
            → (right ≤ left)
              ⊎ ((left < right) × (entry_number m entries c ≡ number))
              ⊎ ((left < right) × (entry_number m entries c < number))
              ⊎ ((left < right) × (number < entry_number m entries c))
        cases c = ground arith

-- In a table whose entries ascend FindLegacyField returns the place in the entry with the number,
-- and no place exactly where no entry has it; its search ends.
pub find_legacy_field-Locates :
    (m : Mem) (field_data number : ℕ)
    → IsAscending m (field_data + 4) (load32 m field_data)
    → Locates m
        (field_data + 4)
        0
        (load32 m field_data)
        number
        (find_legacy_field m field_data number)
unfolding find_legacy_field
find_legacy_field-Locates m field_data number ascending =
    search_entries-Locates m (field_data + 4) number (load32 m field_data) ascending
      (suc (load32 m field_data)) 0 (load32 m field_data) (omega arith) (omega arith)

-- What FindHybridField has to return: a number of the dense range has its own slot, empty where the
-- offset is 0, and any other is looked up among the sparse entries.
abbrev pub HybridLocates : Mem → ℕ → ℕ → Location → Type 0
HybridLocates m field_data number x =
    ((dense_base m field_data ≤ number)
      × (number < dense_base m field_data + dense_span m field_data)
      × (let slot = load32 m (dense_fields field_data + 4 * (number - dense_base m field_data)) in
          ((slot % 2 ^ 24 ≡ 0) × (x ≡ missing)) ⊎ ((slot % 2 ^ 24 ≢ 0) × (x ≡ location_of slot))))
    ⊎ (((number < dense_base m field_data)
          ⊎ (dense_base m field_data + dense_span m field_data ≤ number))
        × Locates m (sparse_fields m field_data) 0 (sparse_count m field_data) number x)

module _ (m : Mem) (field_data number : ℕ) where
  abbrev pub slot : ℕ
  slot = load32 m (dense_fields field_data + 4 * (number - dense_base m field_data))

  abbrev pub IsDense : Type 0
  IsDense =
      (dense_base m field_data ≤ number)
      × (number < dense_base m field_data + dense_span m field_data)

  abbrev pub IsSparse : Type 0
  IsSparse =
      (number < dense_base m field_data)
      ⊎ (dense_base m field_data + dense_span m field_data ≤ number)

  pub empty_slot : IsDense → slot % 2 ^ 24 ≡ 0 → find_hybrid_field m field_data number ≡ missing
  unfolding find_hybrid_field
  empty_slot dense e = ground arith

  pub full_slot :
      IsDense → slot % 2 ^ 24 ≢ 0 → find_hybrid_field m field_data number ≡ location_of slot
  unfolding find_hybrid_field
  full_slot dense e = ground arith

  pub sparse_search :
      IsSparse
      → find_hybrid_field m field_data number
        ≡ search_entries m
            (sparse_fields m field_data)
            number
            (suc (sparse_count m field_data))
            0
            (sparse_count m field_data)
  unfolding find_hybrid_field
  sparse_search sparse = ground arith

  pub slot_cases : (IsDense × (slot % 2 ^ 24 ≡ 0)) ⊎ (IsDense × (slot % 2 ^ 24 ≢ 0)) ⊎ IsSparse
  slot_cases = ground arith

-- In a hybrid table whose sparse entries ascend FindHybridField returns, for a number in the dense
-- part, the place its slot holds, and none where the slot is empty, and for any other number the
-- place in the sparse entry with the number, and none exactly where no sparse entry has it.
pub find_hybrid_field-HybridLocates :
    (m : Mem) (field_data number : ℕ)
    → IsAscending m (sparse_fields m field_data) (sparse_count m field_data)
    → HybridLocates m field_data number (find_hybrid_field m field_data number)
find_hybrid_field-HybridLocates m field_data number ascending =
    elim (slot_cases m field_data number) [
      | inl (dense, e) ↦ inl (dense.0, dense.1, inl (e, empty_slot m field_data number dense e))
      | inr (inl (dense, e)) ↦
          inl (dense.0, dense.1, inr (e, full_slot m field_data number dense e))
      | inr (inr sparse) ↦
          let count = sparse_count m field_data in
          inr (
            sparse,
            subst (λ x. Locates m (sparse_fields m field_data) 0 count number x)
                (sym (sparse_search m field_data number sparse))
                (search_entries-Locates m (sparse_fields m field_data) number count ascending
                  (suc count) 0 count (omega arith) (omega arith)),
          )
    ]
