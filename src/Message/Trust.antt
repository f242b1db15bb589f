-- ===== src/Message/Trust.antt =====
-- Looking up a field in a received buffer reads nothing but the bytes that were received, whatever
-- they hold (phaser/runtime/message.h).
use phaser.Prelude.{
  ℕ, zero, suc, ◌+◌, ◌-◌, ◌*◌, ◌/◌, ◌%◌, ◌^◌, ◌≤◌, ◌<◌, ◌≡◌, refl, sym, ap, ◌∙◌, ◌⊎◌, inl, inr,
  arith,
}
use phaser.Prelude.{true, false, ◌==◌, if◌then◌else◌, Bool-cases, not}
use phaser.Memory.{Mem, load32}
use phaser.Memory.Words.{load32-Same}
use phaser.Payload.{is_valid_magic, to_address, is_valid_address}
use phaser.Message.{Runtime, trusted_size, runtime_to_address}
use phaser.Message.FieldTable.{
  missing, location_of, search_entries, find_legacy_field, find_hybrid_field, dense_base,
  dense_span, sparse_count, dense_fields, sparse_fields, metadata_range_fits, hybrid_table_fits,
  legacy_table_fits, find_in_table, find_from, find_field, hybrid_magic,
}
use phaser.Message.Lookup.{slot, IsDense, slot_cases, empty_slot, full_slot, sparse_search}
use phaser.Message.Fits.{metadata_range_fits_lem, guard-same, legacy-bounds, hybrid-bounds}

module _ (m m' : Mem) (limit : ℕ) (lim : limit < 2 ^ 32)
    (same : (p : ℕ) → p < limit → m' p ≡ m p) where
  word-Same : (a : ℕ) → a + 4 ≤ limit → load32 m' a ≡ load32 m a
  word-Same a h = load32-Same m m' a (λ p lo hi. same p (omega arith))

  search-same :
      (entries number fuel left right : ℕ)
      → entries + right * 8 ≤ limit
      → search_entries m' entries number fuel left right
        ≡ search_entries m entries number fuel left right
  unfolding search_entries
  search-same entries number zero left right fits = refl
  search-same entries number (suc fuel) left right fits = ground (
    arith,
    word-Same (entries + 8 * (left + (right - left) / 2)),
    word-Same (entries + 8 * (left + (right - left) / 2) + 4),
    search-same entries number fuel (left + (right - left) / 2 + 1) right,
    search-same entries number fuel left (left + (right - left) / 2),
  )

  legacy-same :
      (off number : ℕ)
      → legacy_table_fits off m limit ≡ true
      → find_legacy_field m' off number ≡ find_legacy_field m off number
  unfolding find_legacy_field
  legacy-same off number fits =
      let (low, high) = legacy-bounds m off limit lim fits in
      let num = load32 m off in
      ap (λ c. search_entries m' (off + 4) number (suc c) 0 c) (word-Same off low)
      ∙ search-same (off + 4) number (suc num) 0 num high

  legacy_fits-same :
      (off : ℕ) → off + 4 ≤ limit → legacy_table_fits off m' limit ≡ legacy_table_fits off m limit
  unfolding legacy_table_fits
  legacy_fits-same off h =
      ap
        (λ c.
          if not (metadata_range_fits off 1 4 limit)
          then false
          else metadata_range_fits ((off + 4) % 2 ^ 32) c 8 limit)
        (word-Same off h)

  -- The words of the header of a hybrid table.
  module _ (off : ℕ) (h : off + 16 ≤ limit) where
    base : dense_base m' off ≡ dense_base m off
    base = word-Same (off + 4) (omega arith)

    span : dense_span m' off ≡ dense_span m off
    span = word-Same (off + 8) (omega arith)

    sparse : sparse_count m' off ≡ sparse_count m off
    sparse = word-Same (off + 12) (omega arith)

  hybrid_fits-same : (off : ℕ) → hybrid_table_fits off m' limit ≡ hybrid_table_fits off m limit
  unfolding hybrid_table_fits
  hybrid_fits-same off = elim (Bool-cases (metadata_range_fits off 1 16 limit)) [
    | inl e ↦
        let h = (metadata_range_fits_lem off 1 16 limit (omega arith)).0 e in
        rw (e, span off (omega arith), sparse off (omega arith))
    | inr e ↦ rw e
  ]

  hybrid-same :
      (off number : ℕ)
      → hybrid_table_fits off m limit ≡ true
      → find_hybrid_field m' off number ≡ find_hybrid_field m off number
  hybrid-same off number fits =
      let (low, middle, high) = hybrid-bounds m off limit lim fits in
      let b = base off low in
      let s = span off low in
      let c = sparse off low in
      let n = sparse_count m off in
      let here : IsDense m off number → slot m' off number ≡ slot m off number = λ dense.
        ap (λ x. load32 m' (dense_fields off + 4 * (number - x))) b
        ∙ word-Same (dense_fields off + 4 * (number - dense_base m off)) (omega arith) in
      elim (slot_cases m off number) [
        | inl (dense, e) ↦
            empty_slot m' off number (omega arith, omega arith) (omega (arith, here dense))
            ∙ sym (empty_slot m off number dense e)
        | inr (inl (dense, e)) ↦
            full_slot m' off number (omega arith, omega arith) (λ q. e (omega (arith, here dense)))
            ∙ ap location_of (here dense)
            ∙ sym (full_slot m off number dense e)
        | inr (inr out) ↦
            sparse_search m' off number (ground arith)
            ∙ ap (λ k. search_entries m' (sparse_fields m' off) number (suc k) 0 k) c
            ∙ ap (λ k. search_entries m' (dense_fields off + 4 * k) number (suc n) 0 n) s
            ∙ search-same (sparse_fields m off) number (suc n) 0 n high
            ∙ sym (sparse_search m off number out)
      ]

  -- The two kinds of table.
  kinds-same :
      (off number : ℕ)
      → off + 4 ≤ limit
      → (if load32 m off == hybrid_magic
          then (if not (hybrid_table_fits off m limit)
              then missing
              else find_hybrid_field m' off number)
          else if not (legacy_table_fits off m limit)
          then missing
          else find_legacy_field m' off number)
        ≡ (if load32 m off == hybrid_magic
            then (if not (hybrid_table_fits off m limit)
                then missing
                else find_hybrid_field m off number)
            else if not (legacy_table_fits off m limit)
            then missing
            else find_legacy_field m off number)
  kinds-same off number h = λ i.
      if load32 m off == hybrid_magic
      then guard-same missing (hybrid_table_fits off m limit) (hybrid-same off number) i
      else guard-same missing (legacy_table_fits off m limit) (legacy-same off number) i

  pub find_in_table-same :
      (off number : ℕ) → find_in_table m' limit off number ≡ find_in_table m limit off number
  unfolding find_in_table
  find_in_table-same off number = guard-same missing (metadata_range_fits off 1 4 limit) λ e.
      let h = (metadata_range_fits_lem off 1 4 limit (omega arith)).0 e in
      (λ i.
        if word-Same off (omega arith) i == hybrid_magic
        then (if not (hybrid_fits-same off i) then missing else find_hybrid_field m' off number)
        else if not (legacy_fits-same off (omega arith) i)
        then missing
        else find_legacy_field m' off number)
      ∙ kinds-same off number (omega arith)

  find_from-same :
      (address_of : ℕ → ℕ) (field_data number : ℕ)
      → (field_data ≡ 0) ⊎ (field_data + 4 ≤ limit)
      → find_from m' address_of limit field_data number
        ≡ find_from m address_of limit field_data number
  unfolding find_from
  find_from-same address_of field_data number (inl e) = rw e
  find_from-same address_of field_data number (inr h) =
      (λ i.
        if field_data == 0
        then missing
        else if address_of (word-Same field_data h i) == 0
        then missing
        else find_in_table m' limit (word-Same field_data h i) number)
      ∙ (λ i.
          if field_data == 0
          then missing
          else if address_of (load32 m field_data) == 0
          then missing
          else find_in_table-same (load32 m field_data) number i)

-- What ToAddress accepts in a received buffer lies in the bytes received.
address_inside :
    (r : Runtime) (offset nbytes : ℕ)
    → r.is_mutable ≡ false
    → 0 < r.size_or_mark
    → (runtime_to_address r offset nbytes ≡ 0)
      ⊎ ((runtime_to_address r offset nbytes ≡ offset) × (offset + nbytes ≤ r.size_or_mark))
unfolding runtime_to_address to_address is_valid_address
address_inside r offset nbytes readonly pos = ground arith

-- `r` with other bytes in its buffer.
abbrev pub with_bytes : Runtime → Mem → Runtime
with_bytes r m = record r { pb = record r.pb { bytes = m } }

same_address :
    (r : Runtime) (m : Mem) (offset nbytes : ℕ)
    → runtime_to_address (with_bytes r m) offset nbytes ≡ runtime_to_address r offset nbytes
unfolding runtime_to_address to_address is_valid_address is_valid_magic
same_address r m offset nbytes = refl

readonly-size : (r : Runtime) → r.is_mutable ≡ false → trusted_size r ≡ r.size_or_mark
unfolding trusted_size
readonly-size r readonly = ground arith

-- FindField in a received buffer of more than 0 and fewer than 2 ^ 32 bytes depends on no byte
-- behind those received, whatever they hold.
pub find_field-trusted :
    (r : Runtime) (m : Mem) (start number : ℕ)
    → r.is_mutable ≡ false
    → 0 < r.size_or_mark
    → r.size_or_mark < 2 ^ 32
    → ((p : ℕ) → p < r.size_or_mark → m p ≡ r.pb.bytes p)
    → find_field (with_bytes r m) start number ≡ find_field r start number
unfolding find_field
find_field-trusted r m start number readonly pos lim same =
    let size = readonly-size r readonly in
    let size' = readonly-size (with_bytes r m) readonly in
    let inside : (runtime_to_address r start 4 ≡ 0)
        ⊎ (runtime_to_address r start 4 + 4 ≤ r.size_or_mark) =
      elim (address_inside r start 4 readonly pos) [
        | inl e ↦ inl e
        | inr (e, h) ↦ inr (omega arith)
      ] in
    (λ i.
      find_from m (λ offset. same_address r m offset 1 i) (size' i) (same_address r m start 4 i)
        number)
    ∙ find_from-same r.pb.bytes m r.size_or_mark lim same (λ offset. runtime_to_address r offset 1)
        (runtime_to_address r start 4) number inside
    ∙ (λ i.
        find_from r.pb.bytes (λ offset. runtime_to_address r offset 1) (sym size i)
          (runtime_to_address r start 4) number)
