-- ===== src/Message/Fits.antt =====
-- The tests that tables and ranges are inside what was received (phaser/runtime/message.h), without division.
use phaser.Prelude.{
  ℕ, zero, suc, ◌+◌, ◌-◌, ◌*◌, ◌/◌, ◌%◌, ◌^◌, ◌≤◌, ◌<◌, ◌≡◌, refl, ◌⊎◌, inl, inr, ◌↔◌, arith,
}
use phaser.Prelude.{Bool, true, false, if◌then◌else◌, not}
use phaser.Memory.{Mem, load32}
use phaser.Message.FieldTable.{
  Location, dense_span, sparse_count, sparse_fields, metadata_range_fits, hybrid_table_fits,
  legacy_table_fits,
}
use native.Mathlib.Nat.{div-add-mod, mod-lt, mul-le-mul_right}

-- `q` is the quotient of `room` by `s`, with the remainder `r`.
quotient_lt : (count s room q r : ℕ) → s * q + r ≡ room → r < s → (q < count) ↔ (room < count * s)
quotient_lt count s room q r e lt = (
  λ h. omega (arith, mul-le-mul_right s (next h)),
  λ h. elim (cases) [
    | inl below ↦ below
    | inr above ↦ absurd (omega (arith, mul-le-mul_right s above))
  ],
)
  where
    cases : (q < count) ⊎ (count ≤ q)
    cases = ground arith

    next : q < count → q + 1 ≤ count
    next h = omega arith

pub range_division : (count size room : ℕ) → (room / suc size < count) ↔ (room < count * suc size)
range_division count size room =
    quotient_lt count (suc size) room (room / suc size) (room % suc size)
      (div-add-mod room (suc size)) (mod-lt room pos)
  where
    pos : 0 < suc size
    pos = omega arith

-- MetadataRangeFits, which cannot overflow, is the test that the table ends within the limit.
pub metadata_range_fits_lem :
    (offset count elem_size limit : ℕ)
    → 0 < elem_size
    → (metadata_range_fits offset count elem_size limit ≡ true)
      ↔ (offset + count * elem_size ≤ limit)
unfolding metadata_range_fits
metadata_range_fits_lem offset count zero limit pos = absurd (omega arith)
metadata_range_fits_lem offset count (suc size) limit pos =
    ground (arith, range_division count size (limit - offset))

both_pass : (t x : Bool) → (if not t then false else x) ≡ true → (t ≡ true) × (x ≡ true)
both_pass true x h = (refl, h)
both_pass false x h = cc

pub guard-same :
    {x y : Location} (z : Location) (t : Bool)
    → (t ≡ true → x ≡ y)
    → (if not t then z else x) ≡ (if not t then z else y)
guard-same z true e = e refl
guard-same z false e = refl

module _ (m : Mem) (off limit : ℕ) (lim : limit < 2 ^ 32) where
  pub legacy-bounds :
      legacy_table_fits off m limit ≡ true
      → (off + 4 ≤ limit) × (off + 4 + load32 m off * 8 ≤ limit)
  unfolding legacy_table_fits
  legacy-bounds h =
      let (header, entries) = both_pass (metadata_range_fits off 1 4 limit) _ h in
      let low = (metadata_range_fits_lem off 1 4 limit (omega arith)).0 header in
      let high =
        (metadata_range_fits_lem ((off + 4) % 2 ^ 32) (load32 m off) 8 limit (omega arith)).0
          entries in
      (omega arith, omega arith)

  pub hybrid-bounds :
      hybrid_table_fits off m limit ≡ true
      → (off + 16 ≤ limit)
        × (off + 16 + dense_span m off * 4 ≤ limit)
        × (sparse_fields m off + sparse_count m off * 8 ≤ limit)
  unfolding hybrid_table_fits
  hybrid-bounds h =
      let (header, tables) = both_pass (metadata_range_fits off 1 16 limit) _ h in
      let (dense, sparse) =
        both_pass (metadata_range_fits ((off + 16) % 2 ^ 32) (dense_span m off) 4 limit) _ tables in
      let low = (metadata_range_fits_lem off 1 16 limit (omega arith)).0 header in
      let middle =
        (metadata_range_fits_lem ((off + 16) % 2 ^ 32) (dense_span m off) 4 limit (omega arith)).0
          dense in
      let high = (metadata_range_fits_lem _ (sparse_count m off) 8 limit (omega arith)).0 sparse in
      (omega arith, omega arith, omega arith)
