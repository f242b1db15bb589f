-- ===== src/Fields/ArraySizes.antt =====
-- The size that a PrimitiveArrayField gives for itself, and what it writes (phaser/runtime/arrays.h).
use phaser.Prelude.{
  ℕ, zero, suc, ◌+◌, ◌*◌, ◌^◌, ◌<◌, ◌≡◌, ◌≢◌, ◌⊎◌, inl, inr, refl, arith, ap, sym, ◌∙◌,
}
use phaser.Prelude.{Bool, true, false, not, ◌==◌, if◌then◌else◌, List, length}
use phaser.Memory.{read_bytes}
use phaser.Wire.{ProtoBuffer, ok, M, pure, and_then-eq-ok}
use phaser.Wire.Ints.{tag_size, length_delimited_size}
use phaser.Wire.Write.{serialize_length_delimited_header}
use phaser.Wire.Advance.{header-addr, delimited-addr}
use phaser.Fields.{Message, FieldLoc, FieldType, size_of, int_type}
use phaser.Fields.VectorWire.{varints_size, tagged_size, fixed_wire_type, serialize_varints}
use phaser.Fields.Arrays.{active_count, storage_pointer}
use phaser.Fields.ArrayWire.{
  array_bits, array_size, array_serialized_size, serialize_array_values, serialize_array,
}
use phaser.Fields.Sizes.{length-read_bytes}
use phaser.Fields.Written.{serialize_varints-addr, serialize_tagged-addr, fixed_each-addr, stays}

length-array_bits :
    (message : Message) (loc : FieldLoc) (n t left i : ℕ)
    → length (array_bits message loc n t left i) ≡ left
unfolding array_bits
length-array_bits message loc n t zero i = refl
length-array_bits message loc n t (suc left) i =
    ap suc (length-array_bits message loc n t left (i + 1))

pub none_or_some : (n : ℕ) → (n ≡ 0) ⊎ (n ≢ 0)
none_or_some zero = inl refl
none_or_some (suc n) = inr (λ e. omega (arith, e))

module _ (signed check_space : Bool) (number : ℕ) (small : number < 2 ^ 28) (t : FieldType)
    (vs raw : List ℕ) where
  -- What is done for an array with values is what a name stands for.
  picked {ℓ} : {A : Type ℓ} → length vs ≢ 0 → (x y : A) → (if length vs == 0 then x else y) ≡ y
  picked some_values x y =
      let has_values : (length vs == 0) ≡ false = ground arith in λ i. if has_values i then x else y

  without_values {ℓ} :
      {A : Type ℓ} → length vs ≡ 0 → (x y : A) → (if length vs == 0 then x else y) ≡ x
  without_values e x y =
      let none : (length vs == 0) ≡ true = ground arith in λ i. if none i then x else y

  -- Each kind of array: what it writes, and the size it gives.
  module _ (some_values : length vs ≢ 0) where
    packed_fixed-addr :
        (b b' : ProtoBuffer)
        → length raw ≡ length vs * size_of t
        → serialize_array_values true true signed check_space number t true vs raw b ≡ (b', ok tt)
        → b'.addr ≡ b.addr + array_size true true signed number t vs
    unfolding serialize_array_values array_size
    packed_fixed-addr b b' e wrote =
        let h =
          delimited-addr check_space number small b b' raw
            (ap (λ (m : M (Unit {0})). m b) (sym (picked some_values (pure tt) _)) ∙ wrote) in
        omega (
          arith,
          h,
          picked some_values 0 (length_delimited_size number (length vs * size_of t)),
          ap (λ n. length_delimited_size number n) e,
        )

    packed_varints-addr :
        (b b' : ProtoBuffer)
        → serialize_array_values true false signed check_space number t true vs raw b ≡ (b', ok tt)
        → b'.addr ≡ b.addr + array_size true false signed number t vs
    unfolding serialize_array_values array_size
    packed_varints-addr b b' wrote =
        let n = varints_size (int_type t) signed vs 0 in
        let (b1, u, first, rest) =
          and_then-eq-ok (serialize_length_delimited_header check_space number n b)
            (λ _. serialize_varints (int_type t) signed check_space vs)
            (ap (λ (m : M (Unit {0})). m b) (sym (picked some_values (pure tt) _)) ∙ wrote) in
        omega (
          arith,
          header-addr check_space number small b b1 n first,
          serialize_varints-addr check_space (int_type t) signed vs b1 b' rest,
          picked some_values 0 (length_delimited_size number n),
        )

    each_fixed-addr :
        (b b' : ProtoBuffer)
        → (size_of t ≡ 4) ⊎ (size_of t ≡ 8)
        → serialize_array_values false true signed check_space number t true vs raw b ≡ (b', ok tt)
        → b'.addr ≡ b.addr + array_size false true signed number t vs
    unfolding serialize_array_values array_size
    each_fixed-addr b b' kind wrote =
        let n = length vs * (tag_size number (fixed_wire_type (size_of t)) + size_of t) in
        let h =
          fixed_each-addr check_space number small (size_of t) vs b b' kind
            (ap (λ (m : M (Unit {0})). m b) (sym (picked some_values (pure tt) _)) ∙ wrote) in
        omega (arith, h, picked some_values 0 n)

    each_varint-addr :
        (b b' : ProtoBuffer)
        → serialize_array_values false false signed check_space number t true vs raw b ≡ (b', ok tt)
        → b'.addr ≡ b.addr + array_size false false signed number t vs
    unfolding serialize_array_values array_size
    each_varint-addr b b' wrote =
        let n = tagged_size (int_type t) signed number vs 0 in
        let h =
          serialize_tagged-addr check_space number small (int_type t) signed vs b b'
            (ap (λ (m : M (Unit {0})). m b) (sym (picked some_values (pure tt) _)) ∙ wrote) in
        omega (arith, h, picked some_values 0 n)

  -- An array without values writes nothing and has the size 0.
  none-addr :
      (packed fixed_size : Bool) (b b' : ProtoBuffer)
      → length vs ≡ 0
      → serialize_array_values packed fixed_size signed check_space number t true vs raw b
        ≡ (b', ok tt)
      → b'.addr ≡ b.addr + array_size packed fixed_size signed number t vs
  unfolding serialize_array_values array_size
  none-addr packed fixed_size b b' e wrote =
      let stayed =
        stays b b' (ap (λ (m : M (Unit {0})). m b) (sym (without_values e (pure tt) _)) ∙ wrote) in
      let size : array_size packed fixed_size signed number t vs ≡ 0 = without_values e 0 _ in
      omega (arith, size, stayed)

  some-addr :
      length vs ≢ 0
      → (packed fixed_size : Bool) (b b' : ProtoBuffer) → length raw ≡ length vs * size_of t
      → (fixed_size ≡ true → (size_of t ≡ 4) ⊎ (size_of t ≡ 8))
      → serialize_array_values packed fixed_size signed check_space number t true vs raw b
        ≡ (b', ok tt)
      → b'.addr ≡ b.addr + array_size packed fixed_size signed number t vs
  some-addr some_values true true b b' e kind wrote = packed_fixed-addr some_values b b' e wrote
  some-addr some_values true false b b' e kind wrote = packed_varints-addr some_values b b' wrote
  some-addr some_values false true b b' e kind wrote =
      each_fixed-addr some_values b b' (kind refl) wrote
  some-addr some_values false false b b' e kind wrote = each_varint-addr some_values b b' wrote

  array_size-addr :
      (packed fixed_size : Bool) (b b' : ProtoBuffer)
      → length raw ≡ length vs * size_of t
      → (fixed_size ≡ true → (size_of t ≡ 4) ⊎ (size_of t ≡ 8))
      → serialize_array_values packed fixed_size signed check_space number t true vs raw b
        ≡ (b', ok tt)
      → b'.addr ≡ b.addr + array_size packed fixed_size signed number t vs
  array_size-addr packed fixed_size b b' e kind wrote = elim (none_or_some (length vs)) [
    | inl none ↦ none-addr packed fixed_size b b' none wrote
    | inr some_values ↦ some-addr some_values packed fixed_size b b' e kind wrote
  ]

-- Where Serialize of an array field succeeds, packed or not, of a field number below 2 ^ 28, with
-- storage for its values and, for a field of fixed size, values of 4 or 8 bytes, it writes exactly
-- SerializedSize bytes.
pub serialize_array-addr :
    (packed fixed_size signed check_space : Bool) (message : Message) (loc : FieldLoc) (n : ℕ)
    (t : FieldType) (b b' : ProtoBuffer)
    → loc.number < 2 ^ 28
    → (fixed_size ≡ true → (size_of t ≡ 4) ⊎ (size_of t ≡ 8))
    → storage_pointer message loc (size_of t) ≢ 0
    → serialize_array packed fixed_size signed check_space message loc n t b ≡ (b', ok tt)
    → b'.addr ≡ b.addr + array_serialized_size packed fixed_size signed message loc n t
unfolding serialize_array array_serialized_size
serialize_array-addr packed fixed_size signed check_space message loc n t b b' small kind there
      wrote =
    let base = storage_pointer message loc (size_of t) in
    let size = active_count message loc n (size_of t) in
    let vs = array_bits message loc n (size_of t) size 0 in
    let raw = read_bytes message.runtime.pb.bytes base (size * size_of t) in
    let found : not (base == 0) ≡ true = ground arith in
    let count = length-array_bits message loc n (size_of t) size 0 in
    array_size-addr signed check_space loc.number small t vs raw packed fixed_size b b'
      (length-read_bytes message.runtime.pb.bytes base (size * size_of t)
        ∙ ap (λ k. k * size_of t) (sym count))
      kind
      (ap (λ q. serialize_array_values packed fixed_size signed check_space loc.number t q vs raw b)
          (sym found)
        ∙ wrote)
