-- ===== src/Fields/Sizes.antt =====
-- The size that a PrimitiveVectorField gives for itself, and what it writes (phaser/runtime/vectors.h).
use phaser.Prelude.{
  ℕ, zero, suc, ◌+◌, ◌-◌, ◌*◌, ◌%◌, ◌^◌, ◌<◌, ◌≡◌, ◌≢◌, ◌⊎◌, refl, arith, ap, sym, ◌∙◌,
}
use phaser.Prelude.{Bool, true, false, not, ◌==◌, if◌then◌else◌, List, length}
use phaser.Memory.{Mem, read_bytes}
use phaser.Wire.{ProtoBuffer, ok, M, pure, and_then-eq-ok}
use phaser.Wire.Ints.{int32, length_delimited, varint_size, tag_size, length_delimited_size}
use phaser.Wire.Write.{serialize_length_delimited_header}
use phaser.Wire.Advance.{header-addr, delimited-addr}
use phaser.Fields.{Message, FieldLoc, FieldType, size_of, int_type}
use phaser.Fields.Vectors.{size, values_at}
use phaser.Fields.VectorWire.{
  bits_from, varints_size, tagged_size, fixed_wire_type, values_size, vector_serialized_size,
  serialize_varints, serialize_values, serialize_vector,
}
use phaser.Fields.Written.{serialize_varints-addr, serialize_tagged-addr, fixed_each-addr}

-- What the size of a field that is not packed has too much: the header of a packed one.
abbrev pub excess : ℕ → Bool → ℕ → ℕ
excess number true n = 0
excess number false n = tag_size number length_delimited + varint_size int32 false (n % 2 ^ 32)

module _ (check_space : Bool) (number : ℕ) (small : number < 2 ^ 28) (signed : Bool) (t : FieldType)
    (vs raw : List ℕ) (some_values : length vs ≢ 0) where
  has_values : (length vs == 0) ≡ false
  has_values = ground arith

  -- What is done for a vector with values is what a name stands for.
  picked {ℓ} : {A : Type ℓ} (x y : A) → (if length vs == 0 then x else y) ≡ y
  picked x y = λ i. if has_values i then x else y

  -- Each kind of vector: what it writes, and the size it gives.
  packed_fixed-addr :
      (b b' : ProtoBuffer)
      → length raw ≡ length vs * size_of t
      → serialize_values true true signed check_space number t true vs raw b ≡ (b', ok tt)
      → b'.addr ≡ b.addr + values_size true true signed number t true vs
  unfolding serialize_values values_size
  packed_fixed-addr b b' e wrote =
      let h =
        delimited-addr check_space number small b b' raw
          (ap (λ (m : M (Unit {0})). m b) (sym (picked (pure tt) _)) ∙ wrote) in
      omega (
        arith,
        h,
        picked 0 (length_delimited_size number (length vs * size_of t)),
        ap (λ n. length_delimited_size number n) e,
      )

  packed_varints-addr :
      (b b' : ProtoBuffer)
      → serialize_values true false signed check_space number t true vs raw b ≡ (b', ok tt)
      → b'.addr ≡ b.addr + values_size true false signed number t true vs
  unfolding serialize_values values_size
  packed_varints-addr b b' wrote =
      let n = varints_size (int_type t) signed vs 0 in
      let (b1, u, first, rest) =
        and_then-eq-ok (serialize_length_delimited_header check_space number n b)
          (λ _. serialize_varints (int_type t) signed check_space vs)
          (ap (λ (m : M (Unit {0})). m b) (sym (picked (pure tt) _)) ∙ wrote) in
      omega (
        arith,
        header-addr check_space number small b b1 n first,
        serialize_varints-addr check_space (int_type t) signed vs b1 b' rest,
        picked 0 (length_delimited_size number n),
      )

  each_fixed-addr :
      (b b' : ProtoBuffer)
      → (size_of t ≡ 4) ⊎ (size_of t ≡ 8)
      → serialize_values false true signed check_space number t true vs raw b ≡ (b', ok tt)
      → b'.addr + excess number false (b'.addr - b.addr)
        ≡ b.addr + values_size false true signed number t true vs
  unfolding serialize_values values_size length_delimited_size
  each_fixed-addr b b' kind wrote =
      let n = length vs * (tag_size number (fixed_wire_type (size_of t)) + size_of t) in
      let h =
        fixed_each-addr check_space number small (size_of t) vs b b' kind
          (ap (λ (m : M (Unit {0})). m b) (sym (picked (pure tt) _)) ∙ wrote) in
      let d : b'.addr - b.addr ≡ n = omega (arith, h) in
      omega (
        arith,
        h,
        picked 0 (length_delimited_size number n),
        ap (λ k. varint_size int32 false (k % 2 ^ 32)) d,
      )

  each_varint-addr :
      (b b' : ProtoBuffer)
      → serialize_values false false signed check_space number t true vs raw b ≡ (b', ok tt)
      → b'.addr + excess number false (b'.addr - b.addr)
        ≡ b.addr + values_size false false signed number t true vs
  unfolding serialize_values values_size length_delimited_size
  each_varint-addr b b' wrote =
      let n = tagged_size (int_type t) signed number vs 0 in
      let h =
        serialize_tagged-addr check_space number small (int_type t) signed vs b b'
          (ap (λ (m : M (Unit {0})). m b) (sym (picked (pure tt) _)) ∙ wrote) in
      let d : b'.addr - b.addr ≡ n = omega (arith, h) in
      omega (
        arith,
        h,
        picked 0 (length_delimited_size number n),
        ap (λ k. varint_size int32 false (k % 2 ^ 32)) d,
      )

  values_size-addr :
      (packed fixed_size : Bool) (b b' : ProtoBuffer)
      → length raw ≡ length vs * size_of t
      → (fixed_size ≡ true → (size_of t ≡ 4) ⊎ (size_of t ≡ 8))
      → serialize_values packed fixed_size signed check_space number t true vs raw b ≡ (b', ok tt)
      → b'.addr + excess number packed (b'.addr - b.addr)
        ≡ b.addr + values_size packed fixed_size signed number t true vs
  values_size-addr true true b b' e kind wrote = omega (arith, packed_fixed-addr b b' e wrote)
  values_size-addr true false b b' e kind wrote = omega (arith, packed_varints-addr b b' wrote)
  values_size-addr false true b b' e kind wrote = each_fixed-addr b b' (kind refl) wrote
  values_size-addr false false b b' e kind wrote = each_varint-addr b b' wrote

length-bits_from : (m : Mem) (t n addr : ℕ) → length (bits_from m t n addr) ≡ n
unfolding bits_from
length-bits_from m t zero addr = refl
length-bits_from m t (suc n) addr = ap suc (length-bits_from m t n (addr + t))

pub length-read_bytes : (m : Mem) (a n : ℕ) → length (read_bytes m a n) ≡ n
unfolding read_bytes
length-read_bytes m a zero = refl
length-read_bytes m a (suc n) = ap suc (length-read_bytes m (a + 1) n)

-- Where Serialize of a vector field with values succeeds, of a field number below 2 ^ 28 and, for
-- a field of fixed size, with values of 4 or 8 bytes, it writes exactly SerializedSize bytes if
-- the field is packed. If it is not, SerializedSize has, beyond the bytes written, the size of the
-- tag and the length of a packed field.
pub serialize_vector-addr :
    (packed fixed_size signed check_space : Bool) (message : Message) (loc : FieldLoc)
    (t : FieldType) (b b' : ProtoBuffer)
    → loc.number < 2 ^ 28
    → (fixed_size ≡ true → (size_of t ≡ 4) ⊎ (size_of t ≡ 8))
    → size message loc (size_of t) ≢ 0
    → values_at message loc (size_of t) ≢ 0
    → serialize_vector packed fixed_size signed check_space message loc t b ≡ (b', ok tt)
    → b'.addr + excess loc.number packed (b'.addr - b.addr)
      ≡ b.addr + vector_serialized_size packed fixed_size signed message loc t
unfolding serialize_vector vector_serialized_size
serialize_vector-addr packed fixed_size signed check_space message loc t b b' small kind some_values
      there wrote =
    let base = values_at message loc (size_of t) in
    let n = size message loc (size_of t) in
    let m = message.runtime.pb.bytes in
    let vs = bits_from m (size_of t) n base in
    let raw = read_bytes m base (n * size_of t) in
    let at : not (base == 0) ≡ true = ground arith in
    let count = length-bits_from m (size_of t) n base in
    let whole =
      values_size-addr check_space loc.number small signed t vs raw
        (λ e. some_values (sym count ∙ e)) packed fixed_size b b'
        (length-read_bytes m base (n * size_of t) ∙ ap (λ k. k * size_of t) (sym count)) kind
        (ap (λ q. serialize_values packed fixed_size signed check_space loc.number t q vs raw b)
            (sym at)
          ∙ wrote) in
    whole ∙ ap (λ q. b.addr + values_size packed fixed_size signed loc.number t q vs) (sym at)
