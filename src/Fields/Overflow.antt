-- ===== src/Fields/Overflow.antt =====
-- A packed array of negative values is not read again (phaser/runtime/arrays.h).
use phaser.Prelude.{ℕ, suc, ◌+◌, ◌-◌, ◌*◌, ◌/◌, ◌^◌, ◌<◌, ◌≤◌, ◌≡◌, ◌≢◌, refl, arith, ap, ◌∙◌}
use phaser.Prelude.{true, false, if◌then◌else◌, ltb, List, [], ◌∷◌, length}
use phaser.Memory.{Mem, write_bytes}
use phaser.Wire.{ProtoBuffer, ok, err, fixed_buffer}
use phaser.Wire.Ints.{int32, varint_size, varint_size_loop, to_varint_wire, sign_extend}
use phaser.Wire.Read.{deserialize_length_delimited}
use phaser.Fields.{Message, FieldLoc, integer, done}
use phaser.Fields.VectorWire.{varints_size}
use phaser.Fields.Arrays.{array_count}
use phaser.Fields.ArrayWire.{overflow, failed, read_varints, read_payload, deserialize_array}
use phaser.Fields.Written.{varints_size_from}

-- Every value is a negative int32_t.
abbrev pub AreNegative : List ℕ → Type 0
AreNegative [] = Unit {0}
AreNegative (v ∷ vs) = (2 ^ 31 ≤ v) × (v < 2 ^ 32) × AreNegative vs

-- One more group of a varint.
longer :
    (fuel u n : ℕ)
    → 128 ≤ u
    → varint_size_loop (suc fuel) u n ≡ varint_size_loop fuel (u / 128) (n + 1)
unfolding varint_size_loop
longer fuel u n h =
    let more : ltb u 128 ≡ false = ground arith in
    λ i. if more i then n + 1 else varint_size_loop fuel (u / 128) (n + 1)

ten_groups : (u : ℕ) → 2 ^ 63 ≤ u → varint_size_loop 9 u 0 ≡ 10
unfolding varint_size_loop
ten_groups u h =
    longer 8 u 0 (omega arith)
    ∙ longer 7 (u / 128) 1 (omega arith)
    ∙ longer 6 (u / 128 / 128) 2 (omega arith)
    ∙ longer 5 (u / 128 / 128 / 128) 3 (omega arith)
    ∙ longer 4 (u / 128 / 128 / 128 / 128) 4 (omega arith)
    ∙ longer 3 (u / 128 / 128 / 128 / 128 / 128) 5 (omega arith)
    ∙ longer 2 (u / 128 / 128 / 128 / 128 / 128 / 128) 6 (omega arith)
    ∙ longer 1 (u / 128 / 128 / 128 / 128 / 128 / 128 / 128) 7 (omega arith)
    ∙ longer 0 (u / 128 / 128 / 128 / 128 / 128 / 128 / 128 / 128) 8 (omega arith)

varint_size-negative : (v : ℕ) → 2 ^ 31 ≤ v → varint_size int32 false v ≡ 10
unfolding varint_size to_varint_wire
varint_size-negative v h =
    let wide : sign_extend 32 v ≡ v + (2 ^ 64 - 2 ^ 32) = ground arith in
    ap (λ u. varint_size_loop 9 u 0) wide ∙ ten_groups (v + (2 ^ 64 - 2 ^ 32)) (omega arith)

varints_size-negative :
    (vs : List ℕ) → AreNegative vs → varints_size int32 false vs 0 ≡ length vs * 10
unfolding varints_size
varints_size-negative [] h = refl
varints_size-negative (v ∷ vs) h = omega (
  arith,
  varints_size_from int32 false vs (0 + varint_size int32 false v),
  varint_size-negative v h.0,
  varints_size-negative vs h.2,
)

-- Whatever an array of int32_t held, where a packed payload is read that has the size
-- SerializedSize gives the varints of one or more values, all negative, Deserialize of an array of
-- that many values changes no message and returns that the array overflows.
pub negative-overflow :
    (realloc : Mem → ℕ → ℕ → Mem) (message : Message) (loc : FieldLoc) (vs bytes : List ℕ)
    (b b' : ProtoBuffer)
    → length vs ≢ 0
    → AreNegative vs
    → deserialize_length_delimited b ≡ (b', ok bytes)
    → length bytes ≡ varints_size int32 false vs 0
    → deserialize_array realloc true false false message loc (length vs) (integer int32) b
      ≡ (b', (done message, overflow))
unfolding deserialize_array read_payload
negative-overflow realloc message loc vs bytes b b' some_values negative payload size =
    let long : length bytes ≡ length vs * 10 = size ∙ varints_size-negative vs negative in
    let parsed = array_count message loc 4 in
    let too_many : ltb (length vs) (parsed + length bytes / 4) ≡ true = ground (arith, long) in
    let refused : read_payload realloc false false message loc (length vs) (integer int32) bytes
        ≡ (done message, overflow) =
      λ i.
        if too_many i
        then (done message, overflow)
        else read_varints realloc (suc (length bytes)) false message loc (length vs) (integer int32)
            parsed (fixed_buffer (write_bytes (λ p. 0) 0 bytes) (length bytes)) in
    (λ i. elim ((payload i).1) [
      | err e ↦ ((payload i).0, (done message, failed e))
      | ok bytes ↦ (
        (payload i).0,
        read_payload realloc false false message loc (length vs) (integer int32) bytes,
      )
    ])
    ∙ ap (λ q. (b', q)) refused
