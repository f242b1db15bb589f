-- ===== src/Fields/Written.antt =====
-- What the loops over the values of a repeated field write (phaser/runtime/vectors.h).
use phaser.Prelude.{ℕ, ◌+◌, ◌*◌, ◌^◌, ◌<◌, ◌≡◌, ◌⊎◌, inl, inr, arith, ap, sym}
use phaser.Prelude.{Bool, List, [], ◌∷◌, length}
use mathlib.Core.Path.{subst}
use native.Mathlib.Nat.{suc-mul}
use phaser.Wire.{ProtoBuffer, Result, ok, and_then-eq-ok}
use phaser.Wire.Ints.{IntType, varint, fixed32, fixed64, varint_size, tag_size}
use phaser.Wire.Write.{serialize_varint, serialize_raw_varint, serialize_fixed32, serialize_fixed64}
use phaser.Wire.Advance.{raw_varint-addr, varint-addr, fixed32-addr, fixed64-addr}
use phaser.Fields.VectorWire.{
  varints_size, tagged_size, fixed_wire_type, serialize_varints, serialize_tagged,
  serialize_fixed_each,
}

-- The running sums.
pub varints_size_from :
    (i : IntType) (signed : Bool) (vs : List ℕ) (n : ℕ)
    → varints_size i signed vs n ≡ n + varints_size i signed vs 0
unfolding varints_size
varints_size_from i signed [] n = omega arith
varints_size_from i signed (v ∷ vs) n = omega (
  arith,
  varints_size_from i signed vs (n + varint_size i signed v),
  varints_size_from i signed vs (0 + varint_size i signed v),
)

tagged_size_from :
    (i : IntType) (signed : Bool) (number : ℕ) (vs : List ℕ) (n : ℕ)
    → tagged_size i signed number vs n ≡ n + tagged_size i signed number vs 0
unfolding tagged_size
tagged_size_from i signed number [] n = omega arith
tagged_size_from i signed number (v ∷ vs) n = omega (
  arith,
  tagged_size_from i signed number vs (n + (tag_size number varint + varint_size i signed v)),
  tagged_size_from i signed number vs (0 + (tag_size number varint + varint_size i signed v)),
)

pub stays :
    (b b' : ProtoBuffer)
    → ◌≡◌ {A = ProtoBuffer × Result (Unit {0})} (b, ok tt) (b', ok tt)
    → b.addr ≡ b'.addr
stays b b' e = ap (λ (q : ProtoBuffer × Result (Unit {0})). q.0.addr) e

module _ (check_space : Bool) where
  pub serialize_varints-addr :
      (i : IntType) (signed : Bool) (vs : List ℕ) (b b' : ProtoBuffer)
      → serialize_varints i signed check_space vs b ≡ (b', ok tt)
      → b'.addr ≡ b.addr + varints_size i signed vs 0
  unfolding serialize_varints varints_size
  serialize_varints-addr i signed [] b b' wrote = omega (arith, stays b b' wrote)
  serialize_varints-addr i signed (v ∷ vs) b b' wrote =
      let (b1, u, first, rest) =
        and_then-eq-ok (serialize_raw_varint i signed check_space v b)
          (λ _. serialize_varints i signed check_space vs) wrote in
      omega (
        arith,
        raw_varint-addr i signed check_space v b b1 first,
        serialize_varints-addr i signed vs b1 b' rest,
        varints_size_from i signed vs (0 + varint_size i signed v),
      )

  module _ (number : ℕ) (small : number < 2 ^ 28) where
    pub serialize_tagged-addr :
        (i : IntType) (signed : Bool) (vs : List ℕ) (b b' : ProtoBuffer)
        → serialize_tagged i signed check_space number vs b ≡ (b', ok tt)
        → b'.addr ≡ b.addr + tagged_size i signed number vs 0
    unfolding serialize_tagged tagged_size
    serialize_tagged-addr i signed [] b b' wrote = omega (arith, stays b b' wrote)
    serialize_tagged-addr i signed (v ∷ vs) b b' wrote =
        let (b1, u, first, rest) =
          and_then-eq-ok (serialize_varint i signed check_space number v b)
            (λ _. serialize_tagged i signed check_space number vs) wrote in
        omega (
          arith,
          varint-addr i signed check_space number v b b1 small first,
          serialize_tagged-addr i signed vs b1 b' rest,
          tagged_size_from i signed number vs
              (0 + (tag_size number varint + varint_size i signed v)),
        )

    fixed_each4-addr :
        (vs : List ℕ) (b b' : ProtoBuffer)
        → serialize_fixed_each 4 check_space number vs b ≡ (b', ok tt)
        → b'.addr ≡ b.addr + length vs * (tag_size number fixed32 + 4)
    unfolding serialize_fixed_each
    fixed_each4-addr [] b b' wrote = omega (arith, stays b b' wrote)
    fixed_each4-addr (v ∷ vs) b b' wrote =
        let (b1, u, first, rest) =
          and_then-eq-ok (serialize_fixed32 check_space number v b)
            (λ _. serialize_fixed_each 4 check_space number vs) wrote in
        omega (
          arith,
          fixed32-addr check_space number small b b1 v first,
          fixed_each4-addr vs b1 b' rest,
          suc-mul (length vs) (tag_size number fixed32 + 4),
        )

    fixed_each8-addr :
        (vs : List ℕ) (b b' : ProtoBuffer)
        → serialize_fixed_each 8 check_space number vs b ≡ (b', ok tt)
        → b'.addr ≡ b.addr + length vs * (tag_size number fixed64 + 8)
    unfolding serialize_fixed_each
    fixed_each8-addr [] b b' wrote = omega (arith, stays b b' wrote)
    fixed_each8-addr (v ∷ vs) b b' wrote =
        let (b1, u, first, rest) =
          and_then-eq-ok (serialize_fixed64 check_space number v b)
            (λ _. serialize_fixed_each 8 check_space number vs) wrote in
        omega (
          arith,
          fixed64-addr check_space number small b b1 v first,
          fixed_each8-addr vs b1 b' rest,
          suc-mul (length vs) (tag_size number fixed64 + 8),
        )

    pub fixed_each-addr :
        (t : ℕ) (vs : List ℕ) (b b' : ProtoBuffer)
        → (t ≡ 4) ⊎ (t ≡ 8)
        → serialize_fixed_each t check_space number vs b ≡ (b', ok tt)
        → b'.addr ≡ b.addr + length vs * (tag_size number (fixed_wire_type t) + t)
    fixed_each-addr t vs b b' (inl e) =
        subst
          (λ w.
            serialize_fixed_each w check_space number vs b ≡ (b', ok tt)
            → b'.addr ≡ b.addr + length vs * (tag_size number (fixed_wire_type w) + w))
          (sym e) (fixed_each4-addr vs b b')
    fixed_each-addr t vs b b' (inr e) =
        subst
          (λ w.
            serialize_fixed_each w check_space number vs b ≡ (b', ok tt)
            → b'.addr ≡ b.addr + length vs * (tag_size number (fixed_wire_type w) + w))
          (sym e) (fixed_each8-addr vs b b')
