-- ===== src/Wire/Varint.antt =====
-- A varint that SerializeRawVarint writes has the size that VarintSize counts, and
-- DeserializeVarint reads it back (phaser/runtime/wireformat.h).
use phaser.Prelude.{
  ℕ, zero, suc, ◌+◌, ◌*◌, ◌/◌, ◌%◌, ◌^◌, ◌≤◌, ◌<◌, ◌≡◌, refl, inl, inr, ap, ◌∙◌, sym, arith,
}
use phaser.Prelude.{Bool, ltb, Bool-cases}
use phaser.Memory.{store8}
use phaser.Memory.Words.{Apart}
use phaser.Wire.{and_then-eq-ok, ProtoBuffer, ok, and_then, pure, check, has_space_for}
use phaser.Wire.Ints.{
  IntType, IsSigned, IsValue, to_varint_wire, from_varint_wire, from_varint_wire-to_varint_wire,
  varint_size_loop, varint_size,
}
use phaser.Wire.Write.{put_byte, put_varint, reserve, serialize_raw_varint}
use phaser.Wire.Read.{take_byte, read_varint, deserialize_varint}
use native.Mathlib.Nat.{div-add-mod}
use native.Mathlib.Numerals.{towards_suc}

size_from : (fuel v s : ℕ) → varint_size_loop fuel v s ≡ s + varint_size_loop fuel v 0
unfolding varint_size_loop
size_from zero v s = omega arith
size_from (suc fuel) v s =
    ground (arith, size_from fuel (v / 128) (s + 1), size_from fuel (v / 128) 1)

-- Writing a varint advances by the size that VarintSize's loop counts, between 1 and the number of
-- rounds plus one, and changes nothing of the buffer but its bytes.
pub put_varint-size :
    (fuel v : ℕ) (b : ProtoBuffer)
    → ((put_varint fuel v b).addr ≡ b.addr + varint_size_loop fuel v 0)
      × (1 ≤ varint_size_loop fuel v 0)
      × (varint_size_loop fuel v 0 ≤ fuel + 1)
      × ((put_varint fuel v b).end ≡ b.end)
      × ((put_varint fuel v b).size ≡ b.size)
      × ((put_varint fuel v b).owned ≡ b.owned)
unfolding put_varint varint_size_loop put_byte
put_varint-size zero v b = ground arith
put_varint-size (suc fuel) v b =
    ground (
      arith,
      size_from fuel (v / 128) 1,
      put_varint-size fuel (v / 128) (put_byte b (v % 128 + 128)),
    )

pub put_varint-frame :
    (fuel v : ℕ) (b : ProtoBuffer) (p : ℕ)
    → Apart b.addr (varint_size_loop fuel v 0) p
    → (put_varint fuel v b).bytes p ≡ b.bytes p
unfolding put_varint varint_size_loop put_byte store8
put_varint-frame zero v b p h = ground arith
put_varint-frame (suc fuel) v b p h = ground (
  arith,
  size_from fuel (v / 128) 1,
  put_varint-size fuel (v / 128) (put_byte b (v % 128 + 128)),
  put_varint-frame fuel (v / 128) (put_byte b (v % 128 + 128)) p,
)

-- One round of the reader, on a byte that is there.
module _ (rounds shift value c : ℕ) (r : ProtoBuffer) (here : r.bytes r.addr ≡ c)
    (room : r.addr < r.end) where
  last_round :
      c < 128
      → read_varint (suc rounds) shift value r
        ≡ (record r { addr = r.addr + 1 }, ok (value + c % 128 * 2 ^ shift % 2 ^ 64))
  unfolding read_varint check take_byte
  last_round h = ground arith

  inner_round :
      128 ≤ c
      → read_varint (suc rounds) shift value r
        ≡ read_varint rounds
            (shift + 7)
            (value + c % 128 * 2 ^ shift % 2 ^ 64)
            (record r { addr = r.addr + 1 })
  unfolding read_varint check take_byte
  inner_round h = ground arith

pow_seven : (s : ℕ) → 2 ^ (s + 7) ≡ 128 * 2 ^ s
pow_seven s = simp towards_suc (omega arith)

-- The group of the lowest seven bits and the rest, both shifted.
split_shifted : (v s : ℕ) → v * 2 ^ s ≡ v % 128 * 2 ^ s + v / 128 * 2 ^ (s + 7)
split_shifted v s = omega (
  arith,
  ap (λ (t : ℕ). t * 2 ^ s) (div-add-mod v 128),
  ap (λ (t : ℕ). v / 128 * t) (pow_seven s),
)

-- `r` holds the bytes that were written for `v`.
abbrev pub Reads : ProtoBuffer → ProtoBuffer → ProtoBuffer → Type 0
Reads r b b' =
    (r.addr ≡ b.addr)
    × (b'.addr ≤ r.end)
    × ((p : ℕ) → b.addr ≤ p → p < b'.addr → r.bytes p ≡ b'.bytes p)

put_byte_last : (c : ℕ) (b : ProtoBuffer) → c < 256 → (put_byte b c).bytes b.addr ≡ c
unfolding put_byte store8
put_byte_last c b h = ground arith

put_small : (fuel v : ℕ) (b : ProtoBuffer) → v < 128 → put_varint fuel v b ≡ put_byte b v
unfolding put_varint
put_small zero v b h = refl
put_small (suc fuel) v b h = ground arith

put_large :
    (fuel v : ℕ) (b : ProtoBuffer)
    → 128 ≤ v
    → put_varint (suc fuel) v b ≡ put_varint fuel (v / 128) (put_byte b (v % 128 + 128))
unfolding put_varint
put_large fuel v b h = ground arith

read_small :
    (rounds v shift value : ℕ) (b r : ProtoBuffer)
    → v < 128
    → value + v * 2 ^ shift < 2 ^ 64
    → Reads r b (put_byte b v)
    → read_varint (suc rounds) shift value r
      ≡ (record r { addr = (put_byte b v).addr }, ok (value + v * 2 ^ shift))
read_small rounds v shift value b r hv fits (at, room, same) =
    let next : (put_byte b v).addr ≡ b.addr + 1 = unfold put_byte in refl in
    let here : r.bytes r.addr ≡ v =
      ap (r.bytes) at ∙ same b.addr (omega arith) (omega arith) ∙ put_byte_last v b (omega arith) in
    let low : v % 128 * 2 ^ shift % 2 ^ 64 ≡ v * 2 ^ shift =
      let e : v % 128 ≡ v = omega arith in rw e (omega arith) in
    last_round rounds shift value v r here (omega arith) hv
    ∙ (λ i. (record r { addr = step i }, ok (value + low i)))
  where
    step : r.addr + 1 ≡ (put_byte b v).addr
    step = unfold put_byte in omega arith

below128 : (fuel v : ℕ) → v < 128 ^ suc (suc fuel) → v / 128 < 128 ^ suc fuel
below128 fuel v h = omega arith

rest-Reads :
    (fuel v : ℕ) (b r : ProtoBuffer)
    → Reads r b (put_varint fuel (v / 128) (put_byte b (v % 128 + 128)))
    → Reads
        (record r { addr = r.addr + 1 })
        (put_byte b (v % 128 + 128))
        (put_varint fuel (v / 128) (put_byte b (v % 128 + 128)))
rest-Reads fuel v b r (at, room, same) =
    let next : (put_byte b (v % 128 + 128)).addr ≡ b.addr + 1 = unfold put_byte in refl in
    (omega arith, room, λ p lo hi. same p (omega arith) hi)

-- A byte with bit 7 set, and then the rest.
read_large :
    (fuel v shift value : ℕ) (b r : ProtoBuffer)
    → 128 ≤ v
    → Reads r b (put_varint fuel (v / 128) (put_byte b (v % 128 + 128)))
    → {x : ProtoBuffer}
    → read_varint
        (suc fuel)
        (shift + 7)
        (value + v % 128 * 2 ^ shift)
        (record r { addr = r.addr + 1 })
      ≡ (x, ok (value + v % 128 * 2 ^ shift + v / 128 * 2 ^ (shift + 7)))
    → value + v * 2 ^ shift < 2 ^ 64
    → read_varint (suc (suc fuel)) shift value r ≡ (x, ok (value + v * 2 ^ shift))
read_large fuel v shift value b r hv (at, room, same) {x} rest fits =
    let c = v % 128 + 128 in
    let next : (put_byte b c).addr ≡ b.addr + 1 = unfold put_byte in refl in
    let size = put_varint-size fuel (v / 128) (put_byte b c) in
    let here : r.bytes r.addr ≡ c =
      ap (r.bytes) at
      ∙ same b.addr (omega arith) (omega arith)
      ∙ put_varint-frame fuel (v / 128) (put_byte b c) b.addr (inl (omega arith))
      ∙ put_byte_last c b (omega arith) in
    let same_group : c % 128 ≡ v % 128 = omega arith in
    let group : c % 128 * 2 ^ shift % 2 ^ 64 ≡ v % 128 * 2 ^ shift =
      rw same_group (omega (arith, split_shifted v shift)) in
    let sum : value + v % 128 * 2 ^ shift + v / 128 * 2 ^ (shift + 7) ≡ value + v * 2 ^ shift =
      omega (arith, split_shifted v shift) in
    inner_round (suc fuel) shift value c r here (omega arith) (omega arith)
    ∙ ap (λ t. read_varint (suc fuel) (shift + 7) (value + t) (record r { addr = r.addr + 1 }))
        group
    ∙ rest
    ∙ (λ i. (x, ok (sum i)))

read_varint-put_varint :
    (fuel v shift value : ℕ) (b r : ProtoBuffer)
    → v < 128 ^ suc fuel
    → value + v * 2 ^ shift < 2 ^ 64
    → Reads r b (put_varint fuel v b)
    → read_varint (suc fuel) shift value r
      ≡ (record r { addr = (put_varint fuel v b).addr }, ok (value + v * 2 ^ shift))
read_varint-put_varint zero v shift value b r hv fits reads =
    unfold put_varint in read_small zero v shift value b r (omega arith) fits reads
read_varint-put_varint (suc fuel) v shift value b r hv fits reads = elim (Bool-cases (ltb v 128)) [
  | inl small ↦
      let e : put_varint (suc fuel) v b ≡ put_byte b v = put_small (suc fuel) v b (ground arith) in
      rw e (read_small (suc fuel) v shift value b r (ground arith) fits (rw e at reads))
  | inr large ↦
      let e = put_large fuel v b (ground arith) in
      rw e (
        read_large fuel v shift value b r (ground arith) (rw e at reads)
          (read_varint-put_varint fuel (v / 128) (shift + 7) (value + v % 128 * 2 ^ shift)
            (put_byte b (v % 128 + 128)) (record r { addr = r.addr + 1 }) (below128 fuel v hv)
            (omega (arith, split_shifted v shift)) (rest-Reads fuel v b r (rw e at reads)))
          fits)
]

pub reserve-addr :
    (check_space : Bool) (n : ℕ) (b b' : ProtoBuffer)
    → reserve check_space n b ≡ (b', ok tt)
    → b'.addr ≡ b.addr
unfolding reserve has_space_for
reserve-addr check_space n b b' h = ground arith

-- A successful SerializeRawVarint makes room, which moves nothing, and writes the groups.
pub serialize_raw_varint-eq-ok :
    (t : IntType) (signed check_space : Bool) (v : ℕ) (b b' : ProtoBuffer)
    → serialize_raw_varint t signed check_space v b ≡ (b', ok tt)
    → (b1 : ProtoBuffer) × (b1.addr ≡ b.addr)
      × (reserve check_space (varint_size t signed v) b ≡ (b1, ok tt))
      × (b' ≡ put_varint 9 (to_varint_wire t signed v) b1)
unfolding serialize_raw_varint varint_size
serialize_raw_varint-eq-ok t signed check_space v b b' h =
    let u = to_varint_wire t signed v in
    let (b1, a, e, f) = and_then-eq-ok (reserve check_space (varint_size_loop 9 u 0) b) _ h in
    (b1, reserve-addr check_space (varint_size_loop 9 u 0) b b1 e, e, cc (f))

Reads-of : (b b1 b' x r : ProtoBuffer) → b1.addr ≡ b.addr → b' ≡ x → Reads r b b' → Reads r b1 x
Reads-of b b1 b' x r at f (ra, room, same) =
    let end : b'.addr ≡ x.addr = ap (λ (q : ProtoBuffer). q.addr) f in
    (
      omega arith,
      omega arith,
      λ p lo hi. same p (omega arith) (omega arith) ∙ ap (λ (q : ProtoBuffer). q.bytes p) f,
    )

-- DeserializeVarint reads back the value of any integer type that SerializeRawVarint wrote, ZigZag
-- or not, and stops where the writer stopped, if the reader stands where the writer began and
-- holds the bytes written.
pub deserialize_varint-serialize_raw_varint :
    (t : IntType) (signed check_space : Bool) (v : ℕ) (b b' r : ProtoBuffer)
    → IsSigned t signed
    → IsValue t v
    → serialize_raw_varint t signed check_space v b ≡ (b', ok tt)
    → Reads r b b'
    → deserialize_varint t signed r ≡ (record r { addr = b'.addr }, ok v)
deserialize_varint-serialize_raw_varint t signed check_space v b b' r s h wrote reads =
    let u = to_varint_wire t signed v in
    let (b1, at, e, f) = serialize_raw_varint-eq-ok t signed check_space v b b' wrote in
    let (fits, back) = from_varint_wire-to_varint_wire t signed v s h in
    let reads1 = Reads-of b b1 b' (put_varint 9 u b1) r at f reads in
    let one : 0 + u * 2 ^ 0 ≡ u = omega arith in
    let step = read_varint-put_varint 9 u 0 0 b1 r (omega arith) (omega (arith, one)) reads1 in
    let value : from_varint_wire t signed (0 + u * 2 ^ 0) ≡ v =
      ap (from_varint_wire t signed) one ∙ back in
    unfold deserialize_varint in
    ap (λ x. and_then x (λ value. pure (from_varint_wire t signed value))) step
    ∙ (λ i. (record r { addr = (sym f i).addr }, ok (value i)))
