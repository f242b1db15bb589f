-- ===== src/Wire/Bounds.antt =====
-- The deserializers of ProtoBuffer stay inside the buffer, whatever it holds
-- (phaser/runtime/wireformat.h).
use phaser.Prelude.{
  ℕ, zero, suc, ◌+◌, ◌-◌, ◌*◌, ◌%◌, ◌^◌, ◌≤◌, ◌<◌, ◌≡◌, ◌≢◌, refl, ◌⊎◌, inl, inr, arith, sym, ◌∙◌,
}
use mathlib.Core.Path.{subst}
use phaser.Prelude.{Bool, true, false, ltb, if◌then◌else◌, ◌==◌}
use phaser.Wire.{
  ProtoBuffer, Result, Error, ok, err, M, pure, fail, and_then, ◌>>=◌, ◌>>◌, check, advance, stuck,
  end_of_buffer, varint_too_long, unsupported_wire_type,
}
use phaser.Wire.Ints.{IntType, int32, uint32, from_varint_wire, sign_extend}
use phaser.Wire.Read.{
  take_byte, read_varint, deserialize_varint, skip_varint_loop, skip_varint, skip_tag,
  deserialize_fixed32, deserialize_fixed64, take_bytes, deserialize_length_delimited, copy_raw,
}

-- `b'` is the reader `b` further on, not past its end.
pub record Advanced (b b' : ProtoBuffer) : Type 0 where
  pub forward : b.addr ≤ b'.addr
  pub inside : b'.addr ≤ b'.end
  pub end : b'.end ≡ b.end
  pub bytes : b'.bytes ≡ b.bytes

Advanced-refl : (b : ProtoBuffer) → b.addr ≤ b.end → Advanced b b
Advanced-refl b h = record { forward = omega arith; inside = h; end = refl; bytes = refl }

Advanced-trans : (a b c : ProtoBuffer) → Advanced a b → Advanced b c → Advanced a c
Advanced-trans a b c s t = record {
  forward = let x = s.forward in let y = t.forward in omega arith;
  inside = t.inside;
  end = t.end ∙ s.end;
  bytes = t.bytes ∙ s.bytes;
}

-- An operation that never leaves the buffer, if it fails or not.
abbrev pub IsReader : {A : Type 0} → M A → Type 0
IsReader m = (b : ProtoBuffer) → b.addr ≤ b.end → Advanced b (m b).0

then-IsReader :
    {A B : Type 0} (m : M A) (f : A → M B)
    → IsReader m
    → ((a : A) → IsReader (f a))
    → IsReader (m >>= f)
then-IsReader m f hm hf b h = from (m b) (hm b h)
  where
    from : (x : ProtoBuffer × Result _) → Advanced b x.0 → Advanced b (and_then x f).0
    from (b1, ok a) t = Advanced-trans b b1 _ t (hf a b1 (t.inside))
    from (b1, err e) t = t

if-IsReader :
    {A : Type 0} (t : Bool) (m k : M A) → IsReader m → IsReader k → IsReader (if t then m else k)
if-IsReader true m k hm hk = hm
if-IsReader false m k hm hk = hk

fail-IsReader : (A : Type 0) (e : Error) → IsReader (fail {A = A} e)
fail-IsReader A e b h = Advanced-refl b h

pure-IsReader : {A : Type 0} (a : A) → IsReader (pure a)
pure-IsReader a b h = Advanced-refl b h

check_cases :
    (n : ℕ) (b : ProtoBuffer)
    → b.addr ≤ b.end
    → ((check n b ≡ (b, ok tt)) × (b.addr + n ≤ b.end)) ⊎ (check n b ≡ (b, err end_of_buffer))
unfolding check
check_cases n b h = ground arith

-- After `check n` there are `n` bytes.
check-IsReader :
    {A : Type 0} (n : ℕ) (m : M A)
    → ((b : ProtoBuffer) → b.addr + n ≤ b.end → Advanced b (m b).0)
    → IsReader (check n >> m)
check-IsReader n m hm b h = elim (check_cases n b h) [
  | inl (e, room) ↦ subst (λ x. Advanced b (and_then x (λ _. m)).0) (sym e) (hm b room)
  | inr e ↦ subst (λ x. Advanced b (and_then x (λ _. m)).0) (sym e) (Advanced-refl b h)
]

-- Passing over `n` bytes that are there.
passed :
    (n : ℕ) (b : ProtoBuffer) → b.addr + n ≤ b.end → Advanced b (record b { addr = b.addr + n })
passed n b h = record { forward = omega arith; inside = h; end = refl; bytes = refl }

advance-IsReader : (n : ℕ) → IsReader (check n >> advance n)
unfolding advance
advance-IsReader n = check-IsReader n (advance n) (passed n)

-- A byte is taken, and the rest depends on it.
byte-IsReader :
    {A : Type 0} (f : ℕ → M A)
    → ((byte : ℕ) → IsReader (f byte))
    → IsReader (check 1 >> (take_byte >>= f))
unfolding take_byte
byte-IsReader f hf = check-IsReader 1 (take_byte >>= f) λ b room.
    Advanced-trans b (record b { addr = b.addr + 1 }) _ (passed 1 b room)
      (hf (b.bytes b.addr) (record b { addr = b.addr + 1 }) room)

read_varint-IsReader : (rounds shift value : ℕ) → IsReader (read_varint rounds shift value)
unfolding read_varint
read_varint-IsReader zero shift value = fail-IsReader ℕ varint_too_long
read_varint-IsReader (suc rounds) shift value = byte-IsReader _ λ byte.
    let value' = value + byte % 128 * 2 ^ shift % 2 ^ 64 in
    if-IsReader (ltb byte 128) (pure value') (read_varint rounds (shift + 7) value')
      (pure-IsReader value') (read_varint-IsReader rounds (shift + 7) value')

skip_loop-IsReader : (fuel : ℕ) → IsReader (skip_varint_loop fuel)
unfolding skip_varint_loop
skip_loop-IsReader zero = fail-IsReader (Unit {0}) stuck
skip_loop-IsReader (suc fuel) = byte-IsReader _ λ byte.
    if-IsReader (ltb byte 128) (pure tt) (skip_varint_loop fuel) (pure-IsReader tt)
      (skip_loop-IsReader fuel)

varint-IsReader : (t : IntType) (signed : Bool) → IsReader (deserialize_varint t signed)
unfolding deserialize_varint
varint-IsReader t signed =
    then-IsReader (read_varint 10 0 0) _ (read_varint-IsReader 10 0 0)
      λ value. pure-IsReader (from_varint_wire t signed value)

delimited-IsReader : IsReader (deserialize_varint uint32 false >>= λ n. check n >> advance n)
delimited-IsReader =
    then-IsReader (deserialize_varint uint32 false) _ (varint-IsReader uint32 false)
      advance-IsReader

skip-IsReader : (tag : ℕ) → IsReader (skip_tag tag)
unfolding skip_tag skip_varint
skip-IsReader tag =
    let w = tag % 8 in
    if-IsReader (w == 0) skip_varint _ (λ b. skip_loop-IsReader (suc (b.end - b.addr)) b)
      (if-IsReader (w == 1) (check 8 >> advance 8) _ (advance-IsReader 8) (
        if-IsReader (w == 2) _ _ delimited-IsReader (
          if-IsReader (w == 3) _ _ (fail-IsReader (Unit {0}) unsupported_wire_type) (
            if-IsReader (w == 4) _ _ (fail-IsReader (Unit {0}) unsupported_wire_type) (
              if-IsReader (w == 5) (check 4 >> advance 4) (pure tt) (advance-IsReader 4)
                (pure-IsReader tt))))))

length_delimited-IsReader : IsReader deserialize_length_delimited
unfolding deserialize_length_delimited take_bytes
length_delimited-IsReader =
    then-IsReader (deserialize_varint int32 false) _ (varint-IsReader int32 false)
      (λ length. check-IsReader (sign_extend 32 length) _ (passed (sign_extend 32 length)))

raw-IsReader : (length : ℕ) → IsReader (copy_raw length)
unfolding copy_raw take_bytes
raw-IsReader length = check-IsReader length _ (passed length)

fixed-IsReader : IsReader deserialize_fixed32 × IsReader deserialize_fixed64
unfolding deserialize_fixed32 deserialize_fixed64
fixed-IsReader = (check-IsReader 4 _ (passed 4), check-IsReader 8 _ (passed 8))

-- SkipTag, for any tag, on any bytes and with any outcome, stops within the buffer, not before
-- where it started, and changes no byte.
pub skip_tag-Advanced : (tag : ℕ) (b : ProtoBuffer) → b.addr ≤ b.end → Advanced b (skip_tag tag b).0
skip_tag-Advanced tag b h = skip-IsReader tag b h

-- DeserializeVarint, DeserializeLengthDelimited, CopyRaw and DeserializeFixed, on any bytes and
-- with any outcome, stop within the buffer, not before where they started, and change no byte.
pub deserialize-Advanced :
    (t : IntType) (signed : Bool) (length : ℕ) (b : ProtoBuffer)
    → b.addr ≤ b.end
    → Advanced b (deserialize_varint t signed b).0
      × Advanced b (deserialize_length_delimited b).0
      × Advanced b (copy_raw length b).0
      × Advanced b (deserialize_fixed32 b).0
      × Advanced b (deserialize_fixed64 b).0
deserialize-Advanced t signed length b h = (
  varint-IsReader t signed b h,
  length_delimited-IsReader b h,
  raw-IsReader length b h,
  fixed-IsReader.0 b h,
  fixed-IsReader.1 b h,
)

abbrev Finishes : ProtoBuffer × Result (Unit {0}) → Type 0
Finishes x = x.1 ≢ err stuck

if-Finishes :
    (t : Bool) (m k : M (Unit {0})) (b : ProtoBuffer)
    → Finishes (m b)
    → Finishes (k b)
    → Finishes ((if t then m else k) b)
if-Finishes true m k b hm hk = hm
if-Finishes false m k b hm hk = hk

-- Every round takes one of the bytes that are left.
skip_loop-Finishes :
    (fuel : ℕ) (b : ProtoBuffer)
    → b.addr ≤ b.end
    → b.end - b.addr < fuel
    → Finishes (skip_varint_loop fuel b)
unfolding skip_varint_loop take_byte
skip_loop-Finishes zero b h lt = absurd (omega arith)
skip_loop-Finishes (suc fuel) b h lt =
    let more = λ (byte : ℕ). if ltb byte 128 then pure tt else skip_varint_loop fuel in
    elim (check_cases 1 b h) [
      | inl (e, room) ↦
          subst (λ x. Finishes (and_then x (λ _. take_byte >>= more))) (sym e)
            (if-Finishes (ltb (b.bytes b.addr) 128) (pure tt) (skip_varint_loop fuel)
              (record b { addr = b.addr + 1 }) (λ q. cc)
              (skip_loop-Finishes fuel (record b { addr = b.addr + 1 }) room (omega arith)))
      | inr e ↦ subst (λ x. Finishes (and_then x (λ _. take_byte >>= more))) (sym e) (λ q. cc)
    ]

-- SkipVarint's unbounded loop ends on every input: it never uses up a fuel of one round more than
-- there are bytes left.
pub skip_varint-Finishes : (b : ProtoBuffer) → b.addr ≤ b.end → (skip_varint b).1 ≢ err stuck
unfolding skip_varint
skip_varint-Finishes b h = skip_loop-Finishes (suc (b.end - b.addr)) b h (omega arith)
