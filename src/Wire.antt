-- ===== src/Wire.antt =====
-- phaser/runtime/wireformat.h: the protobuf wire format, read and written through a ProtoBuffer.
-- An operation is a function on the buffer that returns the buffer and a status or a value; what
-- an operation did before it failed stays done. The bytes are those behind `start_`, and addresses
-- are offsets from it.
pub mod Ints
pub mod Write
pub mod Read
pub mod Varint
pub mod Infer
pub mod Bounds
pub mod Advance
pub mod Counted
pub mod Runs
use phaser.Prelude.{
  ℕ, zero, suc, ◌+◌, ◌-◌, ◌*◌, ◌%◌, ◌^◌, Bool, true, false, ltb, leb, if◌then◌else◌,
}
use phaser.Prelude.{Option, none, some, ◌&&◌, ◌≡◌, refl}
use phaser.Memory.{Mem, fill}

-- `stuck` is no status of the code: the loop that doubles a size ran out of its fuel.
pub data Error : Type 0 where
  no_space end_of_buffer unsupported_wire_type varint_too_long stuck : Error

pub data Result {ℓ} (A : Type ℓ) : Type ℓ where
  ok : A → Result A
  err : Error → Result A

pub record ProtoBuffer : Type 0 where
  pub owned : Bool
  pub size : ℕ
  pub addr : ℕ
  pub end : ℕ
  pub bytes : Mem

abbrev pub M : Type 0 → Type 0
M A = ProtoBuffer → ProtoBuffer × Result A

abbrev pub pure : {A : Type 0} → A → M A
pure a b = (b, ok a)

abbrev pub fail : {A : Type 0} → Error → M A
fail e b = (b, err e)

abbrev pub and_then : {A B : Type 0} → ProtoBuffer × Result A → (A → M B) → ProtoBuffer × Result B
and_then (b, ok a) f = f a b
and_then (b, err e) f = (b, err e)

infixl 5 ◌>>=◌ ◌>>◌
abbrev pub ◌>>=◌ : {A B : Type 0} → M A → (A → M B) → M B
◌>>=◌ m f b = and_then (m b) f

abbrev pub ◌>>◌ : {B : Type 0} → M (Unit {0}) → M B → M B
m >> k = m >>= λ _. k

-- ProtoBuffer(initial_size); the code aborts on a size below 16.
unfoldable pub dynamic_buffer : ℕ → ProtoBuffer
dynamic_buffer initial_size = record {
  owned = true;
  size = initial_size;
  addr = 0;
  end = initial_size;
  bytes = λ _. 0;
}

-- ProtoBuffer(addr, size)
unfoldable pub fixed_buffer : Mem → ℕ → ProtoBuffer
fixed_buffer bytes size = record { owned = false; size = size; addr = 0; end = size; bytes = bytes }

-- `while (new_size < needed) new_size *= 2`
unfoldable pub double_size : ℕ → ℕ → ℕ → Option ℕ
double_size zero new_size needed = none
double_size (suc fuel) new_size needed =
    let rest = double_size fuel (new_size * 2 % 2 ^ 64) needed in
    if ltb new_size needed then rest else some new_size

-- HasSpaceFor: an owned buffer grows, and the code aborts where realloc fails.
unfoldable pub has_space_for : ℕ → M (Unit {0})
has_space_for n b =
    let next = b.addr + n in
    let grown = λ (new_size : ℕ). record b {
      bytes = fill b.bytes b.size 0 (new_size - b.size);
      end = new_size;
      size = new_size;
    } in
    if ltb b.end next
    then (if b.owned
        then elim (double_size 64 (b.size * 2 % 2 ^ 64) next) [
          | none ↦ (b, err stuck)
          | some new_size ↦ (grown new_size, ok tt)
        ]
        else (b, err no_space))
    else (b, ok tt)

-- Check
unfoldable pub check : ℕ → M (Unit {0})
check n b =
    if ltb b.end b.addr
    then (b, err end_of_buffer)
    else if leb n (b.end - b.addr)
    then (b, ok tt)
    else (b, err end_of_buffer)

-- `addr_ += n`
unfoldable pub advance : ℕ → M (Unit {0})
advance n b = (record b { addr = b.addr + n }, ok tt)

-- Clear
unfoldable pub clear : M (Unit {0})
clear b = (record b { addr = 0; end = 0 }, ok tt)

-- Size and Eof
unfoldable pub written : ProtoBuffer → ℕ
written b = b.addr

unfoldable pub eof : ProtoBuffer → Bool
eof b = leb b.addr b.end && leb b.end b.addr

-- Inversion of a chain that succeeded.
pub and_then-eq-ok :
    {A B : Type 0} (x : ProtoBuffer × Result A) (f : A → M B) {b : ProtoBuffer} {c : B}
    → and_then x f ≡ (b, ok c)
    → (b1 : ProtoBuffer) × (a : A) × (x ≡ (b1, ok a)) × (f a b1 ≡ (b, ok c))
and_then-eq-ok (b1, ok a) f h = (b1, a, refl, h)
and_then-eq-ok (b1, err e) f h = cc
