-- ===== src/Payload/Presence.antt =====
-- Presence bits, and single values, of a message in a payload buffer
-- (phaser/runtime/payload_buffer.h). The bits `|=` and `&= ~` are written by division: `2 ^ k` is
-- added where the bit is clear, and subtracted where it is set.
use phaser.Prelude.{
  ℕ, zero, suc, ◌+◌, ◌/◌, ◌%◌, ◌^◌, ◌<◌, ◌≡◌, ◌≢◌, arith, Bool, true, false, ltb, ◌==◌,
}
use phaser.Prelude.{if◌then◌else◌, ◌&&◌, ◌||◌, refl, ◌∙◌, ap, sym, ◌⊎◌, inl, inr}
use phaser.Memory.{store8, store32}
use phaser.Payload.{Buffer, bit, set_bit, clear_bit, to_address, is_valid_magic, is_valid_address}

-- UncheckedOffset and UncheckedAddress change nothing here; ContainedOffset(p) of an address that
-- is at or above the buffer's start.
unfoldable pub contained_offset : Buffer → ℕ → ℕ
contained_offset b at = if at == 0 then 0 else if ltb at b.full_size then at else 0

unfoldable pub set_presence_bit : Buffer → ℕ → ℕ → Buffer
set_presence_bit b k offset =
    let a = offset + k / 8 in record b { bytes = store8 b.bytes a (set_bit (k % 8) (b.bytes a)) }

unfoldable pub clear_presence_bit : Buffer → ℕ → ℕ → Buffer
clear_presence_bit b k offset =
    let a = offset + k / 8 in record b { bytes = store8 b.bytes a (clear_bit (k % 8) (b.bytes a)) }

unfoldable pub is_present : Buffer → ℕ → ℕ → Bool
unfolding to_address
is_present b k offset =
    let p = to_address b ((offset + k / 8) % 2 ^ 32) 0 1 in
    if p == 0 then false else bit (k % 8) (b.bytes p) == 1

-- Set<T> for a T of four bytes.
unfoldable pub set32 : Buffer → ℕ → ℕ → Buffer
set32 b offset v = record b { bytes = store32 b.bytes offset v }

-- The bit that was set is 1 and the bit that was cleared is 0, in a byte.
abbrev pub IsUpdate : ℕ → ℕ → Type 0
IsUpdate w k =
    (bit k (set_bit k w) ≡ 1)
    × (set_bit k w < 256)
    × (bit k (clear_bit k w) ≡ 0)
    × (clear_bit k w < 256)

pub bit-IsUpdate : (w k : ℕ) → w < 256 → k < 8 → IsUpdate w k
bit-IsUpdate w zero h hk = omega arith
bit-IsUpdate w (suc zero) h hk = omega arith
bit-IsUpdate w (suc (suc zero)) h hk = omega arith
bit-IsUpdate w (suc (suc (suc zero))) h hk = omega arith
bit-IsUpdate w (suc (suc (suc (suc zero)))) h hk = omega arith
bit-IsUpdate w (suc (suc (suc (suc (suc zero))))) h hk = omega arith
bit-IsUpdate w (suc (suc (suc (suc (suc (suc zero)))))) h hk = omega arith
bit-IsUpdate w (suc (suc (suc (suc (suc (suc (suc zero))))))) h hk = omega arith
bit-IsUpdate w (suc (suc (suc (suc (suc (suc (suc (suc k)))))))) h hk = absurd (omega arith)

-- A test that holds of every value below a bound, by trying them.
abbrev holds_below : ℕ → (ℕ → Bool) → Bool
holds_below zero test = true
holds_below (suc n) test = test n && holds_below n test

holds_below_lem :
    (n : ℕ) (test : ℕ → Bool) (x : ℕ) → holds_below n test ≡ true → x < n → test x ≡ true
holds_below_lem zero test x h lt = absurd (omega arith)
holds_below_lem (suc n) test x h lt = ground (arith, holds_below_lem n test x)

-- Setting or clearing the bit `k` of a byte keeps its other bits.
abbrev keeps_bit : ℕ → ℕ → ℕ → Bool
keeps_bit k j w =
    (j == k) || ((bit j (set_bit k w) == bit j w) && (bit j (clear_bit k w) == bit j w))

keeps_bit_table : holds_below 8 (λ k. holds_below 8 (λ j. holds_below 256 (keeps_bit k j))) ≡ true
keeps_bit_table = refl

other_bit :
    (w k j : ℕ)
    → w < 256
    → k < 8
    → j < 8
    → j ≢ k
    → (bit j (set_bit k w) ≡ bit j w) × (bit j (clear_bit k w) ≡ bit j w)
other_bit w k j hw hk hj other =
    let kept : keeps_bit k j w ≡ true =
      holds_below_lem 256 (keeps_bit k j) w
        (holds_below_lem 8 (λ j. holds_below 256 (keeps_bit k j)) j
          (holds_below_lem 8 (λ k. holds_below 8 (λ j. holds_below 256 (keeps_bit k j))) k
            keeps_bit_table hk)
          hj)
        hw in
    from_test (bit j (set_bit k w)) (bit j (clear_bit k w)) (bit j w) kept
  where
    from_test : (x y z : ℕ) → ((j == k) || ((x == z) && (y == z))) ≡ true → (x ≡ z) × (y ≡ z)
    from_test x y z kept = (ground arith, ground arith)

-- IsPresent of a field whose bit is inside the buffer reads the bit.
present-bit :
    (b : Buffer) (k offset : ℕ)
    → is_valid_magic b ≡ true
    → b.full_size < 2 ^ 32
    → 0 < offset
    → offset + k / 8 < b.full_size
    → is_present b k offset ≡ (bit (k % 8) (b.bytes (offset + k / 8)) == 1)
unfolding is_present to_address is_valid_address
present-bit b k offset magic lim pos inside =
    let p = offset + k / 8 in
    let low : p % 2 ^ 32 ≡ p = omega arith in
    let there : to_address b p 0 1 ≡ p = ground (arith, magic) in
    let found : (p == 0) ≡ false = ground arith in
    (λ i.
      if to_address b (low i) 0 1 == 0
      then false
      else bit (k % 8) (b.bytes (to_address b (low i) 0 1)) == 1)
    ∙ (λ i. if there i == 0 then false else bit (k % 8) (b.bytes (there i)) == 1)
    ∙ (λ i. if found i then false else bit (k % 8) (b.bytes p) == 1)

-- The bit of another field is where it was.
module _ (b : Buffer) (k k' offset : ℕ) (byte : b.bytes (offset + k / 8) < 256)
    (other : k' ≢ k) where
  kept_bit :
      (v : ℕ)
      → v < 256
      → (k' % 8 ≢ k % 8 → bit (k' % 8) v ≡ bit (k' % 8) (b.bytes (offset + k / 8)))
      → bit (k' % 8) (store8 b.bytes (offset + k / 8) v (offset + k' / 8))
        ≡ bit (k' % 8) (b.bytes (offset + k' / 8))
  unfolding store8
  kept_bit v small same = elim byte_of [
    | inl e ↦
        let here : (offset + k' / 8 == offset + k / 8) ≡ true = ground (arith, e) in
        let value : v % 256 ≡ v = omega arith in
        let place : offset + k / 8 ≡ offset + k' / 8 = omega (arith, e) in
        ap (bit (k' % 8)) ((λ i. if here i then v % 256 else b.bytes (offset + k' / 8)) ∙ value)
        ∙ same (λ q. other (omega (arith, e, q)))
        ∙ ap (λ a. bit (k' % 8) (b.bytes a)) place
    | inr e ↦
        let apart : (offset + k' / 8 == offset + k / 8) ≡ false = ground (arith, e) in
        ap (bit (k' % 8)) (λ i. if apart i then v % 256 else b.bytes (offset + k' / 8))
  ]
    where
      byte_of : (k' / 8 ≡ k / 8) ⊎ (k' / 8 ≢ k / 8)
      byte_of = ground arith

-- In a valid buffer a field whose presence bit is inside the buffer, in a byte, is present once
-- the bit was set and absent once it was cleared; any other field whose bit is inside the buffer
-- is present exactly where it was before, also where its bit is in the same byte; and no other
-- byte changes.
pub is_present-set_presence_bit :
    (b : Buffer) (k k' offset p : ℕ)
    → is_valid_magic b ≡ true
    → b.full_size < 2 ^ 32
    → 0 < offset
    → offset + k / 8 < b.full_size
    → offset + k' / 8 < b.full_size
    → b.bytes (offset + k / 8) < 256
    → k' ≢ k
    → p ≢ offset + k / 8
    → (is_present (set_presence_bit b k offset) k offset ≡ true)
      × (is_present (clear_presence_bit b k offset) k offset ≡ false)
      × (is_present (set_presence_bit b k offset) k' offset ≡ is_present b k' offset)
      × (is_present (clear_presence_bit b k offset) k' offset ≡ is_present b k' offset)
      × ((set_presence_bit b k offset).bytes p ≡ b.bytes p)
      × ((clear_presence_bit b k offset).bytes p ≡ b.bytes p)
unfolding is_present set_presence_bit clear_presence_bit to_address is_valid_magic is_valid_address
    store8
is_present-set_presence_bit b k k' offset p magic lim pos inside inside' byte other' other =
    let w = b.bytes (offset + k / 8) in
    let u : IsUpdate w (k % 8) = bit-IsUpdate w (k % 8) byte (omega arith) in
    let bits : k' % 8 ≢ k % 8
        → (bit (k' % 8) (set_bit (k % 8) w) ≡ bit (k' % 8) w)
          × (bit (k' % 8) (clear_bit (k % 8) w) ≡ bit (k' % 8) w) =
      other_bit w (k % 8) (k' % 8) byte (omega arith) (omega arith) in
    let before = present-bit b k' offset magic lim pos inside' in
    let set =
      present-bit (set_presence_bit b k offset) k' offset magic lim pos inside'
      ∙ ap (λ z. z == 1)
          (kept_bit b k k' offset byte other' (set_bit (k % 8) w) (u.1) (λ e. (bits e).0))
      ∙ sym before in
    let cleared =
      present-bit (clear_presence_bit b k offset) k' offset magic lim pos inside'
      ∙ ap (λ z. z == 1)
          (kept_bit b k k' offset byte other' (clear_bit (k % 8) w) (u.3) (λ e. (bits e).1))
      ∙ sym before in
    (now_set u, now_clear u, set, cleared, kept (set_bit (k % 8) w), kept (clear_bit (k % 8) w))
  where
    now_set :
        IsUpdate (b.bytes (offset + k / 8)) (k % 8)
        → is_present (set_presence_bit b k offset) k offset ≡ true
    now_set u = ground arith

    now_clear :
        IsUpdate (b.bytes (offset + k / 8)) (k % 8)
        → is_present (clear_presence_bit b k offset) k offset ≡ false
    now_clear u = ground arith

    kept : (v : ℕ) → store8 b.bytes (offset + k / 8) v p ≡ b.bytes p
    kept v = ground arith
