-- ===== src/Payload/Pushed.antt =====
-- Pushing a value to a vector whose block has room for it (phaser/runtime/payload_buffer.h).
use phaser.Prelude.{
  ℕ, ◌+◌, ◌-◌, ◌*◌, ◌%◌, ◌^◌, ◌≤◌, ◌<◌, ◌≡◌, ◌≢◌, ◌⊎◌, inl, inr, arith, ap, sym, ◌∙◌, Bool-cases,
}
use phaser.Prelude.{true, false, not, ◌&&◌, ltb, leb, ◌==◌, if◌then◌else◌, List, length, some}
use mathlib.Core.Path.{subst}
use native.Mathlib.Nat.{le-mul_of_pos_right, add-mul}
use phaser.Memory.{Mem, load32, load64, store32, store64, write_bytes, read_bytes}
use phaser.Memory.Words.{
  Apart, load32-Same, load32-store32_self, load32-store32_apart, store32_other,
}
use phaser.Memory.Moves.{store64_other}
use phaser.Memory.Bytes.{IsBytes, write_bytes_other, read_bytes-write_bytes, read_bytes_same}
use phaser.Payload.{Buffer}
use phaser.Payload.Words.{add32, small_word, is_small_word}
use phaser.Payload.Vectors.{
  num_elements, data_offset, block_capacity, push_in_place, vector_push, vector_push_slow,
}

-- A vector of values of `t` bytes at the header `hdr` whose block, apart from the header, has room for one
-- more.
pub record HasRoom (b : Buffer) (hdr t : ℕ) : Type 0 where
  pub there : hdr ≢ 0
  pub size : b.full_size < 2 ^ 32
  pub value : 0 < t
  pub block : 8 ≤ data_offset b hdr
  pub inside : data_offset b hdr + (num_elements b hdr + 1) * t ≤ b.full_size
  pub room :
      (num_elements b hdr + 1) * t
      ≤ block_capacity (load64 b.bytes (data_offset b hdr - 8) % 2 ^ 32)
  pub apart :
      (hdr + 8 ≤ data_offset b hdr - 8) ⊎ (data_offset b hdr + (num_elements b hdr + 1) * t ≤ hdr)

module _ (resize : Mem → ℕ → ℕ → Mem) (b : Buffer) (hdr t : ℕ) (v : List ℕ) (room : HasRoom b hdr t)
    (whole : length v ≡ t) (bytes : IsBytes v) where
  abbrev n : ℕ
  n = num_elements b hdr

  abbrev data_at : ℕ
  data_at = data_offset b hdr

  abbrev needed : ℕ
  needed = (n + 1) * t

  abbrev pub pushed : Buffer
  pushed = push_in_place b hdr t needed v

  -- No more values than bytes.
  few : n + 1 ≤ needed
  few = le-mul_of_pos_right (n + 1) (room.value)

  needed_eq : (n + 1) % 2 ^ 32 * t % 2 ^ 32 ≡ needed
  needed_eq =
      let e : (n + 1) % 2 ^ 32 ≡ n + 1 = omega (arith, few, room.inside, room.size) in
      let f : needed % 2 ^ 32 ≡ needed = omega (arith, room.inside, room.size) in
      ap (λ k. k * t % 2 ^ 32) e ∙ f

  fits :
      (not (data_at == 0)
        && (leb needed b.full_size
            && (leb data_at (b.full_size - needed)
                && leb needed (block_capacity (load64 b.bytes (data_at - 8) % 2 ^ 32)))))
      ≡ true
  fits = ground (arith, room.block, room.inside, room.room)

  pub vector_push-pushed : vector_push resize b hdr t v true ≡ some (pushed, true)
  unfolding vector_push
  vector_push-pushed =
      let word = load64 b.bytes (data_at - 8) % 2 ^ 32 in
      let slow = vector_push_slow resize b hdr t v true in
      let there : (hdr == 0) ≡ false = ground (arith, room.there) in
      (λ i.
        if there i
        then some (b, false)
        else if not (data_at == 0)
            && (leb (needed_eq i) b.full_size
                && (leb data_at (b.full_size - needed_eq i)
                    && leb (needed_eq i) (block_capacity word)))
        then some (push_in_place b hdr t (needed_eq i) v, true)
        else slow)
      ∙ (λ i. if fits i then some (pushed, true) else slow)

  -- The place of the new value, and the memory on the way.
  abbrev place : ℕ
  place = data_at + n * t

  place_eq : data_at + needed - t ≡ place
  place_eq = omega (arith, add-mul n 1 t)

  abbrev word : ℕ
  word = load64 b.bytes (data_at - 8) % 2 ^ 32

  abbrev sized : Mem
  sized =
      if is_small_word word && ltb (word % 256) needed
      then store64 b.bytes (data_at - 8) (small_word needed)
      else b.bytes

  abbrev stored : Mem
  stored = write_bytes sized place v

  abbrev final : Mem
  final = store32 stored hdr (add32 (load32 stored hdr) 1)

  pushed-bytes : pushed.bytes ≡ final
  unfolding push_in_place
  pushed-bytes = λ i.
      store32 (write_bytes sized (place_eq i) v) hdr
        (add32 (load32 (write_bytes sized (place_eq i) v) hdr) 1)

  sized_other : (p : ℕ) → Apart (data_at - 8) 8 p → sized p ≡ b.bytes p
  sized_other p out = elim (Bool-cases (is_small_word word && ltb (word % 256) needed)) [
    | inl e ↦
        (λ i. (if e i then store64 b.bytes (data_at - 8) (small_word needed) else b.bytes) p)
        ∙ store64_other b.bytes (data_at - 8) (small_word needed) p out
    | inr e ↦ λ i. (if e i then store64 b.bytes (data_at - 8) (small_word needed) else b.bytes) p
  ]

  stored_other : (p : ℕ) → Apart (data_at - 8) 8 p → Apart place t p → stored p ≡ b.bytes p
  stored_other p out out' =
      write_bytes_other sized place v p (subst (λ k. Apart place k p) (sym whole) out')
      ∙ sized_other p out

  -- The words of the header are apart from the block.
  header_word : (d : ℕ) → d ≤ 4 → load32 stored (hdr + d) ≡ load32 b.bytes (hdr + d)
  header_word d h =
      load32-Same b.bytes stored (hdr + d) (λ p lo hi. stored_other p (out p lo hi) (out' p lo hi))
    where
      out : (p : ℕ) → hdr + d ≤ p → p < hdr + d + 4 → Apart (data_at - 8) 8 p
      out p lo hi = ground (arith, room.apart, room.block)

      out' : (p : ℕ) → hdr + d ≤ p → p < hdr + d + 4 → Apart place t p
      out' p lo hi = ground (arith, room.apart, room.block, place_eq, add-mul n 1 t)

  count_word : load32 stored hdr ≡ n
  count_word =
      let e : hdr ≡ hdr + 0 = omega arith in
      ap (load32 stored) e ∙ header_word 0 (omega arith) ∙ sym (ap (load32 b.bytes) e)

  pub pushed-count : num_elements pushed hdr ≡ n + 1
  pushed-count =
      ap (λ m. load32 m hdr) pushed-bytes
      ∙ load32-store32_self stored hdr (add32 (load32 stored hdr) 1) (omega arith)
      ∙ omega (arith, count_word, few, room.inside, room.size)

  pub pushed-data : data_offset pushed hdr ≡ data_at
  pushed-data =
      ap (λ m. load32 m (hdr + 4)) pushed-bytes
      ∙ load32-store32_apart stored hdr _ (hdr + 4) (inr (omega arith))
      ∙ header_word 4 (omega arith)

  final_other : (p : ℕ) → data_at ≤ p → p < data_at + needed → final p ≡ stored p
  final_other p lo hi = store32_other stored hdr _ p (out p lo hi)
    where
      out : (p : ℕ) → data_at ≤ p → p < data_at + needed → Apart hdr 4 p
      out p lo hi = ground (arith, room.apart, room.block)

  pub pushed-value : read_bytes pushed.bytes place t ≡ v
  pushed-value =
      ap (λ m. read_bytes m place t) pushed-bytes
      ∙ read_bytes_same stored final place t
          (λ p lo hi. final_other p (omega arith) (omega (arith, add-mul n 1 t)))
      ∙ (λ i. read_bytes stored place (sym whole i))
      ∙ read_bytes-write_bytes sized place v bytes

  pub pushed-kept : (p : ℕ) → data_at ≤ p → p < place → pushed.bytes p ≡ b.bytes p
  pushed-kept p lo hi =
      ap (λ m. m p) pushed-bytes
      ∙ final_other p lo (omega (arith, add-mul n 1 t))
      ∙ stored_other p (inr (omega (arith, room.block))) (inl hi)
