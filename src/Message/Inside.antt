-- ===== src/Message/Inside.antt =====
-- The elements of a received vector of messages lie in the bytes that were received
-- (phaser/runtime/message.h).
use phaser.Prelude.{ℕ, ◌+◌, ◌*◌, ◌^◌, ◌≤◌, ◌<◌, ◌≡◌, refl, ap, ◌∙◌, ◌⊎◌, inl, inr, arith}
use phaser.Prelude.{Bool, true, false, ltb, if◌then◌else◌}
use phaser.Memory.{Mem}
use phaser.Message.{Runtime, trusted_size}
use phaser.Message.Chunks.{
  Layout, load_received_layout, chunk_shift, message_vector_element, no_layout, layout_capacity,
  block_fails, directory_fails, layout_of, directory_of,
}
use phaser.Message.Elements.{chunk_shift-bounds}
use native.Mathlib.Nat.{pow-le-pow_right, mul-le-mul_left, mul-le-mul_right}

-- What the tests on a received layout establish, for a buffer of `size` bytes.
record Fits (size : ℕ) (l : Layout) : Type 0 where
  first : l.block + 16 + l.first_capacity * l.stride ≤ size
  some_first : 0 < l.first_capacity
  chunks : l.num_chunks ≤ 31
  directory : (l.num_chunks ≡ 0) ⊎ (l.directory + (l.num_chunks + 1) * 4 ≤ size)

block_fits :
    (m : Mem) (size block : ℕ)
    → block_fails m size block ≡ false
    → (block + 16 + (layout_of m block).first_capacity * (layout_of m block).stride ≤ size)
      × (0 < (layout_of m block).first_capacity)
unfolding block_fails
block_fits m size block h = ground arith

directory_fits :
    (m : Mem) (size block : ℕ)
    → directory_fails m size (directory_of m block) ≡ false
    → ((layout_of m block).num_chunks ≤ 31)
      × (((layout_of m block).num_chunks ≡ 0)
          ⊎ (directory_of m block + ((layout_of m block).num_chunks + 1) * 4 ≤ size))
unfolding directory_fails
directory_fits m size block h = ground arith

pick :
    (P : Layout → Type 0) (t : Bool) (x y : Layout)
    → P x
    → (t ≡ false → P y)
    → P (if t then x else y)
pick P true x y px py = px
pick P false x y px py = py refl

load_received-Fits :
    (r : Runtime) (block : ℕ)
    → (load_received_layout r block ≡ no_layout)
      ⊎ Fits (trusted_size r) (load_received_layout r block)
unfolding load_received_layout
load_received-Fits r block =
    let m = r.pb.bytes in
    let P : Layout → Type 0 = λ l. (l ≡ no_layout) ⊎ Fits (trusted_size r) l in
    pick P _ no_layout _ (inl refl) λ e0.
      pick P (block_fails m (trusted_size r) block) no_layout _ (inl refl) λ e1.
        pick P (directory_fails m (trusted_size r) (directory_of m block)) no_layout _ (inl refl)
          λ e2.
            let (f, s) = block_fits m (trusted_size r) block e1 in
            let (c, d) = directory_fits m (trusted_size r) block e2 in
            inr (record { first = f; some_first = s; chunks = c; directory = d })

module _ (r : Runtime) (l : Layout) (index : ℕ) (readonly : r.is_mutable ≡ false)
    (lim : trusted_size r < 2 ^ 32) (fits : Fits (trusted_size r) l)
    (index-lt : index < 2 ^ 32) where
  in_first : index < l.first_capacity → message_vector_element r l index + l.stride ≤ trusted_size r
  unfolding message_vector_element
  in_first h =
      let e : (ltb index l.first_capacity) ≡ true = ground arith in
      let room : (index + 1) * l.stride ≤ l.first_capacity * l.stride =
        mul-le-mul_right l.stride (next h) in
      let f = fits.first in rw e (omega arith)
    where
      next : {x y : ℕ} → x < y → x + 1 ≤ y
      next h = omega arith

  in_chunk :
      l.first_capacity ≤ index
      → (message_vector_element r l index ≡ 0)
        ⊎ (message_vector_element r l index + l.stride ≤ trusted_size r)
  unfolding message_vector_element
  in_chunk h = ground arith

  directory_word :
      l.first_capacity ≤ index
      → index < layout_capacity l
      → l.directory + (chunk_shift l.first_capacity index + 1) * 4 + 4 ≤ trusted_size r
  unfolding layout_capacity
  directory_word h below =
      let (low, high, small) =
        chunk_shift-bounds l.first_capacity index (fits.some_first) h index-lt in
      let s = chunk_shift l.first_capacity index in
      let f = fits.some_first in
      elim (cases s) [
        | inl lt ↦ elim (fits.directory) [ inl none ↦ absurd (omega arith) | inr d ↦ omega arith ]
        | inr ge ↦
            let up : 2 ^ l.num_chunks ≤ 2 ^ s = pow-le-pow_right two ge in
            let more : l.first_capacity * 2 ^ l.num_chunks ≤ l.first_capacity * 2 ^ s =
              mul-le-mul_left l.first_capacity up in
            absurd (omega arith)
      ]
    where
      cases : (s : ℕ) → (s < l.num_chunks) ⊎ (l.num_chunks ≤ s)
      cases s = ground arith

      two : 0 < 2
      two = omega arith

no_capacity : layout_capacity no_layout ≡ 0
unfolding layout_capacity
no_capacity = refl

-- Whatever a received buffer of fewer than 2 ^ 32 bytes holds, an element below the capacity of
-- the layout that was read from it is inside, with its whole stride, or nullptr; and the word of
-- the directory that leads to it is inside.
pub message_vector_element-inside :
    (r : Runtime) (block index : ℕ)
    → r.is_mutable ≡ false
    → trusted_size r < 2 ^ 32
    → index < 2 ^ 32
    → index < layout_capacity (load_received_layout r block)
    → ((message_vector_element r (load_received_layout r block) index ≡ 0)
        ⊎ (message_vector_element r (load_received_layout r block) index
              + (load_received_layout r block).stride
            ≤ trusted_size r))
      × ((index < (load_received_layout r block).first_capacity)
          ⊎ ((load_received_layout r block).directory
                + (chunk_shift ((load_received_layout r block).first_capacity) index + 1) * 4
                + 4
              ≤ trusted_size r))
message_vector_element-inside r block index readonly lim index-lt below =
    elim (load_received-Fits r block) [
      | inl e ↦ absurd (no_element e)
      | inr fits ↦ elim (cases ((load_received_layout r block).first_capacity)) [
        | inl h ↦ (
          inr (in_first r (load_received_layout r block) index readonly lim fits index-lt h),
          inl h,
        )
        | inr h ↦ (
          in_chunk r (load_received_layout r block) index readonly lim fits index-lt h,
          inr (
              directory_word r (load_received_layout r block) index readonly lim fits index-lt h
                below),
        )
      ]
    ]
  where
    cases : (c : ℕ) → (index < c) ⊎ (c ≤ index)
    cases c = ground arith

    no_element : load_received_layout r block ≡ no_layout → ⊥
    no_element e = omega (arith, ap layout_capacity e ∙ no_capacity)
