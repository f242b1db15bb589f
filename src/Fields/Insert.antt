-- ===== src/Fields/Insert.antt =====
-- Inserting a value into a vector field whose block has room (phaser/runtime/vectors.h).
use phaser.Prelude.{
  ℕ, zero, suc, ◌+◌, ◌-◌, ◌*◌, ◌/◌, ◌%◌, ◌^◌, ◌≤◌, ◌<◌, ◌≡◌, ◌≢◌, ◌⊎◌, arith, ap, sym, ◌∙◌,
}
use phaser.Prelude.{true, false, ◌==◌, if◌then◌else◌, List, length, some}
use mathlib.Core.Path.{subst}
use native.Mathlib.Nat.{le-mul_of_pos_right}
use phaser.Memory.{Mem, load32}
use phaser.Memory.Words.{load32-Same}
use phaser.Memory.Bytes.{IsBytes}
use phaser.Payload.{Buffer}
use phaser.Payload.Vectors.{num_elements, data_offset, push_in_place, vector_push}
use phaser.Payload.Pushed.{
  HasRoom, pushed, vector_push-pushed, pushed-count, pushed-data, pushed-value, pushed-kept,
}
use phaser.Message.{Runtime, runtime_to_address, clamp_element_count, trusted_size}
use phaser.Message.Fits.{range_division}
use phaser.Fields.{
  Message, FieldLoc, Outcome, done, threw, undefined, with_buffer, find_field_offset,
}
use phaser.Fields.Vectors.{header, found_header, base_offset, size, values_at, move_last_to}
use phaser.Fields.Change.{push_back, insert, installed, then_do}
use phaser.Fields.Moves.{
  elements, elements_shift, insert_at, move_last_to-insert_at, move_last_to_other,
}

-- The values of the vector field at `loc`, as its header in the payload gives them.
abbrev pub vector_values : Message → FieldLoc → ℕ → List (List ℕ)
vector_values message loc t =
    let b = message.runtime.pb in
    let hdr = (message.start + loc.offset) % 2 ^ 32 in
    elements b.bytes (data_offset b hdr) t (num_elements b hdr)

-- A handle of a message that this process builds.
pub record IsMutable (message : Message) : Type 0 where
  pub handle : message.mutable ≡ true
  pub buffer : message.runtime.is_mutable ≡ true
  pub known : message.field_locations_known ≡ true

module _ (message : Message) (loc : FieldLoc) (mutable : IsMutable message) where
  abbrev hdr : ℕ
  hdr = (message.start + loc.offset) % 2 ^ 32

  header_here : header message loc.offset ≡ hdr
  unfolding header runtime_to_address
  header_here = ground (arith, mutable.buffer)

  found_here : found_header message (find_field_offset message loc) ≡ hdr
  unfolding find_field_offset header
  found_here =
      let known = mutable.known in
      let e : find_field_offset message loc ≡ some (loc.offset) = ground (arith, known) in
      ap (found_header message) e ∙ header_here

  base_here : hdr ≢ 0 → base_offset message loc ≡ data_offset message.runtime.pb hdr
  unfolding base_offset
  base_here there =
      let e : (hdr == 0) ≡ false = ground arith in
      (λ i. if found_here i == 0 then 0 else load32 message.runtime.pb.bytes (found_here i + 4))
      ∙ (λ i. if e i then 0 else load32 message.runtime.pb.bytes (hdr + 4))

  values_here : (t : ℕ) → hdr ≢ 0 → values_at message loc t ≡ data_offset message.runtime.pb hdr
  unfolding values_at runtime_to_address
  values_here t there = ground (arith, mutable.buffer, base_here there)

clamp-claimed :
    (r : Runtime) (values_start claimed t : ℕ)
    → r.is_mutable ≡ true
    → values_start ≢ 0
    → 0 < t
    → 0 < claimed
    → values_start + claimed * t ≤ r.pb.full_size
    → clamp_element_count r values_start claimed t ≡ claimed
unfolding clamp_element_count trusted_size
clamp-claimed r values_start claimed zero mutable there pos some_values fit = absurd (omega arith)
clamp-claimed r values_start claimed (suc k) mutable there pos some_values fit =
    let available : claimed ≤ (r.pb.full_size - values_start) / suc k =
      ground (arith, range_division claimed k (r.pb.full_size - values_start)) in
    let large : 0 < claimed * suc k = le_trans_lt claimed k some_values in
    ground (arith, available, mutable)
  where
    le_trans_lt : (c k : ℕ) → 0 < c → 0 < c * suc k
    le_trans_lt c k h = let e = le-mul_of_pos_right {m = suc k} c (omega arith) in omega arith

module _ (message : Message) (loc : FieldLoc) (mutable : IsMutable message) where
  size_here :
      (t : ℕ)
      → hdr message loc mutable ≢ 0
      → data_offset message.runtime.pb (hdr message loc mutable) ≢ 0
      → 0 < t
      → 0 < num_elements message.runtime.pb (hdr message loc mutable)
      → data_offset message.runtime.pb (hdr message loc mutable)
          + num_elements message.runtime.pb (hdr message loc mutable) * t
        ≤ message.runtime.pb.full_size
      → size message loc t ≡ num_elements message.runtime.pb (hdr message loc mutable)
  unfolding size
  size_here t there block pos some_values fit =
      let h = hdr message loc mutable in
      let r = message.runtime in
      let m = r.pb.bytes in
      let e : (h == 0) ≡ false = ground arith in
      (λ i.
        let q = found_here message loc mutable i in
        if q == 0 then 0 else clamp_element_count r (load32 m (q + 4)) (load32 m q) t)
      ∙ (λ i. if e i then 0 else clamp_element_count r (load32 m (h + 4)) (load32 m h) t)
      ∙ clamp-claimed r (load32 m (h + 4)) (load32 m h) t (mutable.buffer) block pos some_values fit

module _ (realloc : Mem → ℕ → ℕ → Mem) (message : Message) (loc : FieldLoc)
    (mutable : IsMutable message) (t : ℕ) (v : List ℕ)
    (room : HasRoom (message.runtime.pb) ((message.start + loc.offset) % 2 ^ 32) t)
    (whole : length v ≡ t) (bytes : IsBytes v) where
  abbrev b : Buffer
  b = message.runtime.pb

  abbrev h : ℕ
  h = (message.start + loc.offset) % 2 ^ 32

  abbrev b' : Buffer
  b' = pushed realloc b h t v room whole bytes

  abbrev message' : Message
  message' = with_buffer message b'

  push_back-pushed : push_back realloc message loc t v ≡ done message'
  unfolding push_back
  push_back-pushed =
      let push : Message → ℕ → Outcome Message =
        λ message a. installed message (vector_push realloc b a t v true) in
      let e : push_back realloc message loc t v ≡ push message (header message loc.offset) =
        λ i. if mutable.handle i then push message (header message loc.offset) else threw in
      e
      ∙ ap (push message) (header_here message loc mutable)
      ∙ ap (installed message) (vector_push-pushed realloc b h t v room whole bytes)

  mutable' : IsMutable message'
  mutable' = record { handle = mutable.handle; buffer = mutable.buffer; known = mutable.known }

  abbrev n : ℕ
  n = num_elements b h

  abbrev values_start : ℕ
  values_start = data_offset b h

  count : num_elements b' h ≡ n + 1
  count = pushed-count realloc b h t v room whole bytes

  start : data_offset b' h ≡ values_start
  start = pushed-data realloc b h t v room whole bytes

  pushed-size : size message' loc t ≡ n + 1
  unfolding push_in_place
  pushed-size =
      let end : data_offset b' h + num_elements b' h * t ≡ values_start + (n + 1) * t =
        λ i. start i + count i * t in
      size_here message' loc mutable' t (room.there) (λ e. omega (arith, room.block, start, e))
        (room.value) (omega (arith, count)) (omega (arith, end, room.inside))
      ∙ count

  pushed-start : values_at message' loc t ≡ values_start
  pushed-start = values_here message' loc mutable' t (room.there) ∙ start

  abbrev moved : ℕ → Mem
  moved index = move_last_to b'.bytes values_start t (n + 1) index

  abbrev message'' : ℕ → Message
  message'' index = with_buffer message' (record b' { bytes = moved index })

  insert-moved : (index : ℕ) → insert realloc message loc t index v ≡ done (message'' index)
  unfolding insert
  insert-moved index =
      let k : ℕ → ℕ → Outcome Message = λ base count.
        if count == 0
        then undefined
        else done (
            with_buffer message'
              (record b' { bytes = move_last_to b'.bytes base t count index })) in
      let some_values : (n + 1 == 0) ≡ false = ground arith in
      ap
        (λ o. then_do o λ message.
          if size message loc t == 0
          then undefined
          else done (
              with_buffer message (record message.runtime.pb {
                bytes =
                    move_last_to message.runtime.pb.bytes (values_at message loc t) t
                      (size message loc t) index;
              })))
        push_back-pushed
      ∙ (λ i. k (pushed-start i) (pushed-size i))
      ∙ (λ i. if some_values i then undefined else done (message'' index))

  -- The header's words are not among the values.
  header-moved :
      (index d : ℕ) → index ≤ n → d ≤ 4 → load32 (moved index) (h + d) ≡ load32 b'.bytes (h + d)
  header-moved index d le small =
      load32-Same b'.bytes (moved index) (h + d)
        (λ p lo hi. move_last_to_other b'.bytes values_start t n index p le (out p lo hi))
    where
      out :
          (p : ℕ)
          → h + d ≤ p
          → p < h + d + 4
          → (p < values_start) ⊎ (values_start + (n + 1) * t ≤ p)
      out p lo hi = ground (arith, room.apart)

  moved-values :
      (index : ℕ)
      → index ≤ n
      → elements (moved index) values_start t (n + 1)
        ≡ insert_at index v (elements b.bytes values_start t n)
  moved-values index le =
      let value = pushed-value realloc b h t v room whole bytes in
      let kept : elements b'.bytes values_start t n ≡ elements b.bytes values_start t n =
        elements_shift b.bytes b'.bytes t n values_start values_start (λ k lt.
          pushed-kept realloc b h t v room whole bytes (values_start + k) (omega arith)
            (omega arith)) in
      move_last_to-insert_at b'.bytes values_start t n index (subst IsBytes (sym value) bytes) le
      ∙ (λ i. insert_at index (value i) (kept i))

  -- Inserting a value into a vector field of a mutable message, before the value at a position up
  -- to the vector's end, succeeds where the vector's block has room for one more and lies apart
  -- from its header, and the values are then those of the list with the value inserted there.
  pub insert-insert_at :
      (index : ℕ)
      → index ≤ n
      → (message2 : Message) × (insert realloc message loc t index v ≡ done message2)
        × (vector_values message2 loc t ≡ insert_at index v (vector_values message loc t))
  insert-insert_at index le =
      let e : h ≡ h + 0 = omega arith in
      let words : num_elements (record b' { bytes = moved index }) h ≡ n + 1 =
        ap (load32 (moved index)) e
        ∙ header-moved index 0 le (omega arith)
        ∙ sym (ap (load32 b'.bytes) e)
        ∙ count in
      let at = header-moved index 4 le (omega arith) ∙ start in
      (
        message'' index,
        insert-moved index,
        (λ i. elements (moved index) (at i) t (words i)) ∙ moved-values index le,
      )
