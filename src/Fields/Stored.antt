-- ===== src/Fields/Stored.antt =====
-- Setting and clearing a field with a single value (phaser/runtime/fields.h).
use phaser.Prelude.{
  ℕ, ◌+◌, ◌-◌, ◌*◌, ◌/◌, ◌%◌, ◌^◌, ◌≤◌, ◌<◌, ◌≡◌, ◌≢◌, inl, inr, arith, ap, sym, ◌∙◌,
}
use phaser.Prelude.{true, false, ◌==◌, if◌then◌else◌, none, some}
use phaser.Memory.{Mem, store8}
use phaser.Memory.Words.{Apart}
use phaser.Payload.{bit, set_bit, clear_bit}
use phaser.Payload.Presence.{set_presence_bit, clear_presence_bit, bit-IsUpdate}
use phaser.Message.{runtime_to_address, runtime_is_present}
use phaser.Fields.{
  Message, FieldLoc, done, threw, with_buffer, FieldType, size_of, load_value, store_bytes,
  find_field_offset, find_field_id, is_present_bit, store_value, clear_value,
}
use phaser.Fields.Scalar.{get, set, clear, is_present}
use phaser.Fields.Insert.{IsMutable}
use phaser.Fields.Values.{size_of-IsSize, stores, load_value-same}

-- The place of a field with a presence bit in a message that this process builds.
pub record IsPlaced (message : Message) (loc : FieldLoc) (t : FieldType) : Type 0 where
  pub mutable : IsMutable message
  pub start : 0 < message.start
  pub value : message.start + loc.offset + size_of t ≤ 2 ^ 32
  pub mask : message.start + 4 + loc.id / 8 < 2 ^ 32
  pub id : loc.id < 2 ^ 32 - 1
  pub byte : message.runtime.pb.bytes (message.start + 4 + loc.id / 8) < 256
  pub apart : Apart (message.start + loc.offset) (size_of t) (message.start + 4 + loc.id / 8)

known_offset :
    (message : Message) (loc : FieldLoc)
    → message.field_locations_known ≡ true
    → find_field_offset message loc ≡ some (loc.offset)
unfolding find_field_offset
known_offset message loc e = ground (arith, e)

known_id :
    (message : Message) (loc : FieldLoc)
    → message.field_locations_known ≡ true
    → find_field_id message loc ≡ loc.id
unfolding find_field_id
known_id message loc e = ground (arith, e)

address_here :
    (message : Message) (offset n : ℕ)
    → message.runtime.is_mutable ≡ true
    → runtime_to_address message.runtime offset n ≡ offset
unfolding runtime_to_address
address_here message offset n e = ground (arith, e)

size_pos : (t : FieldType) → 0 < size_of t
size_pos t = elim (size_of-IsSize t) [
  | inl e ↦ omega arith
  | inr (inl e) ↦ omega arith
  | inr (inr e) ↦ omega arith
]

module _ (message : Message) (loc : FieldLoc) (t : FieldType)
    (placed : IsPlaced message loc t) where
  abbrev m : Mem
  m = message.runtime.pb.bytes

  abbrev value_at : ℕ
  value_at = message.start + loc.offset

  abbrev mask_at : ℕ
  mask_at = message.start + 4 + loc.id / 8

  abbrev changed : Mem → Message
  changed m' = with_buffer message (record message.runtime.pb { bytes = m' })

  -- Reading the field and its presence in a message that differs in its bytes.
  get-changed : (m' : Mem) → get (changed m') loc t ≡ load_value m' value_at (size_of t)
  unfolding get
  get-changed m' =
      let e = known_offset (changed m') loc (placed.mutable.known) in
      let a =
        address_here (changed m') ((message.start + loc.offset) % 2 ^ 32) (size_of t)
          (placed.mutable.buffer) in
      let low : (message.start + loc.offset) % 2 ^ 32 ≡ value_at =
        omega (arith, placed.value, size_pos t) in
      let there : (value_at == 0) ≡ false = ground (arith, placed.start) in
      (λ i. elim (e i) [
        | none ↦ 0
        | some offset ↦
            let addr =
              runtime_to_address (changed m').runtime ((message.start + offset) % 2 ^ 32)
                (size_of t) in
            if addr == 0 then 0 else load_value m' addr (size_of t)
      ])
      ∙ (λ i. if (a ∙ low) i == 0 then 0 else load_value m' ((a ∙ low) i) (size_of t))
      ∙ (λ i. if there i then 0 else load_value m' value_at (size_of t))

  is_present-changed :
      (m' : Mem) → is_present (changed m') loc ≡ (bit (loc.id % 8) (m' mask_at) == 1)
  unfolding is_present is_present_bit runtime_is_present
  is_present-changed m' =
      let e = known_id (changed m') loc (placed.mutable.known) in
      let base : (message.start + 4) % 2 ^ 32 ≡ message.start + 4 = omega (arith, placed.mask) in
      let low : (message.start + 4 + loc.id / 8) % 2 ^ 32 ≡ mask_at = omega (arith, placed.mask) in
      let a = address_here (changed m') mask_at 1 (placed.mutable.buffer) in
      let off : (loc.id == 2 ^ 32 - 1) ≡ false = ground (arith, placed.id) in
      let there : (mask_at == 0) ≡ false = ground arith in
      ap (is_present_bit (changed m')) e
      ∙ (λ i.
          let p = runtime_to_address (changed m').runtime ((base i + loc.id / 8) % 2 ^ 32) 1 in
          if loc.id == 2 ^ 32 - 1
          then false
          else if p == 0
          then false
          else bit (loc.id % 8) (m' p) == 1)
      ∙ (λ i.
          let p = runtime_to_address (changed m').runtime (low i) 1 in
          if off i then false else if p == 0 then false else bit (loc.id % 8) (m' p) == 1)
      ∙ (λ i. if a i == 0 then false else bit (loc.id % 8) (m' (a i)) == 1)
      ∙ (λ i. if there i then false else bit (loc.id % 8) (m' mask_at) == 1)

  -- The memory once the value was stored, and once the bit was set or cleared.
  abbrev valued : ℕ → Mem
  valued v = store_bytes m value_at (size_of t) v

  abbrev marked : ℕ → Mem
  marked v = store8 (valued v) mask_at (set_bit (loc.id % 8) (valued v mask_at))

  abbrev unmarked : Mem
  unmarked = store8 m mask_at (clear_bit (loc.id % 8) (m mask_at))

  set-marked : (v : ℕ) → set message loc t v ≡ done (changed (marked v))
  unfolding set store_value set_presence_bit
  set-marked v =
      let b = message.runtime.pb in
      let low : (message.start + loc.offset) % 2 ^ 32 ≡ value_at =
        omega (arith, placed.value, size_pos t) in
      let base : (message.start + 4) % 2 ^ 32 ≡ message.start + 4 = omega (arith, placed.mask) in
      λ i.
        if placed.mutable.handle i
        then done (
            with_buffer message (
              set_presence_bit (record b { bytes = store_bytes m (low i) (size_of t) v }) loc.id
                (base i)))
        else threw

  clear-unmarked : clear message loc ≡ done (changed unmarked)
  unfolding clear clear_value clear_presence_bit
  clear-unmarked =
      let base : (message.start + 4) % 2 ^ 32 ≡ message.start + 4 = omega (arith, placed.mask) in
      λ i.
        if placed.mutable.handle i
        then done (with_buffer message (clear_presence_bit message.runtime.pb loc.id (base i)))
        else threw

  store8_other : (m' : Mem) (w p : ℕ) → p ≢ mask_at → store8 m' mask_at w p ≡ m' p
  unfolding store8
  store8_other m' w p h = ground arith

  store8_self : (m' : Mem) (w : ℕ) → store8 m' mask_at w mask_at ≡ w % 256
  unfolding store8
  store8_self m' w = ground arith

  kept_value :
      (m' : Mem) (w : ℕ)
      → load_value (store8 m' mask_at w) value_at (size_of t) ≡ load_value m' value_at (size_of t)
  kept_value m' w =
      load_value-same (size_of t) (size_of-IsSize t) m' (store8 m' mask_at w) value_at
        (λ p lo hi. store8_other m' w p (λ e. ground (arith, placed.apart, e, lo, hi)))

  -- Setting a field with a single value, whose presence bit lies apart from the value, in a
  -- mutable message at its compiled place succeeds; the field then has the value and is present,
  -- and no byte changes but the value's and that of the presence bit.
  pub set-get :
      (v : ℕ)
      → v < 2 ^ (8 * size_of t)
      → (message' : Message) × (set message loc t v ≡ done message')
        × (get message' loc t ≡ v)
        × (is_present message' loc ≡ true)
        × ((p : ℕ) → Apart value_at (size_of t) p → p ≢ mask_at → message'.runtime.pb.bytes p ≡ m p)
  set-get v small =
      let (loads, others) = stores (size_of t) (size_of-IsSize t) m value_at v small in
      let byte : valued v mask_at ≡ m mask_at = others mask_at (placed.apart) in
      let (on, fit, off, fit') =
        bit-IsUpdate (valued v mask_at) (loc.id % 8) (omega (arith, byte, placed.byte))
          (omega arith) in
      let w = set_bit (loc.id % 8) (valued v mask_at) in
      let at_mask : marked v mask_at ≡ w = store8_self (valued v) w ∙ omega (arith, fit) in
      let one : (bit (loc.id % 8) w == 1) ≡ true = ground (arith, on) in
      (
        changed (marked v),
        set-marked v,
        get-changed (marked v) ∙ kept_value (valued v) w ∙ loads,
        is_present-changed (marked v) ∙ ap (λ q. bit (loc.id % 8) q == 1) at_mask ∙ one,
        λ p out ne. store8_other (valued v) w p ne ∙ others p out,
      )

  pub clear-is_present :
      (message' : Message) × (clear message loc ≡ done message')
      × (is_present message' loc ≡ false)
      × (get message' loc t ≡ get message loc t)
  clear-is_present =
      let (on, fit, off, fit') =
        bit-IsUpdate (m mask_at) (loc.id % 8) (placed.byte) (omega arith) in
      let w = clear_bit (loc.id % 8) (m mask_at) in
      let at_mask : unmarked mask_at ≡ w = store8_self m w ∙ omega (arith, fit') in
      let gone : (bit (loc.id % 8) w == 1) ≡ false = ground (arith, off) in
      (
        changed unmarked,
        clear-unmarked,
        is_present-changed unmarked ∙ ap (λ q. bit (loc.id % 8) q == 1) at_mask ∙ gone,
        get-changed unmarked ∙ kept_value m w ∙ sym (get-changed m),
      )
