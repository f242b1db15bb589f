-- ===== src/Fields/Walk.antt =====
-- The loop over a PrimitiveVectorField from begin to end (phaser/runtime/vectors.h, phaser/runtime/iterators.h).
use phaser.Prelude.{
  ℕ, zero, suc, ◌+◌, ◌-◌, ◌*◌, ◌%◌, ◌^◌, ◌<◌, ◌≤◌, ◌≡◌, ◌≢◌, ◌⊎◌, inl, inr, arith, ap, sym, ◌∙◌,
}
use phaser.Prelude.{Bool, true, false, ◌==◌, leb, if◌then◌else◌, List, [], ◌∷◌, Option, none, some}
use native.Mathlib.Nat.{suc-mul, mul-le-mul_right, le-mul_of_pos_right}
use phaser.Memory.{Mem, load32, read_bytes}
use phaser.Payload.{is_valid_magic, to_address, is_valid_address}
use phaser.Message.{Runtime, runtime_to_address, clamp_element_count, trusted_size}
use phaser.Message.Fits.{range_division}
use phaser.Fields.{Message, FieldLoc, find_field_offset}
use phaser.Fields.Vectors.{
  found_header, base_offset, size, values_at, zero_value, subscript, values_from, get_values,
}
use phaser.Fields.ArraySizes.{none_or_some}
use phaser.Fields.Iterators.{FieldIterator, increment, dereference, begin, end, same_place}

-- What a client's loop from `it` to `last` reads; `none` where `fuel` steps do not lead there.
unfoldable pub walk : ℕ → Message → ℕ → FieldIterator → FieldIterator → Option (List (List ℕ))
unfolding increment dereference
walk zero message t it last = if same_place it last then some [] else none
walk (suc fuel) message t it last =
    let rest = walk fuel message t (increment it t) last in
    if same_place it last
    then some []
    else elim rest [ none ↦ none | some values ↦ some (dereference message it t ∷ values) ]

-- A buffer of fewer than 2 ^ 31 bytes with a valid magic, mutable or received with a size.
pub record IsReadable (r : Runtime) : Type 0 where
  pub magic : is_valid_magic r.pb ≡ true
  pub some_bytes : (r.is_mutable ≡ true) ⊎ (r.size_or_mark ≢ 0)
  pub small : trusted_size r < 2 ^ 31

-- An offset with its bytes inside is an address.
address_inside :
    (r : Runtime) (offset t : ℕ)
    → IsReadable r
    → offset ≢ 0
    → t ≢ 0
    → offset + t ≤ trusted_size r
    → runtime_to_address r offset t ≡ offset
unfolding runtime_to_address to_address is_valid_address trusted_size
address_inside r offset t readable pos some_size inside =
    ground (arith, readable.magic, readable.some_bytes)

clamp-inside :
    (r : Runtime) (start claimed t : ℕ)
    → 0 < clamp_element_count r start claimed t
    → (start ≢ 0) × (start + clamp_element_count r start claimed t * t ≤ trusted_size r)
unfolding clamp_element_count
clamp-inside r start claimed zero h = absurd (ground arith)
clamp-inside r start claimed (suc k) h =
    let limit = trusted_size r in
    let division = range_division (clamp_element_count r start claimed (suc k)) k (limit - start) in
    ground (arith, division)

leb-false : (a b : ℕ) → b < a → leb a b ≡ false
leb-false a b h = ground arith

eq-true : (a b : ℕ) → a ≡ b → (a == b) ≡ true
eq-true a b h = ground arith

eq-false : (a b : ℕ) → a < b → (a == b) ≡ false
eq-false a b h = ground arith

-- What holds of the header's fields holds of what is read where there may be no header.
where_found :
    (none : Bool) (start count t limit : ℕ)
    → (0 < count → (start ≢ 0) × (start + count * t ≤ limit))
    → 0 < (if none then 0 else count)
    → ((if none then 0 else start) ≢ 0)
      × ((if none then 0 else start) + (if none then 0 else count) * t ≤ limit)
where_found true start count t limit h some_values = absurd (omega arith)
where_found false start count t limit h some_values = h some_values

size-inside :
    (message : Message) (loc : FieldLoc) (t : ℕ)
    → 0 < size message loc t
    → (base_offset message loc ≢ 0)
      × (base_offset message loc + size message loc t * t ≤ trusted_size message.runtime)
unfolding size base_offset
size-inside message loc t =
    let r = message.runtime in
    let hdr = found_header message (find_field_offset message loc) in
    let start = load32 r.pb.bytes (hdr + 4) in
    let claimed = load32 r.pb.bytes hdr in
    where_found (hdr == 0) start (clamp_element_count r start claimed t) t (trusted_size r)
      (clamp-inside r start claimed t)

module _ (message : Message) (loc : FieldLoc) (t : ℕ) (readable : IsReadable message.runtime)
    (some_size : 0 < t) where
  abbrev base : ℕ
  base = base_offset message loc

  abbrev n : ℕ
  n = size message loc t

  abbrev at_index : ℕ → FieldIterator
  at_index i = record { offset = base + i * t; reverse = false }

  module _ (some_values : 0 < n) where
    abbrev m : Mem
    m = message.runtime.pb.bytes

    row : (i : ℕ) → i < n → i * t + t ≤ n * t
    row i h =
        let whole : suc i * t ≤ n * t = mul-le-mul_right {m = suc i} {n = n} t (omega arith) in
        omega (arith, suc-mul i t, whole)

    index_small : (i : ℕ) → i < n → i < 2 ^ 31
    index_small i h =
        let inside = size-inside message loc t some_values in
        let count = le-mul_of_pos_right n some_size in
        omega (arith, inside.1, count, readable.small)

    address_here :
        (i : ℕ) → i < n → runtime_to_address message.runtime (base + i * t) t ≡ base + i * t
    address_here i h =
        let inside = size-inside message loc t some_values in
        address_inside message.runtime (base + i * t) t readable (λ e. inside.0 (omega arith))
          (λ e. omega arith) (omega (arith, inside.1, row i h))

    not_null : (i : ℕ) → (base + i * t == 0) ≡ false
    not_null i = let inside = size-inside message loc t some_values in ground (arith, inside.0)

    dereferenced :
        (i : ℕ) → i < n → dereference message (at_index i) t ≡ read_bytes m (base + i * t) t
    unfolding dereference
    dereferenced i h =
        (λ j. if address_here i h j == 0 then zero_value t else read_bytes m (address_here i h j) t)
        ∙ (λ j. if not_null i j then zero_value t else read_bytes m (base + i * t) t)

    subscripted : (i : ℕ) → i < n → subscript message loc t i ≡ read_bytes m (base + i * t) t
    unfolding subscript values_at
    subscripted i h =
        let e : base + 0 * t ≡ base = omega arith in
        let start : runtime_to_address message.runtime base t ≡ base =
          (λ j. runtime_to_address message.runtime (sym e j) t) ∙ address_here 0 some_values ∙ e in
        let low : leb (2 ^ 31) i ≡ false = leb-false (2 ^ 31) i (index_small i h) in
        let inside : leb n i ≡ false = leb-false n i h in
        let there : (base == 0) ≡ false = ap (λ q. q == 0) (sym e) ∙ not_null 0 in
        (λ j.
          if low j
          then zero_value t
          else if inside j
          then zero_value t
          else if start j == 0
          then zero_value t
          else read_bytes m (start j + i * t) t)
        ∙ (λ j. if there j then zero_value t else read_bytes m (base + i * t) t)

    read_same :
        (i : ℕ) → i < n → dereference message (at_index i) t ≡ subscript message loc t (i % 2 ^ 32)
    read_same i h =
        let e : i ≡ i % 2 ^ 32 = omega (arith, index_small i h) in
        dereferenced i h ∙ sym (subscripted i h) ∙ ap (subscript message loc t) e

    step : (i : ℕ) → i < n → increment (at_index i) t ≡ at_index (i + 1)
    unfolding increment
    step i h =
        let inside = size-inside message loc t some_values in
        let e : (base + i * t + t) % 2 ^ 32 ≡ base + (i + 1) * t =
          omega (arith, inside.1, row i h, readable.small, suc-mul i t) in
        λ j. record { offset = e j; reverse = false }

    walk-values_from :
        (left i : ℕ)
        → i + left ≡ n
        → walk left message t (at_index i) (at_index n) ≡ some (values_from message loc t left i)
    unfolding walk values_from
    walk-values_from zero i e =
        let f : i ≡ n = omega (arith, e) in
        let there : (base + i * t == base + n * t) ≡ true =
          eq-true (base + i * t) (base + n * t) (ap (λ q. base + q * t) f) in
        λ j. if there j then some [] else none
    walk-values_from (suc left) i e =
        let before : i < n = omega (arith, e) in
        let further : (base + i * t == base + n * t) ≡ false =
          eq-false (base + i * t) (base + n * t) (omega (arith, row i before)) in
        let go_on : Option (List (List ℕ)) → List ℕ → Option (List (List ℕ)) =
          λ rest v. elim rest [ none ↦ none | some values ↦ some (v ∷ values) ] in
        (λ j.
          if further j
          then some []
          else go_on (walk left message t (step i before j) (at_index n)) (read_same i before j))
        ∙ ap (λ rest. go_on rest (subscript message loc t (i % 2 ^ 32)))
            (walk-values_from left (i + 1) (omega (arith, e)))

    whole-walk :
        walk n message t (begin message loc) (end message loc t) ≡ some (get_values message loc t)
    unfolding begin end get_values
    whole-walk =
        let inside = size-inside message loc t some_values in
        let first : base % 2 ^ 32 ≡ base + 0 * t = omega (arith, inside.1, readable.small) in
        let last : (base + n * t) % 2 ^ 32 ≡ base + n * t =
          omega (arith, inside.1, readable.small) in
        (λ j.
          walk n message t (record { offset = first j; reverse = false })
            (record { offset = last j; reverse = false }))
        ∙ walk-values_from n 0 (omega arith)

  empty-walk :
      n ≡ 0
      → walk n message t (begin message loc) (end message loc t) ≡ some (get_values message loc t)
  unfolding begin end get_values walk values_from
  empty-walk e =
      let stop : ℕ → FieldIterator =
        λ q. record { offset = (base + q * t) % 2 ^ 32; reverse = false } in
      let at_end : (base % 2 ^ 32 == (base + 0 * t) % 2 ^ 32) ≡ true =
        eq-true (base % 2 ^ 32) ((base + 0 * t) % 2 ^ 32) (omega arith) in
      (λ j. walk (e j) message t (begin message loc) (stop (e j)))
      ∙ (λ j. if at_end j then some [] else none)
      ∙ ap (λ q. some (values_from message loc t q 0)) (sym e)

  -- A loop from begin to end over a vector field of values of one byte or more, of a message in a
  -- buffer of fewer than 2 ^ 31 bytes with a valid magic, mutable or received with a size, ends
  -- after as many steps as the vector has values and reads the values that Get returns.
  pub walk-get_values :
      walk n message t (begin message loc) (end message loc t) ≡ some (get_values message loc t)
  walk-get_values = elim (none_or_some n) [
    | inl e ↦ empty-walk e
    | inr some_values ↦ whole-walk (omega (arith, some_values))
  ]
