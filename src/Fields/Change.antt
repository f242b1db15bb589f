-- ===== src/Fields/Change.antt =====
-- The changes of a PrimitiveVectorField (phaser/runtime/vectors.h). A change whose allocation fails leaves
-- the vector as it was, without a sign of it.
use phaser.Prelude.{ℕ, zero, suc, ◌+◌, ◌-◌, Bool, true, ◌==◌}
use phaser.Prelude.{if◌then◌else◌, List, [], ◌∷◌, Option, none, some}
use phaser.Memory.{Mem, load64, store64}
use phaser.Payload.{Buffer}
use phaser.Payload.Vectors.{vector_push, vector_reserve, vector_resize, vector_clear}
use phaser.Fields.{
  Message, FieldLoc, Outcome, done, threw, undefined, out_of_fuel, with_buffer, with_mutable,
}
use phaser.Fields.Vectors.{header, size, values_at, get_values, set_value, move_last_to, move_down}

-- The message with the buffer that an operation of the payload buffer left.
abbrev pub installed : Message → Option (Buffer × Bool) → Outcome Message
installed message none = out_of_fuel
installed message (some (b, changed)) = done (with_buffer message b)

abbrev pub then_do {ℓ} : {A : Type ℓ} → Outcome Message → (Message → Outcome A) → Outcome A
then_do (done message) k = k message
then_do threw k = threw
then_do undefined k = undefined
then_do out_of_fuel k = out_of_fuel

-- Clear
unfoldable pub clear_vector : Message → FieldLoc → Outcome Message
unfolding header vector_clear
clear_vector message loc = with_mutable message λ b.
    elim (vector_clear b (header message loc.offset)) [
      | none ↦ out_of_fuel
      | some b' ↦ done (with_buffer message b')
    ]

-- The loop of resize(n, value) from `i` on.
unfoldable pub set_all : Message → FieldLoc → ℕ → ℕ → ℕ → List ℕ → Message
unfolding set_value
set_all message loc t zero i value = message
set_all message loc t (suc left) i value =
    set_all (set_value message loc t i value) loc t left (i + 1) value

module _ (realloc : Mem → ℕ → ℕ → Mem) where
  -- push_back, reserve and resize
  unfoldable pub push_back : Message → FieldLoc → ℕ → List ℕ → Outcome Message
  unfolding header vector_push
  push_back message loc t v =
      with_mutable message
        λ b. installed message (vector_push realloc b (header message loc.offset) t v true)

  unfoldable pub reserve : Message → FieldLoc → ℕ → ℕ → Outcome Message
  unfolding header vector_reserve
  reserve message loc t n =
      with_mutable message
        λ b. installed message (vector_reserve realloc b (header message loc.offset) t n true)

  unfoldable pub resize : Message → FieldLoc → ℕ → ℕ → Outcome Message
  unfolding header vector_resize
  resize message loc t n =
      with_mutable message
        λ b. installed message (vector_resize realloc b (header message loc.offset) t n)

  -- pop_back
  unfoldable pub pop_back : Message → FieldLoc → ℕ → Outcome Message
  unfolding size resize
  pop_back message loc t =
      let n = size message loc t in
      let shorter = resize message loc t (n - 1) in if n == 0 then done message else shorter

  -- resize(n, value) and assign(count, value)
  unfoldable pub resize_with : Message → FieldLoc → ℕ → ℕ → List ℕ → Outcome Message
  unfolding size resize set_all
  resize_with message loc t n value =
      let old_size = size message loc t in
      then_do (resize message loc t n)
        λ message. done (set_all message loc t (n - old_size) old_size value)

  unfoldable pub assign_count : Message → FieldLoc → ℕ → ℕ → List ℕ → Outcome Message
  unfolding clear_vector resize_with
  assign_count message loc t count value =
      then_do (clear_vector message loc) λ message. resize_with message loc t count value

  -- assign of a range, and Assign of another field, which reserves first.
  unfoldable pub push_all : Message → FieldLoc → ℕ → List (List ℕ) → Outcome Message
  unfolding push_back
  push_all message loc t [] = done message
  push_all message loc t (v ∷ vs) =
      then_do (push_back message loc t v) λ message. push_all message loc t vs

  unfoldable pub assign_range : Message → FieldLoc → ℕ → List (List ℕ) → Outcome Message
  unfolding clear_vector push_all
  assign_range message loc t values =
      then_do (clear_vector message loc) λ message. push_all message loc t values

  unfoldable pub assign : Message → FieldLoc → ℕ → Message → FieldLoc → Outcome Message
  unfolding clear_vector reserve size get_values push_all
  assign message loc t other other_loc = then_do (clear_vector message loc) λ message.
      then_do (reserve message loc t (size other other_loc t))
        λ message. push_all message loc t (get_values other other_loc t)

  -- insert, before the value `index`. Where the push failed on an empty vector, the code reads before
  -- its values.
  unfoldable pub insert : Message → FieldLoc → ℕ → ℕ → List ℕ → Outcome Message
  unfolding push_back size values_at move_last_to
  insert message loc t index value = then_do (push_back message loc t value) λ message.
      let b = message.runtime.pb in
      let m = move_last_to b.bytes (values_at message loc t) t (size message loc t) index in
      if size message loc t == 0
      then undefined
      else done (with_buffer message (record b { bytes = m }))

  -- erase of the values from `first` up to `last`
  unfoldable pub erase : Message → FieldLoc → ℕ → ℕ → ℕ → Outcome Message
  unfolding size values_at move_down resize
  erase message loc t first last = with_mutable message λ b.
      let n = size message loc t in
      let m = move_down b.bytes (values_at message loc t) t n first last in
      if first == last
      then done message
      else resize (with_buffer message (record b { bytes = m })) loc t (n - (last - first))

-- swap of two fields of one buffer: their headers change places.
unfoldable pub swap_headers : Message → FieldLoc → FieldLoc → Message
unfolding header
swap_headers message loc other =
    let b = message.runtime.pb in
    let mine = header message loc.offset in
    let theirs = header message other.offset in
    let kept = load64 b.bytes mine in
    let moved = store64 b.bytes mine (load64 b.bytes theirs) in
    with_buffer message (record b { bytes = store64 moved theirs kept })
