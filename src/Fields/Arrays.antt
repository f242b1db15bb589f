-- ===== src/Fields/Arrays.antt =====
-- PrimitiveArrayField (phaser/runtime/arrays.h): an array of a fixed number of values over the same header as a
-- vector's. `n` is its extent N, `t` is sizeof(T), and a value of T is its bytes. An array that was received
-- may have fewer values; those that are not there are read as zero.
use phaser.Prelude.{ℕ, zero, suc, ◌+◌, ◌-◌, ◌*◌, ◌%◌, ◌^◌, Bool, true, false, not, ◌==◌, ltb, leb}
use phaser.Prelude.{if◌then◌else◌, List, [], ◌∷◌, Option, none, some}
use phaser.Memory.{Mem, load32, store32, write_bytes, read_bytes}
use phaser.Payload.{Buffer}
use phaser.Payload.Vectors.{vector_reserve, vector_resize}
use phaser.Message.{runtime_to_address, clamp_element_count}
use phaser.Fields.{
  Message, FieldLoc, Outcome, done, threw, undefined, out_of_fuel, with_buffer, with_mutable,
}
use phaser.Fields.Vectors.{header, zero_value, equal_values}
use phaser.Fields.Change.{clear_vector, then_do}

-- BaseOffset and NumElements, of an array at its compiled place.
unfoldable pub array_base : Message → FieldLoc → ℕ
unfolding header
array_base message loc =
    let hdr = header message loc.offset in
    if hdr == 0 then 0 else load32 message.runtime.pb.bytes (hdr + 4)

unfoldable pub array_count : Message → FieldLoc → ℕ → ℕ
unfolding header clamp_element_count
array_count message loc t =
    let hdr = header message loc.offset in
    let m = message.runtime.pb.bytes in
    if hdr == 0
    then 0
    else clamp_element_count message.runtime (load32 m (hdr + 4)) (load32 m hdr) t

-- ActiveElementCount
unfoldable pub active_count : Message → FieldLoc → ℕ → ℕ → ℕ
unfolding array_count
active_count message loc n t =
    let count = array_count message loc t in if ltb n count then n else count

-- Where the values are, as the code that changes them and as StoragePointer find it; 0 for nullptr.
unfoldable pub array_values : Message → FieldLoc → ℕ → ℕ
unfolding array_base runtime_to_address
array_values message loc t = runtime_to_address message.runtime (array_base message loc) t

unfoldable pub storage_pointer : Message → FieldLoc → ℕ → ℕ
unfolding array_base array_values
storage_pointer message loc t =
    if array_base message loc == 0 then 0 else array_values message loc t

-- GetAt
unfoldable pub get_at : Message → FieldLoc → ℕ → ℕ → ℕ → List ℕ
unfolding array_count storage_pointer read_bytes
get_at message loc n t index =
    let base = storage_pointer message loc t in
    if leb n index
    then zero_value t
    else if leb (array_count message loc t) index
    then zero_value t
    else if base == 0
    then zero_value t
    else read_bytes message.runtime.pb.bytes (base + index * t) t

-- The loop of Get() over the whole array, from the index `i` on.
unfoldable pub array_from : Message → FieldLoc → ℕ → ℕ → ℕ → ℕ → List (List ℕ)
unfolding get_at
array_from message loc n t zero i = []
array_from message loc n t (suc left) i =
    get_at message loc n t i ∷ array_from message loc n t left (i + 1)

unfoldable pub get_array : Message → FieldLoc → ℕ → ℕ → List (List ℕ)
unfolding array_from
get_array message loc n t = array_from message loc n t n 0

-- operator==, of values that are equal where their bytes are, as those of integers and enums.
unfoldable pub equal_arrays : Message → FieldLoc → Message → FieldLoc → ℕ → ℕ → Bool
unfolding get_array
equal_arrays message loc other other_loc n t =
    equal_values (get_array message loc n t) (get_array other other_loc n t)

-- SetActiveCount
unfoldable pub set_active_count : Message → FieldLoc → ℕ → Message
unfolding header
set_active_count message loc count =
    let b = message.runtime.pb in
    with_buffer message
      (record b { bytes = store32 b.bytes (header message loc.offset) (count % 2 ^ 32) })

-- The loops `base[i] = T{}`, from the index `i` on.
unfoldable pub zero_from : Mem → ℕ → ℕ → ℕ → ℕ → Mem
unfolding write_bytes
zero_from m base t zero i = m
zero_from m base t (suc left) i =
    zero_from (write_bytes m (base + i * t) (zero_value t)) base t left (i + 1)

unfoldable pub zeroed : Message → FieldLoc → ℕ → ℕ → ℕ → Message
unfolding array_values zero_from set_active_count
zeroed message loc n t first =
    let b = message.runtime.pb in
    let base = array_values message loc t in
    let cleared =
      with_buffer message (record b { bytes = zero_from b.bytes base t (n - first) first }) in
    if base == 0 then message else set_active_count cleared loc n

-- What a step that succeeds or fails goes on with.
abbrev pub tried : Message → Option (Buffer × Bool) → Outcome (Message × Bool)
tried message none = out_of_fuel
tried message (some (b, fits)) = done (with_buffer message b, fits)

abbrev pub where_fits :
    Outcome (Message × Bool) → (Message → Outcome (Message × Bool)) → Outcome (Message × Bool)
where_fits (done (message, true)) k = k message
where_fits (done (message, false)) k = done (message, false)
where_fits threw k = threw
where_fits undefined k = undefined
where_fits out_of_fuel k = out_of_fuel

-- `if (!step) return`, and what the values become where it succeeds.
abbrev pub then_changed : Outcome (Message × Bool) → (Message → Message) → Outcome Message
then_changed (done (message, true)) k = done (k message)
then_changed (done (message, false)) k = done message
then_changed threw k = threw
then_changed undefined k = undefined
then_changed out_of_fuel k = out_of_fuel

module _ (realloc : Mem → ℕ → ℕ → Mem) where
  -- EnsureStorage
  unfoldable pub ensure_storage : Message → FieldLoc → ℕ → ℕ → Outcome (Message × Bool)
  unfolding header array_values vector_reserve vector_resize
  ensure_storage message loc t count =
      let reserve : Message → Outcome (Message × Bool) = λ message.
        with_mutable message
          λ b. tried message (vector_reserve realloc b (header message loc.offset) t count true) in
      let resize : Message → Outcome (Message × Bool) = λ message.
        with_mutable message
          λ b. tried message (vector_resize realloc b (header message loc.offset) t count) in
      let found : Message → Bool = λ message. not (header message loc.offset == 0) in
      let stored : Message → Outcome (Message × Bool) =
        λ message. done (message, not (array_values message loc t == 0)) in
      let resized : Message → Outcome (Message × Bool) = λ message.
        if found message then where_fits (resize message) stored else done (message, false) in
      if found message then where_fits (reserve message) resized else done (message, false)

  -- EnsureExtent
  unfoldable pub ensure_extent : Message → FieldLoc → ℕ → ℕ → Outcome Message
  unfolding array_count ensure_storage zeroed
  ensure_extent message loc n t =
      let current = array_count message loc t in
      let extended =
        then_changed (ensure_storage message loc t n) λ message. zeroed message loc n t current in
      if not message.runtime.is_mutable
      then done message
      else if leb n current
      then done message
      else extended

  -- Set, through operator[] and data, which both make sure of the extent. An array of a readonly message
  -- is written where it stands, whatever number of values it has.
  unfoldable pub set_at : Message → FieldLoc → ℕ → ℕ → ℕ → List ℕ → Outcome Message
  unfolding ensure_extent array_values write_bytes
  set_at message loc n t index v = then_do (ensure_extent message loc n t) λ message.
      then_do (ensure_extent message loc n t) λ message.
        let b = message.runtime.pb in
        let base = array_values message loc t in
        if base == 0
        then done message
        else if leb n index
        then undefined
        else done
            (with_buffer message (record b { bytes = write_bytes b.bytes (base + index * t) v }))

  -- BeginDeserialize is Clear of a vector; FinalizeDeserialize is EnsureExtent.
  unfoldable pub clear_array : Message → FieldLoc → ℕ → ℕ → Outcome Message
  unfolding clear_vector ensure_storage zeroed
  clear_array message loc n t =
      then_do (clear_vector message loc)
        λ message. then_changed (ensure_storage message loc t n) λ message. zeroed message loc n t 0

  -- The loop of Assign from the index `i` on.
  unfoldable pub set_each : Message → FieldLoc → ℕ → ℕ → ℕ → List (List ℕ) → Outcome Message
  unfolding set_at
  set_each message loc n t i [] = done message
  set_each message loc n t i (v ∷ vs) =
      then_do (set_at message loc n t i v) λ message. set_each message loc n t (i + 1) vs

  unfoldable pub assign_array : Message → FieldLoc → ℕ → ℕ → Message → FieldLoc → Outcome Message
  unfolding clear_array set_each get_array
  assign_array message loc n t other other_loc =
      then_do (clear_array message loc n t)
        λ message. set_each message loc n t 0 (get_array other other_loc n t)
