-- ===== src/Fields/Text.antt =====
-- String fields (phaser/runtime/fields.h): BasicStringField, and the changes of StringFieldFacade, which
-- build the new string outside of the buffer.
use phaser.Prelude.{ℕ, ◌+◌, ◌-◌, ◌%◌, ◌^◌, Bool, true, false, not, ◌&&◌, ltb, leb, ◌==◌}
use phaser.Prelude.{if◌then◌else◌, List, [], ◌∷◌, ◌++◌, length, take, drop, Option, none, some}
use phaser.Memory.{Mem, load32, store32, read_bytes}
use phaser.Payload.SetString.{Source, outside, set_string, clear_built_string, allocate_string}
use phaser.Message.{runtime_to_address, runtime_to_offset, get_string_view}
use phaser.Wire.{ProtoBuffer, Result, ok, err, M}
use phaser.Wire.Ints.{length_delimited_size}
use phaser.Wire.Write.{serialize_length_delimited}
use phaser.Wire.Read.{deserialize_length_delimited}
use phaser.Fields.{
  Message, FieldLoc, Outcome, done, threw, out_of_fuel, with_buffer, with_mutable,
  find_field_offset,
}

-- StringHeaderOffset
unfoldable pub string_header_offset : Message → FieldLoc → ℕ
unfolding find_field_offset
string_header_offset message loc = elim (find_field_offset message loc) [
  | none ↦ (message.start + loc.offset) % 2 ^ 32
  | some offset ↦ (message.start + offset) % 2 ^ 32
]

-- Get: the place and the length of the string, `none` for an empty view.
unfoldable pub get_view : Message → FieldLoc → Option (ℕ × ℕ)
unfolding find_field_offset get_string_view
get_view message loc = elim (find_field_offset message loc) [
  | none ↦ none
  | some offset ↦ get_string_view message.runtime ((message.start + offset) % 2 ^ 32)
]

abbrev pub bytes_of : Mem → Option (ℕ × ℕ) → List ℕ
bytes_of m none = []
bytes_of m (some (at, n)) = read_bytes m at n

-- The bytes that Get shows.
unfoldable pub get_string : Message → FieldLoc → List ℕ
unfolding get_view read_bytes
get_string message loc = bytes_of message.runtime.pb.bytes (get_view message loc)

-- size, and data, 0 for nullptr
abbrev pub view_size : Option (ℕ × ℕ) → ℕ
view_size none = 0
view_size (some (at, n)) = n

unfoldable pub string_size : Message → FieldLoc → ℕ
unfolding get_view
string_size message loc = view_size (get_view message loc)

-- IsPresent
unfoldable pub string_is_present : Message → FieldLoc → Bool
unfolding find_field_offset runtime_to_address
string_is_present message loc = elim (find_field_offset message loc) [
  | none ↦ false
  | some offset ↦
      let addr = runtime_to_address message.runtime ((message.start + offset) % 2 ^ 32) 4 in
      not (addr == 0) && not (load32 message.runtime.pb.bytes addr == 0)
]

-- SetNoCopy, of data at the address `text_at`.
unfoldable pub set_no_copy : Message → FieldLoc → ℕ → Message
unfolding string_header_offset runtime_to_address runtime_to_offset
set_no_copy message loc text_at =
    let b = message.runtime.pb in
    let header = runtime_to_address message.runtime (string_header_offset message loc) 4 in
    with_buffer message
      (record b { bytes = store32 b.bytes header (runtime_to_offset message.runtime text_at 1) })

module _ (resize : Mem → ℕ → ℕ → Mem) where
  -- Set: the message, and whether the string was stored.
  unfoldable pub set_source : Message → FieldLoc → Source → ℕ → Outcome (Message × Bool)
  unfolding string_header_offset set_string
  set_source message loc s len = with_mutable message λ b.
      elim (set_string resize b s len (string_header_offset message loc)) [
        | none ↦ out_of_fuel
        | some (b', block) ↦ done (with_buffer message b', not (block == 0))
      ]

  -- Set of bytes outside of the buffer.
  unfoldable pub set_text : Message → FieldLoc → List ℕ → Outcome (Message × Bool)
  unfolding set_source
  set_text message loc value = set_source message loc (outside value) (length value)

  -- Clear
  unfoldable pub clear_text : Message → FieldLoc → Outcome Message
  unfolding string_header_offset clear_built_string
  clear_text message loc = with_mutable message λ b.
      elim (clear_built_string b (string_header_offset message loc)) [
        | none ↦ out_of_fuel
        | some b' ↦ done (with_buffer message b')
      ]

  -- Allocate: where the string starts.
  unfoldable pub allocate_text : Message → FieldLoc → ℕ → Bool → Outcome (Message × ℕ)
  unfolding string_header_offset allocate_string
  allocate_text message loc size clear = with_mutable message λ b.
      elim (allocate_string resize b size (string_header_offset message loc) clear) [
        | none ↦ out_of_fuel
        | some (b', at) ↦ done (with_buffer message b', at)
      ]

  -- Deserialize: the buffer, and the message where a string was read; `false` is the error of a failed
  -- allocation.
  unfoldable pub deserialize_text :
      Message → FieldLoc → ProtoBuffer → ProtoBuffer × Result (Outcome (Message × Bool))
  unfolding set_text
  deserialize_text message loc b =
      let (b', value) = deserialize_length_delimited b in
      elim value [ ok s ↦ (b', ok (set_text message loc s)) | err e ↦ (b', err e) ]

  -- StringFieldFacade::Mutate: the string is copied, changed and set.
  unfoldable pub mutate : Message → FieldLoc → (List ℕ → List ℕ) → Outcome (Message × Bool)
  unfolding get_string set_text
  mutate message loc change = set_text message loc (change (get_string message loc))

  -- append, push_back, pop_back, resize, erase, insert and replace; a position behind the end throws.
  unfoldable pub append_text : Message → FieldLoc → List ℕ → Outcome (Message × Bool)
  unfolding mutate
  append_text message loc value = mutate message loc (λ current. current ++ value)

  unfoldable pub erase_text : Message → FieldLoc → ℕ → ℕ → Outcome (Message × Bool)
  unfolding mutate get_string
  erase_text message loc pos count =
      if ltb (length (get_string message loc)) pos
      then threw
      else mutate message loc (λ current. take pos current ++ drop count (drop pos current))

  unfoldable pub insert_text : Message → FieldLoc → ℕ → List ℕ → Outcome (Message × Bool)
  unfolding mutate get_string
  insert_text message loc pos value =
      if ltb (length (get_string message loc)) pos
      then threw
      else mutate message loc (λ current. take pos current ++ (value ++ drop pos current))

  unfoldable pub replace_text : Message → FieldLoc → ℕ → ℕ → List ℕ → Outcome (Message × Bool)
  unfolding mutate get_string
  replace_text message loc pos count value =
      if ltb (length (get_string message loc)) pos
      then threw
      else mutate message loc
          (λ current. take pos current ++ (value ++ drop count (drop pos current)))

-- SerializedSize and Serialize
unfoldable pub text_serialized_size : Message → FieldLoc → ℕ
unfolding string_size
text_serialized_size message loc = length_delimited_size loc.number (string_size message loc)

unfoldable pub serialize_text : Bool → Message → FieldLoc → M (Unit {0})
unfolding get_string
serialize_text check_space message loc =
    serialize_length_delimited check_space loc.number (get_string message loc)

-- StringFieldFacade::starts_with and ends_with.
abbrev pub equal_bytes : List ℕ → List ℕ → Bool
equal_bytes [] [] = true
equal_bytes (x ∷ xs) (y ∷ ys) = let rest = equal_bytes xs ys in x == y && rest
equal_bytes _ _ = false

unfoldable pub starts_with : List ℕ → List ℕ → Bool
starts_with value prefix =
    leb (length prefix) (length value) && equal_bytes (take (length prefix) value) prefix

unfoldable pub ends_with : List ℕ → List ℕ → Bool
ends_with value suffix =
    leb (length suffix) (length value)
    && equal_bytes (drop (length value - length suffix) value) suffix
