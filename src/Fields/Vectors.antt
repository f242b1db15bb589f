-- ===== src/Fields/Vectors.antt =====
-- PrimitiveVectorField (phaser/runtime/vectors.h): a vector in the payload buffer under the interface of
-- std::vector. `t` is sizeof(T), and a value of T is its bytes.
use phaser.Prelude.{ℕ, zero, suc, ◌+◌, ◌-◌, ◌*◌, ◌%◌, ◌^◌, Bool, true, false, ◌&&◌}
use phaser.Prelude.{leb, ◌==◌, if◌then◌else◌, List, [], ◌∷◌, Option, none, some}
use phaser.Memory.{Mem, load32, copy, write_bytes, read_bytes}
use phaser.Message.{runtime_to_address, clamp_element_count, allocated_capacity}
use phaser.Fields.{Message, FieldLoc, with_buffer, find_field_offset}
use phaser.Fields.Text.{equal_bytes}

-- Header
unfoldable pub header : Message → ℕ → ℕ
unfolding runtime_to_address
header message offset = runtime_to_address message.runtime ((message.start + offset) % 2 ^ 32) 8

-- The header of the field wherever it is, 0 for nullptr.
abbrev pub found_header : Message → Option ℕ → ℕ
unfolding header
found_header message none = 0
found_header message (some offset) = header message offset

unfoldable pub base_offset : Message → FieldLoc → ℕ
unfolding find_field_offset header
base_offset message loc =
    let hdr = found_header message (find_field_offset message loc) in
    if hdr == 0 then 0 else load32 message.runtime.pb.bytes (hdr + 4)

-- NumElements, size and Size
unfoldable pub size : Message → FieldLoc → ℕ → ℕ
unfolding find_field_offset header clamp_element_count
size message loc t =
    let hdr = found_header message (find_field_offset message loc) in
    let m = message.runtime.pb.bytes in
    if hdr == 0
    then 0
    else clamp_element_count message.runtime (load32 m (hdr + 4)) (load32 m hdr) t

-- data, 0 for nullptr
unfoldable pub values_at : Message → FieldLoc → ℕ → ℕ
unfolding base_offset runtime_to_address
values_at message loc t = runtime_to_address message.runtime (base_offset message loc) t

abbrev pub zero_value : ℕ → List ℕ
zero_value zero = []
zero_value (suc t) = 0 ∷ zero_value t

-- operator[], for an int given by its 32 bits.
unfoldable pub subscript : Message → FieldLoc → ℕ → ℕ → List ℕ
unfolding size values_at read_bytes
subscript message loc t index =
    let base = values_at message loc t in
    if leb (2 ^ 31) index
    then zero_value t
    else if leb (size message loc t) index
    then zero_value t
    else if base == 0
    then zero_value t
    else read_bytes message.runtime.pb.bytes (base + index * t) t

-- at; `none` is std::out_of_range.
unfoldable pub at : Message → FieldLoc → ℕ → ℕ → Option (List ℕ)
unfolding size subscript
at message loc t index =
    if leb (size message loc t) index then none else some (subscript message loc t (index % 2 ^ 32))

-- front and back
unfoldable pub front : Message → FieldLoc → ℕ → List ℕ
unfolding subscript
front message loc t = subscript message loc t 0

unfoldable pub back : Message → FieldLoc → ℕ → List ℕ
unfolding size subscript
back message loc t = subscript message loc t ((size message loc t + 2 ^ 32 - 1) % 2 ^ 32)

-- Get() of all values: its loop from the index `i` on.
unfoldable pub values_from : Message → FieldLoc → ℕ → ℕ → ℕ → List (List ℕ)
unfolding subscript
values_from message loc t zero i = []
values_from message loc t (suc left) i =
    subscript message loc t (i % 2 ^ 32) ∷ values_from message loc t left (i + 1)

unfoldable pub get_values : Message → FieldLoc → ℕ → List (List ℕ)
unfolding size values_from
get_values message loc t = values_from message loc t (size message loc t) 0

-- Set
unfoldable pub set_value : Message → FieldLoc → ℕ → ℕ → List ℕ → Message
unfolding values_at
set_value message loc t index v =
    let base = values_at message loc t in
    let b = message.runtime.pb in
    if base == 0
    then message
    else with_buffer message (record b { bytes = write_bytes b.bytes (base + index * t) v })

-- capacity
unfoldable pub capacity : Message → FieldLoc → ℕ → ℕ
unfolding base_offset allocated_capacity
capacity message loc t = allocated_capacity message.runtime (base_offset message loc) t

-- internal::MoveLastTo, of one value or more.
unfoldable pub move_last_to : Mem → ℕ → ℕ → ℕ → ℕ → Mem
unfolding read_bytes
move_last_to m base t n index =
    let last = read_bytes m (base + (n - 1) * t) t in
    let moved = copy m (base + (index + 1) * t) (base + index * t) ((n - 1 - index) * t) in
    write_bytes moved (base + index * t) last

-- The memmove of erase, of the values from `last` on to `first`.
unfoldable pub move_down : Mem → ℕ → ℕ → ℕ → ℕ → ℕ → Mem
move_down m base t n first last = copy m (base + first * t) (base + last * t) ((n - last) * t)

-- operator==, of values that are equal where their bytes are, as those of integers and enums.
abbrev pub equal_values : List (List ℕ) → List (List ℕ) → Bool
equal_values [] [] = true
equal_values (x ∷ xs) (y ∷ ys) = let rest = equal_values xs ys in equal_bytes x y && rest
equal_values _ _ = false

unfoldable pub equal : Message → FieldLoc → Message → FieldLoc → ℕ → Bool
unfolding size get_values
equal message loc other other_loc t =
    if size message loc t == size other other_loc t
    then equal_values (get_values message loc t) (get_values other other_loc t)
    else false
