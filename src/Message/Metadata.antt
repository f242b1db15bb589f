-- ===== src/Message/Metadata.antt =====
-- The control block of a mutable buffer, which maps message types to the metadata installed for them
-- (phaser/runtime/message.h). A RuntimeControlBlock has its words at 0 (magic), 4 (version),
-- 8 (user_metadata), 12 (count) and 16 (capacity), and 16 bytes per entry from 24 on: a uint64_t key
-- and the offset of the metadata.
use phaser.Prelude.{ℕ, zero, suc, ◌+◌, ◌*◌, ◌%◌, ◌^◌, true, false, not, ◌&&◌, ◌||◌}
use phaser.Prelude.{ltb, leb, ◌==◌, if◌then◌else◌, Option, none, some, List, [], ◌∷◌, length}
use Prim.Native.Nat.{bit_xor}
use phaser.Memory.{Mem, load32, load64, store32, store64, write_bytes, fill}
use phaser.Payload.{Buffer, to_address, to_offset}
use phaser.Payload.Alloc.{allocate}
use phaser.Payload.Realloc.{realloc}
use phaser.Message.{Runtime}

-- MetadataKey: the FNV-1a hash of a name.
unfoldable pub metadata_key_from : ℕ → List ℕ → ℕ
metadata_key_from hash [] = hash
metadata_key_from hash (c ∷ cs) =
    metadata_key_from (bit_xor hash (c % 256) * 0x100000001b3 % 2 ^ 64) cs

unfoldable pub metadata_key : List ℕ → ℕ
unfolding metadata_key_from
metadata_key full_name = metadata_key_from 0xcbf29ce484222325 full_name

abbrev pub control_magic : ℕ
control_magic = 0x52544850

abbrev pub control_version : ℕ
control_version = 2

-- RuntimeControlSize, and sizeof(RuntimeControlBlock), which has one entry.
abbrev pub control_size : ℕ → ℕ
control_size capacity = 24 + capacity * 16

abbrev pub user_metadata_of : Mem → ℕ → ℕ
user_metadata_of m control = load32 m (control + 8)

abbrev pub count_of : Mem → ℕ → ℕ
count_of m control = load32 m (control + 12)

abbrev pub capacity_of : Mem → ℕ → ℕ
capacity_of m control = load32 m (control + 16)

abbrev pub entry_at : ℕ → ℕ → ℕ
entry_at control i = control + 24 + i * 16

abbrev pub entry_key : Mem → ℕ → ℕ → ℕ
entry_key m control i = load64 m (entry_at control i)

abbrev pub entry_data : Mem → ℕ → ℕ → ℕ
entry_data m control i = load32 m (entry_at control i + 8)

-- GetRuntimeControl: the address of the control block, 0 if there is none.
unfoldable pub get_runtime_control : Runtime → ℕ
unfolding to_address
get_runtime_control r =
    let metadata = r.pb.metadata in
    let control =
      if r.is_mutable
      then (if ltb r.pb.full_size (metadata + 40) then 0 else metadata)
      else to_address r.pb metadata r.size_or_mark 40 in
    if metadata == 0
    then 0
    else if control == 0
    then 0
    else if not (load32 r.pb.bytes control == control_magic)
        || not (load32 r.pb.bytes (control + 4) == control_version)
    then 0
    else control

-- The loop of GetMetadata over the entries from `i` on: the index found.
unfoldable pub find_key : Mem → ℕ → ℕ → ℕ → ℕ → Option ℕ
find_key m control key zero i = none
find_key m control key (suc left) i =
    let rest = find_key m control key left (i + 1) in
    if entry_key m control i == key then some i else rest

abbrev pub data_at : Mem → ℕ → Option ℕ → ℕ
data_at m control none = 0
data_at m control (some i) = entry_data m control i

unfoldable pub get_metadata : Runtime → ℕ → ℕ
unfolding get_runtime_control find_key
get_metadata r key =
    let control = get_runtime_control r in
    let m = r.pb.bytes in
    if control == 0 then 0 else data_at m control (find_key m control key (count_of m control) 0)

-- GetMetadata with a hint: the metadata, and the hint that is stored.
unfoldable pub get_metadata_hint : Runtime → ℕ → ℕ → ℕ × ℕ
unfolding get_runtime_control find_key
get_metadata_hint r key guess =
    let control = get_runtime_control r in
    let m = r.pb.bytes in
    let searched : ℕ × ℕ = elim (find_key m control key (count_of m control) 0) [
      | none ↦ (0, guess)
      | some i ↦ (entry_data m control i, i)
    ] in
    if control == 0
    then (0, guess)
    else if ltb guess (count_of m control) && entry_key m control guess == key
    then (entry_data m control guess, guess)
    else searched

-- `control->entries[control->count++] = {key, offset}`
unfoldable pub put_entry : Mem → ℕ → ℕ → ℕ → Mem
put_entry m control key offset =
    let i = count_of m control in
    let counted = store32 m (control + 12) ((i + 1) % 2 ^ 32) in
    store32 (store64 counted (entry_at control i) key) (entry_at control i + 8) offset

module _ (resize : Mem → ℕ → ℕ → Mem) where
  -- AddMetadata; `none` says that a loop ran out of fuel.
  unfoldable pub add_metadata : Runtime → ℕ → ℕ → Option Runtime
  unfolding get_runtime_control put_entry realloc to_address to_offset
  add_metadata r key offset =
      let control = get_runtime_control r in
      let m = r.pb.bytes in
      let new_capacity = capacity_of m control * 2 % 2 ^ 32 in
      let put : Buffer → ℕ → Runtime =
        λ b at. record r { pb = record b { bytes = put_entry b.bytes at key offset } } in
      let moved : Buffer × ℕ → Runtime = λ (b, memory).
        let grown = record b { bytes = store32 b.bytes (memory + 16) new_capacity } in
        if memory == 0
        then record r { pb = b }
        else put (record grown { metadata = to_offset grown memory 0 40 }) memory in
      if control == 0
      then some r
      else if count_of m control == capacity_of m control
      then elim (realloc resize (r.pb) (to_address r.pb r.pb.metadata 0 1)
          (control_size new_capacity % 2 ^ 32) true true) [
            | none ↦ none
            | some moved_block ↦ some (moved moved_block)
          ]
      else some (put (r.pb) control)

  -- InitializeRuntimeControl: the buffer, and the address of the control block.
  unfoldable pub initialize_runtime_control : Buffer → ℕ → Option (Buffer × ℕ)
  unfolding allocate to_offset
  initialize_runtime_control b capacity =
      let made : Buffer × ℕ → Buffer × ℕ = λ (b', memory).
        let named = store32 (store32 b'.bytes memory control_magic) (memory + 4) control_version in
        let empty = fill named (memory + 8) 0 32 in
        let m = store32 empty (memory + 16) (capacity % 2 ^ 32) in
        let b'' = record b' { bytes = m } in
        if memory == 0
        then (b', 0)
        else (record b'' { metadata = to_offset b'' memory 0 40 }, memory) in
      if leb capacity 1
      then some (b, 0)
      else elim (allocate resize b (control_size capacity % 2 ^ 32) true true) [
        | none ↦ none
        | some r ↦ some (made r)
      ]

  -- FindOrAddMetadata of a message type whose table is `field_data`: the metadata's offset, and the
  -- hint.
  unfoldable pub find_or_add_metadata : Runtime → ℕ → List ℕ → ℕ → Option (Runtime × (ℕ × ℕ))
  unfolding get_metadata_hint allocate add_metadata to_offset
  find_or_add_metadata r key field_data guess =
      let (metadata, hint) = get_metadata_hint r key guess in
      let added : Buffer × ℕ → Option (Runtime × (ℕ × ℕ)) = λ (b, fields).
        let copied = record b { bytes = write_bytes b.bytes fields field_data } in
        let offset = to_offset copied fields 0 1 in
        if fields == 0
        then some (record r { pb = b }, (0, hint))
        else elim (add_metadata (record r { pb = copied }) key offset) [
          | none ↦ none
          | some r' ↦ some (r', (offset, hint))
        ] in
      if not (metadata == 0)
      then some (r, (metadata, hint))
      else elim (allocate resize (r.pb) (length field_data % 2 ^ 32) false true) [
        | none ↦ none
        | some fresh ↦ added fresh
      ]
