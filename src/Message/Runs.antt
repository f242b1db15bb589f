-- ===== src/Message/Runs.antt =====
-- The theorems on runtimes at concrete buffers.
use phaser.Prelude.{◌+◌, ◌*◌, ◌^◌, ◌≤◌, ◌<◌, ◌≡◌, ◌⊎◌, refl, arith, true, false}
use phaser.Memory.{Mem, load32, store8, store32}
use phaser.Payload.{new_buffer, init_free_list, is_valid_magic, allocation_failed}
use phaser.Message.{Runtime, reset_mark, trusted_size}
use phaser.Message.FieldTable.{find_legacy_field, find_hybrid_field, find_field}
use phaser.Message.Lookup.{
  Locates, HybridLocates, find_legacy_field-Locates, find_hybrid_field-HybridLocates,
}
use phaser.Message.Trust.{with_bytes, find_field-trusted}
use phaser.Message.Chunks.{
  chunk_shift, load_received_layout, message_vector_element, layout_capacity, block_fails,
  directory_fails,
}
use phaser.Message.Elements.{chunk_shift-bounds}
use phaser.Message.Inside.{message_vector_element-inside}
use phaser.Message.Metadata.{
  get_runtime_control, get_metadata, get_metadata_hint, count_of, control_magic, capacity_of,
}
use phaser.Message.Hints.{get_metadata_hint-get_metadata}
use phaser.Message.Reset.{free_since_mark, is_unfit, reaches_past}
use phaser.Message.Emptied.{entries, below}
use phaser.Message.Freed.{IsEmptied, free_since_mark-IsEmptied, free_since_mark-below}

abbrev zeros : Mem
zeros = λ p. 0

-- A table with one entry, for the field 7.
abbrev table : Mem
table = store32 (store32 zeros 64 1) 68 7

table_count : load32 table 64 ≡ 1
unfolding load32 store32
table_count = refl

find_legacy_field-Locates_example :
    Locates table 68 0 (load32 table 64) 7 (find_legacy_field table 64 7)
find_legacy_field-Locates_example =
    find_legacy_field-Locates table 64 7 (λ i j lt h. absurd (omega (arith, table_count)))

-- A table with the field 3 in its dense part and the field 9 in its sparse part.
abbrev hybrid : Mem
hybrid = store32 (store32 (store32 (store32 (store32 zeros 68 3) 72 1) 76 1) 80 48) 84 9

hybrid_count : load32 hybrid 76 ≡ 1
unfolding load32 store32
hybrid_count = refl

find_hybrid_field-HybridLocates_example : HybridLocates hybrid 64 9 (find_hybrid_field hybrid 64 9)
find_hybrid_field-HybridLocates_example =
    find_hybrid_field-HybridLocates hybrid 64 9 (λ i j lt h. absurd (omega (arith, hybrid_count)))

chunk_shift-bounds_example :
    (4 * 2 ^ chunk_shift 4 9 ≤ 9) × (9 < 2 * (4 * 2 ^ chunk_shift 4 9)) × (chunk_shift 4 9 < 32)
chunk_shift-bounds_example = chunk_shift-bounds 4 9 (omega arith) (omega arith) (omega arith)

-- A received buffer of 96 bytes.
abbrev received : Runtime
received = record {
  pb = record (new_buffer false 96 true zeros) { bytes = store32 (store32 zeros 48 8) 52 4 };
  size_or_mark = 96;
  is_mutable = false;
}

find_field-trusted_example :
    find_field (with_bytes received (store8 received.pb.bytes 100 1)) 48 3
    ≡ find_field received 48 3
unfolding store8 new_buffer init_free_list
find_field-trusted_example =
    find_field-trusted received (store8 received.pb.bytes 100 1) 48 3 refl (omega arith)
      (omega arith) (λ p lt. ground arith)

received_room : 2 < layout_capacity (load_received_layout received 48)
unfolding layout_capacity load_received_layout block_fails directory_fails trusted_size load32
    store32 new_buffer init_free_list
received_room = ground arith

message_vector_element-inside_example :
    ((message_vector_element received (load_received_layout received 48) 2 ≡ 0)
      ⊎ (message_vector_element received (load_received_layout received 48) 2
            + (load_received_layout received 48).stride
          ≤ trusted_size received))
    × ((2 < (load_received_layout received 48).first_capacity)
        ⊎ ((load_received_layout received 48).directory
              + (chunk_shift ((load_received_layout received 48).first_capacity) 2 + 1) * 4
              + 4
            ≤ trusted_size received))
unfolding trusted_size
message_vector_element-inside_example =
    message_vector_element-inside received 48 2 refl (omega arith) (omega arith) received_room

-- A buffer of 256 bytes with a control block at 40, which has one entry of two, and the mark 104.
abbrev equipped : Runtime
equipped = record {
  pb = record (new_buffer false 256 true zeros) {
    metadata = 40;
    free_list = 120;
    bytes =
        store32
          (store32 (store32 (store32 (store32 (store32 zeros 40 control_magic) 44 2) 52 1) 56 2) 64
            5)
          72 96;
  };
  size_or_mark = 104;
  is_mutable = true;
}

installed_control : get_runtime_control equipped ≡ 40
unfolding get_runtime_control load32 store32 new_buffer init_free_list
installed_control = refl

installed_count : count_of equipped.pb.bytes (get_runtime_control equipped) ≡ 1
unfolding get_runtime_control load32 store32 new_buffer init_free_list
installed_count = refl

get_metadata_hint-get_metadata_example :
    (get_metadata_hint equipped 5 2).0 ≡ get_metadata equipped 5
get_metadata_hint-get_metadata_example =
    get_metadata_hint-get_metadata equipped 5 2
      (λ i j lt lt' e. omega (arith, installed_count, lt, lt'))

equipped-magic : is_valid_magic equipped.pb ≡ true
unfolding is_valid_magic new_buffer init_free_list
equipped-magic = refl

free_since_mark-IsEmptied_example :
    ((free_since_mark equipped).0 ≡ true → IsEmptied equipped (free_since_mark equipped).1.pb)
    × ((free_since_mark equipped).0 ≡ false → (free_since_mark equipped).1 ≡ equipped)
unfolding new_buffer init_free_list reset_mark
free_since_mark-IsEmptied_example =
    free_since_mark-IsEmptied equipped equipped-magic (omega arith) (omega arith) (omega arith)

installed_freed : (free_since_mark equipped).0 ≡ true
unfolding free_since_mark is_unfit reaches_past get_runtime_control load32 store32 new_buffer
    init_free_list reset_mark allocation_failed
installed_freed = ground arith

installed_full :
    count_of equipped.pb.bytes (get_runtime_control equipped)
    ≤ capacity_of equipped.pb.bytes (get_runtime_control equipped)
unfolding get_runtime_control load32 store32 new_buffer init_free_list
installed_full = omega arith

free_since_mark-below_example :
    entries
      (free_since_mark equipped).1.pb.bytes
      (get_runtime_control equipped)
      (count_of (free_since_mark equipped).1.pb.bytes (get_runtime_control equipped))
      0
    ≡ below 104 (
        entries equipped.pb.bytes
          (get_runtime_control equipped)
          (count_of equipped.pb.bytes (get_runtime_control equipped))
          0)
unfolding new_buffer init_free_list reset_mark
free_since_mark-below_example =
    free_since_mark-below equipped refl (λ e. omega (arith, installed_control, e)) installed_full
      (omega arith) (omega arith) installed_freed
