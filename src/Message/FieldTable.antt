-- ===== src/Message/FieldTable.antt =====
-- The tables that lead from a field number to the field's place in a message (phaser/runtime/message.h):
-- FindLegacyField, FindHybridField, the tests that a table fits, and Message::FindField.
use phaser.Prelude.{ℕ, zero, suc, ◌+◌, ◌-◌, ◌*◌, ◌/◌, ◌%◌, ◌^◌, Bool, true, false, not, ◌&&◌}
use phaser.Prelude.{ltb, leb, ◌==◌, if◌then◌else◌}
use phaser.Memory.{Mem, load32}
use phaser.Message.{Runtime, trusted_size, runtime_to_address}

-- FieldLocation, `missing` for {-1, -1}. `stuck` is no outcome of the code: the search ran out of
-- its fuel.
pub data Location : Type 0 where
  located : ℕ → ℕ → Location
  missing stuck : Location

-- The word of a FieldValue: 24 bits of offset, 8 bits of id.
abbrev pub location_of : ℕ → Location
location_of word = located (word % 2 ^ 24) (word / 2 ^ 24)

-- The entries of FieldData and the SparseFieldData at `entries`, of 8 bytes each.
abbrev pub entry_number : Mem → ℕ → ℕ → ℕ
entry_number m entries i = load32 m (entries + 8 * i)

abbrev pub entry_location : Mem → ℕ → ℕ → Location
entry_location m entries i = location_of (load32 m (entries + 8 * i + 4))

-- The binary search of both functions, among the entries from `left` up to `right`.
unfoldable pub search_entries : Mem → ℕ → ℕ → ℕ → ℕ → ℕ → Location
search_entries m entries number zero left right = stuck
search_entries m entries number (suc fuel) left right =
    let mid = left + (right - left) / 2 in
    let upper = search_entries m entries number fuel (mid + 1) right in
    let lower = search_entries m entries number fuel left mid in
    if not (ltb left right)
    then missing
    else if entry_number m entries mid == number
    then entry_location m entries mid
    else if ltb (entry_number m entries mid) number
    then upper
    else lower

unfoldable pub find_legacy_field : Mem → ℕ → ℕ → Location
unfolding search_entries
find_legacy_field m field_data number =
    let num = load32 m field_data in search_entries m (field_data + 4) number (suc num) 0 num

-- HybridFieldData
abbrev pub dense_base : Mem → ℕ → ℕ
dense_base m field_data = load32 m (field_data + 4)

abbrev pub dense_span : Mem → ℕ → ℕ
dense_span m field_data = load32 m (field_data + 8)

abbrev pub sparse_count : Mem → ℕ → ℕ
sparse_count m field_data = load32 m (field_data + 12)

abbrev pub dense_fields : ℕ → ℕ
dense_fields field_data = field_data + 16

abbrev pub sparse_fields : Mem → ℕ → ℕ
sparse_fields m field_data = dense_fields field_data + 4 * dense_span m field_data

unfoldable pub find_hybrid_field : Mem → ℕ → ℕ → Location
unfolding search_entries
find_hybrid_field m field_data number =
    let count = sparse_count m field_data in
    let dense = load32 m (dense_fields field_data + 4 * (number - dense_base m field_data)) in
    let sparse = search_entries m (sparse_fields m field_data) number (suc count) 0 count in
    if leb (dense_base m field_data) number
      && ltb (number - dense_base m field_data) (dense_span m field_data)
    then (if dense % 2 ^ 24 == 0 then missing else location_of dense)
    else sparse

unfoldable pub metadata_range_fits : ℕ → ℕ → ℕ → ℕ → Bool
metadata_range_fits offset count elem_size limit =
    if ltb limit offset
    then false
    else if not (elem_size == 0) && ltb ((limit - offset) / elem_size) count
    then false
    else true

unfoldable pub hybrid_table_fits : ℕ → Mem → ℕ → Bool
unfolding metadata_range_fits
hybrid_table_fits metadata_offset m limit =
    let dense_offset = (metadata_offset + 16) % 2 ^ 32 in
    let sparse_offset = (dense_offset + dense_span m metadata_offset * 4 % 2 ^ 32) % 2 ^ 32 in
    if not (metadata_range_fits metadata_offset 1 16 limit)
    then false
    else if not (metadata_range_fits dense_offset (dense_span m metadata_offset) 4 limit)
    then false
    else metadata_range_fits sparse_offset (sparse_count m metadata_offset) 8 limit

unfoldable pub legacy_table_fits : ℕ → Mem → ℕ → Bool
unfolding metadata_range_fits
legacy_table_fits metadata_offset m limit =
    let entries_offset = (metadata_offset + 4) % 2 ^ 32 in
    if not (metadata_range_fits metadata_offset 1 4 limit)
    then false
    else metadata_range_fits entries_offset (load32 m metadata_offset) 8 limit

abbrev pub hybrid_magic : ℕ
hybrid_magic = 0x50484431

-- The part of Message::FindField behind the metadata's offset.
unfoldable pub find_in_table : Mem → ℕ → ℕ → ℕ → Location
unfolding metadata_range_fits hybrid_table_fits find_hybrid_field legacy_table_fits
    find_legacy_field
find_in_table m limit metadata_offset number =
    if not (metadata_range_fits metadata_offset 1 4 limit)
    then missing
    else if load32 m metadata_offset == hybrid_magic
    then (if not (hybrid_table_fits metadata_offset m limit)
        then missing
        else find_hybrid_field m metadata_offset number)
    else if not (legacy_table_fits metadata_offset m limit)
    then missing
    else find_legacy_field m metadata_offset number

-- Message::FindField, given the address of the message's first word, which holds the offset of its
-- metadata; `address_of` is the runtime's ToAddress<void>.
unfoldable pub find_from : Mem → (ℕ → ℕ) → ℕ → ℕ → ℕ → Location
unfolding find_in_table
find_from m address_of limit field_data number =
    let metadata_offset = load32 m field_data in
    if field_data == 0
    then missing
    else if address_of metadata_offset == 0
    then missing
    else find_in_table m limit metadata_offset number

-- Message::FindField of the message at `start`.
unfoldable pub find_field : Runtime → ℕ → ℕ → Location
unfolding find_from
find_field r start number =
    find_from r.pb.bytes (λ offset. runtime_to_address r offset 1) (trusted_size r)
      (runtime_to_address r start 4) number
