-- ===== src/Payload/SetString.antt =====
-- SetString, NewString, AllocateString and ClearString (phaser/runtime/payload_buffer.h and
-- payload_buffer.cc). A result has the new buffer and the address of the string's block, 0 for
-- nullptr; `none` says that a loop ran out of fuel.
use phaser.Prelude.{ℕ, ◌+◌, ◌-◌, ◌%◌, ◌^◌, Bool, true, false, not, ◌&&◌}
use phaser.Prelude.{ltb, leb, ◌==◌, if◌then◌else◌, List, Option, none, some, take}
use phaser.Memory.{Mem, load32, store32, copy, write_bytes, read_bytes}
use phaser.Payload.{Buffer, mark_allocation_failed, to_address, to_offset}
use phaser.Payload.Alloc.{allocate, allocate_slow, try_allocate_in_place}
use phaser.Payload.Release.{free, free_at}
use phaser.Payload.Realloc.{realloc}
use phaser.Payload.StringCopy.{copy_string}

-- StringSource: bytes that lie outside the buffer, or an offset in it.
pub data Source : Type 0 where
  outside : List ℕ → Source
  inside : ℕ → Source

-- memcpy of the string, and CopyString.
unfoldable pub put_string : Source → Mem → ℕ → ℕ → Mem
put_string (outside xs) m dst n = write_bytes m dst (take n xs)
put_string (inside offset) m dst n = copy m dst offset n

unfoldable pub put_short_string : Source → Mem → ℕ → ℕ → Mem
unfolding copy_string
put_short_string (outside xs) m dst n = write_bytes m dst (take n xs)
put_short_string (inside offset) m dst n = copy_string m dst offset n

-- The longest string, UINT32_MAX - sizeof(uint32_t).
abbrev pub max_string : ℕ
max_string = 2 ^ 32 - 5

abbrev pub max_short_string : ℕ
max_short_string = 32

-- The length word and the string, `put`, in a block, and the block's offset in the header.
unfoldable pub write_string : (Mem → ℕ → ℕ → Mem) → Buffer → ℕ → ℕ → ℕ → Buffer
write_string put b block len header_offset =
    let written = put (store32 b.bytes block len) (block + 4) len in
    record b { bytes = store32 written header_offset block }

-- "If this contains a valid (non-zero) offset": whether `s` is in the old string.
unfoldable pub in_old_string : Source → Buffer → ℕ → Bool
in_old_string (outside xs) b old_str = false
in_old_string (inside s) b old_str =
    not (old_str == 0) && (leb old_str s && ltb s (old_str + 4 + load32 b.bytes old_str))

module _ (resize : Mem → ℕ → ℕ → Mem) where
  unfoldable pub new_string_slow : Buffer → Source → ℕ → ℕ → Option (Buffer × ℕ)
  unfolding allocate_slow put_short_string write_string
  new_string_slow b s len header_offset =
      let write : Buffer × ℕ → Buffer × ℕ = λ (b', block).
        if block == 0
        then (b', 0)
        else (write_string (put_short_string s) b' block len header_offset, block) in
      if ltb max_string len
      then some (mark_allocation_failed b, 0)
      else elim (allocate_slow resize 5 b (len + 4) false true) [
        | none ↦ none
        | some r ↦ some (write r)
      ]

  unfoldable pub new_long_string : Buffer → Source → ℕ → ℕ → Option (Buffer × ℕ)
  unfolding try_allocate_in_place put_string write_string new_string_slow
  new_long_string b s len header_offset =
      let (b', block) = try_allocate_in_place b ((len + 4) % 2 ^ 32) false true in
      let slow = new_string_slow b s len header_offset in
      if leb len max_string && not (block == 0)
      then some (write_string (put_string s) b' block len header_offset, block)
      else slow

  unfoldable pub new_string : Buffer → Source → ℕ → ℕ → Option (Buffer × ℕ)
  unfolding try_allocate_in_place put_short_string write_string new_string_slow new_long_string
  new_string b s len header_offset =
      let (b', block) = try_allocate_in_place b ((len + 4) % 2 ^ 32) false true in
      let slow = new_string_slow b s len header_offset in
      let long = new_long_string b s len header_offset in
      if ltb max_short_string len
      then long
      else if block == 0
      then slow
      else some (write_string (put_short_string s) b' block len header_offset, block)

  -- ReplaceString from "reallocate the data it points to" on.
  unfoldable pub replace_block : Buffer → Source → ℕ → ℕ → Option (Buffer × ℕ)
  unfolding allocate realloc to_address to_offset put_string
  replace_block b s len header_offset =
      let hdr = to_address b header_offset 0 4 in
      let old_str = to_address b (load32 b.bytes hdr) 0 1 in
      let block =
        if old_str == 0
        then allocate resize b ((len + 4) % 2 ^ 32) false true
        else realloc resize b old_str ((len + 4) % 2 ^ 32) false true in
      let write : Buffer × ℕ → Buffer × ℕ = λ (b', str).
        let written = put_string s (store32 b'.bytes str (len % 2 ^ 32)) (str + 4) len in
        let oldp = to_address b' header_offset 0 4 in
        if str == 0
        then (b', 0)
        else (record b' { bytes = store32 written oldp (to_offset b' str 0 1) }, str) in
      elim block [ none ↦ none | some r ↦ some (write r) ]

  -- ReplaceString. A string inside the old one is copied first, and set from the copy.
  unfoldable pub replace_string : Buffer → Source → ℕ → ℕ → Option (Buffer × ℕ)
  unfolding in_old_string replace_block to_address new_string
  replace_string b s len header_offset =
      let hdr = to_address b header_offset 0 4 in
      let old_str = to_address b (load32 b.bytes hdr) 0 1 in
      let bytes_of : Source → Source = λ q. elim q [
        | outside xs ↦ outside xs
        | inside offset ↦ outside (read_bytes b.bytes offset len)
      ] in
      let from_copy =
        if load32 b.bytes header_offset == 0
        then new_string b (bytes_of s) len header_offset
        else replace_block b (bytes_of s) len header_offset in
      let replaced = replace_block b s len header_offset in
      if ltb max_string len
      then some (mark_allocation_failed b, 0)
      else if in_old_string s b old_str
      then from_copy
      else replaced

  unfoldable pub set_string : Buffer → Source → ℕ → ℕ → Option (Buffer × ℕ)
  unfolding new_string replace_string
  set_string b s len header_offset =
      let fresh = new_string b s len header_offset in
      let replaced = replace_string b s len header_offset in
      if load32 b.bytes header_offset == 0 then fresh else replaced

  -- AllocateString: the buffer, and the address of the string's bytes.
  unfoldable pub allocate_string : Buffer → ℕ → ℕ → Bool → Option (Buffer × ℕ)
  unfolding allocate realloc to_address to_offset
  allocate_string b len header_offset clear =
      let hdr = to_address b header_offset 0 4 in
      let old_str = to_address b (load32 b.bytes hdr) 0 1 in
      let block =
        if old_str == 0
        then allocate resize b ((len + 4) % 2 ^ 32) clear true
        else realloc resize b old_str ((len + 4) % 2 ^ 32) clear true in
      let write : Buffer × ℕ → Buffer × ℕ = λ (b', str).
        let oldp = to_address b' header_offset 0 4 in
        let sized = store32 b'.bytes str (len % 2 ^ 32) in
        (record b' { bytes = store32 sized oldp (to_offset b' str 0 1) }, str + 4) in
      elim block [ none ↦ none | some r ↦ some (write r) ]

-- ClearString
unfoldable pub clear_string : Buffer → ℕ → Option Buffer
unfolding free_at to_address
clear_string b header_offset =
    let hdr = to_address b header_offset 0 4 in
    let freed : Option Buffer = elim (free_at b (load32 b.bytes hdr)) [
      | none ↦ none
      | some b' ↦ some (record b' { bytes = store32 b'.bytes hdr 0 })
    ] in
    if not (hdr == 0) && not (load32 b.bytes hdr == 0) then freed else some b

-- ClearBuiltString
unfoldable pub clear_built_string : Buffer → ℕ → Option Buffer
unfolding free
clear_built_string b header_offset =
    let freed : Option Buffer = elim (free b (load32 b.bytes header_offset)) [
      | none ↦ none
      | some b' ↦ some (record b' { bytes = store32 b'.bytes header_offset 0 })
    ] in
    if load32 b.bytes header_offset == 0 then some b else freed
