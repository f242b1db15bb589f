-- ===== src/Message/Reset.antt =====
-- Emptying the main message of a buffer that was new when its message was made
-- (phaser/runtime/message.h): everything allocated since the mark is freed at once.
use phaser.Prelude.{ℕ, zero, suc, ◌+◌, ◌-◌, ◌%◌, ◌^◌, Bool, true, false, not, ◌&&◌, ◌||◌}
use phaser.Prelude.{ltb, leb, ◌==◌, if◌then◌else◌, List, [], ◌∷◌, map}
use phaser.Memory.{Mem, load32, store32, copy, fill}
use phaser.Payload.{Buffer, allocation_failed, clear_allocation_failed}
use phaser.Message.{Runtime, reset_mark}
use phaser.Message.Metadata.{
  get_runtime_control, control_size, user_metadata_of, count_of, capacity_of, entry_at, entry_data,
}

abbrev pub all_zero : List ℕ → Bool
all_zero [] = true
all_zero (x ∷ xs) = if x == 0 then all_zero xs else false

-- MarkNewBuffer
unfoldable pub mark_new_buffer : Runtime → Runtime
mark_new_buffer r =
    let b = r.pb in
    let free = b.free_list in
    let unmarked = record r { size_or_mark = 0 } in
    if not r.is_mutable
    then r
    else if not (all_zero b.bitmaps)
    then unmarked
    else if free == 0
    then unmarked
    else if not (load32 b.bytes (free + 4) == 0)
        || not (load32 b.bytes free == (b.full_size + 2 ^ 32 - free) % 2 ^ 32)
        || not (b.hwm == free + 8)
    then unmarked
    else record r { size_or_mark = free }

-- MarkNewFixedBuffer
unfoldable pub mark_new_fixed_buffer : Runtime → Runtime
mark_new_fixed_buffer r = record r { size_or_mark = r.pb.free_list }

-- MayResetFor
unfoldable pub may_reset_for : Runtime → ℕ → Bool
unfolding reset_mark
may_reset_for r message = not (reset_mark r == 0) && message == r.pb.message

-- The loop of FreeSinceMark over the entries from `i` on: the memory, and `kept`.
unfoldable pub keep_entries : Mem → ℕ → ℕ → ℕ → ℕ → ℕ → Mem × ℕ
keep_entries m control mark zero i kept = (m, kept)
keep_entries m control mark (suc left) i kept =
    let copied = copy m (entry_at control kept) (entry_at control i) 16 in
    let dropped = keep_entries m control mark left (i + 1) kept in
    let taken = keep_entries copied control mark left (i + 1) (kept + 1) in
    if ltb (entry_data m control i) mark then taken else dropped

-- Whether FreeSinceMark returns before it looks at the control block, and at it.
unfoldable pub is_unfit : Buffer → ℕ → Bool
unfolding allocation_failed
is_unfit b mark =
    (b.free_list == 0 && not (allocation_failed b))
    || leb mark b.metadata
    || ltb ((b.full_size + 2 ^ 64 - 8) % 2 ^ 64) mark

unfoldable pub reaches_past : Buffer → ℕ → ℕ → Bool
reaches_past b mark control =
    ltb mark (b.metadata + control_size (capacity_of b.bytes control))
    || leb mark (user_metadata_of b.bytes control)

-- The end of FreeSinceMark: one free block from the mark on.
unfoldable pub free_from : Buffer → ℕ → Buffer
unfolding clear_allocation_failed
free_from b mark =
    let sized = store32 b.bytes mark ((b.full_size + 2 ^ 32 - mark) % 2 ^ 32) in
    clear_allocation_failed (record b {
      bytes = store32 sized (mark + 4) 0;
      free_list = mark;
      hwm = (mark + 8) % 2 ^ 32;
      bitmaps = map (λ head. 0) (b.bitmaps);
    })

-- FreeSinceMark
unfoldable pub free_since_mark : Runtime → Bool × Runtime
unfolding reset_mark is_unfit get_runtime_control reaches_past keep_entries free_from
free_since_mark r =
    let b = r.pb in
    let mark = reset_mark r in
    let control = get_runtime_control r in
    let (m, kept) = keep_entries b.bytes control mark (count_of b.bytes control) 0 0 in
    let counted = record b { bytes = store32 m (control + 12) kept } in
    if is_unfit b mark
    then (false, r)
    else if control == 0
    then (true, record r { pb = free_from b mark })
    else if reaches_past b mark control
    then (false, r)
    else (true, record r { pb = free_from counted mark })

-- ResetFor, for the main message of `binary_size` bytes at `message`.
unfoldable pub reset_for : Runtime → ℕ → ℕ → Bool × Runtime
unfolding may_reset_for reset_mark free_since_mark
reset_for r message binary_size =
    let mark = reset_mark r in
    let clear : Runtime → Runtime = λ q. record q {
      pb = record q.pb {
        bytes = fill q.pb.bytes (message + 4) 0 ((binary_size + 2 ^ 64 - 4) % 2 ^ 64);
      };
    } in
    let (freed, r') = free_since_mark r in
    if not (may_reset_for r message)
    then (false, r)
    else if r.pb.free_list == mark && r.pb.hwm == mark + 8
    then (true, clear r)
    else if freed
    then (true, clear r')
    else (false, r)
