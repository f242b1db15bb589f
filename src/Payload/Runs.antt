-- ===== src/Payload/Runs.antt =====
-- The payload buffer's theorems at concrete buffers.
use phaser.Prelude.{ℕ, ◌+◌, ◌%◌, ◌≤◌, ◌<◌, ◌≡◌, refl, inl, arith}
use phaser.Prelude.{Bool, true, false, List, [], ◌∷◌, Option, none, some}
use phaser.Memory.{Mem, load32, store32, copy, read_bytes}
use phaser.Payload.{
  Buffer, new_buffer, init_free_list, allocation_failed, mark_allocation_failed, is_valid_magic,
  is_moveable,
}
use phaser.Payload.Words.{align_size, align_size_bounds, small_word}
use phaser.Payload.Small.{
  small_block_index, bitmap_run_index, bitmap_run_index-eq-small_block_index,
}
use phaser.Payload.Alloc.{allocate_from_list, carve_first}
use phaser.Payload.Release.{free}
use phaser.Payload.Chain.{IsFree}
use phaser.Payload.Carve.{carve}
use phaser.Payload.FromList.{TookBlock, allocate_from_list-carve, allocate_from_list-full}
use phaser.Payload.InPlace.{carve_first-TookBlock}
use phaser.Payload.Free.{IsBlock, PutBack, free-release}
use phaser.Payload.Roundtrip.{new_buffer-IsFree, free-carve_first}
use phaser.Memory.{load64}
use phaser.Payload.{bitmaps_enabled}
use phaser.Payload.Small.{small_block_size}
use phaser.Payload.Alloc.{small_class, try_allocate_in_place}
use phaser.Payload.Lifo.{try_allocate_in_place-free}
use phaser.Payload.Strings.{bounded_string, bounded_string-inside, string_view}
use phaser.Payload.StringCopy.{copy_string, copy_string-copy}
use phaser.Payload.SetString.{outside, put_string, write_string}
use phaser.Payload.StringView.{string_view-write_string}
use phaser.Payload.Presence.{
  is_present, set_presence_bit, clear_presence_bit, is_present-set_presence_bit,
}

abbrev zeros : Mem
zeros p = 0

-- A fixed buffer of 256 bytes without small blocks.
abbrev fresh : Buffer
fresh = new_buffer false 256 false zeros

abbrev keep : Mem → ℕ → ℕ → Mem
keep m old_size new_size = m

abbrev refuse : Buffer → ℕ → Bool → Bool → Option (Buffer × ℕ)
refuse b n clear enable_small_block = none

fresh-IsFree : IsFree fresh ((40, 216) ∷ [])
fresh-IsFree = new_buffer-IsFree false false 256 zeros (omega arith) (omega arith)

fresh-size : 40 ≤ fresh.full_size
unfolding new_buffer init_free_list
fresh-size = omega arith

fresh_sound : allocation_failed fresh ≡ false
unfolding new_buffer init_free_list allocation_failed
fresh_sound = refl

fresh-fixed : is_moveable fresh ≡ false
unfolding new_buffer init_free_list is_moveable
fresh-fixed = refl

abbrev taken : Buffer
taken = (carve_first fresh 16 16 true).0

taken-lem : TookBlock fresh taken 16 true ((40, 216) ∷ []) ((64, 192) ∷ []) 40 16
taken-lem =
    (carve_first-TookBlock fresh 40 216 16 16 true [] fresh-IsFree (omega arith) (omega arith)).1

taken-IsBlock : IsBlock taken ((64, 192) ∷ []) 40 24
unfolding new_buffer init_free_list
taken-IsBlock = record {
  room = omega arith;
  low = omega arith;
  fit = let e : taken.full_size ≡ 256 = taken-lem.same.full_size in omega arith;
  apart = (inl (omega arith), tt);
  word = taken-lem.word;
  small = omega arith;
}

taken_sound : allocation_failed taken ≡ false
unfolding allocation_failed
taken_sound = rw (taken-lem.same.magic) fresh_sound

new_buffer-IsFree_example : IsFree fresh ((40, 216) ∷ [])
new_buffer-IsFree_example = new_buffer-IsFree false false 256 zeros (omega arith) (omega arith)

carve_first-TookBlock_example :
    ((carve_first fresh 16 16 true).1 ≡ 48)
    × TookBlock fresh
        (carve_first fresh 16 16 true).0
        16
        true
        ((40, 216) ∷ [])
        ((64, 192) ∷ [])
        40
        16
carve_first-TookBlock_example =
    carve_first-TookBlock fresh 40 216 16 16 true [] fresh-IsFree (omega arith) (omega arith)

free-release_example :
    (b' : Buffer) × (free taken 48 ≡ some b') × PutBack taken b' 40 24 ((64, 192) ∷ [])
free-release_example =
    free-release taken 40 24 ((64, 192) ∷ []) (taken-lem.list) taken-IsBlock taken_sound

free-carve_first_example :
    (b' : Buffer) × (free (carve_first fresh 16 16 true).0 (carve_first fresh 16 16 true).1
      ≡ some b')
    × IsFree b' ((40, 216) ∷ [])
free-carve_first_example =
    free-carve_first fresh 40 216 16 true [] fresh-IsFree (omega arith) (omega arith) fresh_sound

carve-found : carve 24 ((40, 216) ∷ []) ≡ some ((40, 24), (64, 192) ∷ [])
unfolding carve
carve-found = refl

carve-full : carve 1008 ((40, 216) ∷ []) ≡ none
unfolding carve
carve-full = refl

allocate_from_list-carve_example :
    (b' : Buffer) × (allocate_from_list keep refuse fresh 16 true true ≡ some (b', 48))
    × TookBlock fresh b' 16 true ((40, 216) ∷ []) ((64, 192) ∷ []) 40 16
allocate_from_list-carve_example =
    allocate_from_list-carve fresh ((40, 216) ∷ []) fresh-IsFree fresh-size keep refuse 16 true true
      ((64, 192) ∷ []) 40 24 carve-found

allocate_from_list-full_example :
    allocate_from_list keep refuse fresh 1000 true true ≡ some (mark_allocation_failed fresh, 0)
allocate_from_list-full_example =
    allocate_from_list-full fresh ((40, 216) ∷ []) fresh-IsFree fresh-size keep refuse 1000 true
      true carve-full fresh-fixed

align_size_bounds_example : (13 ≤ align_size 13) × (align_size 13 < 21) × (align_size 13 % 8 ≡ 0)
align_size_bounds_example = align_size_bounds 13 (omega arith)

bitmap_run_index-eq-small_block_index_example : bitmap_run_index 33 ≡ small_block_index 33
bitmap_run_index-eq-small_block_index_example = bitmap_run_index-eq-small_block_index 33

-- The string "hi" behind the header at 64, whose block is at 80.
abbrev hello : List ℕ
hello = 104 ∷ 105 ∷ []

fresh-magic : is_valid_magic fresh ≡ true
fresh-magic = fresh-IsFree.magic

string_view-write_string_example :
    (string_view (write_string (put_string (outside hello)) fresh 80 2 64) 64 ≡ some (84, 2))
    × (read_bytes (write_string (put_string (outside hello)) fresh 80 2 64).bytes 84 2 ≡ hello)
unfolding new_buffer init_free_list
string_view-write_string_example =
    string_view-write_string fresh hello 80 64 fresh-magic (omega arith)
      (omega arith, (omega arith, tt)) (omega arith) (omega arith) (inl (omega arith))

-- A hostile length word: 2 ^ 32 - 1 bytes are claimed, and 12 are there.
abbrev hostile : Buffer
hostile = record fresh { bytes = store32 (store32 zeros 64 80) 80 4294967295 }

hostile-view : bounded_string hostile 64 96 ≡ some (84, 12)
unfolding bounded_string new_buffer init_free_list load32 store32 is_valid_magic
hostile-view = refl

bounded_string-inside_example :
    (4 ≤ 84)
    × (84 + 12 ≤ 96)
    × (64 + 4 ≤ 96)
    × (84 ≡ load32 hostile.bytes 64 + 4)
    × (12 ≤ load32 hostile.bytes 80)
bounded_string-inside_example = bounded_string-inside hostile 64 96 84 12 (omega arith) hostile-view

copy_string-copy_example : copy_string zeros 0 32 13 5 ≡ copy zeros 0 32 13 5
copy_string-copy_example = copy_string-copy zeros 0 32 13 (λ p. omega arith) (inl (omega arith)) 5

is_present-set_presence_bit_example :
    (is_present (set_presence_bit fresh 10 64) 10 64 ≡ true)
    × (is_present (clear_presence_bit fresh 10 64) 10 64 ≡ false)
    × (is_present (set_presence_bit fresh 10 64) 11 64 ≡ is_present fresh 11 64)
    × (is_present (clear_presence_bit fresh 10 64) 11 64 ≡ is_present fresh 11 64)
    × ((set_presence_bit fresh 10 64).bytes 0 ≡ fresh.bytes 0)
    × ((clear_presence_bit fresh 10 64).bytes 0 ≡ fresh.bytes 0)
unfolding new_buffer init_free_list store32
is_present-set_presence_bit_example =
    is_present-set_presence_bit fresh 10 11 64 0 fresh-magic (omega arith) (omega arith)
      (omega arith) (omega arith) (omega arith) (λ e. omega (arith, e))
      (λ e. absurd (omega (arith, e)))

-- A buffer with a small block of 16 bytes at 48.
abbrev mini : Buffer
mini = record (new_buffer false 256 true zeros) { bytes = store32 zeros 40 2147483664 }

mini-class : small_class mini 10 true ≡ some 0
unfolding small_class bitmaps_enabled small_block_index new_buffer init_free_list
mini-class = refl

mini-word : load64 mini.bytes 40 ≡ small_word 16
unfolding load64 load32 store32
mini-word = refl

mini-kind : small_block_index 16 ≡ some 0
unfolding small_block_index
mini-kind = refl

mini_sound : allocation_failed mini ≡ false
unfolding allocation_failed new_buffer init_free_list
mini_sound = refl

try_allocate_in_place-free_example :
    (b' : Buffer) × (free mini 48 ≡ some b')
    × ((try_allocate_in_place b' 10 true true).1 ≡ 48)
    × ((try_allocate_in_place b' 10 true true).0.bitmaps ≡ mini.bitmaps)
unfolding new_buffer init_free_list small_block_size
try_allocate_in_place-free_example =
    try_allocate_in_place-free mini 48 10 0 true mini-class (omega arith) (omega arith)
      (omega arith) (omega arith) (omega arith) (omega arith) (omega arith) 16 mini-word mini-kind
      mini_sound
