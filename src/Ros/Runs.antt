-- ===== src/Ros/Runs.antt =====
-- The theorems on the ROS wire format at concrete buffers.
use phaser.Prelude.{ℕ, ◌≡◌, refl, sym, arith, true, false, [], ◌∷◌, ◌++◌}
use phaser.Prelude.{List, Option, some, length, some_eq}
use phaser.Memory.{Mem}
use phaser.Ros.{ok, RosReader, RosBuffer, little_endian_bytes}
use phaser.Ros.Reader.{advance, read}
use phaser.Ros.Writer.{double_capacity, ensure_space, write, write_string}
use phaser.Ros.Growth.{Suffices, double_capacity-Suffices}
use phaser.Ros.Space.{IsSound, KeepsBytes, MakesRoom, ensure_space-MakesRoom}
use phaser.Ros.Ends.{write-Appends, write_string-Appends}
use phaser.Ros.Wrote.{Appends}
use phaser.Memory.{store8, write_bytes, read_bytes}
use phaser.Ros.Reader.{read_string}
use phaser.Ros.Roundtrip.{read-Holds, read_string-Holds}

double_capacity-Suffices_example :
    (c : ℕ) × (double_capacity 64 16 100 ≡ some c) × Suffices 16 100 c
double_capacity-Suffices_example =
    double_capacity-Suffices 16 100 (omega arith) (omega arith) (omega arith)

-- A realloc that always finds memory.
abbrev moves : Mem → ℕ → ℕ → Option Mem
moves m old new = some m

moves_keeps : KeepsBytes moves
moves_keeps m m' old new e p lt = let f = sym (some_eq e) in λ i. f i p

-- An owned buffer of 16 bytes, two of them written.
abbrev started : RosBuffer
started = record {
  owned = true;
  allocation_failed = false;
  is_null = false;
  capacity = 16;
  size = 2;
  bytes = λ p. 7;
}

started-IsSound : IsSound started
started-IsSound = record { within = omega arith; bound = omega arith; positive = λ o. omega arith }

ensure_space-MakesRoom_example : MakesRoom true started 40 (ensure_space moves started 40)
ensure_space-MakesRoom_example = ensure_space-MakesRoom moves moves_keeps started 40 started-IsSound

write-Appends_example :
    Appends started (little_endian_bytes 4 258) (write moves false true started 4 258)
write-Appends_example =
    write-Appends false moves moves_keeps true started started-IsSound 4 258
      (λ t. absurd (ground (arith, t)))

abbrev hi : List ℕ
hi = 104 ∷ 105 ∷ []

write_string-Appends_example :
    Appends started
      (little_endian_bytes 4 (length hi) ++ hi)
      (write_string moves true true started hi)
write_string-Appends_example =
    write_string-Appends true moves moves_keeps true started started-IsSound hi
      (omega arith, (omega arith, tt)) (λ t. absurd (ground (arith, t)))

-- An input of eight bytes, all 1.
abbrev ones : RosReader
ones = record { input = λ p. 1; length = 8; position = 3 }

read-Holds_example : read ones 2 ≡ (advance ones 2, ok 257)
read-Holds_example = read-Holds ones 2 257 (refl, (refl, tt)) (omega arith) (omega arith)

-- The string "hi" with its length.
abbrev greeting : RosReader
greeting = record {
  input = write_bytes (λ p. 0) 2 (2 ∷ 0 ∷ 0 ∷ 0 ∷ 104 ∷ 105 ∷ []);
  length = 8;
  position = 2;
}

read_string-Holds_example :
    (read_string greeting ≡ (advance (advance greeting 4) 2, ok (6, 2)))
    × (read_bytes greeting.input 6 2 ≡ hi)
unfolding write_bytes store8
read_string-Holds_example =
    read_string-Holds greeting hi (refl, (refl, (refl, (refl, (refl, (refl, tt)))))) (omega arith)
      (omega arith)
