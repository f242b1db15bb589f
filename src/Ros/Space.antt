-- ===== src/Ros/Space.antt =====
-- Making room in a ROSBuffer (phaser/runtime/ros_wireformat.h).
use phaser.Prelude.{ℕ, ◌+◌, ◌-◌, ◌^◌, ◌≤◌, ◌<◌, ◌≡◌, ◌⊎◌, inl, inr, arith}
use phaser.Prelude.{sym, refl, Bool, true, false, not, ◌&&◌, leb, ◌==◌}
use phaser.Prelude.{Option, none, some, Option-cases}
use mathlib.Core.Path.{subst}
use phaser.Memory.{Mem}
use phaser.Ros.{
  Error, allocation_failure, null_output, output_overflow, no_space, growth_failure, stuck, Result,
  ok, err, RosBuffer,
}
use phaser.Ros.Writer.{double_capacity, ensure_space_slow, ensure_space, reserve}
use phaser.Ros.Growth.{double_capacity-Suffices}

-- The size is within the capacity, and a buffer that may grow has a capacity to double.
pub record IsSound (b : RosBuffer) : Type 0 where
  pub within : b.size ≤ b.capacity
  pub bound : b.capacity < 2 ^ 64
  pub positive : b.owned ≡ true → 1 ≤ b.capacity

abbrev pub is_stuck : Error → Bool
is_stuck stuck = true
is_stuck _ = false

-- What realloc promises: the bytes up to the old size stay.
abbrev pub KeepsBytes : (Mem → ℕ → ℕ → Option Mem) → Type 0
KeepsBytes realloc =
    (m m' : Mem) (old new : ℕ) → realloc m old new ≡ some m' → (p : ℕ) → p < old → m' p ≡ m p

-- A buffer that writes may go on with where they check for room.
abbrev pub IsReady : Bool → RosBuffer → Type 0
IsReady check_space b =
    check_space ≡ true
    → (b.allocation_failed ≡ false) × ((b.is_null && not (b.capacity == 0)) ≡ false)

-- What making room for `n` bytes leaves: room and the bytes written so far, or an error and the bytes
-- as they were. The loop never runs out of its fuel.
abbrev pub MakesRoom : Bool → RosBuffer → ℕ → RosBuffer × Result (Unit {0}) → Type 0
MakesRoom check_space b n (b', ok u) =
    IsSound b'
    × IsReady check_space b'
    × (b'.size ≡ b.size)
    × (b.size + n ≤ b'.capacity)
    × ((p : ℕ) → p < b.size → b'.bytes p ≡ b.bytes p)
MakesRoom check_space b n (b', err e) =
    IsSound b' × (b'.size ≡ b.size) × (b'.bytes ≡ b.bytes) × (is_stuck e ≡ false)

module _ (realloc : Mem → ℕ → ℕ → Option Mem) (b : RosBuffer) (n : ℕ) where
  abbrev required : ℕ
  required = b.size + n

  slow_failed :
      b.allocation_failed ≡ true → ensure_space_slow realloc b n ≡ (b, err allocation_failure)
  unfolding ensure_space_slow
  slow_failed h = ground arith

  module _ (live : b.allocation_failed ≡ false) where
    slow_null :
        (b.is_null && not (b.capacity == 0)) ≡ true
        → ensure_space_slow realloc b n ≡ (b, err null_output)
    unfolding ensure_space_slow
    slow_null h = ground arith

    module _ (there : (b.is_null && not (b.capacity == 0)) ≡ false) where
      slow_overflow :
          2 ^ 64 - 1 - b.size < n → ensure_space_slow realloc b n ≡ (b, err output_overflow)
      unfolding ensure_space_slow
      slow_overflow h = ground arith

      module _ (fits : n ≤ 2 ^ 64 - 1 - b.size) where
        slow_room : required ≤ b.capacity → ensure_space_slow realloc b n ≡ (b, ok tt)
        unfolding ensure_space_slow
        slow_room h = ground arith

        module _ (tight : b.capacity < required) where
          slow_fixed : b.owned ≡ false → ensure_space_slow realloc b n ≡ (b, err no_space)
          unfolding ensure_space_slow
          slow_fixed h = ground arith

          module _ (own : b.owned ≡ true) (c : ℕ)
              (e : double_capacity 64 b.capacity required ≡ some c) where
            slow_lost :
                realloc b.bytes b.capacity c ≡ none
                → ensure_space_slow realloc b n
                  ≡ (record b { allocation_failed = true }, err growth_failure)
            unfolding ensure_space_slow
            slow_lost h = ground (arith, e)

            slow_grown :
                (m : Mem)
                → realloc b.bytes b.capacity c ≡ some m
                → ensure_space_slow realloc b n
                  ≡ (record b { is_null = false; bytes = m; capacity = c }, ok tt)
            unfolding ensure_space_slow
            slow_grown m h = ground (arith, e)

module _ (realloc : Mem → ℕ → ℕ → Option Mem) (keeps : KeepsBytes realloc) where
  -- The buffer has to grow.
  grows :
      (b : RosBuffer) (n : ℕ)
      → IsSound b
      → b.allocation_failed ≡ false
      → (b.is_null && not (b.capacity == 0)) ≡ false
      → n ≤ 2 ^ 64 - 1 - b.size
      → b.capacity < b.size + n
      → b.owned ≡ true
      → MakesRoom true b n (ensure_space_slow realloc b n)
  grows b n sound live there fits tight own =
      let (c, e, (room, up, small, least)) =
        double_capacity-Suffices b.capacity (b.size + n) (sound.positive own) (sound.bound)
          (omega (arith, sound.within, sound.bound)) in
      let in_bound = sound.within in
      let positive = sound.positive own in
      elim (Option-cases (realloc b.bytes b.capacity c)) [
        | inl h ↦
            subst (MakesRoom true b n) (sym (slow_lost realloc b n live there fits tight own c e h))
              (
                record { within = sound.within; bound = sound.bound; positive = sound.positive },
                refl,
                refl,
                refl,
              )
        | inr (m, h) ↦
            subst (MakesRoom true b n)
              (sym (slow_grown realloc b n live there fits tight own c e m h))
              (
                record { within = omega arith; bound = small; positive = λ o. omega arith },
                λ t. (live, refl),
                refl,
                room,
                λ p lt. keeps b.bytes m b.capacity c h p (omega arith),
              )
      ]

  slow-MakesRoom :
      (b : RosBuffer) (n : ℕ) → IsSound b → MakesRoom true b n (ensure_space_slow realloc b n)
  slow-MakesRoom b n sound = elim cases [
    | inl f ↦ subst (MakesRoom true b n) (sym (slow_failed realloc b n f)) (sound, refl, refl, refl)
    | inr (live, inl h) ↦
        subst (MakesRoom true b n) (sym (slow_null realloc b n live h)) (sound, refl, refl, refl)
    | inr (live, inr (there, inl h)) ↦
        subst (MakesRoom true b n) (sym (slow_overflow realloc b n live there h))
          (sound, refl, refl, refl)
    | inr (live, inr (there, inr (fits, inl h))) ↦
        subst (MakesRoom true b n) (sym (slow_room realloc b n live there fits h))
          (sound, λ t. (live, there), refl, h, λ p lt. refl)
    | inr (live, inr (there, inr (fits, inr (tight, inl h)))) ↦
        subst (MakesRoom true b n) (sym (slow_fixed realloc b n live there fits tight h))
          (sound, refl, refl, refl)
    | inr (live, inr (there, inr (fits, inr (tight, inr own)))) ↦
        grows b n sound live there fits tight own
  ]
    where
      cases :
          (b.allocation_failed ≡ true)
          ⊎ ((b.allocation_failed ≡ false)
              × (((b.is_null && not (b.capacity == 0)) ≡ true)
                  ⊎ (((b.is_null && not (b.capacity == 0)) ≡ false)
                      × ((2 ^ 64 - 1 - b.size < n)
                          ⊎ ((n ≤ 2 ^ 64 - 1 - b.size)
                              × ((b.size + n ≤ b.capacity)
                                  ⊎ ((b.capacity < b.size + n)
                                      × ((b.owned ≡ false) ⊎ (b.owned ≡ true)))))))))
      cases = ground arith

  ensure_fast :
      (b : RosBuffer) (n : ℕ)
      → (not b.is_null && not b.allocation_failed && leb n (b.capacity - b.size)) ≡ true
      → ensure_space realloc b n ≡ (b, ok tt)
  unfolding ensure_space
  ensure_fast b n h = ground arith

  ensure_slow :
      (b : RosBuffer) (n : ℕ)
      → (not b.is_null && not b.allocation_failed && leb n (b.capacity - b.size)) ≡ false
      → ensure_space realloc b n ≡ ensure_space_slow realloc b n
  unfolding ensure_space
  ensure_slow b n h = ground arith

  -- In a sound buffer EnsureSpace makes room for any number of bytes and leaves the bytes written
  -- so far, or fails and leaves the size and all bytes; the buffer stays sound and the loop that
  -- doubles the capacity ends. realloc, where it finds memory, keeps the old bytes.
  pub ensure_space-MakesRoom :
      (b : RosBuffer) (n : ℕ) → IsSound b → MakesRoom true b n (ensure_space realloc b n)
  ensure_space-MakesRoom b n sound = elim cases [
    | inl (h, room, ready) ↦
        subst (MakesRoom true b n) (sym (ensure_fast b n h))
          (sound, λ t. ready, refl, room, λ p lt. refl)
    | inr h ↦ subst (MakesRoom true b n) (sym (ensure_slow b n h)) (slow-MakesRoom b n sound)
  ]
    where
      cases :
          (((not b.is_null && not b.allocation_failed && leb n (b.capacity - b.size)) ≡ true)
            × (b.size + n ≤ b.capacity)
            × ((b.allocation_failed ≡ false) × ((b.is_null && not (b.capacity == 0)) ≡ false)))
          ⊎ ((not b.is_null && not b.allocation_failed && leb n (b.capacity - b.size)) ≡ false)
      cases = ground (arith, sound.within)

  -- Reserve makes room too, where it checks or where there is room.
  pub reserve-MakesRoom :
      (check_space : Bool) (b : RosBuffer) (n : ℕ)
      → IsSound b
      → (check_space ≡ false → b.size + n ≤ b.capacity)
      → MakesRoom check_space b n (reserve realloc check_space b n)
  unfolding reserve
  reserve-MakesRoom true b n sound room = ensure_space-MakesRoom b n sound
  reserve-MakesRoom false b n sound room =
      (sound, λ t. absurd (ground (arith, t)), refl, room refl, λ p lt. refl)
