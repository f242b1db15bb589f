-- ===== src/Ros/Ends.antt =====
-- What the writes of a ROSBuffer leave (phaser/runtime/ros_wireformat.h).
use phaser.Prelude.{ℕ, ◌+◌, ◌-◌, ◌^◌, ◌≤◌, ◌<◌, ◌≡◌, ◌⊎◌, inl, inr, arith}
use phaser.Prelude.{sym, refl, Bool, true, false, ltb, ◌==◌, if◌then◌else◌}
use phaser.Prelude.{Option, List, [], ◌∷◌, ◌++◌, length}
use mathlib.Core.Path.{subst}
use phaser.Memory.{Mem}
use phaser.Memory.Bytes.{IsBytes}
use phaser.Ros.{string_too_long, Result, ok, err, RosBuffer, little_endian_bytes}
use phaser.Ros.Writer.{
  reserve, with_room, append, write_little_endian_unchecked, write, write_string,
}
use phaser.Ros.Bytes.{
  length-little_endian_bytes, little_endian_bytes-IsBytes, store_little_endian-write_bytes,
}
use phaser.Ros.Space.{IsSound, KeepsBytes, reserve-MakesRoom}
use phaser.Ros.Wrote.{
  Wrote, Appends, Writes, append-Wrote, append-here, failed-Appends, with_room-Appends, Wrote-then,
  Wrote-none,
}

module _ (little : Bool) where
  unchecked-Wrote :
      (realloc : Mem → ℕ → ℕ → Option Mem) (b : RosBuffer) (width value : ℕ)
      → IsSound b
      → b.size + width ≤ b.capacity
      → Wrote b
          (little_endian_bytes width value)
          (write_little_endian_unchecked realloc little b width value)
  unfolding write_little_endian_unchecked
  unchecked-Wrote realloc b width value sound room =
      let e = length-little_endian_bytes width value in
      append-Wrote b (little_endian_bytes width value) sound (omega (arith, e))
        (little_endian_bytes-IsBytes width value)
        (write_little_endian_unchecked realloc little b width value) refl refl (omega (arith, e))
        (λ p. store_little_endian-write_bytes little b.bytes b.size width value p)

  module _ (realloc : Mem → ℕ → ℕ → Option Mem) (keeps : KeepsBytes realloc) (check_space : Bool)
      (b : RosBuffer) (sound : IsSound b) where
    -- In a sound buffer, on a host of either byte order, Write of a value, with room where it does
    -- not check for it, appends the value's bytes, lowest first, and leaves what was written
    -- before, or fails and leaves all bytes. realloc, where it finds memory, keeps the old bytes.
    pub write-Appends :
        (width value : ℕ)
        → (check_space ≡ false → b.size + width ≤ b.capacity)
        → Appends b
            (little_endian_bytes width value)
            (write realloc little check_space b width value)
    unfolding write
    write-Appends width value room =
        with_room-Appends realloc check_space b (little_endian_bytes width value) width
          (reserve realloc check_space b width)
          (reserve-MakesRoom realloc keeps check_space b width sound room)
          (λ q. (write_little_endian_unchecked realloc little q width value, ok tt))
          (λ q s ready fit. unchecked-Wrote realloc q width value s fit)

    -- What WriteString does once there is room.
    unfoldable string_in_room : List ℕ → RosBuffer → RosBuffer × Result (Unit {0})
    unfolding write_little_endian_unchecked
    string_in_room value q =
        let counted = write_little_endian_unchecked realloc little q 4 (length value) in
        if length value == 0 then (counted, ok tt) else (append realloc counted value, ok tt)

    string_fits :
        (value : List ℕ)
        → length value < 2 ^ 32
        → write_string realloc little check_space b value
          ≡ with_room realloc
              (reserve realloc check_space b (4 + length value))
              (string_in_room value)
    unfolding write_string string_in_room
    string_fits value h =
        let long : ltb (2 ^ 32 - 1) (length value) ≡ false = ground arith in
        λ i.
          if long i
          then (b, err string_too_long)
          else with_room realloc (reserve realloc check_space b (4 + length value))
              (string_in_room value)

    string_long :
        (value : List ℕ)
        → 2 ^ 32 ≤ length value
        → write_string realloc little check_space b value ≡ (b, err string_too_long)
    unfolding write_string string_in_room
    string_long value h =
        let long : ltb (2 ^ 32 - 1) (length value) ≡ true = ground arith in
        λ i.
          if long i
          then (b, err string_too_long)
          else with_room realloc (reserve realloc check_space b (4 + length value))
              (string_in_room value)

    counted-Wrote :
        (n : ℕ) (value : List ℕ)
        → n ≡ length value
        → IsBytes value
        → (q : RosBuffer) → IsSound q
        → q.size + (4 + n) ≤ q.capacity
        → Wrote q
            (little_endian_bytes 4 n ++ value)
            (append realloc (write_little_endian_unchecked realloc little q 4 n) value)
    unfolding write_little_endian_unchecked
    counted-Wrote n value e bytes q s fit =
        let counted = unchecked-Wrote realloc q 4 n s (omega arith) in
        Wrote-then q _ _ (little_endian_bytes 4 n) value counted
          (append-here realloc _ value counted.sound (omega (arith, counted.size)) bytes)

    bare-Wrote :
        (n : ℕ) (value : List ℕ)
        → value ≡ []
        → (q : RosBuffer) → IsSound q
        → q.size + 4 ≤ q.capacity
        → Wrote q
            (little_endian_bytes 4 n ++ value)
            (write_little_endian_unchecked realloc little q 4 n)
    bare-Wrote n value e q s fit =
        let counted = unchecked-Wrote realloc q 4 n s fit in
        subst
          (λ v.
            Wrote q (little_endian_bytes 4 n ++ v)
              (write_little_endian_unchecked realloc little q 4 n))
          (sym e)
          (Wrote-then q _ _ (little_endian_bytes 4 n) [] counted (Wrote-none _ counted.sound))

    put_bare :
        (value : List ℕ) (q : RosBuffer)
        → length value ≡ 0
        → string_in_room value q
          ≡ (write_little_endian_unchecked realloc little q 4 (length value), ok tt)
    unfolding string_in_room
    put_bare value q e =
        let t : (length value == 0) ≡ true = ground arith in
        λ i.
          let counted = write_little_endian_unchecked realloc little q 4 (length value) in
          if t i then (counted, ok tt) else (append realloc counted value, ok tt)

    put_counted :
        (value : List ℕ) (q : RosBuffer)
        → 0 < length value
        → string_in_room value q ≡ (
          append realloc (write_little_endian_unchecked realloc little q 4 (length value)) value,
          ok tt,
        )
    unfolding string_in_room
    put_counted value q h =
        let t : (length value == 0) ≡ false = ground arith in
        λ i.
          let counted = write_little_endian_unchecked realloc little q 4 (length value) in
          if t i then (counted, ok tt) else (append realloc counted value, ok tt)

    string_in_room-Writes :
        (value : List ℕ)
        → IsBytes value
        → (q : RosBuffer) → IsSound q
        → q.size + (4 + length value) ≤ q.capacity
        → Writes q (little_endian_bytes 4 (length value) ++ value) (string_in_room value q)
    string_in_room-Writes value bytes q s fit = elim cases [
      | inl e ↦
          subst (Writes q (little_endian_bytes 4 (length value) ++ value))
            (sym (put_bare value q e))
            (bare-Wrote (length value) value (empty value e) q s (omega arith))
      | inr h ↦
          subst (Writes q (little_endian_bytes 4 (length value) ++ value))
            (sym (put_counted value q h)) (counted-Wrote (length value) value refl bytes q s fit)
    ]
      where
        cases : (length value ≡ 0) ⊎ (0 < length value)
        cases = ground arith

        empty : (xs : List ℕ) → length xs ≡ 0 → xs ≡ []
        empty [] e = refl
        empty (x ∷ xs) e = absurd (omega (arith, e))

    -- In a sound buffer, on a host of either byte order, WriteString of a string of bytes, with
    -- room where it does not check for it, appends the length in four bytes and the string and
    -- leaves what was written before, or fails and leaves all bytes; the buffer stays sound and no
    -- loop runs out of fuel. realloc, where it finds memory, keeps the old bytes.
    pub write_string-Appends :
        (value : List ℕ)
        → IsBytes value
        → (check_space ≡ false → b.size + (4 + length value) ≤ b.capacity)
        → Appends b
            (little_endian_bytes 4 (length value) ++ value)
            (write_string realloc little check_space b value)
    write_string-Appends value bytes room = elim cases [
      | inl h ↦
          subst (Appends b (little_endian_bytes 4 (length value) ++ value))
            (sym (string_long value h)) (failed-Appends b _ string_too_long sound refl)
      | inr h ↦
          subst (Appends b (little_endian_bytes 4 (length value) ++ value))
            (sym (string_fits value h))
            (with_room-Appends realloc check_space b (little_endian_bytes 4 (length value) ++ value)
              (4 + length value) (reserve realloc check_space b (4 + length value))
              (reserve-MakesRoom realloc keeps check_space b (4 + length value) sound room)
              (string_in_room value) (λ q s ready fit. string_in_room-Writes value bytes q s fit))
    ]
      where
        cases : (2 ^ 32 ≤ length value) ⊎ (length value < 2 ^ 32)
        cases = ground arith
