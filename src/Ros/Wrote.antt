-- ===== src/Ros/Wrote.antt =====
-- What a write to a ROSBuffer leaves (phaser/runtime/ros_wireformat.h).
use phaser.Prelude.{ℕ, ◌+◌, ◌≤◌, ◌<◌, ◌≡◌, inl, arith}
use phaser.Prelude.{◌∙◌, sym, refl, Bool, false}
use phaser.Prelude.{Option, List, [], ◌++◌, length, length-append}
use mathlib.Core.Path.{subst}
use phaser.Memory.{Mem, write_bytes}
use phaser.Memory.Bytes.{IsBytes, write_bytes_other}
use phaser.Ros.{Error, Result, ok, err, RosBuffer}
use phaser.Ros.Writer.{with_room, append}
use phaser.Ros.Bytes.{Holds, Holds-same, Holds-join, Holds-write_bytes}
use phaser.Ros.Space.{IsSound, IsReady, is_stuck, MakesRoom}

-- `b'` is `b` with `xs` written behind what it held.
pub record Wrote (b : RosBuffer) (xs : List ℕ) (b' : RosBuffer) : Type 0 where
  pub sound : IsSound b'
  pub size : b'.size ≡ b.size + length xs
  pub kept : (p : ℕ) → p < b.size → b'.bytes p ≡ b.bytes p
  pub holds : Holds b'.bytes b.size xs

-- A write of `xs` succeeds, or fails and leaves the bytes.
unfoldable pub Appends : RosBuffer → List ℕ → RosBuffer × Result (Unit {0}) → Type 0
Appends b xs (b', ok u) = Wrote b xs b'
Appends b xs (b', err e) =
    IsSound b' × (b'.size ≡ b.size) × (b'.bytes ≡ b.bytes) × (is_stuck e ≡ false)

-- A write of `xs` for which there is room.
abbrev pub Writes : RosBuffer → List ℕ → RosBuffer × Result (Unit {0}) → Type 0
Writes b xs (b', ok u) = Wrote b xs b'
Writes b xs (b', err e) = ⊥

pub append-Wrote :
    (b : RosBuffer) (xs : List ℕ)
    → IsSound b
    → b.size + length xs ≤ b.capacity
    → IsBytes xs
    → (b' : RosBuffer) → b'.capacity ≡ b.capacity
    → b'.owned ≡ b.owned
    → b'.size ≡ b.size + length xs
    → ((p : ℕ) → b'.bytes p ≡ write_bytes b.bytes b.size xs p)
    → Wrote b xs b'
append-Wrote b xs sound room bytes b' cap own size same = record {
  sound = record {
    within = omega (arith, sound.within);
    bound = omega (arith, sound.bound);
    positive = λ o. omega (arith, sound.positive (sym own ∙ o));
  };
  size = size;
  kept = λ p lt. same p ∙ write_bytes_other b.bytes b.size xs p (inl lt);
  holds = Holds-same _ _ b.size xs (λ p lo hi. same p) (Holds-write_bytes b.bytes b.size xs bytes);
}

pub failed-Appends :
    (b : RosBuffer) (xs : List ℕ) (e : Error)
    → IsSound b
    → is_stuck e ≡ false
    → Appends b xs (b, err e)
unfolding Appends
failed-Appends b xs e sound h = (sound, refl, refl, h)

pub with_room-Appends :
    (realloc : Mem → ℕ → ℕ → Option Mem) (check_space : Bool) (b : RosBuffer) (xs : List ℕ) (n : ℕ)
    (r : RosBuffer × Result (Unit {0}))
    → MakesRoom check_space b n r
    → (k : RosBuffer → RosBuffer × Result (Unit {0}))
    → ((b' : RosBuffer)
        → IsSound b'
        → IsReady check_space b'
        → b'.size + n ≤ b'.capacity
        → Writes b' xs (k b'))
    → Appends b xs (with_room realloc r k)
unfolding Appends
with_room-Appends realloc check_space b xs n (b', err e) made k writes = made
with_room-Appends realloc check_space b xs n (b', ok u) (sound, ready, size, room, same) k writes =
    after (k b') (writes b' sound ready (omega arith))
  where
    after : (r : RosBuffer × Result (Unit {0})) → Writes b' xs r → Appends b xs r
    after (b'', err e) w = absurd w
    after (b'', ok v) w = record {
      sound = w.sound;
      size = omega (arith, w.size);
      kept = λ p lt. w.kept p (omega arith) ∙ same p lt;
      holds = subst (λ q. Holds b''.bytes q xs) size (w.holds);
    }

pub append-here :
    (realloc : Mem → ℕ → ℕ → Option Mem) (b : RosBuffer) (xs : List ℕ)
    → IsSound b
    → b.size + length xs ≤ b.capacity
    → IsBytes xs
    → Wrote b xs (append realloc b xs)
append-here realloc b xs sound room bytes =
    append-Wrote b xs sound room bytes (append realloc b xs) refl refl refl (λ p. refl)

-- A write behind another.
pub Wrote-then :
    (b b' b'' : RosBuffer) (xs ys : List ℕ)
    → Wrote b xs b'
    → Wrote b' ys b''
    → Wrote b (xs ++ ys) b''
Wrote-then b b' b'' xs ys w v = record {
  sound = v.sound;
  size = omega (arith, w.size, v.size, length-append xs ys);
  kept = λ p lt. v.kept p (omega (arith, w.size)) ∙ w.kept p lt;
  holds =
      Holds-join b''.bytes b.size xs ys
        (Holds-same b'.bytes b''.bytes b.size xs (λ p lo hi. v.kept p (omega (arith, w.size)))
          (w.holds))
        (subst (λ q. Holds b''.bytes q ys) (w.size) (v.holds));
}

pub Wrote-none : (b : RosBuffer) → IsSound b → Wrote b [] b
Wrote-none b sound = record { sound = sound; size = omega arith; kept = λ p lt. refl; holds = tt }
