-- ===== src/Memory/Bytes.antt =====
-- Byte strings that are written to memory and read back.
use phaser.Prelude.{ℕ, zero, suc, ◌+◌, ◌≤◌, ◌<◌, ◌≡◌, refl, arith, ap, ◌∙◌}
use phaser.Prelude.{List, [], ◌∷◌, length, take, All}
use phaser.Memory.{Mem, store8, write_bytes, read_bytes}
use phaser.Memory.Words.{Apart}

abbrev pub IsBytes : List ℕ → Type 0
IsBytes xs = All (λ x. x < 256) xs

pub write_bytes_other :
    (m : Mem) (a : ℕ) (xs : List ℕ) (p : ℕ) → Apart a (length xs) p → write_bytes m a xs p ≡ m p
unfolding write_bytes store8
write_bytes_other m a [] p h = refl
write_bytes_other m a (x ∷ xs) p h = ground (arith, write_bytes_other m (a + 1) xs p)

pub read_bytes_same :
    (m m' : Mem) (a n : ℕ)
    → ((p : ℕ) → a ≤ p → p < a + n → m' p ≡ m p)
    → read_bytes m' a n ≡ read_bytes m a n
unfolding read_bytes
read_bytes_same m m' a zero same = refl
read_bytes_same m m' a (suc n) same =
    let e = same a (omega arith) (omega arith) in
    let rest = read_bytes_same m m' (a + 1) n (λ p lo hi. same p (omega arith) (omega arith)) in
    λ i. e i ∷ rest i

module _ (m : Mem) (a x : ℕ) (xs : List ℕ) where
  write_bytes_head : x < 256 → write_bytes m a (x ∷ xs) a ≡ x
  unfolding write_bytes store8
  write_bytes_head h = ground arith

  write_bytes_tail : (p : ℕ) → a + 1 ≤ p → write_bytes m a (x ∷ xs) p ≡ write_bytes m (a + 1) xs p
  unfolding write_bytes store8
  write_bytes_tail p h = ground arith

pub read_bytes-write_bytes :
    (m : Mem) (a : ℕ) (xs : List ℕ)
    → IsBytes xs
    → read_bytes (write_bytes m a xs) a (length xs) ≡ xs
unfolding read_bytes
read_bytes-write_bytes m a [] h = refl
read_bytes-write_bytes m a (x ∷ xs) (hx, h) =
    let rest =
      read_bytes_same (write_bytes m (a + 1) xs) (write_bytes m a (x ∷ xs)) (a + 1) (length xs)
        (λ p lo hi. write_bytes_tail m a x xs p lo)
      ∙ read_bytes-write_bytes m (a + 1) xs h in
    λ i. write_bytes_head m a x xs hx i ∷ rest i

pub take-length : (xs : List ℕ) → take (length xs) xs ≡ xs
take-length [] = refl
take-length (x ∷ xs) = ap (λ ys. x ∷ ys) (take-length xs)
