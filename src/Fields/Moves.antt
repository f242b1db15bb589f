-- ===== src/Fields/Moves.antt =====
-- Inserting and erasing move the values of a vector as the operations on lists do (phaser/runtime/vectors.h).
use phaser.Prelude.{
  ℕ, zero, suc, ◌+◌, ◌-◌, ◌*◌, ◌≤◌, ◌<◌, ◌≡◌, refl, arith, ap, sym, ◌∙◌, ◌⊎◌, inl, inr,
}
use phaser.Prelude.{List, [], ◌∷◌, ◌++◌, length, take, drop}
use mathlib.Core.Path.{subst}
use native.Mathlib.Nat.{suc-mul, add-mul}
use phaser.Memory.{Mem, read_bytes, write_bytes, copy}
use phaser.Memory.Bytes.{IsBytes, read_bytes-write_bytes, write_bytes_other}
use phaser.Memory.Moves.{copy_at, copy_other}
use phaser.Fields.Vectors.{move_last_to, move_down}

-- The `n` values of `t` bytes from `a` on.
abbrev pub elements : Mem → ℕ → ℕ → ℕ → List (List ℕ)
elements m a t zero = []
elements m a t (suc n) = read_bytes m a t ∷ elements m (a + t) t n

abbrev pub insert_at : ℕ → List ℕ → List (List ℕ) → List (List ℕ)
insert_at i x xs = take i xs ++ (x ∷ drop i xs)

abbrev pub erase_range : ℕ → ℕ → List (List ℕ) → List (List ℕ)
erase_range first last xs = take first xs ++ drop last xs

-- Values at another place with the same bytes.
read_bytes_shift :
    (m m' : Mem) (a a' n : ℕ)
    → ((k : ℕ) → k < n → m' (a' + k) ≡ m (a + k))
    → read_bytes m' a' n ≡ read_bytes m a n
unfolding read_bytes
read_bytes_shift m m' a a' zero same = refl
read_bytes_shift m m' a a' (suc n) same =
    let e : a' ≡ a' + 0 = omega arith in
    let f : a + 0 ≡ a = omega arith in
    let here = ap m' e ∙ same 0 (omega arith) ∙ ap m f in
    let rest = read_bytes_shift m m' (a + 1) (a' + 1) n (λ k lt.
      let g : a' + 1 + k ≡ a' + (1 + k) = omega arith in
      let h : a + (1 + k) ≡ a + 1 + k = omega arith in
      ap m' g ∙ same (1 + k) (omega arith) ∙ ap m h) in
    λ i. here i ∷ rest i

pub elements_shift :
    (m m' : Mem) (t n a a' : ℕ)
    → ((k : ℕ) → k < n * t → m' (a' + k) ≡ m (a + k))
    → elements m' a' t n ≡ elements m a t n
elements_shift m m' t zero a a' same = refl
elements_shift m m' t (suc n) a a' same =
    let size = suc-mul n t in
    let here = read_bytes_shift m m' a a' t (λ k lt. same k (omega (arith, size))) in
    let rest = elements_shift m m' t n (a + t) (a' + t) (λ k lt.
      let g : a' + t + k ≡ a' + (t + k) = omega arith in
      let h : a + (t + k) ≡ a + t + k = omega arith in
      ap m' g ∙ same (t + k) (omega (arith, size)) ∙ ap m h) in
    λ i. here i ∷ rest i

-- The values before and from `i` on.
elements-add :
    (m : Mem) (t i j a : ℕ)
    → elements m a t (i + j) ≡ elements m a t i ++ elements m (a + i * t) t j
elements-add m t zero j a =
    let e : 0 + j ≡ j = omega arith in
    let f : a ≡ a + 0 * t = omega arith in ap (elements m a t) e ∙ ap (λ q. elements m q t j) f
elements-add m t (suc i) j a =
    let e : suc i + j ≡ suc (i + j) = omega arith in
    let f : a + t + i * t ≡ a + suc i * t = omega (arith, suc-mul i t) in
    ap (elements m a t) e
    ∙ ap (λ es. read_bytes m a t ∷ es)
        (elements-add m t i j (a + t) ∙ ap (λ q. elements m (a + t) t i ++ elements m q t j) f)

take-elements : (m : Mem) (t i j a : ℕ) → take i (elements m a t (i + j)) ≡ elements m a t i
take-elements m t zero j a = refl
take-elements m t (suc i) j a =
    let e : suc i + j ≡ suc (i + j) = omega arith in
    ap (λ n. take (suc i) (elements m a t n)) e
    ∙ ap (λ es. read_bytes m a t ∷ es) (take-elements m t i j (a + t))

drop-elements :
    (m : Mem) (t i j a : ℕ) → drop i (elements m a t (i + j)) ≡ elements m (a + i * t) t j
drop-elements m t zero j a =
    let e : 0 + j ≡ j = omega arith in
    let f : a ≡ a + 0 * t = omega arith in ap (elements m a t) e ∙ ap (λ q. elements m q t j) f
drop-elements m t (suc i) j a =
    let e : suc i + j ≡ suc (i + j) = omega arith in
    let f : a + t + i * t ≡ a + suc i * t = omega (arith, suc-mul i t) in
    ap (λ n. drop (suc i) (elements m a t n)) e
    ∙ drop-elements m t i j (a + t)
    ∙ ap (λ q. elements m q t j) f

length-read_bytes : (m : Mem) (a n : ℕ) → length (read_bytes m a n) ≡ n
unfolding read_bytes
length-read_bytes m a zero = refl
length-read_bytes m a (suc n) = ap suc (length-read_bytes m (a + 1) n)

-- With `i` values before and `j` after.
module _ (m : Mem) (base t i j : ℕ) where
  abbrev last_value : List ℕ
  last_value = read_bytes m (base + (i + j) * t) t

  abbrev moved : Mem
  moved = copy m (base + (i + 1) * t) (base + i * t) (j * t)

  abbrev inserted : Mem
  inserted = write_bytes moved (base + i * t) last_value

  length-last_value : length last_value ≡ t
  length-last_value = length-read_bytes m (base + (i + j) * t) t

  module _ (bytes : IsBytes last_value) where
    inserted-value : read_bytes inserted (base + i * t) t ≡ last_value
    inserted-value =
        subst (λ n. read_bytes inserted (base + i * t) n ≡ last_value) length-last_value
          (read_bytes-write_bytes moved (base + i * t) last_value bytes)

    inserted-before : elements inserted base t i ≡ elements m base t i
    inserted-before = elements_shift m inserted t i base base (λ k lt.
        write_bytes_other moved (base + i * t) last_value (base + k) (inl (omega arith))
        ∙ copy_other m (base + (i + 1) * t) (base + i * t) (j * t) (base + k)
            (inl (omega (arith, add-mul i 1 t))))

    inserted-after : elements inserted (base + i * t + t) t j ≡ elements m (base + i * t) t j
    inserted-after = elements_shift m inserted t j (base + i * t) (base + i * t + t) (λ k lt.
        let e : base + i * t + t + k ≡ base + (i + 1) * t + k = omega (arith, add-mul i 1 t) in
        write_bytes_other moved (base + i * t) last_value (base + i * t + t + k)
          (inr (omega (arith, length-last_value)))
        ∙ ap moved e
        ∙ copy_at m (base + (i + 1) * t) (base + i * t) (j * t) k lt)

    inserted-elements :
        elements inserted base t (i + suc j) ≡ insert_at i last_value (elements m base t (i + j))
    inserted-elements =
        elements-add inserted t i (suc j) base
        ∙ (λ q. inserted-before q ++ (inserted-value q ∷ inserted-after q))
        ∙ (λ q.
            sym (take-elements m t i j base) q ++ (last_value ∷ sym (drop-elements m t i j base) q))

  -- The values from `i + j` on come down to `i`.
  module _ (k : ℕ) where
    abbrev erased : Mem
    erased = copy m (base + i * t) (base + (i + j) * t) (k * t)

    erased-elements :
        elements erased base t (i + k) ≡ erase_range i (i + j) (elements m base t (i + j + k))
    erased-elements =
        let before = elements_shift m erased t i base base (λ p lt.
          copy_other m (base + i * t) (base + (i + j) * t) (k * t) (base + p)
            (inl (omega arith))) in
        let after =
          elements_shift m erased t k (base + (i + j) * t) (base + i * t)
            (λ p lt. copy_at m (base + i * t) (base + (i + j) * t) (k * t) p lt) in
        let e : i + j + k ≡ i + (j + k) = omega arith in
        elements-add erased t i k base ∙ (λ q. before q ++ after q) ∙ (λ q.
          sym (ap (λ n. take i (elements m base t n)) e ∙ take-elements m t i (j + k) base) q
          ++ sym (drop-elements m t (i + j) k base) q)

  move_last_to-inserted : move_last_to m base t (i + j + 1) i ≡ inserted
  unfolding move_last_to
  move_last_to-inserted =
      let e : i + j + 1 - 1 ≡ i + j = omega arith in
      let f : i + j + 1 - 1 - i ≡ j = omega arith in
      λ q.
        write_bytes (copy m (base + (i + 1) * t) (base + i * t) (f q * t)) (base + i * t)
          (read_bytes m (base + e q * t) t)

-- For an index of at most n, moving the last of n + 1 values to it leaves the first n values with the last one
-- inserted at the index.
pub move_last_to-insert_at :
    (m : Mem) (base t n index : ℕ)
    → IsBytes (read_bytes m (base + n * t) t)
    → index ≤ n
    → elements (move_last_to m base t (n + 1) index) base t (n + 1)
      ≡ insert_at index (read_bytes m (base + n * t) t) (elements m base t n)
move_last_to-insert_at m base t n index bytes h =
    let j = n - index in
    let e : index + j ≡ n = omega arith in
    let f : index + j + 1 ≡ index + suc j = omega arith in
    subst
      (λ k.
        IsBytes (read_bytes m (base + k * t) t)
        → elements (move_last_to m base t (k + 1) index) base t (k + 1)
          ≡ insert_at index (read_bytes m (base + k * t) t) (elements m base t k))
      e
      (λ bytes.
        (λ q. elements (move_last_to-inserted m base t index j q) base t (f q))
        ∙ inserted-elements m base t index j bytes)
      bytes

-- For first ≤ last ≤ n, moving the values from `last` on down to `first` leaves, in the values that remain, the n
-- values without those from `first` to `last`.
pub move_down-erase_range :
    (m : Mem) (base t n first last : ℕ)
    → first ≤ last
    → last ≤ n
    → elements (move_down m base t n first last) base t (n - (last - first))
      ≡ erase_range first last (elements m base t n)
unfolding move_down
move_down-erase_range m base t n first last h h' =
    let j = last - first in
    let k = n - last in
    let e : first + j ≡ last = omega arith in
    let f : last + k ≡ n = omega arith in
    let g : n - j ≡ first + k = omega arith in
    let moved_by : (l : ℕ)
        → first + j ≡ l
        → elements (copy m (base + first * t) (base + l * t) (k * t)) base t (first + k)
          ≡ erase_range first l (elements m base t (l + k)) =
      λ l q.
        subst
          (λ l.
            elements (copy m (base + first * t) (base + l * t) (k * t)) base t (first + k)
            ≡ erase_range first l (elements m base t (l + k)))
          q (erased-elements m base t first j k) in
    ap (elements (copy m (base + first * t) (base + last * t) (k * t)) base t) g
    ∙ moved_by last e
    ∙ ap (λ x. erase_range first last (elements m base t x)) f

-- No byte outside of the values changes.
pub move_last_to_other :
    (m : Mem) (base t n index p : ℕ)
    → index ≤ n
    → (p < base) ⊎ (base + (n + 1) * t ≤ p)
    → move_last_to m base t (n + 1) index p ≡ m p
unfolding move_last_to
move_last_to_other m base t n index p h out =
    let e : n + 1 - 1 ≡ n = omega arith in
    let f : n + 1 - 1 - index ≡ n - index = omega arith in
    let g : index + (n - index) ≡ n = omega arith in
    let room : index * t + (n - index) * t ≡ n * t =
      sym (add-mul index (n - index) t) ∙ ap (λ k. k * t) g in
    let moved = copy m (base + (index + 1) * t) (base + index * t) ((n - index) * t) in
    let last = read_bytes m (base + n * t) t in
    let size = length-read_bytes m (base + n * t) t in
    (λ q.
      write_bytes (copy m (base + (index + 1) * t) (base + index * t) (f q * t)) (base + index * t)
        (read_bytes m (base + e q * t) t) p)
    ∙ write_bytes_other moved (base + index * t) last p
        (ground (arith, size, room, add-mul n 1 t, out))
    ∙ copy_other m (base + (index + 1) * t) (base + index * t) ((n - index) * t) p
        (ground (arith, room, add-mul n 1 t, add-mul index 1 t, out))
