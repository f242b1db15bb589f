-- ===== src/Md5/Blocks.antt =====
-- The loop of Md5 over the whole blocks of its input (phaser/runtime/md5.cc), and the blocks one after another.
use phaser.Prelude.{ℕ, zero, suc, ◌+◌, ◌-◌, ◌*◌, ◌%◌, ◌^◌, ◌≤◌, ◌<◌, ◌≡◌, refl, arith}
use phaser.Prelude.{ap, sym, ◌∙◌, true, false, leb, if◌then◌else◌, List, [], ◌∷◌, ◌++◌}
use phaser.Prelude.{length, get_or, drop}
use Prim.Native.Nat.{bit_or}
use mathlib.Core.Path.{subst}
use phaser.Md5.{State, read_little_endian32, words_from, rounds, process_block, whole_blocks}

abbrev pub fold_blocks : ℕ → List ℕ → State → State
fold_blocks zero bytes s = s
fold_blocks (suc n) bytes s = fold_blocks n (drop 64 bytes) (process_block bytes s)

-- A block is no more than its 64 bytes.
get_or-append : (xs ys : List ℕ) (i d : ℕ) → i < length xs → get_or (xs ++ ys) i d ≡ get_or xs i d
get_or-append [] ys i d h = absurd (omega arith)
get_or-append (x ∷ xs) ys zero d h = refl
get_or-append (x ∷ xs) ys (suc i) d h = get_or-append xs ys i d (omega arith)

words_from-append :
    (xs ys : List ℕ) (left i : ℕ)
    → (i + left) * 4 ≤ length xs
    → words_from (xs ++ ys) left i ≡ words_from xs left i
unfolding words_from read_little_endian32
words_from-append xs ys zero i h = refl
words_from-append xs ys (suc left) i h =
    let byte : (k : ℕ) → k < length xs → get_or (xs ++ ys) k 0 ≡ get_or xs k 0 =
      λ k lt. get_or-append xs ys k 0 lt in
    let b0 = byte (i * 4) (omega arith) in
    let b1 = byte (i * 4 + 1) (omega arith) in
    let b2 = byte (i * 4 + 2) (omega arith) in
    let b3 = byte (i * 4 + 3) (omega arith) in
    let rest = words_from-append xs ys left (i + 1) (omega arith) in
    λ q. bit_or (bit_or (bit_or (b0 q) (b1 q * 2 ^ 8)) (b2 q * 2 ^ 16)) (b3 q * 2 ^ 24) ∷ rest q

pub process_block-append :
    (xs ys : List ℕ) (s : State) → 64 ≤ length xs → process_block (xs ++ ys) s ≡ process_block xs s
unfolding process_block
process_block-append xs ys s h =
    let e = words_from-append xs ys 16 0 (omega arith) in
    λ q.
      let r = rounds (e q) 64 0 s in
      record {
        a = (s.a + r.a) % 2 ^ 32;
        b = (s.b + r.b) % 2 ^ 32;
        c = (s.c + r.c) % 2 ^ 32;
        d = (s.d + r.d) % 2 ^ 32;
      }

drop-append : (n : ℕ) (xs ys : List ℕ) → n ≤ length xs → drop n (xs ++ ys) ≡ drop n xs ++ ys
drop-append zero xs ys h = refl
drop-append (suc n) [] ys h = absurd (omega arith)
drop-append (suc n) (x ∷ xs) ys h = drop-append n xs ys (omega arith)

length-drop : (n : ℕ) (xs : List ℕ) → length (drop n xs) ≡ length xs - n
length-drop zero xs = omega arith
length-drop (suc n) [] = omega arith
length-drop (suc n) (x ∷ xs) = omega (arith, length-drop n xs)

-- The loop over whole blocks.
whole_step :
    (fuel : ℕ) (xs : List ℕ) (s : State)
    → 64 ≤ length xs
    → whole_blocks (suc fuel) xs s ≡ whole_blocks fuel (drop 64 xs) (process_block xs s)
unfolding whole_blocks
whole_step fuel xs s h =
    let t : leb 64 (length xs) ≡ true = ground arith in
    λ q. if t q then whole_blocks fuel (drop 64 xs) (process_block xs s) else (s, xs)

whole_end : (fuel : ℕ) (xs : List ℕ) (s : State) → length xs < 64 → whole_blocks fuel xs s ≡ (s, xs)
unfolding whole_blocks
whole_end zero xs s h = refl
whole_end (suc fuel) xs s h =
    let t : leb 64 (length xs) ≡ false = ground arith in
    λ q. if t q then whole_blocks fuel (drop 64 xs) (process_block xs s) else (s, xs)

-- After `n` whole blocks, fewer than 64 bytes remain, and folding goes on from there.
abbrev pub Ends : List ℕ → State → ℕ → State × List ℕ → Type 0
Ends xs s n (s', rest) =
    (length rest < 64)
    × (length xs ≡ n * 64 + length rest)
    × ((m : ℕ) (ys : List ℕ) → fold_blocks (n + m) (xs ++ ys) s ≡ fold_blocks m (rest ++ ys) s')

pub whole_blocks-Ends :
    (n fuel : ℕ) (xs : List ℕ) (s : State)
    → n ≤ fuel
    → n * 64 ≤ length xs
    → length xs < n * 64 + 64
    → Ends xs s n (whole_blocks fuel xs s)
whole_blocks-Ends zero fuel xs s h low high =
    subst (Ends xs s 0) (sym (whole_end fuel xs s (omega arith))) (
      omega arith,
      omega arith,
      λ m ys. let e : 0 + m ≡ m = omega arith in ap (λ k. fold_blocks k (xs ++ ys) s) e,
    )
whole_blocks-Ends (suc n) zero xs s h low high = absurd (omega arith)
whole_blocks-Ends (suc n) (suc fuel) xs s h low high =
    let size = length-drop 64 xs in
    let large : 64 ≤ length xs = omega arith in
    subst (Ends xs s (suc n)) (sym (whole_step fuel xs s large)) (
      later (whole_blocks fuel (drop 64 xs) (process_block xs s)) (
        whole_blocks-Ends n fuel (drop 64 xs) (process_block xs s) (omega arith)
          (omega (arith, size)) (omega (arith, size))))
  where
    later : (x : State × List ℕ) → Ends (drop 64 xs) (process_block xs s) n x → Ends xs s (suc n) x
    later (s', rest) (few, all, onward) =
        let large : 64 ≤ length xs = omega arith in
        (
          few,
          omega (arith, all, length-drop 64 xs),
          λ m ys.
              let e : suc n + m ≡ suc (n + m) = omega arith in
              ap (λ k. fold_blocks k (xs ++ ys) s) e
              ∙ (λ q.
                  fold_blocks (n + m) (drop-append 64 xs ys large q)
                    (process_block-append xs ys s large q))
              ∙ onward m ys,
        )
