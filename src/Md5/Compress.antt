-- ===== src/Md5/Compress.antt =====
-- ProcessBlock and the printing of the digest (phaser/runtime/md5.cc) against RFC 1321.
use phaser.Prelude.{
  ℕ, zero, suc, ◌+◌, ◌*◌, ◌/◌, ◌%◌, ◌^◌, ◌≤◌, ◌<◌, ◌≡◌, ◌⊎◌, inl, inr, refl, arith,
}
use phaser.Prelude.{
  Bool, true, false, ltb, if◌then◌else◌, ap, sym, ◌∙◌, List, [], ◌∷◌, ◌++◌, get_or, drop,
}
use phaser.Md5.{
  State, constants, rotations, rotate_left, read_little_endian32, words_from, function, word_index,
  round, rounds, process_block, initial, hex_digit, hex_bytes, digest,
}
use phaser.Md5.Blocks.{fold_blocks}
use phaser.Md5.Reference.{
  tabulate, word, buffer, auxiliary, sine, series, word_order, shift, rotated, operation, four,
  groups, block_step, block_steps, characters, word_text, text,
}

-- The code's tables and what it computes are the description's.
constants-sine : constants ≡ tabulate sine 64 1
unfolding sine series
constants-sine = refl

rotations-shift : rotations ≡ tabulate shift 64 0
rotations-shift = refl

word_index-order : tabulate word_index 64 0 ≡ word_order
unfolding word_index
word_index-order = refl

hex_digit-characters : tabulate hex_digit 16 0 ≡ characters
unfolding hex_digit
hex_digit-characters = refl

pub initial-buffer : initial ≡ buffer
unfolding buffer
initial-buffer = refl

get_or-tabulate : (f : ℕ → ℕ) (n i k : ℕ) → k < n → get_or (tabulate f n i) k 0 ≡ f (i + k)
get_or-tabulate f zero i k h = absurd (omega arith)
get_or-tabulate f (suc n) i zero h = let e : i ≡ i + 0 = omega arith in ap f e
get_or-tabulate f (suc n) i (suc k) h =
    let e : i + 1 + k ≡ i + suc k = omega arith in
    get_or-tabulate f n (i + 1) k (omega arith) ∙ ap f e

get_or-tabulate_first : (f : ℕ → ℕ) (n k : ℕ) → k < n → get_or (tabulate f n 0) k 0 ≡ f k
get_or-tabulate_first f n k h =
    let e : 0 + k ≡ k = omega arith in get_or-tabulate f n 0 k h ∙ ap f e

constant_here : (i : ℕ) → i < 64 → get_or constants i 0 ≡ sine (i + 1)
constant_here i h =
    let e : 1 + i ≡ i + 1 = omega arith in
    ap (λ xs. get_or xs i 0) constants-sine ∙ get_or-tabulate sine 64 1 i h ∙ ap sine e

rotation_here : (i : ℕ) → i < 64 → get_or rotations i 0 ≡ shift i
rotation_here i h = ap (λ xs. get_or xs i 0) rotations-shift ∙ get_or-tabulate_first shift 64 i h

word_index_here : (i : ℕ) → i < 64 → word_index i ≡ get_or word_order i 0
word_index_here i h =
    sym (get_or-tabulate_first word_index 64 i h) ∙ ap (λ xs. get_or xs i 0) word_index-order

hex_digit_here : (v : ℕ) → v < 16 → hex_digit v ≡ get_or characters v 0
hex_digit_here v h =
    sym (get_or-tabulate_first hex_digit 16 v h) ∙ ap (λ xs. get_or xs v 0) hex_digit-characters

-- Each quarter of the loop has its auxiliary function.
Quarter : ℕ → Type 0
Quarter i = (i < 16) ⊎ ((16 ≤ i) × (i < 32)) ⊎ ((32 ≤ i) × (i < 48)) ⊎ ((48 ≤ i) × (i < 64))

quarter : (i : ℕ) → i < 64 → Quarter i
unfolding Quarter
quarter i h = ground arith

function-auxiliary : (i : ℕ) (s : State) → i < 64 → function i s ≡ auxiliary (i / 16) s.b s.c s.d
unfolding function auxiliary Quarter
function-auxiliary i s h = by_quarter (quarter i h)
  where
    at : (r : ℕ) → i / 16 ≡ r → auxiliary (i / 16) s.b s.c s.d ≡ auxiliary r s.b s.c s.d
    at r e = ap (λ q. auxiliary q s.b s.c s.d) e

    tested : Bool → Bool → Bool → ℕ
    tested t u v =
        if t
        then auxiliary 0 s.b s.c s.d
        else if u
        then auxiliary 1 s.b s.c s.d
        else if v
        then auxiliary 2 s.b s.c s.d
        else auxiliary 3 s.b s.c s.d

    by_quarter : Quarter i → function i s ≡ auxiliary (i / 16) s.b s.c s.d
    by_quarter (inl a) =
        let t : ltb i 16 ≡ true = ground arith in
        (λ q. tested (t q) (ltb i 32) (ltb i 48)) ∙ sym (at 0 (omega arith))
    by_quarter (inr (inl (a, b))) =
        let t : ltb i 16 ≡ false = ground arith in
        let u : ltb i 32 ≡ true = ground arith in
        (λ q. tested (t q) (u q) (ltb i 48)) ∙ sym (at 1 (omega arith))
    by_quarter (inr (inr (inl (a, b)))) =
        let t : ltb i 16 ≡ false = ground arith in
        let u : ltb i 32 ≡ false = ground arith in
        let v : ltb i 48 ≡ true = ground arith in
        (λ q. tested (t q) (u q) (v q)) ∙ sym (at 2 (omega arith))
    by_quarter (inr (inr (inr (a, b)))) =
        let t : ltb i 16 ≡ false = ground arith in
        let u : ltb i 32 ≡ false = ground arith in
        let v : ltb i 48 ≡ false = ground arith in
        (λ q. tested (t q) (u q) (v q)) ∙ sym (at 3 (omega arith))

swapped : (a f t x : ℕ) → a + f + t + x ≡ a + f + x + t
swapped a f t x = omega arith

-- One round of the loop is one operation, after which the four words change their places.
round-operation :
    (words : List ℕ) (i : ℕ) (s : State)
    → i < 64
    → round words i s ≡ record { a = s.d; b = operation words i s.a s.b s.c s.d; c = s.b; d = s.c }
unfolding round operation rotate_left
round-operation words i s h =
    let f = auxiliary (i / 16) s.b s.c s.d in
    let x = get_or words (get_or word_order i 0) 0 in
    let t = sine (i + 1) in
    let fn = function-auxiliary i s h in
    let order = word_index_here i h in
    let table = constant_here i h in
    let by = rotation_here i h in
    (λ q. record {
      a = s.d;
      b =
          (s.b + rotate_left ((s.a + fn q + table q + get_or words (order q) 0) % 2 ^ 32) (by q))
          % 2 ^ 32;
      c = s.b;
      d = s.c;
    })
    ∙ (λ q. record {
      a = s.d;
      b = (s.b + rotated (swapped s.a f t x q % 2 ^ 32) (shift i)) % 2 ^ 32;
      c = s.b;
      d = s.c;
    })

round4-four :
    (words : List ℕ) (i : ℕ) (s : State)
    → i + 4 ≤ 64
    → round words (i + 3) (round words (i + 2) (round words (i + 1) (round words i s)))
      ≡ four words i s
unfolding four
round4-four words i s h =
    let op = operation words in
    let a = op i s.a s.b s.c s.d in
    let d = op (i + 1) s.d a s.b s.c in
    let c = op (i + 2) s.c d a s.b in
    let s1 : State = record { a = s.d; b = a; c = s.b; d = s.c } in
    let s2 : State = record { a = s.c; b = d; c = a; d = s.b } in
    let s3 : State = record { a = s.b; b = c; c = d; d = a } in
    (λ q.
      round words (i + 3)
        (round words (i + 2) (round words (i + 1) (round-operation words i s (omega arith) q))))
    ∙ (λ q.
        round words (i + 3)
          (round words (i + 2) (round-operation words (i + 1) s1 (omega arith) q)))
    ∙ (λ q. round words (i + 3) (round-operation words (i + 2) s2 (omega arith) q))
    ∙ round-operation words (i + 3) s3 (omega arith)

rounds-groups :
    (words : List ℕ) (left i : ℕ) (s : State)
    → i + left * 4 ≤ 64
    → rounds words (left * 4) i s ≡ groups words left i s
unfolding rounds groups
rounds-groups words zero i s h = refl
rounds-groups words (suc left) i s h =
    let e : suc left * 4 ≡ suc (suc (suc (suc (left * 4)))) = omega arith in
    let e2 : i + 1 + 1 ≡ i + 2 = omega arith in
    let e3 : i + 1 + 1 + 1 ≡ i + 3 = omega arith in
    let e4 : i + 1 + 1 + 1 + 1 ≡ i + 4 = omega arith in
    ap (λ n. rounds words n i s) e
    ∙ (λ q.
        rounds words (left * 4) (e4 q)
          (round words (e3 q) (round words (e2 q) (round words (i + 1) (round words i s)))))
    ∙ ap (rounds words (left * 4) (i + 4)) (round4-four words i s (omega arith))
    ∙ rounds-groups words left (i + 4) (four words i s) (omega arith)

words_from-tabulate : (block : List ℕ) (n i : ℕ) → words_from block n i ≡ tabulate (word block) n i
unfolding words_from read_little_endian32
words_from-tabulate block zero i = refl
words_from-tabulate block (suc n) i =
    ap (λ ws. word block i ∷ ws) (words_from-tabulate block n (i + 1))

process_block-block_step : (block : List ℕ) (s : State) → process_block block s ≡ block_step block s
unfolding process_block block_step
process_block-block_step block s =
    let e =
      ap (λ ws. rounds ws 64 0 s) (words_from-tabulate block 16 0)
      ∙ rounds-groups (tabulate (word block) 16 0) 16 0 s (omega arith) in
    ap
      (λ (r : State). record {
        a = (s.a + r.a) % 2 ^ 32;
        b = (s.b + r.b) % 2 ^ 32;
        c = (s.c + r.c) % 2 ^ 32;
        d = (s.d + r.d) % 2 ^ 32;
      })
      e

pub fold_blocks-block_steps :
    (n : ℕ) (bytes : List ℕ) (s : State) → fold_blocks n bytes s ≡ block_steps n bytes s
unfolding block_steps
fold_blocks-block_steps zero bytes s = refl
fold_blocks-block_steps (suc n) bytes s =
    ap (fold_blocks n (drop 64 bytes)) (process_block-block_step bytes s)
    ∙ fold_blocks-block_steps n (drop 64 bytes) (block_step bytes s)

hex_bytes-word_text : (w : ℕ) → hex_bytes w 4 0 ≡ word_text 4 w
unfolding hex_bytes
hex_bytes-word_text w = λ q.
    high (w / 1) w first q
    ∷ (low (w / 1) w first q
        ∷ (high (w / 256) (w / 256) refl q
            ∷ (low (w / 256) (w / 256) refl q
                ∷ (high (w / 65536) (w / 256 / 256) third q
                    ∷ (low (w / 65536) (w / 256 / 256) third q
                        ∷ (high (w / 16777216) (w / 256 / 256 / 256) last q
                            ∷ (low (w / 16777216) (w / 256 / 256 / 256) last q ∷ [])))))))
  where
    high : (v u : ℕ) → v ≡ u → hex_digit (v % 256 / 16) ≡ get_or characters (u % 256 / 16) 0
    high v u e = ap (λ z. hex_digit (z % 256 / 16)) e ∙ hex_digit_here (u % 256 / 16) (omega arith)

    low : (v u : ℕ) → v ≡ u → hex_digit (v % 256 % 16) ≡ get_or characters (u % 16) 0
    low v u e =
        let f : v % 256 % 16 ≡ u % 16 = omega (arith, e) in
        ap hex_digit f ∙ hex_digit_here (u % 16) (omega arith)

    first : w / 1 ≡ w
    first = omega arith

    third : w / 65536 ≡ w / 256 / 256
    third = omega arith

    last : w / 16777216 ≡ w / 256 / 256 / 256
    last = omega arith

pub digest-text : (s : State) → digest s ≡ text s
unfolding digest text
digest-text s = λ q.
    hex_bytes-word_text s.a q
    ++ (hex_bytes-word_text s.b q ++ (hex_bytes-word_text s.c q ++ hex_bytes-word_text s.d q))
