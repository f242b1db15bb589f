-- ===== src/Md5/Padding.antt =====
-- The padding that Md5 (phaser/runtime/md5.cc) does in its tail, against padding the whole input first.
use phaser.Prelude.{
  ℕ, zero, suc, ◌+◌, ◌-◌, ◌*◌, ◌/◌, ◌%◌, ◌^◌, ◌≤◌, ◌<◌, ◌≡◌, ◌⊎◌, inl, inr, refl, arith,
}
use phaser.Prelude.{ap, sym, ◌∙◌, ◌==◌, if◌then◌else◌, List, [], ◌∷◌, ◌++◌}
use phaser.Prelude.{length, set, drop, length-append}
use phaser.Md5.{
  State, initial, process_block, whole_blocks, zero_bytes, put_length, tail_size, tail_of, digest,
  md5,
}
use phaser.Md5.Reference.{length_bytes}
use phaser.Md5.Blocks.{fold_blocks, Ends, whole_blocks-Ends, process_block-append}

-- A byte 0x80, zeros up to 56 bytes of a block, and the length in bits modulo 2 ^ 64.
abbrev pub filler : ℕ → List ℕ
filler n = 0x80 ∷ (zero_bytes ((119 - n % 64) % 64) ++ length_bytes (n * 8 % 2 ^ 64) 8 0)

-- The digest of an input that is padded first, with the code's own treatment of a block.
unfoldable pub padded_md5 : List ℕ → List ℕ
unfolding zero_bytes process_block digest
padded_md5 input =
    let padded = input ++ filler (length input) in
    digest (fold_blocks (length padded / 64) padded initial)

-- Writing into the middle of a list.
set-append : (xs ys : List ℕ) (y v i : ℕ) → i ≡ length xs → set (xs ++ y ∷ ys) i v ≡ xs ++ v ∷ ys
set-append [] ys y v zero e = refl
set-append [] ys y v (suc i) e = absurd (omega arith)
set-append (x ∷ xs) ys y v zero e = absurd (omega arith)
set-append (x ∷ xs) ys y v (suc i) e = ap (λ zs. x ∷ zs) (set-append xs ys y v i (omega arith))

append_assoc : (xs ys zs : List ℕ) → (xs ++ ys) ++ zs ≡ xs ++ (ys ++ zs)
append_assoc [] ys zs = refl
append_assoc (x ∷ xs) ys zs = ap (λ es. x ∷ es) (append_assoc xs ys zs)

length-zero_bytes : (n : ℕ) → length (zero_bytes n) ≡ n
unfolding zero_bytes
length-zero_bytes zero = refl
length-zero_bytes (suc n) = ap suc (length-zero_bytes n)

zero_bytes-add : (i j : ℕ) → zero_bytes (i + j) ≡ zero_bytes i ++ zero_bytes j
unfolding zero_bytes
zero_bytes-add zero j = let e : 0 + j ≡ j = omega arith in ap zero_bytes e
zero_bytes-add (suc i) j =
    let e : suc i + j ≡ suc (i + j) = omega arith in
    ap zero_bytes e ∙ ap (λ zs. 0 ∷ zs) (zero_bytes-add i j)

put_length-append :
    (bit_length tail_size left i : ℕ) (xs ys : List ℕ)
    → length xs ≡ tail_size - 8 + i
    → put_length bit_length tail_size left i (xs ++ (zero_bytes left ++ ys))
      ≡ xs ++ (length_bytes bit_length left i ++ ys)
unfolding put_length zero_bytes
put_length-append bit_length tail_size zero i xs ys e = refl
put_length-append bit_length tail_size (suc left) i xs ys e =
    let v = bit_length / 2 ^ (i * 8) % 256 in
    let size = length-append xs (v ∷ []) in
    ap (put_length bit_length tail_size left (i + 1)) (
      set-append xs (zero_bytes left ++ ys) 0 v (tail_size - 8 + i) (sym e)
      ∙ sym (append_assoc xs (v ∷ []) (zero_bytes left ++ ys)))
    ∙ put_length-append bit_length tail_size left (i + 1) (xs ++ (v ∷ [])) ys (omega (arith, size))
    ∙ append_assoc xs (v ∷ []) (length_bytes bit_length left (i + 1) ++ ys)

-- The tail is what remains with the filler, and zeros up to its 128 bytes.
module _ (rest : List ℕ) (size gap spare : ℕ)
    (sum : length rest + 1 + gap + 8 ≡ tail_size (length rest))
    (all : length rest + 1 + gap + 8 + spare ≡ 128) where
  abbrev marked : List ℕ
  marked = rest ++ (0x80 ∷ zero_bytes gap)

  room-zero_bytes :
      zero_bytes (128 - length rest) ≡ 0 ∷ (zero_bytes gap ++ (zero_bytes 8 ++ zero_bytes spare))
  unfolding zero_bytes
  room-zero_bytes =
      let e : 128 - length rest ≡ suc (gap + (8 + spare)) = omega arith in
      ap zero_bytes e
      ∙ ap (λ zs. 0 ∷ zs)
          (zero_bytes-add gap (8 + spare)
            ∙ ap (λ zs. zero_bytes gap ++ zs) (zero_bytes-add 8 spare))

  tail_of-padded :
      tail_of rest size
      ≡ (rest ++ (0x80 ∷ (zero_bytes gap ++ length_bytes (size * 8 % 2 ^ 64) 8 0)))
        ++ zero_bytes spare
  unfolding tail_of
  tail_of-padded =
      let bits = size * 8 % 2 ^ 64 in
      let t = tail_size (length rest) in
      let written = length_bytes bits 8 0 in
      let room = length-append rest (0x80 ∷ zero_bytes gap) in
      ap (λ zs. put_length bits t 8 0 (set (rest ++ zs) (length rest) 0x80)) room-zero_bytes
      ∙ ap (put_length bits t 8 0) (
          set-append rest (zero_bytes gap ++ (zero_bytes 8 ++ zero_bytes spare)) 0 0x80
            (length rest) refl
          ∙ sym (append_assoc rest (0x80 ∷ zero_bytes gap) (zero_bytes 8 ++ zero_bytes spare)))
      ∙ put_length-append bits t 8 0 marked (zero_bytes spare)
          (omega (arith, room, length-zero_bytes gap, sum))
      ∙ sym (append_assoc marked written (zero_bytes spare))
      ∙ ap (λ zs. zs ++ zero_bytes spare) (append_assoc rest (0x80 ∷ zero_bytes gap) written)

append_nil : (xs : List ℕ) → xs ++ [] ≡ xs
append_nil [] = refl
append_nil (x ∷ xs) = ap (λ es. x ∷ es) (append_nil xs)

length-length_bytes : (bits left i : ℕ) → length (length_bytes bits left i) ≡ left
length-length_bytes bits zero i = refl
length-length_bytes bits (suc left) i = ap suc (length-length_bytes bits left (i + 1))

length-filler : (n : ℕ) → length (filler n) ≡ 1 + (119 - n % 64) % 64 + 8
length-filler n =
    let gap = (119 - n % 64) % 64 in
    let bits = n * 8 % 2 ^ 64 in
    omega (
      arith,
      length-append (zero_bytes gap) (length_bytes bits 8 0),
      length-zero_bytes gap,
      length-length_bytes bits 8 0,
    )

append_zeros : (xs : List ℕ) → xs ++ zero_bytes 0 ≡ xs
unfolding zero_bytes
append_zeros xs = append_nil xs

-- What Md5 does with the bytes that remain.
abbrev finish : ℕ → State × List ℕ → List ℕ
finish size (s, rest) =
    let tail = tail_of rest size in
    let s' = process_block tail s in
    if tail_size (length rest) == 128 then digest (process_block (drop 64 tail) s') else digest s'

md5-finish :
    (input : List ℕ) → md5 input ≡ finish (length input) (whole_blocks (length input) input initial)
unfolding md5
md5-finish input = refl

module _ (size n : ℕ) (s : State) (rest : List ℕ) (all : size ≡ n * 64 + length rest) where
  one_block :
      length rest < 56 → finish size (s, rest) ≡ digest (fold_blocks 1 (rest ++ filler size) s)
  one_block few =
      let gap = (119 - size % 64) % 64 in
      let left : size % 64 ≡ length rest = omega arith in
      let small : gap ≡ 55 - length rest = omega arith in
      let t : tail_size (length rest) ≡ 64 = ground arith in
      let tail = tail_of-padded rest size gap 64 (omega (arith, small, t)) (omega (arith, small)) in
      let whole : 64 ≤ length (rest ++ filler size) =
        omega (arith, length-append rest (filler size), length-filler size, small) in
      (λ q.
        let s' = process_block (tail q) s in
        if t q == 128 then digest (process_block (drop 64 (tail q)) s') else digest s')
      ∙ ap digest (process_block-append (rest ++ filler size) (zero_bytes 64) s whole)

  two_blocks :
      56 ≤ length rest
      → length rest < 64
      → finish size (s, rest) ≡ digest (fold_blocks 2 (rest ++ filler size) s)
  two_blocks many few =
      let gap = (119 - size % 64) % 64 in
      let left : size % 64 ≡ length rest = omega arith in
      let large : gap ≡ 119 - length rest = omega arith in
      let t : tail_size (length rest) ≡ 128 = ground arith in
      let tail =
        tail_of-padded rest size gap 0 (omega (arith, large, t)) (omega (arith, large))
        ∙ append_zeros (rest ++ filler size) in
      (λ q.
        let s' = process_block (tail q) s in
        if t q == 128 then digest (process_block (drop 64 (tail q)) s') else digest s')

  finish-fold :
      length rest < 64
      → finish size (s, rest)
        ≡ digest (fold_blocks (length (rest ++ filler size) / 64) (rest ++ filler size) s)
  finish-fold few =
      let total = length-append rest (filler size) in
      let left : size % 64 ≡ length rest = omega arith in
      elim cases [
        | inl small ↦
            let m : length (rest ++ filler size) / 64 ≡ 1 =
              omega (arith, total, length-filler size) in
            one_block small ∙ ap (λ k. digest (fold_blocks k (rest ++ filler size) s)) (sym m)
        | inr large ↦
            let m : length (rest ++ filler size) / 64 ≡ 2 =
              omega (arith, total, length-filler size) in
            two_blocks large few ∙ ap (λ k. digest (fold_blocks k (rest ++ filler size) s)) (sym m)
      ]
    where
      cases : (length rest < 56) ⊎ (56 ≤ length rest)
      cases = ground arith

-- Md5 processes the input's whole blocks in place and builds a tail of one block or two from the rest; the digest is
-- that of the padded input.
pub md5-padded_md5 : (input : List ℕ) → md5 input ≡ padded_md5 input
unfolding padded_md5
md5-padded_md5 input = md5-finish input ∙ from (whole_blocks (length input) input initial) ends
  where
    ends : Ends input initial (length input / 64) (whole_blocks (length input) input initial)
    ends =
        whole_blocks-Ends (length input / 64) (length input) input initial (omega arith)
          (omega arith) (omega arith)

    from :
        (x : State × List ℕ)
        → Ends input initial (length input / 64) x
        → finish (length input) x
          ≡ digest (
              fold_blocks
                (length (input ++ filler (length input)) / 64)
                (input ++ filler (length input))
                initial)
    from (s', rest) (few, all, onward) =
        let total = length-append input (filler (length input)) in
        let total' = length-append rest (filler (length input)) in
        let m = length (rest ++ filler (length input)) / 64 in
        let e : length (input ++ filler (length input)) / 64 ≡ length input / 64 + m =
          omega (arith, total, total', all) in
        finish-fold (length input) (length input / 64) s' rest all few
        ∙ ap digest (sym (onward m (filler (length input))))
        ∙ ap (λ k. digest (fold_blocks k (input ++ filler (length input)) initial)) (sym e)
