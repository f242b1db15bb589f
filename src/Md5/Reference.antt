-- ===== src/Md5/Reference.antt =====
-- The digest as RFC 1321 describes it, written from its text: a buffer of four words, sixteen groups of four operations
-- on each block, and a table made from the series of the sine. It takes nothing from phaser/runtime/md5.cc but the
-- record of the four words.
use phaser.Prelude.{ℕ, zero, suc, ◌+◌, ◌-◌, ◌*◌, ◌/◌, ◌%◌, ◌^◌, List, [], ◌∷◌, ◌++◌}
use phaser.Prelude.{length, get_or, drop}
use Prim.Native.Nat.{bit_and, bit_or, bit_xor}
use phaser.Md5.{State}

-- The values of a function from `i` on.
abbrev pub tabulate : (ℕ → ℕ) → ℕ → ℕ → List ℕ
tabulate f zero i = []
tabulate f (suc n) i = f i ∷ tabulate f n (i + 1)

-- "3.1 Append Padding Bits" and "3.2 Append Length": a byte 0x80, zeros up to 56 bytes of a block, and the
-- length in bits, its lowest byte first.
abbrev pub length_bytes : ℕ → ℕ → ℕ → List ℕ
length_bytes bit_length zero i = []
length_bytes bit_length (suc left) i =
    bit_length / 2 ^ (i * 8) % 256 ∷ length_bytes bit_length left (i + 1)

abbrev pub padding : ℕ → List ℕ
padding n = 0x80 ∷ (tabulate (λ i. 0) ((119 - n % 64) % 64) 0 ++ length_bytes (n * 8 % 2 ^ 64) 8 0)

-- A word from four bytes, the lowest first.
abbrev pub word : List ℕ → ℕ → ℕ
word bytes j =
    bit_or
      (bit_or (bit_or (get_or bytes (j * 4) 0) (get_or bytes (j * 4 + 1) 0 * 2 ^ 8))
        (get_or bytes (j * 4 + 2) 0 * 2 ^ 16))
      (get_or bytes (j * 4 + 3) 0 * 2 ^ 24)

-- "3.3 Initialize MD Buffer": 01 23 45 67, 89 ab cd ef, fe dc ba 98 and 76 54 32 10.
unfoldable pub buffer : State
buffer = record {
  a = word (0x01 ∷ 0x23 ∷ 0x45 ∷ 0x67 ∷ []) 0;
  b = word (0x89 ∷ 0xab ∷ 0xcd ∷ 0xef ∷ []) 0;
  c = word (0xfe ∷ 0xdc ∷ 0xba ∷ 0x98 ∷ []) 0;
  d = word (0x76 ∷ 0x54 ∷ 0x32 ∷ 0x10 ∷ []) 0;
}

-- "3.4 Process Message in 16-Word Blocks": the auxiliary functions F, G, H and I, one in each round.
abbrev pub not32 : ℕ → ℕ
not32 x = 2 ^ 32 - 1 - x

-- XY v not(X) Z
abbrev pub aux_f : ℕ → ℕ → ℕ → ℕ
aux_f x y z = bit_or (bit_and x y) (bit_and (not32 x) z)

-- XZ v Y not(Z), which is F(Z, X, Y)
abbrev pub aux_g : ℕ → ℕ → ℕ → ℕ
aux_g x y z = aux_f z x y

abbrev pub aux_h : ℕ → ℕ → ℕ → ℕ
aux_h x y z = bit_xor (bit_xor x y) z

-- Y xor (X v not(Z))
abbrev pub aux_i : ℕ → ℕ → ℕ → ℕ
aux_i x y z = bit_xor y (bit_or x (not32 z))

unfoldable pub auxiliary : ℕ → ℕ → ℕ → ℕ → ℕ
auxiliary zero x y z = aux_f x y z
auxiliary (suc zero) x y z = aux_g x y z
auxiliary (suc (suc zero)) x y z = aux_h x y z
auxiliary (suc (suc (suc r))) x y z = aux_i x y z

-- T[i], "the integer part of 4294967296 times abs(sin(i))": the sine's series in units of 2 ^ -256. `term` is
-- i ^ k / k!, and the terms are added up on two sides in turn, whose difference is the sine.
unfoldable pub series : ℕ → ℕ → ℕ → ℕ → ℕ → ℕ → ℕ
series zero i k term up down = (up - down) + (down - up)
series (suc left) i k term up down =
    series left i (k + 2) (term * i * i / ((k + 1) * (k + 2))) down (up + term)

unfoldable pub sine : ℕ → ℕ
unfolding series
sine i = series 120 i 1 (i * 2 ^ 256) 0 0 * 2 ^ 32 / 2 ^ 256

-- X[k], the word that each of the 64 operations takes, a round in each row.
abbrev pub word_order : List ℕ
word_order =
    0 ∷ 1 ∷ 2 ∷ 3 ∷ 4 ∷ 5 ∷ 6 ∷ 7 ∷ 8 ∷ 9 ∷ 10 ∷ 11 ∷ 12 ∷ 13 ∷ 14 ∷ 15 ∷ 1 ∷ 6 ∷ 11 ∷ 0 ∷ 5 ∷ 10
    ∷ 15 ∷ 4 ∷ 9 ∷ 14 ∷ 3 ∷ 8 ∷ 13 ∷ 2 ∷ 7 ∷ 12 ∷ 5 ∷ 8 ∷ 11 ∷ 14 ∷ 1 ∷ 4 ∷ 7 ∷ 10 ∷ 13 ∷ 0 ∷ 3 ∷ 6
    ∷ 9 ∷ 12 ∷ 15 ∷ 2 ∷ 0 ∷ 7 ∷ 14 ∷ 5 ∷ 12 ∷ 3 ∷ 10 ∷ 1 ∷ 8 ∷ 15 ∷ 6 ∷ 13 ∷ 4 ∷ 11 ∷ 2 ∷ 9 ∷ []

-- S11 to S44, by which the four operations of a group shift, a round in each row.
abbrev pub shifts : List ℕ
shifts = 7 ∷ 12 ∷ 17 ∷ 22 ∷ 5 ∷ 9 ∷ 14 ∷ 20 ∷ 4 ∷ 11 ∷ 16 ∷ 23 ∷ 6 ∷ 10 ∷ 15 ∷ 21 ∷ []

abbrev pub shift : ℕ → ℕ
shift i = get_or shifts (i / 16 * 4 + i % 4) 0

-- X <<< s
abbrev pub rotated : ℕ → ℕ → ℕ
rotated x s = bit_or (x * 2 ^ s % 2 ^ 32) (x / 2 ^ (32 - s))

-- The operation [abcd k s i], "a = b + ((a + F(b,c,d) + X[k] + T[i]) <<< s)", counted from 0.
unfoldable pub operation : List ℕ → ℕ → ℕ → ℕ → ℕ → ℕ → ℕ
unfolding auxiliary sine
operation words i a b c d =
    (b
      + rotated
          ((a + auxiliary (i / 16) b c d + get_or words (get_or word_order i 0) 0 + sine (i + 1))
            % 2 ^ 32)
          (shift i))
    % 2 ^ 32

-- [ABCD], [DABC], [CDAB] and [BCDA]
unfoldable pub four : List ℕ → ℕ → State → State
unfolding operation
four words i s =
    let a = operation words i s.a s.b s.c s.d in
    let d = operation words (i + 1) s.d a s.b s.c in
    let c = operation words (i + 2) s.c d a s.b in
    let b = operation words (i + 3) s.b c d a in record { a = a; b = b; c = c; d = d }

unfoldable pub groups : List ℕ → ℕ → ℕ → State → State
unfolding four
groups words zero i s = s
groups words (suc left) i s = groups words left (i + 4) (four words i s)

unfoldable pub block_step : List ℕ → State → State
unfolding groups
block_step block s =
    let r = groups (tabulate (word block) 16 0) 16 0 s in
    record {
      a = (s.a + r.a) % 2 ^ 32;
      b = (s.b + r.b) % 2 ^ 32;
      c = (s.c + r.c) % 2 ^ 32;
      d = (s.d + r.d) % 2 ^ 32;
    }

unfoldable pub block_steps : ℕ → List ℕ → State → State
unfolding block_step
block_steps zero bytes s = s
block_steps (suc n) bytes s = block_steps n (drop 64 bytes) (block_step bytes s)

-- "3.5 Output": A, B, C, D, the lowest byte first, each byte as two of the characters 0 to 9 and a to f.
abbrev pub characters : List ℕ
characters = 48 ∷ 49 ∷ 50 ∷ 51 ∷ 52 ∷ 53 ∷ 54 ∷ 55 ∷ 56 ∷ 57 ∷ 97 ∷ 98 ∷ 99 ∷ 100 ∷ 101 ∷ 102 ∷ []

abbrev pub word_text : ℕ → ℕ → List ℕ
word_text zero w = []
word_text (suc left) w =
    get_or characters (w % 256 / 16) 0 ∷ (get_or characters (w % 16) 0 ∷ word_text left (w / 256))

unfoldable pub text : State → List ℕ
text s = word_text 4 s.a ++ (word_text 4 s.b ++ (word_text 4 s.c ++ word_text 4 s.d))

unfoldable pub reference_md5 : List ℕ → List ℕ
unfolding block_steps text buffer
reference_md5 input =
    let padded = input ++ padding (length input) in
    text (block_steps (length padded / 64) padded buffer)
