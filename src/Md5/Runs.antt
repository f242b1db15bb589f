-- ===== src/Md5/Runs.antt =====
-- The digest of a short string, as RFC 1321 gives it.
use phaser.Prelude.{ℕ, ◌≡◌, refl, List, [], ◌∷◌}
use phaser.Md5.{
  md5, whole_blocks, process_block, words_from, read_little_endian32, rounds, round, function,
  word_index, rotate_left, tail_of, zero_bytes, put_length, digest, hex_bytes, hex_digit,
}
use phaser.Md5.Reference.{reference_md5}
use phaser.Md5.Digest.{md5-reference_md5}

abbrev abc : List ℕ
abc = 97 ∷ 98 ∷ 99 ∷ []

-- 900150983cd24fb0d6963f7d28e17f72
md5-abc :
    md5 abc
    ≡ 57 ∷ 48 ∷ 48 ∷ 49 ∷ 53 ∷ 48 ∷ 57 ∷ 56 ∷ 51 ∷ 99 ∷ 100 ∷ 50 ∷ 52 ∷ 102 ∷ 98 ∷ 48 ∷ 100 ∷ 54
      ∷ 57 ∷ 54 ∷ 51 ∷ 102 ∷ 55 ∷ 100 ∷ 50 ∷ 56 ∷ 101 ∷ 49 ∷ 55 ∷ 102 ∷ 55 ∷ 50 ∷ []
unfolding md5 whole_blocks process_block words_from read_little_endian32 rounds round function
    word_index rotate_left tail_of zero_bytes put_length digest hex_bytes hex_digit
md5-abc = refl

md5-reference_md5_example : md5 abc ≡ reference_md5 abc
md5-reference_md5_example = md5-reference_md5 abc
