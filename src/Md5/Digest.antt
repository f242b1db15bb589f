-- ===== src/Md5/Digest.antt =====
-- Md5 (phaser/runtime/md5.cc) against RFC 1321.
use phaser.Prelude.{
  ℕ, zero, suc, ◌+◌, ◌-◌, ◌*◌, ◌/◌, ◌%◌, ◌^◌, ◌≡◌, refl, ap, ◌∙◌, List, ◌∷◌, ◌++◌, length,
}
use phaser.Md5.{zero_bytes, initial, digest, md5}
use phaser.Md5.Blocks.{fold_blocks}
use phaser.Md5.Reference.{tabulate, length_bytes, padding, block_steps, text, reference_md5}
use phaser.Md5.Compress.{initial-buffer, fold_blocks-block_steps, digest-text}
use phaser.Md5.Padding.{filler, padded_md5, md5-padded_md5}

zero_bytes-tabulate : (n i : ℕ) → zero_bytes n ≡ tabulate (λ i. 0) n i
unfolding zero_bytes
zero_bytes-tabulate zero i = refl
zero_bytes-tabulate (suc n) i = ap (λ zs. 0 ∷ zs) (zero_bytes-tabulate n (i + 1))

filler-padding : (n : ℕ) → filler n ≡ padding n
filler-padding n =
    ap (λ zs. 0x80 ∷ (zs ++ length_bytes (n * 8 % 2 ^ 64) 8 0))
      (zero_bytes-tabulate ((119 - n % 64) % 64) 0)

-- Md5 gives the digest that RFC 1321 describes, which is written out apart from the code: the
-- padded input, the table computed from the series of the sine, sixteen groups of four operations
-- on each block with the auxiliary function, the word and the shift of each operation, and the
-- output in hexadecimal.
pub md5-reference_md5 : (input : List ℕ) → md5 input ≡ reference_md5 input
unfolding padded_md5 reference_md5
md5-reference_md5 input =
    let padded = input ++ padding (length input) in
    let n = length padded / 64 in
    md5-padded_md5 input
    ∙ ap (λ ps. digest (fold_blocks (length (input ++ ps) / 64) (input ++ ps) initial))
        (filler-padding (length input))
    ∙ ap digest (fold_blocks-block_steps n padded initial)
    ∙ digest-text (block_steps n padded initial)
    ∙ ap (λ s. text (block_steps n padded s)) initial-buffer
