-- ===== src/Ros/Bytes.antt =====
-- The bytes that encoding writes, and decoding reads (phaser/runtime/ros_wireformat.h).
use phaser.Prelude.{ℕ, zero, suc, ◌+◌, ◌*◌, ◌/◌, ◌%◌, ◌^◌, ◌≤◌, ◌<◌, ◌≡◌, ◌≢◌, ◌⊎◌, inl, inr, arith}
use phaser.Prelude.{◌∙◌, sym, refl, ap, Bool, true, false, List, [], ◌∷◌, ◌++◌, length}
use mathlib.Core.Path.{subst}
use native.Mathlib.Numerals.{towards_suc}
use native.Mathlib.Nat.{add-mul, mul_assoc, mul_comm}
use phaser.Memory.{Mem, store8, write_bytes, read_bytes}
use phaser.Memory.Bytes.{IsBytes, write_bytes_other}
use phaser.Ros.{little_endian_bytes, store_loop, store_little_endian, decode_loop, decode}

-- The bytes from `a` on are `xs`.
abbrev pub Holds : Mem → ℕ → List ℕ → Type 0
Holds m a [] = Unit {0}
Holds m a (x ∷ xs) = (m a ≡ x) × Holds m (a + 1) xs

pub Holds-same :
    (m m' : Mem) (a : ℕ) (xs : List ℕ)
    → ((p : ℕ) → a ≤ p → p < a + length xs → m' p ≡ m p)
    → Holds m a xs
    → Holds m' a xs
Holds-same m m' a [] same h = tt
Holds-same m m' a (x ∷ xs) same (e, h) = (
  same a (omega arith) (omega arith) ∙ e,
  Holds-same m m' (a + 1) xs (λ p lo hi. same p (omega arith) (omega arith)) h,
)

pub Holds-read_bytes :
    (m : Mem) (a : ℕ) (xs : List ℕ) → Holds m a xs → read_bytes m a (length xs) ≡ xs
unfolding read_bytes
Holds-read_bytes m a [] h = refl
Holds-read_bytes m a (x ∷ xs) (e, h) = λ i. e i ∷ Holds-read_bytes m (a + 1) xs h i

pub Holds-parts :
    (m : Mem) (a : ℕ) (xs ys : List ℕ)
    → Holds m a (xs ++ ys)
    → Holds m a xs × Holds m (a + length xs) ys
Holds-parts m a [] ys h = let e : a ≡ a + 0 = omega arith in (tt, subst (λ q. Holds m q ys) e h)
Holds-parts m a (x ∷ xs) ys (e, h) =
    let (hx, hy) = Holds-parts m (a + 1) xs ys h in
    let f : a + 1 + length xs ≡ a + suc (length xs) = omega arith in
    ((e, hx), subst (λ q. Holds m q ys) f hy)

pub Holds-join :
    (m : Mem) (a : ℕ) (xs ys : List ℕ)
    → Holds m a xs
    → Holds m (a + length xs) ys
    → Holds m a (xs ++ ys)
Holds-join m a [] ys hx hy = let e : a + 0 ≡ a = omega arith in subst (λ q. Holds m q ys) e hy
Holds-join m a (x ∷ xs) ys (e, hx) hy =
    let f : a + suc (length xs) ≡ a + 1 + length xs = omega arith in
    (e, Holds-join m (a + 1) xs ys hx (subst (λ q. Holds m q ys) f hy))

write_bytes_first : (m : Mem) (a x : ℕ) (xs : List ℕ) → x < 256 → write_bytes m a (x ∷ xs) a ≡ x
unfolding write_bytes store8
write_bytes_first m a x xs h = ground arith

write_bytes_rest :
    (m : Mem) (a x : ℕ) (xs : List ℕ) (p : ℕ)
    → a + 1 ≤ p
    → write_bytes m a (x ∷ xs) p ≡ write_bytes m (a + 1) xs p
unfolding write_bytes store8
write_bytes_rest m a x xs p h = ground arith

pub Holds-write_bytes :
    (m : Mem) (a : ℕ) (xs : List ℕ) → IsBytes xs → Holds (write_bytes m a xs) a xs
Holds-write_bytes m a [] h = tt
Holds-write_bytes m a (x ∷ xs) (lt, h) = (
  write_bytes_first m a x xs lt,
  Holds-same (write_bytes m (a + 1) xs) (write_bytes m a (x ∷ xs)) (a + 1) xs
      (λ p lo hi. write_bytes_rest m a x xs p lo) (Holds-write_bytes m (a + 1) xs h),
)

pub length-little_endian_bytes :
    (width value : ℕ) → length (little_endian_bytes width value) ≡ width
length-little_endian_bytes zero value = refl
length-little_endian_bytes (suc width) value =
    ap suc (length-little_endian_bytes width (value / 256))

pub little_endian_bytes-IsBytes : (width value : ℕ) → IsBytes (little_endian_bytes width value)
little_endian_bytes-IsBytes zero value = tt
little_endian_bytes-IsBytes (suc width) value =
    (omega arith, little_endian_bytes-IsBytes width (value / 256))

-- Both stores of StoreLittleEndian leave the same memory.
write_bytes_base :
    (m m' : Mem) (a : ℕ) (xs : List ℕ) (p : ℕ)
    → m p ≡ m' p
    → write_bytes m a xs p ≡ write_bytes m' a xs p
unfolding write_bytes store8
write_bytes_base m m' a [] p e = e
write_bytes_base m m' a (x ∷ xs) p e = ground (arith, write_bytes_base m m' (a + 1) xs p e)

store_loop_step :
    (m : Mem) (a v : ℕ) (xs : List ℕ) (p : ℕ)
    → write_bytes (store8 m a v) (a + 1) xs p ≡ write_bytes m a (v % 256 ∷ xs) p
unfolding write_bytes store8
store_loop_step m a v xs p = elim cases [
  | inl e ↦
      subst (λ q. write_bytes (store8 m a v) (a + 1) xs q ≡ write_bytes m a (v % 256 ∷ xs) q)
        (sym e) (write_bytes_other (store8 m a v) (a + 1) xs a (inl (omega arith)) ∙ ground arith)
  | inr (h, e) ↦ write_bytes_base (store8 m a v) m (a + 1) xs p e ∙ ground arith
]
  where
    cases : (p ≡ a) ⊎ ((p ≢ a) × (store8 m a v p ≡ m p))
    cases = ground arith

store_loop-write_bytes :
    (m : Mem) (a width value p : ℕ)
    → store_loop m a width value p ≡ write_bytes m a (little_endian_bytes width value) p
unfolding store_loop write_bytes
store_loop-write_bytes m a zero value p = refl
store_loop-write_bytes m a (suc width) value p =
    store_loop-write_bytes (store8 m a value) (a + 1) width (value / 256) p
    ∙ store_loop_step m a value (little_endian_bytes width (value / 256)) p

-- A value is stored as the same bytes on every host.
pub store_little_endian-write_bytes :
    (little : Bool) (m : Mem) (a width value p : ℕ)
    → store_little_endian little m a width value p
      ≡ write_bytes m a (little_endian_bytes width value) p
unfolding store_little_endian
store_little_endian-write_bytes true m a width value p = refl
store_little_endian-write_bytes false m a width value p = store_loop-write_bytes m a width value p

pow_eight : (s : ℕ) → 2 ^ (s + 8) ≡ 2 ^ s * 256
pow_eight s = simp towards_suc (omega arith)

pow_shift : (i : ℕ) → 2 ^ ((i + 1) * 8) ≡ 2 ^ (i * 8) * 256
pow_shift i = let e : (i + 1) * 8 ≡ i * 8 + 8 = omega arith in ap (λ s. 2 ^ s) e ∙ pow_eight (i * 8)

shift : (k r value : ℕ) → r ≡ value % 256 → r * k + value / 256 * (k * 256) ≡ value * k
shift k r value e =
    let whole : value ≡ r + value / 256 * 256 = omega arith in
    let e : value * k ≡ r * k + value / 256 * 256 * k =
      ap (λ v. v * k) whole ∙ add-mul r (value / 256 * 256) k in
    let f : value / 256 * (k * 256) ≡ value / 256 * 256 * k =
      ap (λ x. value / 256 * x) (mul_comm k 256) ∙ sym (mul_assoc (value / 256) 256 k) in
    omega (arith, e, f)

quotient : (left value : ℕ) → value < 2 ^ (suc left * 8) → value / 256 < 2 ^ (left * 8)
quotient left value h =
    let e : 2 ^ (suc left * 8) ≡ 2 ^ (left * 8) * 256 =
      (let f : suc left * 8 ≡ left * 8 + 8 = omega arith in
        ap (λ s. 2 ^ s) f ∙ pow_eight (left * 8)) in
    omega (arith, e, h)

-- Decoding: the loop from the byte `i` on.
decode_loop-Holds :
    (m : Mem) (a left i bits value : ℕ)
    → Holds m (a + i) (little_endian_bytes left value)
    → value < 2 ^ (left * 8)
    → decode_loop m a left i bits ≡ bits + value * 2 ^ (i * 8)
unfolding decode_loop
decode_loop-Holds m a zero i bits value h small =
    let z : value ≡ 0 = omega arith in
    subst (λ v. bits ≡ bits + v * 2 ^ (i * 8)) (sym z) (omega arith)
decode_loop-Holds m a (suc left) i bits value (e, h) small =
    let k = 2 ^ (i * 8) in
    let q = value / 256 in
    let f : a + i + 1 ≡ a + (i + 1) = omega arith in
    decode_loop-Holds m a left (i + 1) (bits + m (a + i) * k) q
      (subst (λ p. Holds m p (little_endian_bytes left q)) f h) (quotient left value small)
    ∙ (λ j. bits + m (a + i) * k + q * pow_shift i j)
    ∙ omega (arith, shift k (m (a + i)) value e)

-- Decoding reads the value whose bytes are there.
pub decode-Holds :
    (m : Mem) (a width value : ℕ)
    → Holds m a (little_endian_bytes width value)
    → value < 2 ^ (width * 8)
    → decode m a width ≡ value
unfolding decode
decode-Holds m a width value h small =
    let e : a ≡ a + 0 = omega arith in
    decode_loop-Holds m a width 0 0 value
      (subst (λ p. Holds m p (little_endian_bytes width value)) e h) small
    ∙ omega arith
