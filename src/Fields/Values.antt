-- ===== src/Fields/Values.antt =====
-- Storing and loading a value of one, four or eight bytes (phaser/runtime/fields.h).
use phaser.Prelude.{ℕ, ◌+◌, ◌*◌, ◌^◌, ◌≤◌, ◌<◌, ◌≡◌, ◌⊎◌, inl, inr, refl, arith, sym}
use mathlib.Core.Path.{subst}
use phaser.Memory.{Mem, load64, store8}
use phaser.Memory.Words.{Apart, load32-Same, load32-store32_self, store32_other}
use phaser.Memory.Moves.{load64-store64_self, store64_other}
use phaser.Wire.Ints.{bool, int32, int64, uint32, uint64}
use phaser.Fields.{FieldType, integer, float, double, size_of, load_value, store_bytes}

-- A value's size is one of three.
abbrev pub IsSize : ℕ → Type 0
IsSize t = (t ≡ 1) ⊎ (t ≡ 4) ⊎ (t ≡ 8)

pub size_of-IsSize : (t : FieldType) → IsSize (size_of t)
size_of-IsSize (integer bool) = inl refl
size_of-IsSize (integer int32) = inr (inl refl)
size_of-IsSize (integer int64) = inr (inr refl)
size_of-IsSize (integer uint32) = inr (inl refl)
size_of-IsSize (integer uint64) = inr (inr refl)
size_of-IsSize float = inr (inl refl)
size_of-IsSize double = inr (inr refl)

abbrev pub Stores : ℕ → Type 0
Stores t =
    (m : Mem) (a v : ℕ)
    → v < 2 ^ (8 * t)
    → (load_value (store_bytes m a t v) a t ≡ v)
      × ((p : ℕ) → Apart a t p → store_bytes m a t v p ≡ m p)

store1 : Stores 1
unfolding store8
store1 m a v h = (ground arith, λ p out. ground arith)

store4 : Stores 4
store4 m a v h = (load32-store32_self m a v h, store32_other m a v)

store8_lem : Stores 8
store8_lem m a v h = (load64-store64_self m a v h, store64_other m a v)

pub stores : (t : ℕ) → IsSize t → Stores t
stores t (inl e) = subst Stores (sym e) store1
stores t (inr (inl e)) = subst Stores (sym e) store4
stores t (inr (inr e)) = subst Stores (sym e) store8_lem

-- A value depends on its bytes.
pub load_value-same :
    (t : ℕ)
    → IsSize t
    → (m m' : Mem) (a : ℕ) → ((p : ℕ) → a ≤ p → p < a + t → m' p ≡ m p)
    → load_value m' a t ≡ load_value m a t
unfolding load64
load_value-same t (inl e) m m' a same =
    subst (λ w. load_value m' a w ≡ load_value m a w) (sym e) (same a (omega arith) (omega arith))
load_value-same t (inr (inl e)) m m' a same =
    subst (λ w. load_value m' a w ≡ load_value m a w) (sym e)
      (load32-Same m m' a (λ p lo hi. same p lo (omega arith)))
load_value-same t (inr (inr e)) m m' a same =
    let low = load32-Same m m' a (λ p lo hi. same p lo (omega arith)) in
    let high = load32-Same m m' (a + 4) (λ p lo hi. same p (omega arith) (omega arith)) in
    subst (λ w. load_value m' a w ≡ load_value m a w) (sym e) (λ i. low i + 2 ^ 32 * high i)
