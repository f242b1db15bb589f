-- ===== src/Ros/Growth.antt =====
-- The loop of EnsureSpaceSlow that doubles the capacity (phaser/runtime/ros_wireformat.h).
use phaser.Prelude.{ℕ, zero, suc, ◌*◌, ◌^◌, ◌≤◌, ◌<◌, ◌≡◌, ◌⊎◌, inl, inr, arith}
use native.Mathlib.Nat.{pow-succ', mul_assoc}
use phaser.Prelude.{◌∙◌, ap, sym, refl, some}
use phaser.Ros.Writer.{double_capacity}

-- One round of the loop.
module _ (fuel c required : ℕ) where
  double_done : required ≤ c → double_capacity (suc fuel) c required ≡ some c
  unfolding double_capacity
  double_done h = ground arith

  double_last : c < required → 2 ^ 63 ≤ c → double_capacity (suc fuel) c required ≡ some required
  unfolding double_capacity
  double_last h top = ground arith

  double_next :
      c < required
      → c < 2 ^ 63
      → double_capacity (suc fuel) c required ≡ double_capacity fuel (c * 2) required
  unfolding double_capacity
  double_next h low = ground arith

-- A capacity that the loop may end with.
abbrev pub Suffices : ℕ → ℕ → ℕ → Type 0
Suffices c required c' =
    (required ≤ c') × (c ≤ c') × (c' < 2 ^ 64) × ((c' ≡ c) ⊎ (c' < 2 * required))

double_room : (fuel c : ℕ) → 2 ^ 63 ≤ c * 2 ^ suc fuel → 2 ^ 63 ≤ c * 2 * 2 ^ fuel
double_room fuel c enough =
    let e : c * 2 ^ suc fuel ≡ c * 2 * 2 ^ fuel =
      ap (λ x. c * x) (pow-succ' 2 fuel) ∙ sym (mul_assoc c 2 (2 ^ fuel)) in
    omega (arith, e, enough)

double_capacity-Suffices_from :
    (fuel c required : ℕ)
    → 2 ^ 63 ≤ c * 2 ^ fuel
    → c < 2 ^ 64
    → required < 2 ^ 64
    → (c' : ℕ) × (double_capacity (suc fuel) c required ≡ some c') × Suffices c required c'
double_capacity-Suffices_from zero c required enough small bound = elim cases [
  | inl h ↦ (c, double_done 0 c required h, (h, omega arith, small, inl refl))
  | inr h ↦ (
    required,
    double_last 0 c required h (omega arith),
    (omega arith, omega arith, bound, inr (omega arith)),
  )
]
  where
    cases : (required ≤ c) ⊎ (c < required)
    cases = ground arith
double_capacity-Suffices_from (suc fuel) c required enough small bound = elim cases [
  | inl h ↦ (c, double_done (suc fuel) c required h, (h, omega arith, small, inl refl))
  | inr (inl (h, top)) ↦ (
    required,
    double_last (suc fuel) c required h top,
    (omega arith, omega arith, bound, inr (omega arith)),
  )
  | inr (inr (h, low)) ↦
      let (c', e, (room, up, fit, least)) =
        double_capacity-Suffices_from fuel (c * 2) required (double_room fuel c enough)
          (omega arith) bound in
      (
        c',
        double_next (suc fuel) c required h low ∙ e,
        (room, omega arith, fit, inr (ground arith)),
      )
]
  where
    cases : (required ≤ c) ⊎ ((c < required) × (2 ^ 63 ≤ c)) ⊎ ((c < required) × (c < 2 ^ 63))
    cases = ground arith

-- The loop that doubles the capacity of a ROSBuffer ends within 64 rounds with any capacity from 1
-- on and any requirement, both below 2 ^ 64: its result is at least what is required, no less than
-- the capacity, below 2 ^ 64, and either the capacity or less than twice what is required.
pub double_capacity-Suffices :
    (c required : ℕ)
    → 1 ≤ c
    → c < 2 ^ 64
    → required < 2 ^ 64
    → (c' : ℕ) × (double_capacity 64 c required ≡ some c') × Suffices c required c'
double_capacity-Suffices c required positive small bound =
    double_capacity-Suffices_from 63 c required (omega arith) small bound
