-- ===== src/Prelude/Bits.antt =====
-- Bitwise operations on numbers as arithmetic: a table for a byte, digit recursion for a mask of
-- any width and for appending a byte.
use Prim.Native.Nat.{ℕ, zero, suc, ◌+◌, ◌*◌, ◌/◌, ◌%◌, ◌^◌, ◌-◌, ◌≤◌, ◌<◌, min, max}
use Prim.Native.Nat.{bit_and, bit_or, digits, bit_and-bitwise, bit_or-bitwise}
use mathlib.Core.Path.{◌≡◌, refl, ap, sym, ◌∙◌}
use native.Mathlib.Decide.{dec_lt}
use native.Mathlib.Nat.{pow-suc, one-le-pow}
use mathlib.Core.Bool.{Bool, true, ◌&&◌}
use native.Mathlib.Omega.{arith}

-- A Boolean property of every number below a bound, checked by evaluation.
unfoldable pub every_below : ℕ → (ℕ → Bool) → Bool
every_below zero p = true
every_below (suc n) p = p n && every_below n p

pub every_below-at : (n : ℕ) (p : ℕ → Bool) (x : ℕ) → every_below n p ≡ true → x < n → p x ≡ true
unfolding every_below
every_below-at zero p x h lt = absurd (omega arith)
every_below-at (suc n) p x h lt = ground (arith, every_below-at n p x)

-- An operation that stands for the digit recursion, whose first number is its own fuel.
module _ (last : ℕ → ℕ) (join op : ℕ → ℕ → ℕ)
    (meaning : (a b : ℕ) → op a b ≡ digits last join a a b) where
  spare_fuel :
      (bound a b fuel : ℕ)
      → a ≤ bound
      → a ≤ fuel
      → digits last join fuel a b ≡ digits last join a a b
  spare_fuel bound zero b zero low enough = refl
  spare_fuel bound zero b (suc fuel) low enough = refl
  spare_fuel bound (suc a) b zero low enough = absurd (omega arith)
  spare_fuel zero (suc a) b (suc fuel) low enough = absurd (omega arith)
  spare_fuel (suc bound) (suc a) b (suc fuel) low enough =
      let half = suc a / 2 in
      ap (λ (t : ℕ). t * 2 + join (suc a % 2) (b % 2))
        (spare_fuel bound half (b / 2) fuel (omega arith) (omega arith)
          ∙ sym (spare_fuel bound half (b / 2) a (omega arith) (omega arith)))

  lowest_digit : (a b : ℕ) → 0 < a → op a b ≡ op (a / 2) (b / 2) * 2 + join (a % 2) (b % 2)
  lowest_digit zero b positive = absurd (omega arith)
  lowest_digit (suc a) b positive =
      meaning (suc a) b
      ∙ ap (λ (t : ℕ). t * 2 + join (suc a % 2) (b % 2))
          (spare_fuel a (suc a / 2) (b / 2) a (omega arith) (omega arith)
            ∙ sym (meaning (suc a / 2) (b / 2)))

and_digit : (a b : ℕ) → bit_and a b ≡ bit_and (a / 2) (b / 2) * 2 + min (a % 2) (b % 2)
and_digit a b = elim (dec_lt 0 a) [
  | yes positive ↦ lowest_digit (λ _. 0) min bit_and bit_and-bitwise a b positive
  | no none_left ↦
      let e : a ≡ 0 = omega arith in
      rw e (omega (arith, bit_and-bitwise 0 b, bit_and-bitwise 0 (b / 2)))
]

or_digit : (a b : ℕ) → bit_or a b ≡ bit_or (a / 2) (b / 2) * 2 + max (a % 2) (b % 2)
or_digit a b = elim (dec_lt 0 a) [
  | yes positive ↦ lowest_digit (λ y. y) max bit_or bit_or-bitwise a b positive
  | no none_left ↦
      let e : a ≡ 0 = omega arith in
      rw e (omega (arith, bit_or-bitwise 0 b, bit_or-bitwise 0 (b / 2)))
]

-- The empty mask, by the halves below a bound.
empty_mask : (bound a : ℕ) → a < bound → bit_and a 0 ≡ 0
empty_mask zero a h = absurd (omega arith)
empty_mask (suc bound) a h = elim (dec_lt 0 a) [
  | yes positive ↦ omega (arith, and_digit a 0, empty_mask bound (a / 2) (omega arith))
  | no none_left ↦ let e : a ≡ 0 = omega arith in rw e (bit_and-bitwise 0 0)
]

nothing_added : (bound a : ℕ) → a < bound → bit_or a 0 ≡ a
nothing_added zero a h = absurd (omega arith)
nothing_added (suc bound) a h = elim (dec_lt 0 a) [
  | yes positive ↦ omega (arith, or_digit a 0, nothing_added bound (a / 2) (omega arith))
  | no none_left ↦ let e : a ≡ 0 = omega arith in rw e (bit_or-bitwise 0 0)
]

-- The parts of a number above and below bit `k` of the mask.
masked_parts : (k hi lo : ℕ) → lo < 2 ^ k → bit_and (2 ^ k * hi + lo) (2 ^ k - 1) ≡ lo
masked_parts zero hi lo h = ground (arith, empty_mask (suc hi) hi)
masked_parts (suc k) hi lo h = ground (
  arith,
  one-le-pow k 2,
  and_digit (2 ^ suc k * hi + lo) (2 ^ suc k - 1),
  ap (λ (t : ℕ). t * hi) (pow-suc 2 k),
  pow-suc 2 k,
  masked_parts k hi (lo / 2) (omega (arith, pow-suc 2 k)),
)

-- `a & (2^k - 1)`.
pub bit_and_mask : (k a : ℕ) → bit_and a (2 ^ k - 1) ≡ a % 2 ^ k
bit_and_mask k a = ground (arith, one-le-pow k 2, masked_parts k (a / 2 ^ k) (a % 2 ^ k))

-- `(a << k) | b` where `b` has no more than `k` bits.
or_parts : (k hi lo : ℕ) → lo < 2 ^ k → bit_or (2 ^ k * hi) lo ≡ 2 ^ k * hi + lo
or_parts zero hi lo h = ground (arith, nothing_added (suc hi) hi)
or_parts (suc k) hi lo h = ground (
  arith,
  or_digit (2 ^ suc k * hi) lo,
  ap (λ (t : ℕ). t * hi) (pow-suc 2 k),
  pow-suc 2 k,
  or_parts k hi (lo / 2) (omega (arith, pow-suc 2 k)),
)

pub bit_or_byte : (a b : ℕ) → b < 256 → bit_or (a * 256) b ≡ a * 256 + b
bit_or_byte a b h = ground (arith, or_parts 8 a b h)
