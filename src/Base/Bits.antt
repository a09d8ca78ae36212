-- ===== src/Base/Bits.antt =====
-- Masks of low ones, which take a remainder.
use Prim.Native.Nat.{
  ℕ, zero, suc, ◌+◌, ◌-◌, ◌*◌, ◌/◌, ◌%◌, ◌^◌, ◌≤◌, ◌<◌, min, bit_and, digits, bit_and-bitwise,
}
use mathlib.Core.Path.{◌≡◌, refl, ap, ◌∙◌}
use native.Mathlib.Nat.{pow-suc, one-le-pow}
use native.Mathlib.Omega.{arith}

-- The definition that `bit_and` stands for, with `fuel` digits at most.
abbrev masked : ℕ → ℕ → ℕ → ℕ
masked fuel a mask = digits (λ c. 0) min fuel a mask

masked_none : (fuel mask : ℕ) → masked fuel 0 mask ≡ 0
masked_none zero mask = refl
masked_none (suc fuel) mask = refl

masked-zero : (fuel a : ℕ) → a ≤ fuel → masked fuel a 0 ≡ 0
masked-zero fuel zero enough = masked_none fuel 0
masked-zero zero (suc a) enough = absurd (omega arith)
masked-zero (suc fuel) (suc a) enough = omega (arith, masked-zero fuel (suc a / 2) (omega arith))

-- The high part of a number is cut off, digit by digit.
masked_low :
    (fuel k high low a : ℕ)
    → a ≡ high * 2 ^ k + low
    → low < 2 ^ k
    → a ≤ fuel
    → masked fuel a (2 ^ k - 1) ≡ low
masked_low fuel zero high low a split fits enough = masked-zero fuel a enough ∙ omega arith
masked_low fuel (suc k) high low zero split fits enough =
    masked_none fuel (2 ^ suc k - 1) ∙ omega arith
masked_low zero (suc k) high low (suc a) split fits enough = absurd (omega arith)
masked_low (suc fuel) (suc k) high low (suc a) split fits enough =
    let half = suc a / 2 in
    let two : high * 2 ^ suc k ≡ 2 * (high * 2 ^ k) =
      omega (arith, ap (λ (t : ℕ). high * t) (pow-suc 2 k)) in
    let rest =
      masked_low fuel k high (low / 2) half (omega (arith, two, pow-suc 2 k))
        (omega (arith, pow-suc 2 k)) (omega arith) in
    ground (arith, rest, pow-suc 2 k, one-le-pow k 2, two)

-- A mask of `k` low ones is the remainder by `2 ^ k`.
pub bit_and_mask : (k a : ℕ) → bit_and a (2 ^ k - 1) ≡ a % 2 ^ k
bit_and_mask k a =
    bit_and-bitwise a (2 ^ k - 1)
    ∙ masked_low a k (a / 2 ^ k) (a % 2 ^ k) a (ground arith) (ground (arith, one-le-pow k 2))
        (omega arith)

pub bit_and-one : (a : ℕ) → bit_and a 1 ≡ a % 2
bit_and-one a = bit_and_mask 1 a

pub bit_and_three : (a : ℕ) → bit_and a 3 ≡ a % 4
bit_and_three a = bit_and_mask 2 a
