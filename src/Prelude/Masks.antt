-- ===== src/Prelude/Masks.antt =====
-- A word as a high part, shifted by `k`, and the `k` low digits: what `|` and `&` make of it.
use Prim.Native.Nat.{
  ℕ, zero, suc, ◌+◌, ◌-◌, ◌*◌, ◌/◌, ◌^◌, ◌≤◌, ◌<◌, bit_and, bit_or, bit_or-bitwise,
}
use mathlib.Core.Path.{◌≡◌, ap, ap₂, ◌∙◌}
use native.Mathlib.Nat.{pow-suc, one-le-pow}
use native.Mathlib.Omega.{arith}
use hobby_os.Prelude.Bits.{bit_and_step, bit_or_step, bit_and_zero}

bit_or_zero_within : (n a : ℕ) → a ≤ n → bit_or a 0 ≡ a
bit_or_zero_within n zero h = omega (arith, bit_or-bitwise 0 0)
bit_or_zero_within zero (suc a) h = absurd (omega arith)
bit_or_zero_within (suc n) (suc a) h =
    omega (arith, bit_or_step (suc a) 0, bit_or_zero_within n (suc a / 2) (omega arith))

shifted : (k a : ℕ) → a * 2 ^ suc k ≡ a * 2 ^ k * 2
shifted k a = grind (arith, pow-suc 2 k)

-- The shifted part and the low digits do not meet.
pub bit_or-split : (k a b : ℕ) → b < 2 ^ k → bit_or (a * 2 ^ k) b ≡ a * 2 ^ k + b
bit_or-split zero a b h = at_zero b h
  where
    at_zero : (b : ℕ) → b < 1 → bit_or (a * 1) b ≡ a * 1 + b
    at_zero zero h = omega (arith, bit_or_zero_within (a * 1) (a * 1) (omega arith))
    at_zero (suc b) h = absurd (omega arith)
bit_or-split (suc k) a b h = omega (
  arith,
  pow-suc 2 k,
  shifted k a,
  bit_or_step (a * 2 ^ suc k) b,
  bit_or-split k a (b / 2) (omega (arith, pow-suc 2 k)),
  ap (λ x. bit_or (x / 2) (b / 2)) (shifted k a),
  ap (λ x. bit_or x (b / 2)) (half (a * 2 ^ k)),
)
  where
    half : (n : ℕ) → n * 2 / 2 ≡ n
    half n = omega arith

-- A mask of `k` ones keeps the low digits.
pub bit_and-split : (k a b : ℕ) → b < 2 ^ k → bit_and (a * 2 ^ k + b) (2 ^ k - 1) ≡ b
bit_and-split zero a b h = omega (arith, bit_and_zero (a * 1 + b))
bit_and-split (suc k) a b h = omega (
  arith,
  pow-suc 2 k,
  one-le-pow k 2,
  shifted k a,
  bit_and_step (a * 2 ^ suc k + b) (2 ^ suc k - 1),
  bit_and-split k a (b / 2) (omega (arith, pow-suc 2 k)),
  ap₂ bit_and (halves (a * 2 ^ suc k) (a * 2 ^ k) b (shifted k a))
      (ones (2 ^ suc k) (2 ^ k) (omega (arith, pow-suc 2 k)) (one-le-pow k 2 (omega arith))),
)
  where
    halves : (m n b : ℕ) → m ≡ n * 2 → (m + b) / 2 ≡ n + b / 2
    halves m n b h = omega arith

    ones : (m n : ℕ) → m ≡ n * 2 → 0 < n → (m - 1) / 2 ≡ n - 1
    ones m n h pos = omega arith

-- A mask of `k` ones is the remainder.
pub bit_and-rem : (k x q r : ℕ) → x ≡ q * 2 ^ k + r → r < 2 ^ k → bit_and x (2 ^ k - 1) ≡ r
bit_and-rem k x q r e h = ap (λ y. bit_and y (2 ^ k - 1)) e ∙ bit_and-split k q r h
