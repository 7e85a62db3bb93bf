-- ===== src/Prelude/Rounding.antt =====
-- What `& ~(2 ^ k - 1)` does to a word: it rounds down to a multiple of 2 ^ k.
use Prim.Native.Nat.{ℕ, zero, suc, ◌-◌, ◌*◌, ◌/◌, ◌%◌, ◌^◌, ◌<◌, bit_and}
use mathlib.Core.Path.{◌≡◌, ap, ◌∙◌}
use native.Mathlib.Omega.{arith}
use hobby_os.Prelude.Bits.{bit_and_step, bit_and-ones, complement}

-- A mask with k zeros below it, and a number with its last k digits cleared.
abbrev shift : ℕ → ℕ → ℕ
shift zero o = o
shift (suc k) o = 2 * shift k o

abbrev cleared : ℕ → ℕ → ℕ
cleared zero x = x
cleared (suc k) x = 2 * cleared k (x / 2)

bit_and-shift :
    (o bound k x : ℕ)
    → ((y : ℕ) → y < bound → bit_and y o ≡ y)
    → x < shift k bound
    → bit_and x (shift k o) ≡ cleared k x
bit_and-shift o bound zero x whole h = whole x h
bit_and-shift o bound (suc k) x whole h = omega (
  arith,
  bit_and_step x (2 * shift k o),
  ap (bit_and (x / 2)) (half (shift k o)),
  bit_and-shift o bound k (x / 2) whole (omega arith),
)
  where
    half : (m : ℕ) → 2 * m / 2 ≡ m
    half m = omega arith

pub bit_and-page : (x : ℕ) → x < 2 ^ 64 → bit_and x (complement 64 4095) ≡ x - x % 4096
bit_and-page x h = bit_and-shift (2 ^ 52 - 1) (2 ^ 52) 12 x (bit_and-ones 52) h ∙ omega arith
