-- ===== src/Prelude/Bits.antt =====
-- Single bits of a mask: what `|`, `&` and `~` do to the bit at a position.
use Prim.Native.Nat.{
  ℕ, zero, suc, ◌+◌, ◌-◌, ◌*◌, ◌/◌, ◌%◌, ◌^◌, ◌≤◌, ◌<◌, min, max, bit_and, bit_or, digits,
  bit_and-bitwise, bit_or-bitwise,
}
use mathlib.Core.Path.{◌≡◌, refl, sym, ap, ◌∙◌}
use mathlib.Core.Logic.{◌≢◌, ◌⊎◌, inl, inr}
use native.Mathlib.Nat.{pow-suc, one-le-pow}
use native.Mathlib.Omega.{arith}

-- The digit recursion behind the native operations, with enough fuel whatever the fuel.
module _ (last : ℕ → ℕ) (op : ℕ → ℕ → ℕ) where
  fuel_irrelevant : (a b n m : ℕ) → a ≤ n → a ≤ m → digits last op n a b ≡ digits last op m a b
  fuel_irrelevant zero b zero zero hn hm = refl
  fuel_irrelevant zero b zero (suc m) hn hm = refl
  fuel_irrelevant zero b (suc n) zero hn hm = refl
  fuel_irrelevant zero b (suc n) (suc m) hn hm = refl
  fuel_irrelevant (suc a) b zero m hn hm = absurd (omega arith)
  fuel_irrelevant (suc a) b (suc n) zero hn hm = absurd (omega arith)
  fuel_irrelevant (suc a) b (suc n) (suc m) hn hm =
      ap (λ (t : ℕ). t * 2 + op (suc a % 2) (b % 2))
        (fuel_irrelevant (suc a / 2) (b / 2) n m (omega arith) (omega arith))

pub bit_and_step : (a b : ℕ) → bit_and a b ≡ bit_and (a / 2) (b / 2) * 2 + min (a % 2) (b % 2)
bit_and_step zero b = omega (arith, bit_and-bitwise 0 b, bit_and-bitwise 0 (b / 2))
bit_and_step (suc a) b = omega (
  arith,
  bit_and-bitwise (suc a) b,
  bit_and-bitwise (suc a / 2) (b / 2),
  fuel_irrelevant (λ _. zero) min (suc a / 2) (b / 2) a (suc a / 2) (omega arith) (omega arith),
)

pub bit_or_step : (a b : ℕ) → bit_or a b ≡ bit_or (a / 2) (b / 2) * 2 + max (a % 2) (b % 2)
bit_or_step zero b = omega (arith, bit_or-bitwise 0 b, bit_or-bitwise 0 (b / 2))
bit_or_step (suc a) b = omega (
  arith,
  bit_or-bitwise (suc a) b,
  bit_or-bitwise (suc a / 2) (b / 2),
  fuel_irrelevant (λ d. d) max (suc a / 2) (b / 2) a (suc a / 2) (omega arith) (omega arith),
)

bit_and_zero_within : (n a : ℕ) → a ≤ n → bit_and a 0 ≡ 0
bit_and_zero_within n zero h = refl
bit_and_zero_within zero (suc a) h = absurd (omega arith)
bit_and_zero_within (suc n) (suc a) h =
    omega (arith, bit_and_step (suc a) 0, bit_and_zero_within n (suc a / 2) (omega arith))

pub bit_and_zero : (a : ℕ) → bit_and a 0 ≡ 0
bit_and_zero a = bit_and_zero_within a a (omega arith)

-- The digit of `x` at position `k`: 0 or 1.
unfoldable pub bit : ℕ → ℕ → ℕ
bit x zero = x % 2
bit x (suc k) = bit (x / 2) k

-- `~m` in a word of `n` bits.
abbrev pub complement : ℕ → ℕ → ℕ
complement n m = 2 ^ n - 1 - m

pub bit-le-one : (x k : ℕ) → bit x k ≤ 1
unfolding bit
bit-le-one x zero = omega arith
bit-le-one x (suc k) = bit-le-one (x / 2) k

pub bit-bit_and : (a b k : ℕ) → bit (bit_and a b) k ≡ min (bit a k) (bit b k)
unfolding bit
bit-bit_and a b zero = omega (arith, bit_and_step a b)
bit-bit_and a b (suc k) =
    ap (λ t. bit t k) (halves (bit_and_step a b)) ∙ bit-bit_and (a / 2) (b / 2) k
  where
    halves :
        bit_and a b ≡ bit_and (a / 2) (b / 2) * 2 + min (a % 2) (b % 2)
        → bit_and a b / 2 ≡ bit_and (a / 2) (b / 2)
    halves e = omega arith

pub bit-bit_or : (a b k : ℕ) → bit (bit_or a b) k ≡ max (bit a k) (bit b k)
unfolding bit
bit-bit_or a b zero = omega (arith, bit_or_step a b)
bit-bit_or a b (suc k) = ap (λ t. bit t k) (halves (bit_or_step a b)) ∙ bit-bit_or (a / 2) (b / 2) k
  where
    halves :
        bit_or a b ≡ bit_or (a / 2) (b / 2) * 2 + max (a % 2) (b % 2)
        → bit_or a b / 2 ≡ bit_or (a / 2) (b / 2)
    halves e = omega arith

half-complement : (n m : ℕ) → m < 2 ^ suc n → complement (suc n) m / 2 ≡ complement n (m / 2)
half-complement n m h = omega (arith, pow-suc 2 n, one-le-pow n 2)

pub bit-complement : (n m k : ℕ) → m < 2 ^ n → k < n → bit (complement n m) k ≡ 1 - bit m k
unfolding bit
bit-complement zero m k h lt = absurd (omega arith)
bit-complement (suc n) m zero h lt = omega (arith, pow-suc 2 n, one-le-pow n 2)
bit-complement (suc n) m (suc k) h lt =
    ap (λ t. bit t k) (half-complement n m h)
    ∙ bit-complement n (m / 2) k (omega (arith, pow-suc 2 n)) (omega arith)

half-pow : (k : ℕ) → 2 ^ suc k / 2 ≡ 2 ^ k
half-pow k = omega (arith, pow-suc 2 k)

pub bit-zero : (k : ℕ) → bit 0 k ≡ 0
unfolding bit
bit-zero zero = refl
bit-zero (suc k) = bit-zero k

pub bit-pow_self : (k : ℕ) → bit (2 ^ k) k ≡ 1
unfolding bit
bit-pow_self zero = refl
bit-pow_self (suc k) = ap (λ t. bit t k) (half-pow k) ∙ bit-pow_self k

pub bit-pow_ne : (k j : ℕ) → k ≢ j → bit (2 ^ k) j ≡ 0
unfolding bit
bit-pow_ne zero zero h = absurd (h refl)
bit-pow_ne zero (suc j) h = bit-zero j
bit-pow_ne (suc k) zero h = omega (arith, pow-suc 2 k)
bit-pow_ne (suc k) (suc j) h = ap (λ t. bit t j) (half-pow k) ∙ bit-pow_ne k j (λ e. h (ap suc e))

-- `x & (1 << k)` is not zero exactly when bit `k` of `x` is set.
pub bit_and-pow : (x k : ℕ) → bit_and x (2 ^ k) ≡ bit x k * 2 ^ k
unfolding bit
bit_and-pow x zero = omega (arith, bit_and_step x 1, bit_and_zero (x / 2))
bit_and-pow x (suc k) = omega (
  arith,
  bit_and_step x (2 ^ suc k),
  pow-suc 2 k,
  ap (λ t. bit_and (x / 2) t) (half-pow k),
  bit_and-pow (x / 2) k,
  ap (λ (t : ℕ). bit (x / 2) k * t) (pow-suc 2 k),
)

bit_and-le_within : (n a b : ℕ) → b ≤ n → bit_and a b ≤ b
bit_and-le_within zero a zero h = omega (arith, bit_and_zero a)
bit_and-le_within zero a (suc b) h = absurd (omega arith)
bit_and-le_within (suc n) a zero h = omega (arith, bit_and_zero a)
bit_and-le_within (suc n) a (suc b) h =
    omega (arith, bit_and_step a (suc b), bit_and-le_within n (a / 2) (suc b / 2) (omega arith))

-- A mask bounds what it lets through.
pub bit_and-le : (a b : ℕ) → bit_and a b ≤ b
bit_and-le a b = bit_and-le_within b a b (omega arith)

-- A number below 2 ^ n whose n digits are 0 is 0.
pub zero-bits : (n d : ℕ) → d < 2 ^ n → ((j : ℕ) → j < n → bit d j ≡ 0) → d ≡ 0
unfolding bit
zero-bits zero d h z = omega arith
zero-bits (suc n) d h z =
    let half = zero-bits n (d / 2) (omega (arith, pow-suc 2 n)) (λ j lt. z (suc j) (omega arith)) in
    let low = z 0 (omega arith) in omega arith

pub bit_or-lt : (n a b : ℕ) → a < 2 ^ n → b < 2 ^ n → bit_or a b < 2 ^ n
bit_or-lt zero zero zero ha hb = omega arith
bit_or-lt zero (suc a) b ha hb = absurd (omega arith)
bit_or-lt zero zero (suc b) ha hb = absurd (omega arith)
bit_or-lt (suc n) a b ha hb = omega (
  arith,
  bit_or_step a b,
  pow-suc 2 n,
  bit_or-lt n (a / 2) (b / 2) (omega (arith, pow-suc 2 n)) (omega (arith, pow-suc 2 n)),
)

pub low_or_high : (b : ℕ) → b ≤ 1 → (b ≡ 0) ⊎ (b ≡ 1)
low_or_high b h = ground arith

-- The test `x & (1 << k)`, false and true.
pub bit_clear : (x k : ℕ) → bit_and x (2 ^ k) ≡ 0 → bit x k ≡ 0
bit_clear x k e = elim (low_or_high (bit x k) (bit-le-one x k)) [
  | inl low ↦ low
  | inr high ↦
      absurd
        (omega (arith, one-le-pow k 2, e, sym (bit_and-pow x k), ap (λ (b : ℕ). b * 2 ^ k) high))
]

pub bit_set : (x k : ℕ) → bit_and x (2 ^ k) ≢ 0 → bit x k ≡ 1
bit_set x k ne = elim (low_or_high (bit x k) (bit-le-one x k)) [
  | inl low ↦ absurd (ne (omega (arith, bit_and-pow x k, ap (λ (b : ℕ). b * 2 ^ k) low)))
  | inr high ↦ high
]

bit_and-le_left_within : (n a b : ℕ) → a ≤ n → bit_and a b ≤ a
bit_and-le_left_within n zero b h = omega (arith, bit_and-bitwise 0 b)
bit_and-le_left_within zero (suc a) b h = absurd (omega arith)
bit_and-le_left_within (suc n) (suc a) b h =
    omega
      (arith, bit_and_step (suc a) b, bit_and-le_left_within n (suc a / 2) (b / 2) (omega arith))

pub bit_and-le_left : (a b : ℕ) → bit_and a b ≤ a
bit_and-le_left a b = bit_and-le_left_within a a b (omega arith)

pub bit_and-ones : (n x : ℕ) → x < 2 ^ n → bit_and x (2 ^ n - 1) ≡ x
bit_and-ones zero x h = omega (arith, bit_and_zero x)
bit_and-ones (suc n) x h = omega (
  arith,
  bit_and_step x (2 ^ suc n - 1),
  pow-suc 2 n,
  one-le-pow n 2,
  ap (bit_and (x / 2)) (half_ones n),
  bit_and-ones n (x / 2) (omega (arith, pow-suc 2 n)),
)
  where
    half_ones : (n : ℕ) → (2 ^ suc n - 1) / 2 ≡ 2 ^ n - 1
    half_ones n = omega (arith, pow-suc 2 n, one-le-pow n 2)
