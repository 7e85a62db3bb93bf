-- ===== src/Prelude/Ints.antt =====
-- Signed integers, where the code tests or returns negative ones.
use Prim.Native.Nat.{ℕ, ◌-◌}
use mathlib.Core.Path.{◌≡◌}
use native.Mathlib.Omega.{arith}
use hobby_os.Prelude.Tests.{leb, if◌then◌else◌}

-- `negsuc n` is -(n + 1).
pub data ℤ : Type 0 where
  pos : ℕ → ℤ
  negsuc : ℕ → ℤ

-- a - b, as an integer.
abbrev pub sub_ℕ : ℕ → ℕ → ℤ
sub_ℕ a b = if leb b a then pos (a - b) else negsuc (b - a - 1)

pub sub_ℕ-eq : (a b : ℕ) → sub_ℕ a b ≡ pos 0 → a ≡ b
sub_ℕ-eq a b h = ground arith

pub sub_ℕ_self : (a : ℕ) → sub_ℕ a a ≡ pos 0
sub_ℕ_self a = ground arith
