-- ===== src/Prelude/Words.antt =====
-- Arithmetic of `uint32_t` and `uint64_t`: the sums and differences wrap.
use Prim.Native.Nat.{ℕ, ◌+◌, ◌-◌, ◌*◌, ◌%◌, ◌^◌}

abbrev pub word : ℕ
word = 2 ^ 64

abbrev pub half_word : ℕ
half_word = 2 ^ 32

abbrev pub add64 : ℕ → ℕ → ℕ
add64 a b = (a + b) % word

abbrev pub sub64 : ℕ → ℕ → ℕ
sub64 a b = (a + word - b) % word

abbrev pub mul64 : ℕ → ℕ → ℕ
mul64 a b = (a * b) % word

abbrev pub add32 : ℕ → ℕ → ℕ
add32 a b = (a + b) % half_word

abbrev pub sub32 : ℕ → ℕ → ℕ
sub32 a b = (a + half_word - b) % half_word
