-- ===== src/Mm/Mem/Blocks.antt =====
-- The block primitives of kernel/mm/mem.h: memset, memcpy and memcmp.
use hobby_os.Prelude.{
  ℕ, zero, suc, ◌+◌, ◌-◌, ◌%◌, ◌≡◌, ◌≤◌, ◌<◌, ◌⊎◌, ◌↔◌, inl, inr, refl, Bool, ltb, leb,
  if◌then◌else◌, update, ◌==◌, ◌&&◌, arith, pos, Bool-cases, ==_iff,
}
use hobby_os.Mm.Mem.{Memory, memset, copy_from, memcpy, compare_from, memcmp}

-- The address `q` is one of the `n` from `p`.
abbrev pub within : ℕ → ℕ → ℕ → Bool
within p n q = leb p q && ltb q (p + n)

-- `memset` writes the low byte to the `len` addresses from `ptr`, and to no other.
pub memset_lem :
    (m : Memory) (ptr val len q : ℕ)
    → memset m ptr val len q ≡ (if within ptr len q then val % 256 else m q)
unfolding memset
memset_lem m ptr val zero q = ground arith
memset_lem m ptr val (suc len) q =
    ground (arith, memset_lem (update m ptr (val % 256)) (ptr + 1) val len q)

-- What the rounds from `i` write, when no round reads what an earlier one wrote.
copy_from_lem :
    (m : Memory) (dest src i n q : ℕ)
    → (dest ≤ src) ⊎ (src + i + n ≤ dest + i)
    → copy_from m dest src i n q ≡ (if within (dest + i) n q then m (src + (q - dest)) else m q)
unfolding copy_from
copy_from_lem m dest src i zero q apart = ground arith
copy_from_lem m dest src i (suc n) q apart =
    ground (arith, copy_from_lem (update m (dest + i) (m (src + i))) dest src (i + 1) n q)

-- `memcpy` moves the `len` bytes at `src` to `dest` and writes nothing else, where the target begins
-- no later than the source or behind its end: it may end inside the source.
pub memcpy_lem :
    (m : Memory) (dest src len q : ℕ)
    → (dest ≤ src) ⊎ (src + len ≤ dest)
    → memcpy m dest src len q ≡ (if within dest len q then m (src + (q - dest)) else m q)
unfolding memcpy
memcpy_lem m dest src len q apart = ground (arith, copy_from_lem m dest src 0 len q)

-- The rounds from `i` on answer 0 exactly when the bytes that they compare are equal.
compare_from_lem :
    (m : Memory) (p q i n : ℕ)
    → (compare_from m p q i n ≡ pos 0) ↔ ((j : ℕ) → i ≤ j → j < i + n → m (p + j) ≡ m (q + j))
unfolding compare_from
compare_from_lem m p q i zero = (λ h j le lt. absurd (omega arith), λ h. refl)
compare_from_lem m p q i (suc n) = elim (Bool-cases (m (p + i) == m (q + i))) [
  | inl same ↦ (
    λ h j le lt. elim (Bool-cases (i == j)) [
      | inl here ↦ rw (← (==_iff i j).0 here) ((==_iff (m (p + i)) (m (q + i))).0 same)
      | inr later ↦
          (compare_from_lem m p q (i + 1) n).0 (rw same at h) j (ground arith) (omega arith)
    ],
    λ h.
        rw same ((compare_from_lem m p q (i + 1) n).1 (λ j le lt. h j (omega arith) (omega arith))),
  )
  | inr other ↦
      (λ h. absurd (ground arith), λ h. absurd (ground (arith, h i (omega arith) (omega arith))))
]

-- `memcmp` answers 0 exactly when the two blocks hold the same bytes.
pub memcmp_lem :
    (m : Memory) (p q len : ℕ)
    → (memcmp m p q len ≡ pos 0) ↔ ((j : ℕ) → j < len → m (p + j) ≡ m (q + j))
unfolding memcmp
memcmp_lem m p q len = (
  λ h j lt. (compare_from_lem m p q 0 len).0 h j (omega arith) (omega arith),
  λ h. (compare_from_lem m p q 0 len).1 (λ j le lt. h j (omega arith)),
)
