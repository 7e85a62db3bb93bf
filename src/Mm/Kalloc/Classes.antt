-- ===== src/Mm/Kalloc/Classes.antt =====
-- That kmalloc of kernel/mm/kalloc/kalloc.cpp asks the smallest class that is large enough.
use hobby_os.Prelude.{
  ℕ, zero, suc, ◌+◌, ◌-◌, ◌^◌, ◌≤◌, ◌<◌, false, ltb, ◌==◌, ◌≡◌, ◌⊎◌, inl, inr, refl, arith,
  Bool-cases, ltb→lt,
}
use native.Mathlib.Nat.{pow-le-pow_right}
use hobby_os.Mm.Kalloc.{raise, entry, kmalloc, obj_size, smb_size}

-- What the loop stops at: the first power from `pow` on that is large enough.
unfoldable pub Raised : ℕ → ℕ → ℕ → ℕ → Type 0
Raised size pow n r =
    ((pow ≤ r) × (r ≤ pow + n)) × ((size ≤ 2 ^ r) × ((r ≡ pow) ⊎ (2 ^ (r - 1) < size)))

not_lt : (a b : ℕ) → ltb a b ≡ false → b ≤ a
not_lt a b h = ground arith

Raised-next :
    (size pow n r : ℕ) → 2 ^ pow < size → Raised size (suc pow) n r → Raised size pow (suc n) r
unfolding Raised
Raised-next size pow n r lt h =
    let lo = h.0.0 in
    let hi = h.0.1 in
    (
      (omega arith, omega arith),
      (
        h.1.0,
        inr (elim h.1.1 [
          | inl first ↦ (let e : r - 1 ≡ pow = omega arith in rw e lt)
          | inr later ↦ later
        ]),
      ),
    )

raise-Raised : (size pow n : ℕ) → size ≤ 2 ^ (pow + n) → Raised size pow n (raise size pow n)
unfolding raise Raised
raise-Raised size pow zero h = ((omega arith, omega arith), (rw zero_more h, inl refl))
  where
    zero_more : pow ≡ pow + 0
    zero_more = omega arith
raise-Raised size pow (suc n) h = elim (Bool-cases (ltb (2 ^ pow) size)) [
  | inl small ↦
      let same : pow + suc n ≡ suc pow + n = omega arith in
      rw small (
        Raised-next size pow n (raise size (suc pow) n) (ltb→lt (2 ^ pow) size small)
          (raise-Raised size (suc pow) n (rw same at h)))
  | inr large ↦ rw large ((omega arith, omega arith), (not_lt (2 ^ pow) size large, inl refl))
]

-- A class that is large enough, when no smaller one is.
unfoldable pub Serves : ℕ → ℕ → Type 0
Serves size i = (i < smb_size) × ((size ≤ obj_size i) × ((i ≡ 0) ⊎ (obj_size (i - 1) < size)))

class_of : (size r : ℕ) → size ≤ 2 ^ 17 → Raised size 5 13 r → Serves size (r - 5)
unfolding Raised Serves
class_of size r small h =
    let lo = h.0.0 in
    let hi = h.0.1 in
    let same : 5 + (r - 5) ≡ r = omega arith in
    (
      elim h.1.1 [ inl first ↦ omega arith | inr later ↦ below r later ],
      (
        rw same h.1.0,
        elim h.1.1 [ inl first ↦ inl (omega arith) | inr later ↦ one_less r lo later ],
      ),
    )
  where
    below : (r : ℕ) → 2 ^ (r - 1) < size → r - 5 < 13
    below r later = elim (Bool-cases (ltb 17 r)) [
      | inr fits ↦ ground arith
      | inl above ↦
          let le : 2 ^ 17 ≤ 2 ^ (r - 1) =
            pow-le-pow_right (omega arith) {i = 17} {j = r - 1} (ground arith) in
          absurd (omega arith)
    ]

    one_less : (r : ℕ) → 5 ≤ r → 2 ^ (r - 1) < size → (r - 5 ≡ 0) ⊎ (2 ^ (5 + (r - 5 - 1)) < size)
    one_less r lo later = elim (Bool-cases (ltb 5 r)) [
      | inl above ↦ (let e : 5 + (r - 5 - 1) ≡ r - 1 = ground arith in inr (rw e later))
      | inr first ↦ inl (ground arith)
    ]

-- For a size that is not 0 and not larger than the largest class, `kmalloc` asks one of the 13 classes, the
-- smallest whose objects are large enough.
pub kmalloc-Serves :
    (size : ℕ) → 0 < size → size ≤ 2 ^ 17 → (i : ℕ) × ((kmalloc size ≡ entry i) × Serves size i)
unfolding kmalloc
kmalloc-Serves size some_size small =
    let tested : (size == 0) ≡ false = ground arith in
    let fits : ltb (2 ^ 17) size ≡ false = ground arith in
    (
      raise size 5 13 - 5,
      (
        rw (tested, fits),
        class_of size (raise size 5 13) small (raise-Raised size 5 13 (omega arith)),
      ),
    )
