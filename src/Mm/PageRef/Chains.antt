-- ===== src/Mm/PageRef/Chains.antt =====
-- One chain of the page table: reads after writes, and the invariant of a chain.
use hobby_os.Prelude.{
  ℕ, ◌<◌, ◌≡◌, refl, ◌≢◌, none, some, List, [], ◌∷◌, arith, inl, inr, Bool-cases, ◌==◌, All,
  half_word,
}
use hobby_os.Mm.PageRef.{PageMeta, find_in, set_count, erase_in}

-- The owners that a chain records for a page.
abbrev pub owners_in : ℕ → List PageMeta → ℕ
owners_in pa ms = elim (find_in pa ms) [ some m ↦ m.refcount | none ↦ 1 ]

-- No page twice, and every count a positive word.
abbrev pub IsChain : List PageMeta → Type 0
IsChain [] = Unit
IsChain (m ∷ ms) =
    (0 < m.refcount)
    × (m.refcount < half_word)
    × All (λ (x : PageMeta). x.pa ≢ m.pa) ms
    × IsChain ms

pub find_in-set_count_ne :
    (p q n : ℕ) (ms : List PageMeta) → p ≢ q → find_in q (set_count p n ms) ≡ find_in q ms
unfolding find_in set_count
find_in-set_count_ne p q n [] ne = refl
find_in-set_count_ne p q n (m ∷ ms) ne = ground (arith, find_in-set_count_ne p q n ms)

pub find_in-set_count :
    (p n : ℕ) (ms : List PageMeta) (m : PageMeta)
    → find_in p ms ≡ some m
    → find_in p (set_count p n ms) ≡ some (record m { refcount = n })
unfolding find_in set_count
find_in-set_count p n [] m h = cc
find_in-set_count p n (x ∷ ms) m h = ground (arith, find_in-set_count p n ms m)

pub find_in-erase_in_ne :
    (p q : ℕ) (ms : List PageMeta) → p ≢ q → find_in q (erase_in p ms) ≡ find_in q ms
unfolding find_in erase_in
find_in-erase_in_ne p q [] ne = refl
find_in-erase_in_ne p q (m ∷ ms) ne = ground (arith, find_in-erase_in_ne p q ms)

find_in-missing :
    (p : ℕ) (ms : List PageMeta) → All (λ (x : PageMeta). x.pa ≢ p) ms → find_in p ms ≡ none
unfolding find_in
find_in-missing p [] a = refl
find_in-missing p (m ∷ ms) a = let ih = find_in-missing p ms a.1 in let ne = a.0 in ground arith

pub find_in-erase_in : (p : ℕ) (ms : List PageMeta) → IsChain ms → find_in p (erase_in p ms) ≡ none
unfolding find_in erase_in
find_in-erase_in p [] c = refl
find_in-erase_in p (m ∷ ms) c =
    let ih = find_in-erase_in p ms c.3 in let gone = find_in-missing m.pa ms c.2 in ground arith

abbrev Without : ℕ → List PageMeta → Type 0
Without p = All (λ (x : PageMeta). x.pa ≢ p)

Without-of_missing : (p : ℕ) (ms : List PageMeta) → find_in p ms ≡ none → Without p ms
unfolding find_in
Without-of_missing p [] h = tt
Without-of_missing p (m ∷ ms) h = (λ e. ground arith, Without-of_missing p ms (ground arith))

Without-set_count : (p q n : ℕ) (ms : List PageMeta) → Without q ms → Without q (set_count p n ms)
unfolding set_count
Without-set_count p q n [] a = tt
Without-set_count p q n (m ∷ ms) a = elim (Bool-cases (m.pa == p)) [
  | inl same ↦ rw same a
  | inr other ↦ rw other (a.0, Without-set_count p q n ms a.1)
]

Without-erase_in : (p q : ℕ) (ms : List PageMeta) → Without q ms → Without q (erase_in p ms)
unfolding erase_in
Without-erase_in p q [] a = tt
Without-erase_in p q (m ∷ ms) a = elim (Bool-cases (m.pa == p)) [
  | inl same ↦ rw same a.1
  | inr other ↦ rw other (a.0, Without-erase_in p q ms a.1)
]

pub set_count-IsChain :
    (p n : ℕ) (ms : List PageMeta) → 0 < n → n < half_word → IsChain ms → IsChain (set_count p n ms)
unfolding set_count
set_count-IsChain p n [] pos lt c = tt
set_count-IsChain p n (m ∷ ms) pos lt c = elim (Bool-cases (m.pa == p)) [
  | inl same ↦ rw same (pos, lt, c.2, c.3)
  | inr other ↦
      rw other (c.0, c.1, Without-set_count p m.pa n ms c.2, set_count-IsChain p n ms pos lt c.3)
]

-- The chain that `dec_ref` erases from holds a zero count for a moment, at the page itself.
pub erase_in-set_count :
    (p n : ℕ) (ms : List PageMeta) → erase_in p (set_count p n ms) ≡ erase_in p ms
unfolding erase_in set_count
erase_in-set_count p n [] = refl
erase_in-set_count p n (m ∷ ms) = let ih = erase_in-set_count p n ms in ground arith

pub erase_in-IsChain : (p : ℕ) (ms : List PageMeta) → IsChain ms → IsChain (erase_in p ms)
unfolding erase_in
erase_in-IsChain p [] c = tt
erase_in-IsChain p (m ∷ ms) c = elim (Bool-cases (m.pa == p)) [
  | inl same ↦ rw same c.3
  | inr other ↦ rw other (c.0, c.1, Without-erase_in p m.pa ms c.2, erase_in-IsChain p ms c.3)
]

pub cons-IsChain :
    (p : ℕ) (ms : List PageMeta)
    → find_in p ms ≡ none
    → IsChain ms
    → IsChain (record { pa = p; refcount = 2 } ∷ ms)
cons-IsChain p ms h c = (omega arith, omega arith, Without-of_missing p ms h, c)

-- A recorded count is positive and a word.
pub find_in_bounds :
    (p : ℕ) (ms : List PageMeta) (m : PageMeta)
    → IsChain ms
    → find_in p ms ≡ some m
    → (0 < m.refcount) × (m.refcount < half_word)
unfolding find_in
find_in_bounds p [] m c h = cc
find_in_bounds p (x ∷ ms) m c h =
    let pos = c.0 in let lt = c.1 in ground (arith, find_in_bounds p ms m c.3)

pub find_in-cons_self :
    (p n : ℕ) (ms : List PageMeta)
    → find_in p (record { pa = p; refcount = n } ∷ ms) ≡ some (record { pa = p; refcount = n })
unfolding find_in
find_in-cons_self p n ms = ground arith

pub find_in-cons_ne :
    (p q n : ℕ) (ms : List PageMeta)
    → p ≢ q
    → find_in q (record { pa = p; refcount = n } ∷ ms) ≡ find_in q ms
unfolding find_in
find_in-cons_ne p q n ms ne = ground arith
