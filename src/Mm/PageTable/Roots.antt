-- ===== src/Mm/PageTable/Roots.antt =====
-- The roots that `createPMT` of kernel/mm/vm/vm.cpp makes: the kernel's half is that of the boot table.
use hobby_os.Prelude.{
  split_le, ℕ, zero, suc, ◌+◌, ◌%◌, ◌^◌, ◌≤◌, ◌<◌, ◌≡◌, ◌≢◌, refl, ap, ◌∙◌, inl, inr, some, List,
  ◌∷◌, All, Distinct, arith, update, update_self, update_ne,
}
use mathlib.Core.Path.{subst}
use hobby_os.Mm.PageTable.{
  Tables, PageTables, user_threshold, pmt_size, zeroed, write, copy_entries, create_pmt,
}
use hobby_os.Mm.PageTable.Maps.{Maps, new_root-Maps}

write_other : (tb : Tables) (t i pte j : ℕ) → i ≢ j → write tb t i pte t j ≡ tb t j
write_other tb t i pte j ne =
    ap (λ row. row j) (update_self tb t (update (tb t) i pte)) ∙ update_ne (tb t) i pte j ne

-- The loop leaves the entries before its own.
copy_entries-below :
    (n i : ℕ) (tb : Tables) (p : ℕ) (boot : ℕ → ℕ) (j : ℕ)
    → j < i
    → copy_entries tb p boot i n p j ≡ tb p j
unfolding copy_entries
copy_entries-below zero i tb p boot j h = refl
copy_entries-below (suc n) i tb p boot j h =
    copy_entries-below n (i + 1) (write tb p i (boot i)) p boot j (omega (arith, h))
    ∙ write_other tb p i (boot i) j (omega (arith, h))

copy_entries-read :
    (n i : ℕ) (tb : Tables) (p : ℕ) (boot : ℕ → ℕ) (j : ℕ)
    → i ≤ j
    → j < i + n
    → copy_entries tb p boot i n p j ≡ boot j
unfolding copy_entries
copy_entries-read zero i tb p boot j from to = absurd (omega (arith, from, to))
copy_entries-read (suc n) i tb p boot j from to = elim (split_le i j from) [
  | inl e ↦
      subst (λ k. copy_entries tb p boot i (suc n) p k ≡ boot k) e
        (copy_entries-below n (i + 1) (write tb p i (boot i)) p boot i (omega arith)
          ∙ ap (λ row. row i) (update_self tb p (update (tb p) i (boot i)))
          ∙ update_self (tb p) i (boot i))
  | inr l ↦ copy_entries-read n (i + 1) (write tb p i (boot i)) p boot j l (omega (arith, to))
]

-- A new root, in the first page of the allocator, maps nothing in the user's half, whatever the page
-- held before, and its kernel's half is the boot table's.
pub create_pmt-Maps :
    (tb : Tables) (boot : ℕ → ℕ) (root : ℕ) (free : List ℕ)
    → All (λ p. (p % 4096 ≡ 0) × (p < 2 ^ 56)) free
    → Distinct (root ∷ free)
    → (m' : PageTables) × (create_pmt (record { tables = tb; free = root ∷ free }) boot
        ≡ (m', some root))
      × Maps root (λ a b l. 0) m'
      × ((i : ℕ) → user_threshold ≤ i → i < pmt_size → m'.tables root i ≡ boot i)
unfolding create_pmt
create_pmt-Maps tb boot root free good apart = (
  record { tables = copy_entries (zeroed tb root) root boot user_threshold 256; free = free },
  refl,
  new_root-Maps (copy_entries (zeroed tb root) root boot user_threshold 256) root free
      (λ i low.
        copy_entries-below 256 user_threshold (zeroed tb root) root boot i low
        ∙ ap (λ row. row i) (update_self tb root (λ j. 0)))
      good apart,
  λ i from to.
      copy_entries-read 256 user_threshold (zeroed tb root) root boot i from (omega (arith, to)),
)
