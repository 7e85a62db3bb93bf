-- ===== src/Mm/PageTable/Growth.antt =====
-- New tables of kernel/mm/vm/pmt.cpp: a walk that allocates changes no entry of a leaf table.
use hobby_os.Prelude.{
  ◌≤◌, ℕ, ◌%◌, ◌^◌, ◌<◌, ◌≡◌, ◌≢◌, refl, sym, ap, ◌∙◌, none, some, update, update_self, update_ne,
  arith, if◌then◌else◌,
}
use hobby_os.Mm.PageTable.{
  Tables, PageTables, make_pte, pte2pa, pte_valid, step_to, write, user_threshold, zeroed, page_v,
}
use hobby_os.Mm.PageTable.Entries.{
  pte2pa-make_pte, pte_valid-make_pte, pte_valid_zero, pte_valid_one,
}
use hobby_os.Mm.PageTable.Owners.{Place, entry, IsTree}

pub step_to_same : (tb tb' : Tables) (t i : ℕ) → tb' t i ≡ tb t i → step_to tb' t i ≡ step_to tb t i
step_to_same tb tb' t i h = ap (λ pte. if pte_valid pte then some (pte2pa pte) else none) h

-- One new table `p`, linked at slot `i` of the table `t`.
unfoldable pub grown : Tables → ℕ → ℕ → ℕ → Tables
grown tb p t i = write (zeroed tb p) t i (make_pte p page_v)

module _ (tb : Tables) (p t i : ℕ) (p_ne_t : p ≢ t) where
  pub grown_row : (u : ℕ) → t ≢ u → p ≢ u → (l : ℕ) → grown tb p t i u l ≡ tb u l
  unfolding grown
  grown_row u h g l =
      ap (λ row. row l)
        (update_ne (zeroed tb p) t (update (zeroed tb p t) i (make_pte p page_v)) u h
          ∙ update_ne tb p (λ k. 0) u g)

  pub grown_slot : (j : ℕ) → i ≢ j → grown tb p t i t j ≡ tb t j
  unfolding grown
  grown_slot j h =
      ap (λ row. row j) (update_self (zeroed tb p) t (update (zeroed tb p t) i (make_pte p page_v)))
      ∙ update_ne (zeroed tb p t) i (make_pte p page_v) j h
      ∙ ap (λ row. row j) (update_ne tb p (λ k. 0) t p_ne_t)

  pub grown_new : (l : ℕ) → grown tb p t i p l ≡ 0
  unfolding grown
  grown_new l =
      ap (λ row. row l)
        (update_ne (zeroed tb p) t (update (zeroed tb p t) i (make_pte p page_v)) p
            (λ e. p_ne_t (sym e))
          ∙ update_self tb p (λ k. 0))

  pub step_to_new : (l : ℕ) → step_to (grown tb p t i) p l ≡ none
  step_to_new l =
      ap (λ pte. if pte_valid pte then some (pte2pa pte) else none) (grown_new l)
      ∙ rw pte_valid_zero

  pub step_to_link : p % 4096 ≡ 0 → p < 2 ^ 56 → step_to (grown tb p t i) t i ≡ some p
  unfolding grown
  step_to_link aligned small =
      let slot : grown tb p t i t i ≡ make_pte p page_v =
        ap (λ row. row i)
          (update_self (zeroed tb p) t (update (zeroed tb p t) i (make_pte p page_v)))
        ∙ update_self (zeroed tb p t) i (make_pte p page_v) in
      let whole : pte2pa (make_pte p page_v) ≡ p =
        pte2pa-make_pte p page_v small (omega arith) ∙ omega arith in
      ap (λ pte. if pte_valid pte then some (pte2pa pte) else none) slot
      ∙ rw (pte_valid-make_pte p page_v (omega arith) ∙ pte_valid_one) (ap some whole)

-- The tables after some growth: still one tree, with the same entries in its leaves and in the kernel's
-- half of the root.
pub record Grown (root : ℕ) (m m' : PageTables) : Type 0 where
  pub own : ℕ → Place
  pub tree : IsTree own root m'
  pub same :
      (a b l : ℕ) → a < user_threshold → entry m'.tables root a b l ≡ entry m.tables root a b l
  pub kernel : (a : ℕ) → user_threshold ≤ a → m'.tables root a ≡ m.tables root a

pub Grown-refl : (own : ℕ → Place) (root : ℕ) (m : PageTables) → IsTree own root m → Grown root m m
Grown-refl own root m tree = record {
  own = own;
  tree = tree;
  same = λ a b l low. refl;
  kernel = λ a high. refl;
}
