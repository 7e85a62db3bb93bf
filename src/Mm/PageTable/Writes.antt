-- ===== src/Mm/PageTable/Writes.antt =====
-- A write to an entry of a leaf table of kernel/mm/vm/pmt.cpp: the tree stays, one entry changes.
use hobby_os.Prelude.{
  ℕ, ◌<◌, ◌≡◌, ◌≢◌, refl, sym, ap, ap₂, ◌∙◌, Bool-cases, inl, inr, Option, none, some, update,
  update_self, update_ne, ==_iff, ==_refl, ◌==◌, ◌&&◌, if◌then◌else◌,
}
use hobby_os.Mm.PageTable.{Tables, PageTables, step_to, entry_in, write, user_threshold}
use hobby_os.Mm.PageTable.Owners.{Place, middle, leaf, step_in, leaf_of, entry, IsTree, other_page}
use hobby_os.Mm.PageTable.Growth.{step_to_same}

-- The entries with the one at the three page numbers set.
abbrev pub put_entry : (ℕ → ℕ → ℕ → ℕ) → ℕ → ℕ → ℕ → ℕ → ℕ → ℕ → ℕ → ℕ
put_entry f i j k pte a b l = if i == a && j == b && k == l then pte else f a b l

leaf_eq : {i j a b : ℕ} → leaf i j ≡ leaf a b → (i ≡ a) × (j ≡ b)
leaf_eq h = (cc, cc)

module _ (own : ℕ → Place) (root : ℕ) (m : PageTables) (tree : IsTree own root m) (i j t : ℕ)
    (low : i < user_threshold) (there : leaf_of m.tables root i j ≡ some t) (k pte : ℕ) where
  written : Tables
  written = write m.tables t k pte

  written_row : (u l : ℕ) → t ≢ u → written u l ≡ m.tables u l
  unfolding written
  written_row u l ne = ap (λ row. row l) (update_ne m.tables t (update (m.tables t) k pte) u ne)

  mine : own t ≡ leaf i j
  mine = tree.leaves i j t low there

  step_to_root : (a : ℕ) → step_to written root a ≡ step_to m.tables root a
  step_to_root a =
      step_to_same m.tables written root a
        (written_row root a (other_page own t root mine tree.root_is_top (λ e. cc)))

  pub write-root : (a : ℕ) → write m.tables t k pte root a ≡ m.tables root a
  unfolding written
  write-root a = written_row root a (other_page own t root mine tree.root_is_top (λ e. cc))

  leaf_of-written :
      (a b : ℕ) → a < user_threshold → leaf_of written root a b ≡ leaf_of m.tables root a b
  leaf_of-written a b la =
      ap (λ o. step_in written o b) (step_to_root a)
      ∙ below (step_to m.tables root a) (λ u h. tree.middles a u la h)
    where
      below :
          (o : Option ℕ)
          → ((u : ℕ) → o ≡ some u → own u ≡ middle a)
          → step_in written o b ≡ step_in m.tables o b
      below none h = refl
      below (some u) h =
          step_to_same m.tables written u b
            (written_row u b (other_page own t u mine (h u refl) (λ e. cc)))

  pub entry-write :
      (a b l : ℕ)
      → a < user_threshold
      → entry (write m.tables t k pte) root a b l ≡ put_entry (entry m.tables root) i j k pte a b l
  unfolding written
  entry-write a b l la =
      ap (λ o. entry_in written o l) (leaf_of-written a b la)
      ∙ below (leaf_of m.tables root a b) (λ u h. tree.leaves a b u la h)
          (λ e f. sym (ap₂ (leaf_of m.tables root) e f) ∙ there)
    where
      below :
          (o : Option ℕ)
          → ((u : ℕ) → o ≡ some u → own u ≡ leaf a b)
          → (i ≡ a → j ≡ b → o ≡ some t)
          → entry_in written o l
            ≡ (if i == a && j == b && k == l then pte else entry_in m.tables o l)
      below none h g = elim (Bool-cases (i == a)) [
        | inl same ↦ elim (Bool-cases (j == b)) [
          | inl also ↦ absurd (cc (g ((==_iff i a).0 same) ((==_iff j b).0 also)))
          | inr other ↦ rw (same, other)
        ]
        | inr other ↦ rw other
      ]
      below (some u) h g = elim (Bool-cases (t == u)) [
        | inl same ↦
            let e = (==_iff t u).0 same in
            let (i_is_a, j_is_b) = leaf_eq (sym mine ∙ ap own e ∙ h u refl) in
            rw (← e) (
              rw (← i_is_a, ← j_is_b)
                (rw (==_refl i, ==_refl j)
                  (ap (λ row. row l) (update_self m.tables t (update (m.tables t) k pte)))))
        | inr other ↦
            let ne : t ≢ u = λ e. absurd (cc ((==_iff t u).1 e)) in
            written_row u l ne ∙ elim (Bool-cases (i == a)) [
              | inl here ↦ elim (Bool-cases (j == b)) [
                | inl also ↦ absurd (ne (cc (g ((==_iff i a).0 here) ((==_iff j b).0 also))))
                | inr away ↦ rw (here, away)
              ]
              | inr away ↦ rw away
            ]
      ]

  pub write-IsTree : IsTree own root (record m { tables = write m.tables t k pte })
  unfolding written
  write-IsTree = record {
    root_is_top = tree.root_is_top;
    middles = λ a u la h. tree.middles a u la (sym (step_to_root a) ∙ h);
    leaves = λ a b u la h. tree.leaves a b u la (sym (leaf_of-written a b la) ∙ h);
    spare = tree.spare;
    apart = tree.apart;
  }
