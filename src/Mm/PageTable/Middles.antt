-- ===== src/Mm/PageTable/Middles.antt =====
-- A new leaf table of kernel/mm/vm/pmt.cpp: the slot of a middle table was empty.
use hobby_os.Prelude.{
  ℕ, ◌<◌, ◌≡◌, ◌≢◌, refl, sym, ap, ap₂, ◌∙◌, Bool-cases, inl, inr, Option, none, some, List, ◌∷◌,
  update, update_self, ==_iff, ◌==◌, ◌⊎◌,
}
use hobby_os.Mm.PageTable.{Tables, step_to, entry_in, user_threshold}
use hobby_os.Mm.PageTable.Owners.{
  Place, middle, leaf, step_in, leaf_of, entry, IsTree, other_page, All-IsSpare,
}
use hobby_os.Mm.PageTable.Growth.{
  grown, step_to_same, grown_row, grown_slot, grown_new, step_to_link, Grown,
}
use hobby_os.Mm.PageTable.Tops.{p_ne, own_kept, IsSpare-p}

middle_eq : {a b : ℕ} → middle a ≡ middle b → a ≡ b
middle_eq h = cc

-- The slot of one pair of numbers, or another pair.
pair_cases : (i j a b : ℕ) → ((i ≡ a) × (j ≡ b)) ⊎ ((i ≡ a) → j ≢ b)
pair_cases i j a b = elim (Bool-cases (i == a)) [
  | inl same ↦ elim (Bool-cases (j == b)) [
    | inl also ↦ inl ((==_iff i a).0 same, (==_iff j b).0 also)
    | inr other ↦ inr (λ _ e. absurd (cc ((==_iff j b).1 e)))
  ]
  | inr other ↦ inr (λ e _. absurd (cc ((==_iff i a).1 e)))
]

-- `p` is the page that the allocator gives, `m` the middle table under slot `i` of the root.
module _ (own : ℕ → Place) (root : ℕ) (tb : Tables) (p : ℕ) (free : List ℕ)
    (tree : IsTree own root (record { tables = tb; free = p ∷ free })) (i m : ℕ)
    (low : i < user_threshold) (there : step_to tb root i ≡ some m) (j : ℕ)
    (missing : step_to tb m j ≡ none) where
  tb_mid : Tables
  tb_mid = grown tb p m j

  mine : own m ≡ middle i
  mine = tree.middles i m low there

  p_ne_m : p ≢ m
  p_ne_m = p_ne own root tb p free tree m mine (λ e. cc)

  step_to_root : (a : ℕ) → step_to tb_mid root a ≡ step_to tb root a
  unfolding tb_mid
  step_to_root a = step_to_same tb tb_mid root a (
      grown_row tb p m j p_ne_m root (other_page own m root mine tree.root_is_top (λ e. cc))
        (p_ne own root tb p free tree root tree.root_is_top (λ e. cc)) a)

  pub leaf_of_link : leaf_of (grown tb p m j) root i j ≡ some p
  unfolding tb_mid
  leaf_of_link =
      let spare = IsSpare-p own root tb p free tree in
      ap (λ o. step_in tb_mid o j) (step_to_root i ∙ there)
      ∙ step_to_link tb p m j p_ne_m spare.1 spare.2

  leaf_of_other :
      (a b : ℕ)
      → a < user_threshold
      → (i ≡ a → j ≢ b)
      → leaf_of tb_mid root a b ≡ leaf_of tb root a b
  unfolding tb_mid
  leaf_of_other a b la ne =
      ap (λ o. step_in tb_mid o b) (step_to_root a)
      ∙ below (step_to tb root a) (λ t h. tree.middles a t la h)
    where
      below :
          (o : Option ℕ)
          → ((t : ℕ) → o ≡ some t → own t ≡ middle a)
          → step_in tb_mid o b ≡ step_in tb o b
      below none h = refl
      below (some t) h = elim (Bool-cases (m == t)) [
        | inl same ↦
            let e = (==_iff m t).0 same in
            let i_is_a = middle_eq (sym mine ∙ ap own e ∙ h t refl) in
            rw (← e) (step_to_same tb tb_mid m b (grown_slot tb p m j p_ne_m b (ne i_is_a)))
        | inr other ↦ step_to_same tb tb_mid t b (
            grown_row tb p m j p_ne_m t (λ e. absurd (cc ((==_iff m t).1 e)))
              (p_ne own root tb p free tree t (h t refl) (λ e. cc)) b)
      ]

  entry_mid : (a b l : ℕ) → a < user_threshold → entry tb_mid root a b l ≡ entry tb root a b l
  unfolding tb_mid
  entry_mid a b l la = elim (pair_cases i j a b) [
    | inl here ↦
        rw (← here.0, ← here.1)
          (ap (λ o. entry_in tb_mid o l) leaf_of_link
            ∙ grown_new tb p m j p_ne_m l
            ∙ sym (ap (λ o. entry_in tb o l) (ap (λ o. step_in tb o j) there ∙ missing)))
    | inr other ↦
        ap (λ o. entry_in tb_mid o l) (leaf_of_other a b la other)
        ∙ below (leaf_of tb root a b) (λ t h. tree.leaves a b t la h)
  ]
    where
      below :
          (o : Option ℕ)
          → ((t : ℕ) → o ≡ some t → own t ≡ leaf a b)
          → entry_in tb_mid o l ≡ entry_in tb o l
      below none h = refl
      below (some t) h =
          let its = h t refl in
          grown_row tb p m j p_ne_m t (other_page own m t mine its (λ e. cc))
            (p_ne own root tb p free tree t its (λ e. cc)) l

  pub Grown-middle :
      Grown root
        (record { tables = tb; free = p ∷ free })
        (record { tables = grown tb p m j; free = free })
  unfolding tb_mid
  Grown-middle = record {
    own = update own p (leaf i j);
    tree = record {
      root_is_top = own_kept own root tb p free tree (leaf i j) root tree.root_is_top (λ e. cc);
      middles = λ a t la h.
          own_kept own root tb p free tree (leaf i j) t
            (tree.middles a t la (sym (step_to_root a) ∙ h)) (λ e. cc);
      leaves = λ a b t la h. elim (pair_cases i j a b) [
        | inl here ↦
            let link = ap₂ (leaf_of tb_mid root) (sym here.0) (sym here.1) ∙ leaf_of_link in
            let p_is_t : p ≡ t = cc (sym link ∙ h) in
            rw (← p_is_t, ← here.0, ← here.1) (update_self own p (leaf i j))
        | inr other ↦
            own_kept own root tb p free tree (leaf i j) t
              (tree.leaves a b t la (sym (leaf_of_other a b la other) ∙ h)) (λ e. cc)
      ];
      spare = All-IsSpare own p (leaf i j) free tree.apart.0 tree.spare.1;
      apart = tree.apart.1;
    };
    same = entry_mid;
    kernel = λ a high.
        grown_row tb p m j p_ne_m root (other_page own m root mine tree.root_is_top (λ e. cc))
          (p_ne own root tb p free tree root tree.root_is_top (λ e. cc)) a;
  }
