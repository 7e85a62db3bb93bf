-- ===== src/Mm/PageTable/Tops.antt =====
-- A new middle table of kernel/mm/vm/pmt.cpp: the root's slot was empty.
use hobby_os.Prelude.{
  arith, ℕ, ◌<◌, ◌≡◌, ◌≢◌, refl, sym, ap, ◌∙◌, Bool-cases, inl, inr, Option, none, some, List, ◌∷◌,
  update, update_self, update_ne, ==_iff, ◌==◌,
}
use hobby_os.Mm.PageTable.{Tables, step_to, entry_in, user_threshold}
use hobby_os.Mm.PageTable.Owners.{
  Place, unused, middle, leaf, step_in, leaf_of, entry, IsSpare, IsTree, other_page, All-IsSpare,
}
use hobby_os.Mm.PageTable.Growth.{
  grown, step_to_same, grown_row, grown_slot, step_to_new, step_to_link, Grown,
}

-- `p` is the page that the allocator gives.
module _ (own : ℕ → Place) (root : ℕ) (tb : Tables) (p : ℕ) (free : List ℕ)
    (tree : IsTree own root (record { tables = tb; free = p ∷ free })) where
  pub IsSpare-p : IsSpare own p
  IsSpare-p = tree.spare.0

  pub p_ne : (u : ℕ) {a : Place} → own u ≡ a → unused ≢ a → p ≢ u
  p_ne u h ne = other_page own p u IsSpare-p.0 h ne

  -- The owner of a table that was reached before is not changed.
  pub own_kept : (o : Place) (u : ℕ) {a : Place} → own u ≡ a → unused ≢ a → update own p o u ≡ a
  own_kept o u h ne = update_ne own p o u (p_ne u h ne) ∙ h

  -- A missing middle table: the new one is empty, as was the branch.
  module _ (i : ℕ) (low : i < user_threshold) (missing : step_to tb root i ≡ none) where
    tb_top : Tables
    tb_top = grown tb p root i

    pub p_ne_root : p ≢ root
    p_ne_root = p_ne root tree.root_is_top (λ e. cc)

    leaf_of_top : (a b : ℕ) → a < user_threshold → leaf_of tb_top root a b ≡ leaf_of tb root a b
    unfolding tb_top
    leaf_of_top a b la = elim (Bool-cases (i == a)) [
      | inl same ↦
          let e = (==_iff i a).0 same in
          ap (λ n. leaf_of tb_top root n b) (sym e)
          ∙ ap (λ o. step_in tb_top o b)
              (step_to_link tb p root i p_ne_root IsSpare-p.1 IsSpare-p.2)
          ∙ step_to_new tb p root i p_ne_root b
          ∙ sym (ap (λ o. step_in tb o b) (ap (step_to tb root) (sym e) ∙ missing))
      | inr other ↦
          let slot =
            step_to_same tb tb_top root a
              (grown_slot tb p root i p_ne_root a (λ e. absurd (cc ((==_iff i a).1 e)))) in
          ap (λ o. step_in tb_top o b) slot
          ∙ below (step_to tb root a) (λ t h. tree.middles a t la h)
    ]
      where
        below :
            (o : Option ℕ)
            → ((t : ℕ) → o ≡ some t → own t ≡ middle a)
            → step_in tb_top o b ≡ step_in tb o b
        below none h = refl
        below (some t) h =
            let mine = h t refl in
            step_to_same tb tb_top t b (
              grown_row tb p root i p_ne_root t
                (other_page own root t tree.root_is_top mine (λ e. cc)) (p_ne t mine (λ e. cc)) b)

    entry_top : (a b l : ℕ) → a < user_threshold → entry tb_top root a b l ≡ entry tb root a b l
    unfolding tb_top
    entry_top a b l la =
        ap (λ o. entry_in tb_top o l) (leaf_of_top a b la)
        ∙ below (leaf_of tb root a b) (λ t h. tree.leaves a b t la h)
      where
        below :
            (o : Option ℕ)
            → ((t : ℕ) → o ≡ some t → own t ≡ leaf a b)
            → entry_in tb_top o l ≡ entry_in tb o l
        below none h = refl
        below (some t) h =
            let mine = h t refl in
            grown_row tb p root i p_ne_root t
              (other_page own root t tree.root_is_top mine (λ e. cc)) (p_ne t mine (λ e. cc)) l

    pub Grown-top :
        Grown root
          (record { tables = tb; free = p ∷ free })
          (record { tables = grown tb p root i; free = free })
    unfolding tb_top
    Grown-top = record {
      own = update own p (middle i);
      tree = record {
        root_is_top = own_kept (middle i) root tree.root_is_top (λ e. cc);
        middles = λ a t la h. elim (Bool-cases (i == a)) [
          | inl same ↦
              let e = (==_iff i a).0 same in
              let link =
                ap (step_to tb_top root) (sym e)
                ∙ step_to_link tb p root i p_ne_root IsSpare-p.1 IsSpare-p.2 in
              let p_is_t : p ≡ t = cc (sym link ∙ h) in
              rw (← p_is_t, ← e) (update_self own p (middle i))
          | inr other ↦
              let slot =
                step_to_same tb tb_top root a
                  (grown_slot tb p root i p_ne_root a (λ e. absurd (cc ((==_iff i a).1 e)))) in
              own_kept (middle i) t (tree.middles a t la (sym slot ∙ h)) (λ e. cc)
        ];
        leaves = λ a b t la h.
            own_kept (middle i) t (tree.leaves a b t la (sym (leaf_of_top a b la) ∙ h)) (λ e. cc);
        spare = All-IsSpare own p (middle i) free tree.apart.0 tree.spare.1;
        apart = tree.apart.1;
      };
      same = entry_top;
      kernel = λ a high. grown_slot tb p root i p_ne_root a (omega (arith, low, high));
    }
