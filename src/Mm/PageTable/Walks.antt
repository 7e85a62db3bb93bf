-- ===== src/Mm/PageTable/Walks.antt =====
-- The walk of kernel/mm/vm/pmt.cpp, with and without new tables.
use mathlib.Core.Path.{subst}
use hobby_os.Prelude.{
  ℕ, ◌+◌, ◌≡◌, ◌≤◌, ◌<◌, refl, sym, ap, ◌∙◌, Bool, true, false, Option-cases, inl, inr, Option,
  none, some, List, [], ◌∷◌, length, arith,
}
use hobby_os.Mm.PageTable.{
  Tables, PageTables, step_to, descend, descend_next, follow, new_table, walk, vpn, user_threshold,
}
use hobby_os.Mm.PageTable.Owners.{Place, step_in, leaf_of, IsTree}
use hobby_os.Mm.PageTable.Growth.{Grown, Grown-refl, grown, step_to_link}
use hobby_os.Mm.PageTable.Tops.{Grown-top, p_ne_root, IsSpare-p}
use hobby_os.Mm.PageTable.Middles.{Grown-middle, leaf_of_link}

descend-some :
    (alloc : Bool) (m : PageTables) (t i next : ℕ)
    → step_to m.tables t i ≡ some next
    → descend alloc m t i ≡ (m, some next)
unfolding descend
descend-some alloc m t i next h = ap (follow alloc m t i) h ∙ follow_some alloc
  where
    follow_some : (alloc : Bool) → follow alloc m t i (some next) ≡ (m, some next)
    follow_some true = refl
    follow_some false = refl

descend_new :
    (m : PageTables) (t i : ℕ)
    → step_to m.tables t i ≡ none
    → descend true m t i ≡ new_table m.tables m.free t i
unfolding descend
descend_new m t i h = ap (follow true m t i) h

descend_find : (m : PageTables) (t i : ℕ) → descend false m t i ≡ (m, step_to m.tables t i)
unfolding descend
descend_find m t i = found (step_to m.tables t i)
  where
    found : (o : Option ℕ) → follow false m t i o ≡ (m, o)
    found none = refl
    found (some next) = refl

-- Without new tables the walk ends at the leaf table and changes nothing.
pub walk-leaf_of :
    (m : PageTables) (root va : ℕ)
    → walk false m root va ≡ (m, leaf_of m.tables root (vpn 2 va) (vpn 1 va))
unfolding walk
walk-leaf_of m root va =
    ap (λ r. descend_next false r (vpn 1 va)) (descend_find m root (vpn 2 va))
    ∙ next (step_to m.tables root (vpn 2 va))
  where
    next :
        (o : Option ℕ) → descend_next false (m, o) (vpn 1 va) ≡ (m, step_in m.tables o (vpn 1 va))
    next none = refl
    next (some t) = descend_find m t (vpn 1 va)

-- What a round of the walk gives: the same entries, the table that `Found` says if any, and one if a
-- page was left; it takes one page at most.
pub record Descent (root : ℕ) (m : PageTables) (Found : Tables → ℕ → Type 0)
    (r : PageTables × Option ℕ) : Type 0 where
  pub grown : Grown root m r.0
  pub found : (t : ℕ) → r.1 ≡ some t → Found r.0.tables t
  pub taken : length m.free ≤ length r.0.free + 1
  pub given : 0 < length m.free → (t : ℕ) × (r.1 ≡ some t)

descend_top :
    (own : ℕ → Place) (root : ℕ) (m : PageTables) (i : ℕ)
    → i < user_threshold
    → IsTree own root m
    → Descent root m (λ tb t. step_to tb root i ≡ some t) (descend true m root i)
unfolding grown
descend_top own root m i low tree = elim (Option-cases (step_to m.tables root i)) [
  | inr found ↦
      subst (Descent root m (λ tb t. step_to tb root i ≡ some t))
        (sym (descend-some true m root i found.0 found.1))
        (record {
          grown = Grown-refl own root m tree;
          found = λ t h. found.1 ∙ h;
          taken = omega arith;
          given = λ h. (found.0, refl);
        })
  | inl missing ↦
      subst (Descent root m (λ tb t. step_to tb root i ≡ some t))
        (sym (descend_new m root i missing)) (fresh m.tables m.free tree missing)
]
  where
    fresh :
        (tb : Tables) (free : List ℕ)
        → IsTree own root (record { tables = tb; free = free })
        → step_to tb root i ≡ none
        → Descent root
            (record { tables = tb; free = free })
            (λ tb t. step_to tb root i ≡ some t)
            (new_table tb free root i)
    fresh tb [] tree missing = record {
      grown = Grown-refl own root _ tree;
      found = λ t h. absurd (cc h);
      taken = omega arith;
      given = λ h. absurd (omega arith);
    }
    fresh tb (p ∷ free) tree missing =
        let spare = IsSpare-p own root tb p free tree in
        record {
          grown = Grown-top own root tb p free tree i low missing;
          found = λ t h.
              step_to_link tb p root i (p_ne_root own root tb p free tree i low missing) spare.1
                spare.2
              ∙ h;
          taken = omega arith;
          given = λ h. (p, refl);
        }

descend_middle :
    (own : ℕ → Place) (root : ℕ) (m : PageTables) (i t : ℕ) (j : ℕ)
    → i < user_threshold
    → IsTree own root m
    → step_to m.tables root i ≡ some t
    → Descent root m (λ tb u. leaf_of tb root i j ≡ some u) (descend true m t j)
unfolding grown
descend_middle own root m i t j low tree there = elim (Option-cases (step_to m.tables t j)) [
  | inr found ↦
      subst (Descent root m (λ tb u. leaf_of tb root i j ≡ some u))
        (sym (descend-some true m t j found.0 found.1))
        (record {
          grown = Grown-refl own root m tree;
          found = λ u h. ap (λ o. step_in m.tables o j) there ∙ found.1 ∙ h;
          taken = omega arith;
          given = λ h. (found.0, refl);
        })
  | inl missing ↦
      subst (Descent root m (λ tb u. leaf_of tb root i j ≡ some u))
        (sym (descend_new m t j missing)) (fresh m.tables m.free tree there missing)
]
  where
    fresh :
        (tb : Tables) (free : List ℕ)
        → IsTree own root (record { tables = tb; free = free })
        → step_to tb root i ≡ some t
        → step_to tb t j ≡ none
        → Descent root
            (record { tables = tb; free = free })
            (λ tb u. leaf_of tb root i j ≡ some u)
            (new_table tb free t j)
    fresh tb [] tree there missing = record {
      grown = Grown-refl own root _ tree;
      found = λ u h. absurd (cc h);
      taken = omega arith;
      given = λ h. absurd (omega arith);
    }
    fresh tb (p ∷ free) tree there missing = record {
      grown = Grown-middle own root tb p free tree i t low there j missing;
      found = λ u h. leaf_of_link own root tb p free tree i t low there j missing ∙ h;
      taken = omega arith;
      given = λ h. (p, refl);
    }

Grown-trans : (root : ℕ) (m n o : PageTables) → Grown root m n → Grown root n o → Grown root m o
Grown-trans root m n o g h = record {
  own = h.own;
  tree = h.tree;
  same = λ a b l la. h.same a b l la ∙ g.same a b l la;
  kernel = λ a high. h.kernel a high ∙ g.kernel a high;
}

-- A walk that may allocate keeps the tree and every entry, ends at the leaf table of the address if it
-- ends at one, and does so where the allocator has two pages.
pub record Walked (root : ℕ) (m : PageTables) (va : ℕ) (r : PageTables × Option ℕ) : Type 0 where
  pub grown : Grown root m r.0
  pub found : (t : ℕ) → r.1 ≡ some t → leaf_of r.0.tables root (vpn 2 va) (vpn 1 va) ≡ some t
  pub given : 1 < length m.free → (t : ℕ) × (r.1 ≡ some t)

pub walk-Walked :
    (own : ℕ → Place) (root : ℕ) (m : PageTables) (va : ℕ)
    → vpn 2 va < user_threshold
    → IsTree own root m
    → Walked root m va (walk true m root va)
unfolding walk
walk-Walked own root m va low tree =
    second (descend true m root (vpn 2 va)) (descend_top own root m (vpn 2 va) low tree)
  where
    second :
        (r : PageTables × Option ℕ)
        → Descent root m (λ tb t. step_to tb root (vpn 2 va) ≡ some t) r
        → Walked root m va (descend_next true r (vpn 1 va))
    second (n, none) d = record {
      grown = d.grown;
      found = λ t h. absurd (cc h);
      given = λ h. absurd (cc ((d.given (omega arith)).1));
    }
    second (n, some t) d =
        let e =
          descend_middle d.grown.own root n (vpn 2 va) t (vpn 1 va) low d.grown.tree
            (d.found t refl) in
        record {
          grown = Grown-trans root m n _ d.grown e.grown;
          found = e.found;
          given = λ h. e.given (omega (arith, d.taken));
        }
