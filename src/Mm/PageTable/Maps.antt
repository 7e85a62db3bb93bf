-- ===== src/Mm/PageTable/Maps.antt =====
-- kernel/mm/vm/pmt.cpp against the map from pages to entries that the tables stand for.
use hobby_os.Prelude.{
  ◌≤◌, ℕ, ◌%◌, ◌^◌, ◌≡◌, ◌<◌, refl, sym, ap, ◌∙◌, true, false, Option, none, some, length,
  if◌then◌else◌, ◌==◌, ◌&&◌,
}
use hobby_os.Mm.PageTable.{
  PageTables, walk, map_page, set_entry, make_pte, pte2pa, pte_valid, entry_in, vpn, write,
  user_threshold,
}
use hobby_os.Mm.PageTable.Entries.{pte_valid_zero}
use hobby_os.Mm.PageTable.Owners.{Place, entry, IsTree}
use hobby_os.Mm.PageTable.Writes.{put_entry, entry-write, write-IsTree, write-root}
use hobby_os.Mm.PageTable.Walks.{walk-Walked, Walked}
use hobby_os.Prelude.{All, Absent, Distinct, List, [], ◌∷◌, update, update_self, update_ne}
use hobby_os.Mm.PageTable.{Tables, step_to}
use hobby_os.Mm.PageTable.Owners.{unused, top, step_in, IsSpare}

-- A map from the three page numbers to an entry.
abbrev pub Entries : Type 0
Entries = ℕ → ℕ → ℕ → ℕ

abbrev pub entry_at : Entries → ℕ → ℕ
entry_at f va = f (vpn 2 va) (vpn 1 va) (vpn 0 va)

abbrev pub with_entry : Entries → ℕ → ℕ → Entries
with_entry f va pte = put_entry f (vpn 2 va) (vpn 1 va) (vpn 0 va) pte

-- The tables under the user's half of `root` are one tree whose leaf entries are `f`.
pub record Maps (root : ℕ) (f : Entries) (m : PageTables) : Type 0 where
  pub own : ℕ → Place
  pub tree : IsTree own root m
  pub entries : (a b l : ℕ) → a < user_threshold → entry m.tables root a b l ≡ f a b l

pub put_same :
    (f g : Entries) (i j k pte a b l : ℕ)
    → f a b l ≡ g a b l
    → put_entry f i j k pte a b l ≡ put_entry g i j k pte a b l
put_same f g i j k pte a b l h = ap (λ e. if i == a && j == b && k == l then pte else e) h

set_entry_free :
    (m : PageTables) (t k pte : ℕ)
    → pte_valid (m.tables t k) ≡ false
    → set_entry (m, some t) k pte ≡ some (record m { tables = write m.tables t k pte }, true)
set_entry_free m t k pte h = rw h

-- A page that is not mapped is mapped, where the allocator has two pages for tables: its entry is set
-- and all others stay, with the kernel's half of the root.
pub map_page-Maps :
    (root : ℕ) (f : Entries) (m : PageTables) (va pa flags : ℕ)
    → vpn 2 va < user_threshold
    → Maps root f m
    → pte_valid (entry_at f va) ≡ false
    → 1 < length m.free
    → (m' : PageTables) × (map_page m root va pa flags ≡ some (m', true))
      × Maps root (with_entry f va (make_pte pa flags)) m'
      × ((a : ℕ) → user_threshold ≤ a → m'.tables root a ≡ m.tables root a)
unfolding map_page
map_page-Maps root f m va pa flags low h free room =
    second (walk true m root va) (walk-Walked h.own root m va low h.tree)
  where
    second :
        (r : PageTables × Option ℕ)
        → Walked root m va r
        → (m' : PageTables) × (set_entry r (vpn 0 va) (make_pte pa flags) ≡ some (m', true))
          × Maps root (with_entry f va (make_pte pa flags)) m'
          × ((a : ℕ) → user_threshold ≤ a → m'.tables root a ≡ m.tables root a)
    second (n, none) w = absurd (cc ((w.given room).1))
    second (n, some t) w =
        let there = w.found t refl in
        let own = w.grown.own in
        let tree = w.grown.tree in
        let empty : pte_valid (n.tables t (vpn 0 va)) ≡ false =
          ap pte_valid (
            sym (ap (λ o. entry_in n.tables o (vpn 0 va)) there)
            ∙ w.grown.same (vpn 2 va) (vpn 1 va) (vpn 0 va) low
            ∙ h.entries (vpn 2 va) (vpn 1 va) (vpn 0 va) low)
          ∙ free in
        (
          record n { tables = write n.tables t (vpn 0 va) (make_pte pa flags) },
          set_entry_free n t (vpn 0 va) (make_pte pa flags) empty,
          record {
            own = own;
            tree =
                write-IsTree own root n tree (vpn 2 va) (vpn 1 va) t low there (vpn 0 va)
                  (make_pte pa flags);
            entries = λ a b l la.
                entry-write own root n tree (vpn 2 va) (vpn 1 va) t low there (vpn 0 va)
                  (make_pte pa flags) a b l la
                ∙ put_same (entry n.tables root) f (vpn 2 va) (vpn 1 va) (vpn 0 va)
                    (make_pte pa flags) a b l (w.grown.same a b l la ∙ h.entries a b l la);
          },
          λ a high.
              write-root own root n tree (vpn 2 va) (vpn 1 va) t low there (vpn 0 va)
                (make_pte pa flags) a
              ∙ w.grown.kernel a high,
        )

-- A page that is mapped already is refused by a panic.
pub map_page_panics :
    (root : ℕ) (f : Entries) (m : PageTables) (va pa flags : ℕ)
    → vpn 2 va < user_threshold
    → Maps root f m
    → pte_valid (entry_at f va) ≡ true
    → 1 < length m.free
    → map_page m root va pa flags ≡ none
unfolding map_page
map_page_panics root f m va pa flags low h mapped room =
    second (walk true m root va) (walk-Walked h.own root m va low h.tree)
  where
    second :
        (r : PageTables × Option ℕ)
        → Walked root m va r
        → set_entry r (vpn 0 va) (make_pte pa flags) ≡ none
    second (n, none) w = absurd (cc ((w.given room).1))
    second (n, some t) w =
        let full : pte_valid (n.tables t (vpn 0 va)) ≡ true =
          ap pte_valid (
            sym (ap (λ o. entry_in n.tables o (vpn 0 va)) (w.found t refl))
            ∙ w.grown.same (vpn 2 va) (vpn 1 va) (vpn 0 va) low
            ∙ h.entries (vpn 2 va) (vpn 1 va) (vpn 0 va) low)
          ∙ mapped in
        rw full

-- A root whose user's half is empty has no entries there.
pub new_root-Maps :
    (tb : Tables) (root : ℕ) (free : List ℕ)
    → ((i : ℕ) → i < user_threshold → tb root i ≡ 0)
    → All (λ p. (p % 4096 ≡ 0) × (p < 2 ^ 56)) free
    → Distinct (root ∷ free)
    → Maps root (λ a b l. 0) (record { tables = tb; free = free })
new_root-Maps tb root free empty good apart = record {
  own = own;
  tree = record {
    root_is_top = update_self (λ p. unused) root top;
    middles = λ i t low h. absurd (cc (sym (no_table i low) ∙ h));
    leaves = λ i j t low h. absurd (cc (sym (ap (λ o. step_in tb o j) (no_table i low)) ∙ h));
    spare = all_spare free good apart.0;
    apart = apart.1;
  };
  entries = λ a b l low. ap (λ o. entry_in tb o l) (ap (λ o. step_in tb o b) (no_table a low));
}
  where
    own : ℕ → Place
    own = update (λ p. unused) root top

    no_table : (i : ℕ) → i < user_threshold → step_to tb root i ≡ none
    no_table i low =
        ap (λ pte. if pte_valid pte then some (pte2pa pte) else none) (empty i low)
        ∙ rw pte_valid_zero

    all_spare :
        (free : List ℕ)
        → All (λ p. (p % 4096 ≡ 0) × (p < 2 ^ 56)) free
        → Absent root free
        → All (IsSpare own) free
    all_spare [] good away = tt
    all_spare (p ∷ free) good away = (
      (update_ne (λ p. unused) root top p (λ e. away.0 (sym e)), good.0.0, good.0.1),
      all_spare free good.1 away.1,
    )
