-- ===== src/Mm/PageTable/Owners.antt =====
-- Whose page is whose in the tables of kernel/mm/vm/pmt.cpp: each table is reached by one path, and
-- the pages that the allocator will give are no tables yet.
use hobby_os.Prelude.{
  ℕ, ◌%◌, ◌^◌, ◌<◌, ◌≡◌, ◌≢◌, sym, ap, ◌∙◌, Option, none, some, List, [], ◌∷◌, All, Absent,
  Distinct, update, update_ne,
}
use hobby_os.Mm.PageTable.{user_threshold, Tables, PageTables, step_to, entry_in}

pub data Place : Type 0 where
  unused : Place
  top : Place
  middle : ℕ → Place
  leaf : ℕ → ℕ → Place

abbrev pub step_in : Tables → Option ℕ → ℕ → Option ℕ
step_in tables none i = none
step_in tables (some t) i = step_to tables t i

-- The leaf table, and the entry, for the page numbers of the three levels.
abbrev pub leaf_of : Tables → ℕ → ℕ → ℕ → Option ℕ
leaf_of tables root i j = step_in tables (step_to tables root i) j

abbrev pub entry : Tables → ℕ → ℕ → ℕ → ℕ → ℕ
entry tables root i j k = entry_in tables (leaf_of tables root i j) k

-- A page that the allocator may give: not a table, aligned, and an address of the machine.
abbrev pub IsSpare : (ℕ → Place) → ℕ → Type 0
IsSpare own p = (own p ≡ unused) × (p % 4096 ≡ 0) × (p < 2 ^ 56)

-- The pages reached from the user's half of `root` are the tables of one tree, by their owners. The
-- kernel's half is free: every root has the same superpages there.
pub record IsTree (own : ℕ → Place) (root : ℕ) (m : PageTables) : Type 0 where
  pub root_is_top : own root ≡ top
  pub middles : (i t : ℕ) → i < user_threshold → step_to m.tables root i ≡ some t → own t ≡ middle i
  pub leaves :
      (i j t : ℕ) → i < user_threshold → leaf_of m.tables root i j ≡ some t → own t ≡ leaf i j
  pub spare : All (IsSpare own) m.free
  pub apart : Distinct m.free

pub other_page : (own : ℕ → Place) (p q : ℕ) {a b : Place} → own p ≡ a → own q ≡ b → a ≢ b → p ≢ q
other_page own p q h g ne e = ne (sym h ∙ ap own e ∙ g)

-- Another page's owner may be set without touching the spare pages.
pub All-IsSpare :
    (own : ℕ → Place) (p : ℕ) (o : Place) (free : List ℕ)
    → Absent p free
    → All (IsSpare own) free
    → All (IsSpare (update own p o)) free
All-IsSpare own p o [] away h = tt
All-IsSpare own p o (q ∷ free) away h = (
  (update_ne own p o q (λ e. away.0 (sym e)) ∙ h.0.0, h.0.1, h.0.2),
  All-IsSpare own p o free away.1 h.1,
)
