-- ===== src/Mm/PageTable/Unmaps.antt =====
-- Unmapping in kernel/mm/vm/pmt.cpp, against the map from pages to entries.
use hobby_os.Prelude.{ℕ, ◌≡◌, if◌then◌else◌}
use hobby_os.Mm.PageTable.{PageTables, pte2pa, pte_valid}
use hobby_os.Mm.PageTable.Maps.{Entries, entry_at, with_entry, Maps}

abbrev pub without_entry : Entries → ℕ → Entries
without_entry f va = if pte_valid (entry_at f va) then with_entry f va 0 else f

-- What unmapping must give: the page's address and the map without the entry, or 0 and the map.
abbrev Unmapped : ℕ → Entries → ℕ → PageTables × ℕ → Type 0
Unmapped root f va r =
    (r.1 ≡ (if pte_valid (entry_at f va) then pte2pa (entry_at f va) else 0))
    × Maps root (without_entry f va) r.0
