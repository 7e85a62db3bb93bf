-- ===== src/Mm/PageTable.antt =====
-- kernel/mm/vm/pmt.h and pmt.cpp: the three levels of page tables of Sv39.
-- Tables are named by their physical pages: a virtual address is the physical one plus a constant,
-- both ways. `free` is what the page allocator hands out next, and null pointers after it.
use hobby_os.Prelude.{
  ℕ, zero, suc, ◌+◌, ◌*◌, ◌/◌, ◌%◌, ◌^◌, Bool, true, false, not, ◌||◌, Option, none, some, List, [],
  ◌∷◌, ◌==◌, if◌then◌else◌, update, bit_or, ◌-◌, mul64, add64, bit_and, ltb,
}
pub mod Entries
pub mod Owners
pub mod Growth
pub mod Tops
pub mod Middles
pub mod Writes
pub mod Walks
pub mod Maps
pub mod Reads
pub mod Unmaps
pub mod Roots

abbrev pub Tables : Type 0
Tables = ℕ → ℕ → ℕ

pub record PageTables : Type 0 where
  pub tables : Tables
  pub free : List ℕ

abbrev pub page_v : ℕ
page_v = 1

abbrev pub page_size : ℕ
page_size = 4096

abbrev pub pmt_size : ℕ
pmt_size = 512

-- The entries of a root below it are the user's.
abbrev pub user_threshold : ℕ
user_threshold = 256

unfoldable pub make_pte : ℕ → ℕ → ℕ
make_pte phys flags = bit_or (phys / 2 ^ 12 * 2 ^ 10) flags

unfoldable pub pte2pa : ℕ → ℕ
pte2pa pte = mul64 (pte / 2 ^ 10) (2 ^ 12)

unfoldable pub pte_valid : ℕ → Bool
pte_valid pte = not (bit_and pte page_v == 0)

-- `(va >> (VPN_SHIFT + level * VPN_WIDTH)) & VPN_MASK`
unfoldable pub vpn : ℕ → ℕ → ℕ
vpn level va = va / 2 ^ (12 + level * 9) % 512

abbrev pub write : Tables → ℕ → ℕ → ℕ → Tables
write tables t i pte = update tables t (update (tables t) i pte)

-- `new PMT()` at the page `p`: all its entries are 0.
abbrev pub zeroed : Tables → ℕ → Tables
zeroed tables p = update tables p (λ i. 0)

-- The loop of `createPMT` from the entry `i` on, with `n` rounds left; `boot` is `s_bootPmt`.
unfoldable pub copy_entries : Tables → ℕ → (ℕ → ℕ) → ℕ → ℕ → Tables
copy_entries tables p boot i zero = tables
copy_entries tables p boot i (suc n) = copy_entries (write tables p i (boot i)) p boot (i + 1) n

abbrev pub create_in : Tables → List ℕ → (ℕ → ℕ) → PageTables × Option ℕ
create_in tables [] boot = (record { tables = tables; free = [] }, none)
create_in tables (p ∷ free) boot = (
  record {
    tables = copy_entries (zeroed tables p) p boot user_threshold (pmt_size - user_threshold);
    free = free;
  },
  some p,
)

unfoldable pub create_pmt : PageTables → (ℕ → ℕ) → PageTables × Option ℕ
create_pmt m boot = create_in m.tables m.free boot

-- The table that an entry leads to.
abbrev pub step_to : Tables → ℕ → ℕ → Option ℕ
step_to tables t i = if pte_valid (tables t i) then some (pte2pa (tables t i)) else none

abbrev pub new_table : Tables → List ℕ → ℕ → ℕ → PageTables × Option ℕ
new_table tables [] t i = (record { tables = tables; free = [] }, none)
new_table tables (p ∷ free) t i =
    (record { tables = write (zeroed tables p) t i (make_pte p page_v); free = free }, some p)

-- A round of the loop of `walk`, with what the slot leads to.
abbrev pub follow : Bool → PageTables → ℕ → ℕ → Option ℕ → PageTables × Option ℕ
follow alloc m t i (some next) = (m, some next)
follow true m t i none = new_table m.tables m.free t i
follow false m t i none = (m, none)

unfoldable pub descend : Bool → PageTables → ℕ → ℕ → PageTables × Option ℕ
descend alloc m t i = follow alloc m t i (step_to m.tables t i)

-- The next round, unless the last one returned null.
abbrev pub descend_next : Bool → PageTables × Option ℕ → ℕ → PageTables × Option ℕ
descend_next alloc (m, none) i = (m, none)
descend_next alloc (m, some t) i = descend alloc m t i

-- The leaf table of an address: the entry is that at `vpn 0 va`.
unfoldable pub walk : Bool → PageTables → ℕ → ℕ → PageTables × Option ℕ
walk alloc m root va = descend_next alloc (descend alloc m root (vpn 2 va)) (vpn 1 va)

-- The outer `none` is the panic on a page that is mapped already.
abbrev pub set_entry : PageTables × Option ℕ → ℕ → ℕ → Option (PageTables × Bool)
set_entry (m, none) i pte = some (m, false)
set_entry (m, some t) i pte =
    if pte_valid (m.tables t i)
    then none
    else some (record m { tables = write m.tables t i pte }, true)

unfoldable pub map_page : PageTables → ℕ → ℕ → ℕ → ℕ → Option (PageTables × Bool)
map_page m root va pa flags = set_entry (walk true m root va) (vpn 0 va) (make_pte pa flags)

-- The rounds from `i` on.
unfoldable pub map_from : PageTables → ℕ → ℕ → ℕ → ℕ → ℕ → ℕ → Option (PageTables × Bool)
map_from m root va pa flags i zero = some (m, true)
map_from m root va pa flags i (suc rounds) =
    elim (map_page m root (add64 va (mul64 i page_size)) (add64 pa (mul64 i page_size)) flags) [
      | none ↦ none
      | some (m', ok) ↦ if ok then map_from m' root va pa flags (i + 1) rounds else some (m', false)
    ]

unfoldable pub map_pages : PageTables → ℕ → ℕ → ℕ → ℕ → ℕ → Option (PageTables × Bool)
map_pages m root va pa count flags = map_from m root va pa flags 0 count

-- The entry that a walk without allocation ends at, and 0 for a null pointer.
abbrev pub entry_in : Tables → Option ℕ → ℕ → ℕ
entry_in tables none i = 0
entry_in tables (some t) i = tables t i

abbrev pub clear_entry : PageTables → Option ℕ → ℕ → PageTables × ℕ
clear_entry m none i = (m, 0)
clear_entry m (some t) i =
    if pte_valid (m.tables t i)
    then (record m { tables = write m.tables t i 0 }, pte2pa (m.tables t i))
    else (m, 0)

unfoldable pub unmap_page : PageTables → ℕ → ℕ → PageTables × ℕ
unmap_page m root va = clear_entry m (walk false m root va).1 (vpn 0 va)

unfoldable pub translate : PageTables → ℕ → ℕ → ℕ
translate m root va =
    let pte = entry_in m.tables (walk false m root va).1 (vpn 0 va) in
    if pte_valid pte then add64 (pte2pa pte) (bit_and va (page_size - 1)) else 0

unfoldable pub get_flags : PageTables → ℕ → ℕ → ℕ
get_flags m root va =
    let pte = entry_in m.tables (walk false m root va).1 (vpn 0 va) in
    if pte_valid pte then bit_and pte 0x3ff else 0

-- `unmapPages`: the first page's address, or 0 where a page was not mapped.
unfoldable pub unmap_from : PageTables → ℕ → ℕ → ℕ → ℕ → ℕ → PageTables × ℕ
unmap_from m root va i zero first = (m, first)
unmap_from m root va i (suc rounds) first =
    let (m', pa) = unmap_page m root (add64 va (mul64 i page_size)) in
    if pa == 0 then (m', 0) else unmap_from m' root va (i + 1) rounds first

unfoldable pub unmap_pages : PageTables → ℕ → ℕ → ℕ → PageTables × ℕ
unmap_pages m root va count =
    let (m', first) = unmap_page m root va in
    if first == 0 then (m', 0) else unmap_from m' root va 1 (count - 1) first
