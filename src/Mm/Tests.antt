-- ===== src/Mm/Tests.antt =====
-- The theorems on memory, each applied to a small address space.
use hobby_os.Prelude.{
  ℕ, ◌≡◌, ◌↔◌, refl, Bool, true, false, none, some, [], ◌∷◌, ◌+◌, ◌*◌, if◌then◌else◌, pos, negsuc,
  arith,
}
use hobby_os.Mm.PageRef.{Buckets, init, find_in, inc_ref, dec_ref, get_ref}
use hobby_os.Mm.PageRef as PageRef
use hobby_os.Mm.PageRef.Owners.{IsTable, init-IsTable, inc_ref-IsTable, LetGo, dec_ref-LetGo}
use hobby_os.Mm.Segment.{SegType, SegmentDesc, SegmentTable, empty_table, find, check_operation}
use hobby_os.Mm.Segment.Lookup.{Allowed, check_operation_sound, check_operation_complete}
use hobby_os.Mm.Kalloc.{entry, kmalloc}
use hobby_os.Mm.Kalloc.Classes.{Serves, kmalloc-Serves}
use hobby_os.Mm.Slab.{Slab, load32, free_end, get_slot, free_slot}
use hobby_os.Mm.Slab.FreeList.{Slots, get_slot-Slots, free_slot-Slots}
use hobby_os.Prelude.{◌≤◌, ltb, ◌==◌}
use hobby_os.Mm.Ranges.{check_range}
use hobby_os.Mm.Mmap.{MmapRegion, Mmap, Request, unmap, alloc_va, page_round_up, page_size}
use hobby_os.Mm.Mmap.Regions.{backing, InOrder}
use hobby_os.Mm.Mmap.Unmaps.{taken}
use hobby_os.Mm.Mmap.Places.{Allocated, alloc_va-Allocated}
use hobby_os.Mm.Mmap.Effects.{lost, met}
use hobby_os.Mm.Mmap.Maps.{unmap-backing}
use mathlib.Core.Path.{subst}
use hobby_os.Prelude.{Option, sym, ap, inl, inr, ◌%◌, List, update, ℤ}
use hobby_os.Mm.Mem.{Memory, memcpy, strcmp, strncpy}
use hobby_os.Mm.Mem.Blocks.{memcpy_lem}
use hobby_os.Mm.Mem.Texts.{strcmp_lem, strncpy_lem}
use hobby_os.Mm.PageTable.{
  PageTables, user_threshold, zeroed, copy_entries, create_pmt, pte_valid, map_page, translate,
  get_flags,
}
use hobby_os.Mm.PageTable.Entries.{pte_valid_zero}
use hobby_os.Mm.PageTable.Maps.{Maps}
use hobby_os.Mm.PageTable.Roots.{create_pmt-Maps}
use hobby_os.Mm.PageTable.Reads.{translate-map_page}

-- A block of one page with two slots, both free, and with both taken.
abbrev two_slots : Slab
two_slots = record {
  free = 0;
  free_slots = 2;
  max_slots = 2;
  start = 4096;
  obj_size = 2048;
  slab_size = 4096;
  memory = λ a. if a == 4096 then 1 else if ltb a 6144 then 0 else 255;
}

two_slots-Slots : Slots two_slots (0 ∷ 1 ∷ []) []
unfolding load32
two_slots-Slots = record {
  chain = (refl, (refl, refl));
  count = refl;
  total = refl;
  free_once = ((omega arith, tt), (tt, tt));
  taken_once = tt;
  apart = (tt, (tt, tt));
  free_below = (omega arith, (omega arith, tt));
  taken_below = tt;
  fits = record { wide = omega arith; fits = omega arith; few = omega arith };
}

all_taken-Slots : Slots (record two_slots { free = free_end; free_slots = 0 }) [] (1 ∷ 0 ∷ [])
all_taken-Slots = record {
  chain = refl;
  count = refl;
  total = refl;
  free_once = tt;
  taken_once = ((omega arith, tt), (tt, tt));
  apart = tt;
  free_below = tt;
  taken_below = (omega arith, (omega arith, tt));
  fits = record { wide = omega arith; fits = omega arith; few = omega arith };
}

get_slot-Slots_example :
    (s' : Slab) × (get_slot two_slots ≡ (some 4096, s'))
    × (2048 ≤ 4096)
    × Slots s' (1 ∷ []) (0 ∷ [])
get_slot-Slots_example = get_slot-Slots two_slots 0 (1 ∷ []) [] two_slots-Slots

free_slot-Slots_example :
    (s' : Slab) × (free_slot (record two_slots { free = free_end; free_slots = 0 }) 4096 ≡ some s')
    × Slots s' (0 ∷ []) (1 ∷ [])
free_slot-Slots_example =
    free_slot-Slots (record two_slots { free = free_end; free_slots = 0 }) 0 [] (1 ∷ []) []
      all_taken-Slots

one_page-IsTable : IsTable (inc_ref init 0x5000)
unfolding get_ref init PageRef.find find_in
one_page-IsTable = inc_ref-IsTable init 0x5000 init-IsTable (omega arith)

dec_ref-LetGo_example : LetGo (inc_ref init 0x5000) 0x5000 (dec_ref (inc_ref init 0x5000) 0x5000)
dec_ref-LetGo_example = dec_ref-LetGo (inc_ref init 0x5000) 0x5000 one_page-IsTable

-- A readable segment and a writable one behind it.
abbrev segment : SegType → ℕ → ℕ → ℕ → SegmentDesc
segment kind flags start stop = record { kind = kind; flags = flags; start = start; stop = stop }

abbrev segments : SegmentTable
segments = record empty_table {
  text = some (segment SegType.text 5 0x1000 0x3000);
  data_seg = some (segment SegType.data_seg 7 0x3000 0x4000);
}

check_operation_sound_example : Allowed segments 1 0x3000
unfolding check_operation check_range find
check_operation_sound_example =
    check_operation_sound segments 0x2000 0x3800 1 refl 0x3000 (omega arith) (omega arith)

check_operation_complete_example : check_operation segments 0x1000 0x3000 1 ≡ some true
unfolding find
check_operation_complete_example =
    check_operation_complete segments 0x1000 0x3000 1
      λ va lo hi. (segment SegType.text 5 0x1000 0x3000, ground arith, λ e. omega arith)

-- One region of two pages, private, of file 3.
abbrev region : MmapRegion
region = record {
  va_start = 0x2000001000;
  va_end = 0x2000003000;
  prot = 3;
  flags = 2;
  fd = pos 3;
  file_offset = 0;
  shared = false;
  shared_ref = none;
}

regions-InOrder : InOrder 0 (region ∷ [])
unfolding InOrder
regions-InOrder = ((omega arith, omega arith), tt)

unmap-backing_example :
    ((unmap (region ∷ []) (λ _. 0) 0x2000002000 100).0 ≡ pos 0)
    × (InOrder 0 (unmap (region ∷ []) (λ _. 0) 0x2000002000 100).1.0
        × ((va : ℕ)
            → backing (unmap (region ∷ []) (λ _. 0) 0x2000002000 100).1.0 va ≡ (
                if taken 0x2000002000 (0x2000002000 + page_round_up 100) va
                then none
                else backing (region ∷ []) va))
        × ((va : ℕ)
            → lost (unmap (region ∷ []) (λ _. 0) 0x2000002000 100).1.1.1 va
              ≡ met (region ∷ []) 0x2000002000 (0x2000002000 + page_round_up 100) va))
unmap-backing_example =
    unmap-backing (region ∷ []) (λ _. 0) 0x2000002000 100 regions-InOrder (omega arith, tt)
      (omega arith) (omega arith) (omega arith)

abbrev space : Mmap
space = record { regions = region ∷ []; refs = λ _. 0; next_hint = 0x3F00000000 }

-- A page at a fixed place, over the first page of the region.
abbrev request : Request
request = record {
  hint = 0x2000001000;
  length = 100;
  prot = 1;
  flags = 0x32;
  fd = negsuc 0;
  offset = 0;
}

alloc_va-Allocated_example :
    (r : ℕ × ℕ) × ((alloc_va 0x4000000 (region ∷ []) 0x3F00000000 0x2000002000 2 false ≡ some r)
      × Allocated (region ∷ []) (2 * page_size) false r)
alloc_va-Allocated_example =
    alloc_va-Allocated 0x4000000 (region ∷ []) 0x3F00000000 0x2000002000 2 false regions-InOrder
      (omega arith) (omega arith) (omega arith) (omega arith) (omega arith)

kmalloc-Serves_example : (i : ℕ) × ((kmalloc 100 ≡ entry i) × Serves 100 i)
kmalloc-Serves_example = kmalloc-Serves 100 (omega arith) (omega arith)

-- A page of bytes whose values are their addresses.
abbrev counting : Memory
counting p = p % 256

memcpy_lem_example : memcpy counting 10 12 6 11 ≡ 13
memcpy_lem_example = memcpy_lem counting 10 12 6 11 (inl (omega arith))

-- The texts "a" at 100 and "ab" at 200.
abbrev two_texts : Memory
two_texts = update (update (update (λ p. 0) 100 97) 200 97) 201 98

abbrev text_a : List ℕ
text_a = 97 ∷ []

abbrev text_ab : List ℕ
text_ab = 97 ∷ 98 ∷ []

strcmp_lem_example :
    (d : ℤ) × (strcmp 2 two_texts 100 200 ≡ some d) × ((d ≡ pos 0) ↔ (text_a ≡ text_ab))
strcmp_lem_example =
    strcmp_lem 2 two_texts 100 200 text_a text_ab (refl, omega arith, refl)
      (refl, omega arith, (refl, omega arith, refl)) (omega arith)

strncpy_lem_example : strncpy two_texts 300 200 4 302 ≡ 0
strncpy_lem_example =
    strncpy_lem two_texts 300 200 4 302 (97 ∷ 98 ∷ [])
      (refl, omega arith, (refl, omega arith, refl)) (inr (omega arith))

-- The boot table's superpages for the physical memory and the devices, both from address 0.
abbrev boot : ℕ → ℕ
boot i = if i == 256 then 0xC7 else if i == 320 then 0xC7 else 0

-- A root that `createPMT` made at page 16, with three pages left to give.
abbrev new_root : PageTables
new_root = record {
  tables = copy_entries (zeroed (λ p i. 0) 0x10000) 0x10000 boot 256 256;
  free = 0x11000 ∷ 0x12000 ∷ 0x13000 ∷ [];
}

new_root_first-Maps : Maps 0x10000 (λ a b l. 0) new_root
unfolding create_pmt
new_root_first-Maps =
    let (m', run, maps, kernel) =
      create_pmt-Maps (λ p i. 0) boot 0x10000 (0x11000 ∷ 0x12000 ∷ 0x13000 ∷ [])
        ((omega arith, omega arith), ((omega arith, omega arith), ((omega arith, omega arith), tt)))
        (
          (omega arith, (omega arith, (omega arith, tt))),
          ((omega arith, (omega arith, tt)), ((omega arith, tt), (tt, tt))),
        ) in
    subst (Maps 0x10000 (λ a b l. 0)) (sym (ap (λ (r : PageTables × Option ℕ). r.0) run)) maps

pte_valid_user : pte_valid 0x17 ≡ true
unfolding pte_valid
pte_valid_user = refl

translate-map_page_example :
    (m' : PageTables) × (map_page new_root 0x10000 0x400000 0x80005000 0x17 ≡ some (m', true))
    × (translate m' 0x10000 0x400123 ≡ 0x80005123)
    × (get_flags m' 0x10000 0x400123 ≡ 0x17)
    × ((a : ℕ) → user_threshold ≤ a → m'.tables 0x10000 a ≡ new_root.tables 0x10000 a)
translate-map_page_example =
    translate-map_page 0x10000 (λ a b l. 0) new_root 0x400000 0x400123 0x80005000 0x17 (omega arith)
      (omega arith) new_root_first-Maps pte_valid_zero (omega arith) (omega arith) (omega arith)
      (omega arith) pte_valid_user

abbrev tables_of : Option (PageTables × Bool) → PageTables
tables_of none = new_root
tables_of (some (m, ok)) = m

-- The tables with one page mapped.
abbrev one_page : PageTables
one_page = tables_of (map_page new_root 0x10000 0x400000 0x80005000 0x17)
