-- ===== src/Mm/Mmap/Maps.antt =====
-- What `map` and `unmap` of kernel/mm/vm/mmap.cpp promise on what backs the addresses.
use hobby_os.Prelude.{
  ℕ, ◌+◌, ◌-◌, ◌%◌, ◌<◌, true, false, none, List, [], pos, ◌==◌, if◌then◌else◌, add64, sub64, word,
  ◌≡◌, refl, arith, bit_and-page,
}
use hobby_os.Mm.Mmap.{
  MmapRegion, Mmap, Request, Effect, flag, unmap, unmap_from, page_size, page_round_up,
}
use hobby_os.Mm.Mmap.Regions.{Page, backing, InOrder}
use hobby_os.Mm.Mmap.Effects.{lost, met, unmap_from-lost}
use hobby_os.Mm.Mmap.Unmaps.{Fits, taken, unmap_from-InOrder, unmap_from-backing}

-- A length that is not 0 and leaves room for rounding.
page_round_up-le :
    (n : ℕ)
    → n + page_size < word
    → page_round_up n ≡ n + (page_size - 1) - (n + (page_size - 1)) % page_size
page_round_up-le n h =
    let same : add64 n (page_size - 1) ≡ n + (page_size - 1) = omega arith in
    rw same (bit_and-page (n + (page_size - 1)) (omega arith))

unmap_done :
    (rs : List MmapRegion) (refs : ℕ → ℕ) (addr length : ℕ)
    → 0 < length
    → addr % page_size ≡ 0
    → unmap rs refs addr length
      ≡ (pos 0, unmap_from addr (add64 addr (page_round_up length)) rs refs)
unfolding unmap
unmap_done rs refs addr length some_length aligned =
    let tested : (length == 0) ≡ false = ground arith in
    let on_page : (addr % page_size == 0) ≡ true = ground arith in rw (tested, on_page)

-- On regions in order that end in the address space, `unmap` of a page-aligned address and a length
-- that is not 0, with a page of room before the addresses wrap, returns 0 and leaves the regions in
-- order: no address of the length rounded up to pages is in a region any more, and the others are in
-- regions with the same rights, file and file offset as before. The pages that it takes out of the
-- page table are those of every region that meets the range, in whole, so that also addresses outside
-- of the range, which stay in a region, are left without a page.
pub unmap-backing :
    (rs : List MmapRegion) (refs : ℕ → ℕ) (addr length : ℕ)
    → InOrder 0 rs
    → Fits rs
    → 0 < length
    → addr % page_size ≡ 0
    → addr + length + page_size < word
    → ((unmap rs refs addr length).0 ≡ pos 0)
      × (InOrder 0 (unmap rs refs addr length).1.0
          × ((va : ℕ)
              → backing (unmap rs refs addr length).1.0 va
                ≡ (if taken addr (addr + page_round_up length) va then none else backing rs va))
          × ((va : ℕ)
              → lost (unmap rs refs addr length).1.1.1 va
                ≡ met rs addr (addr + page_round_up length) va))
unmap-backing rs refs addr length h fits some_length aligned small =
    let done = unmap_done rs refs addr length some_length aligned in
    let rounded = page_round_up-le length (omega arith) in
    let stop : add64 addr (page_round_up length) ≡ addr + page_round_up length = omega arith in
    let some_range : addr < addr + page_round_up length = omega arith in
    rw (done, stop)
      (
        refl,
        (
          unmap_from-InOrder 0 addr (addr + page_round_up length) rs refs h some_range,
          unmap_from-backing 0 addr (addr + page_round_up length) rs refs h fits some_range,
          λ va. unmap_from-lost 0 addr (addr + page_round_up length) rs refs va h,
        ),
      )

-- The page that a mapping puts at an address.
abbrev pub new_page : Request → ℕ → ℕ → Page
new_page q va w = record {
  prot = q.prot;
  flags = q.flags;
  fd = q.fd;
  offset = add64 q.offset (sub64 w va);
  shared = flag q 1;
}

-- The regions that `map` puts its own into, and what became of the pages of the others.
abbrev cut_for : Mmap → Request → ℕ → List MmapRegion × ((ℕ → ℕ) × List Effect)
cut_for m q va =
    if flag q 0x10
    then (unmap m.regions m.refs va (page_round_up q.length)).1
    else (m.regions, (m.refs, []))
