-- ===== src/Mm/Mmap.antt =====
-- kernel/mm/vm/mmap.cpp and mmap.h: the mapped regions of an address space, a list in the order of
-- their addresses. Addresses are words. The page table and the page allocator are arguments, by what
-- they answer; what is done to the pages of a region is an Effect. `shared_ref` is an address, and
-- `refs` the counts at these addresses.
pub mod Regions
pub mod Places
pub mod Unmaps
pub mod Effects
pub mod Maps
use hobby_os.Prelude.{
  ℕ, zero, suc, ◌+◌, ◌-◌, ◌*◌, ◌/◌, ◌%◌, Bool, true, false, not, ◌&&◌, ◌||◌, Option, none, some,
  List, [], ◌∷◌, ◌++◌, ℤ, pos, negsuc, ltb, leb, ◌==◌, if◌then◌else◌, add64, sub64, mul64, sub32,
  update, bit_and, bit_or, complement, word,
}
use hobby_os.Mm.Ranges.{check_range}

abbrev pub page_size : ℕ
page_size = 4096

abbrev pub page_round_down : ℕ → ℕ
page_round_down a = bit_and a (complement 64 (page_size - 1))

-- `addr + PAGE_SIZE - 1`, rounded down.
abbrev pub page_round_up : ℕ → ℕ
page_round_up a = page_round_down (add64 a (page_size - 1))

abbrev pub mmap_top : ℕ
mmap_top = 0x3F00000000

abbrev pub mmap_base : ℕ
mmap_base = 0x2000000000

abbrev pub mmap_failed : ℕ
mmap_failed = word - 1

pub record MmapRegion : Type 0 where
  pub va_start : ℕ
  pub va_end : ℕ
  pub prot : ℕ
  pub flags : ℕ
  pub fd : ℤ
  pub file_offset : ℕ
  pub shared : Bool
  pub shared_ref : Option ℕ

abbrev pub holds : MmapRegion → ℕ → Bool
holds r va = leb r.va_start va && ltb va r.va_end

unfoldable pub find : List MmapRegion → ℕ → Option MmapRegion
find [] va = none
find (r ∷ rs) va = let rest = find rs va in if holds r va then some r else rest

abbrev pub free_until : List MmapRegion → ℕ → ℕ → Bool
free_until [] addr stop = true
free_until (r ∷ rs) addr stop =
    let rest = free_until rs addr stop in
    if leb stop r.va_start then true else if ltb addr r.va_end then false else rest

unfoldable pub is_free : List MmapRegion → ℕ → ℕ → Bool
is_free rs addr len = free_until rs addr (add64 addr len)

unfoldable pub insert_region : MmapRegion → List MmapRegion → List MmapRegion
insert_region r [] = r ∷ []
insert_region r (cur ∷ rs) =
    let rest = insert_region r rs in
    if ltb cur.va_start r.va_start then cur ∷ rest else r ∷ cur ∷ rs

-- The `for (;;)` of `allocVA`, and the hint that it leaves. The outer `none` is fuel run out.
abbrev pub search_down : List MmapRegion → ℕ → ℕ → ℕ → ℕ → Option (ℕ × ℕ)
search_down rs len hint candidate zero = none
search_down rs len hint candidate (suc fuel) =
    let lower = search_down rs len hint (candidate - page_size) fuel in
    if ltb candidate mmap_base
    then some (mmap_failed, hint)
    else if is_free rs candidate len
    then some (candidate, candidate)
    else if ltb candidate page_size
    then some (mmap_failed, hint)
    else lower

abbrev pub hint_fits : List MmapRegion → ℕ → ℕ → Bool
hint_fits rs hint len =
    not (hint == 0)
    && (hint % page_size == 0)
    && leb mmap_base hint
    && leb (add64 hint len) mmap_top
    && is_free rs hint len

abbrev pub fixed_fits : ℕ → ℕ → Bool
fixed_fits hint len =
    not (hint == 0)
    && (hint % page_size == 0)
    && not (ltb hint mmap_base || ltb mmap_top (add64 hint len))

-- `allocVA`: the address, or MMAP_FAILED, and the hint that it leaves.
unfoldable pub alloc_va : ℕ → List MmapRegion → ℕ → ℕ → ℕ → Bool → Option (ℕ × ℕ)
alloc_va fuel rs next_hint hint pages fixed =
    let len = mul64 pages page_size in
    if fixed
    then some (if fixed_fits hint len then hint else mmap_failed, next_hint)
    else if hint_fits rs hint len
    then some (hint, next_hint)
    else if ltb next_hint (add64 len mmap_base)
    then some (mmap_failed, next_hint)
    else search_down rs len next_hint (page_round_down (sub64 next_hint len)) fuel

-- What becomes of the pages of a range: given back, or only unmapped.
pub data Effect : Type 0 where
  frees unmaps : ℕ → ℕ → Effect

-- The first half of the loop of `unmap`: letting go of the pages of a region.
abbrev pub let_go : (ℕ → ℕ) → MmapRegion → (ℕ → ℕ) × Effect
let_go refs r = elim (if r.shared then r.shared_ref else none) [
  | none ↦ (refs, frees r.va_start r.va_end)
  | some p ↦
      let left = sub32 (refs p) 1 in
      (
        update refs p left,
        if left == 0 then frees r.va_start r.va_end else unmaps r.va_start r.va_end,
      )
]

-- The second half: what stays of a region.
abbrev pub pieces : ℕ → ℕ → MmapRegion → List MmapRegion
pieces addr stop r =
    let overlap = if ltb addr r.va_start then r.va_start else addr in
    let left = record r { va_end = addr } in
    let right = record r {
      va_start = stop;
      file_offset = add64 r.file_offset (sub64 stop r.va_start);
      shared_ref = none;
    } in
    if ltb r.va_start addr
    then if ltb stop r.va_end then left ∷ right ∷ [] else left ∷ []
    else if ltb stop r.va_end
    then record r { va_start = stop; file_offset = add64 r.file_offset (sub64 stop overlap) } ∷ []
    else []

unfoldable pub unmap_from :
    ℕ → ℕ → List MmapRegion → (ℕ → ℕ) → List MmapRegion × ((ℕ → ℕ) × List Effect)
unmap_from addr stop [] refs = ([], (refs, []))
unmap_from addr stop (r ∷ rs) refs =
    let skipped = leb r.va_end addr in
    let gone = let_go refs r in
    let rest = unmap_from addr stop rs (if skipped then refs else gone.0) in
    if ltb r.va_start stop
    then if skipped
      then (r ∷ rest.0, rest.1)
      else (pieces addr stop r ++ rest.0, (rest.1.0, gone.1 ∷ rest.1.1))
    else (r ∷ rs, (refs, []))

-- `unmap`, and the value that it returns.
unfoldable pub unmap :
    List MmapRegion → (ℕ → ℕ) → ℕ → ℕ → ℤ × (List MmapRegion × ((ℕ → ℕ) × List Effect))
unmap rs refs addr length =
    if length == 0
    then (negsuc 0, (rs, (refs, [])))
    else if addr % page_size == 0
    then (pos 0, unmap_from addr (add64 addr (page_round_up length)) rs refs)
    else (negsuc 0, (rs, (refs, [])))

-- What a Mmap keeps of its own.
pub record Mmap : Type 0 where
  pub regions : List MmapRegion
  pub refs : ℕ → ℕ
  pub next_hint : ℕ

-- The arguments of `map`.
pub record Request : Type 0 where
  pub hint : ℕ
  pub length : ℕ
  pub prot : ℕ
  pub flags : ℕ
  pub fd : ℤ
  pub offset : ℕ

abbrev pub flag : Request → ℕ → Bool
flag q mask = not (bit_and q.flags mask == 0)

abbrev is_minus_one : ℤ → Bool
is_minus_one (pos n) = false
is_minus_one (negsuc n) = n == 0

abbrev is_negative : ℤ → Bool
is_negative (pos n) = false
is_negative (negsuc n) = true

-- MAP_SHARED is 1, MAP_PRIVATE 2, MAP_FIXED 0x10 and MAP_ANONYMOUS 0x20.
abbrev pub is_refused : Request → Bool
is_refused q =
    q.length == 0
    || not (flag q 2) && not (flag q 1)
    || flag q 0x20 && not (is_minus_one q.fd)
    || not (flag q 0x20) && is_negative q.fd

-- The region that `map` makes, with the address of its shared count.
abbrev pub region_of : Request → ℕ → ℕ → MmapRegion
region_of q ref va = record {
  va_start = va;
  va_end = add64 va (page_round_up q.length);
  prot = q.prot;
  flags = q.flags;
  fd = q.fd;
  file_offset = q.offset;
  shared = flag q 1;
  shared_ref = if flag q 1 then some ref else none;
}

-- `removeOverlapping` and the steps behind it: `mapped` and `filled` say whether the pages could be mapped
-- and filled.
abbrev pub place : Mmap → Request → ℕ → Bool → Bool → ℕ → ℕ × (Mmap × List Effect)
place m q ref mapped filled va =
    let cut =
      if flag q 0x10
      then (unmap m.regions m.refs va (page_round_up q.length)).1
      else (m.regions, (m.refs, [])) in
    let left = record m { regions = cut.0; refs = cut.1.0 } in
    if not mapped
    then (mmap_failed, (left, cut.1.1))
    else if not (flag q 0x20) && not filled
    then (mmap_failed, (left, cut.1.1 ++ frees va (add64 va (page_round_up q.length)) ∷ []))
    else (
      va,
      (
        record left {
          regions = insert_region (region_of q ref va) left.regions;
          refs = if flag q 1 then update left.refs ref 1 else left.refs;
        },
        cut.1.1,
      ),
    )

-- `map`: the address or MMAP_FAILED, and what becomes of the Mmap. The outer `none` is fuel run out.
unfoldable pub map : ℕ → Mmap → Request → ℕ → Bool → Bool → Option (ℕ × (Mmap × List Effect))
map fuel m q ref mapped filled =
    if is_refused q
    then some (mmap_failed, (m, []))
    else elim (alloc_va fuel m.regions m.next_hint q.hint (page_round_up q.length / page_size)
        (flag q 0x10)) [
          | none ↦ none
          | some r ↦
              if r.0 == mmap_failed
              then some (mmap_failed, (record m { next_hint = r.1 }, []))
              else some (place (record m { next_hint = r.1 }) q ref mapped filled r.0)
        ]

abbrev pub answer : Option MmapRegion → ℕ → Option (Bool × ℕ)
answer none op = none
answer (some r) op = some (not (bit_and r.prot op == 0), r.va_end)

-- The outer `none` is fuel run out.
unfoldable pub check_operation : List MmapRegion → ℕ → ℕ → ℕ → Option Bool
check_operation rs va stop op = check_range (λ w. answer (find rs w) op) (suc (stop - va)) va stop

-- The flags of a page-table entry: PAGE_V and PAGE_U, and PAGE_R, PAGE_W and PAGE_X as PROT_READ,
-- PROT_WRITE and PROT_EXEC ask for them.
unfoldable pub prot_to_pte : ℕ → ℕ
prot_to_pte prot =
    let r = (if bit_and prot 1 == 0 then 0x11 else bit_or 0x11 2) in
    let w = (if bit_and prot 2 == 0 then r else bit_or r 4) in
    if bit_and prot 4 == 0 then w else bit_or w 8
