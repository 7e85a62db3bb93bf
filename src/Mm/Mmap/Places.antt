-- ===== src/Mm/Mmap/Places.antt =====
-- Where `allocVA` of kernel/mm/vm/mmap.cpp puts a mapping.
use hobby_os.Prelude.{
  ℕ, zero, suc, ◌+◌, ◌-◌, ◌*◌, ◌%◌, ◌≤◌, ◌<◌, Bool, true, false, not, ◌&&◌, ◌||◌, some, List, ltb,
  leb, ◌==◌, if◌then◌else◌, add64, sub64, mul64, word, ◌≡◌, refl, ◌≢◌, ◌⊎◌, inl, inr, arith,
  Bool-cases, bit_and-page,
}
use hobby_os.Mm.Mmap.{
  MmapRegion, is_free, search_down, alloc_va, hint_fits, fixed_fits, page_size, page_round_down,
  mmap_base, mmap_top, mmap_failed,
}
use hobby_os.Mm.Mmap.Regions.{InOrder, Unbacked, is_free-Unbacked}

-- A page-aligned range of the mapping area.
unfoldable pub IsPlace : ℕ → ℕ → Type 0
IsPlace va len = (va % page_size ≡ 0) × ((mmap_base ≤ va) × (va + len ≤ mmap_top))

-- What `allocVA` answers: MMAP_FAILED, or a place, free unless it was asked for; and a hint in the area.
unfoldable pub Allocated : List MmapRegion → ℕ → Bool → ℕ × ℕ → Type 0
Allocated rs len fixed r =
    (r.1 ≤ mmap_top)
    × ((r.0 ≡ mmap_failed) ⊎ (IsPlace r.0 len × (fixed ≡ false → Unbacked rs r.0 (r.0 + len))))

free_here :
    (rs : List MmapRegion) (va len : ℕ)
    → InOrder 0 rs
    → 0 < len
    → va + len ≤ mmap_top
    → is_free rs va len ≡ true
    → Unbacked rs va (va + len)
free_here rs va len h some_len fits e = (is_free-Unbacked 0 rs va len h some_len (omega arith)).0 e

search_down_lem :
    (rs : List MmapRegion) (len hint candidate fuel : ℕ)
    → InOrder 0 rs
    → 0 < len
    → hint ≤ mmap_top
    → candidate % page_size ≡ 0
    → candidate + len ≤ mmap_top
    → candidate < fuel * page_size
    → (r : ℕ × ℕ) × ((search_down rs len hint candidate fuel ≡ some r) × Allocated rs len false r)
unfolding Allocated IsPlace
search_down_lem rs len hint candidate zero h some_len top aligned fits enough = absurd (omega arith)
search_down_lem rs len hint candidate (suc fuel) h some_len top aligned fits enough =
    elim (Bool-cases (ltb candidate mmap_base)) [
      | inl low ↦ ((mmap_failed, hint), (rw low refl, (top, inl refl)))
      | inr high ↦ elim (Bool-cases (is_free rs candidate len)) [
        | inl free ↦ (
          (candidate, candidate),
          (
            rw (high, free) refl,
            (
              omega arith,
              inr (
                (aligned, (ground arith, fits)),
                λ e. free_here rs candidate len h some_len fits free,
              ),
            ),
          ),
        )
        | inr used ↦
            let base : mmap_base ≤ candidate = ground arith in
            let page : ltb candidate page_size ≡ false = ground arith in
            let rest =
              search_down_lem rs len hint (candidate - page_size) fuel h some_len top (omega arith)
                (omega arith) (omega arith) in
            (rest.0, (rw (high, used, page) rest.1.0, rest.1.1))
      ]
    ]

fixed_tests :
    (hint len stop : ℕ)
    → stop ≡ hint + len
    → (not (hint == 0) && (hint % page_size == 0) && not (ltb hint mmap_base || ltb mmap_top stop))
      ≡ true
    → (hint % page_size ≡ 0) × ((mmap_base ≤ hint) × (hint + len ≤ mmap_top))
fixed_tests hint len stop same e = (ground arith, (ground arith, ground arith))

fixed-IsPlace : (hint len : ℕ) → hint + len < word → fixed_fits hint len ≡ true → IsPlace hint len
unfolding IsPlace
fixed-IsPlace hint len small e =
    let same : add64 hint len ≡ hint + len = omega arith in
    fixed_tests hint len (add64 hint len) same e

hint_tests :
    (hint len stop : ℕ) (free : Bool)
    → stop ≡ hint + len
    → (not (hint == 0)
        && (hint % page_size == 0)
        && leb mmap_base hint
        && leb stop mmap_top
        && free)
      ≡ true
    → ((hint % page_size ≡ 0) × ((mmap_base ≤ hint) × (hint + len ≤ mmap_top))) × (free ≡ true)
hint_tests hint len stop free same e = ((ground arith, (ground arith, ground arith)), ground arith)

true-false : true ≢ false
true-false e = cc

room_for :
    (next_hint len need : ℕ)
    → need ≡ len + mmap_base
    → ltb next_hint need ≡ false
    → len + mmap_base ≤ next_hint
room_for next_hint len need same h = ground arith

asked :
    (rs : List MmapRegion) (hint next_hint len : ℕ)
    → next_hint ≤ mmap_top
    → hint + len < word
    → (r : ℕ × ℕ) × ((some (if fixed_fits hint len then hint else mmap_failed, next_hint) ≡ some r)
        × Allocated rs len true r)
unfolding Allocated
asked rs hint next_hint len top small = elim (Bool-cases (fixed_fits hint len)) [
  | inl fits ↦ (
    (hint, next_hint),
    (rw fits refl, (top, inr (fixed-IsPlace hint len small fits, λ e. absurd (true-false e)))),
  )
  | inr unfit ↦ ((mmap_failed, next_hint), (rw unfit refl, (top, inl refl)))
]

round_down : (x : ℕ) → x < word → page_round_down x ≡ x - x % page_size
round_down x h = bit_and-page x h

looked_for :
    (fuel : ℕ) (rs : List MmapRegion) (next_hint hint len : ℕ)
    → InOrder 0 rs
    → 0 < len
    → len ≤ mmap_top
    → next_hint ≤ mmap_top
    → hint + len < word
    → mmap_top < fuel * page_size
    → (r : ℕ × ℕ) × (((if hint_fits rs hint len
            then some (hint, next_hint)
            else if ltb next_hint (add64 len mmap_base)
            then some (mmap_failed, next_hint)
            else search_down rs len next_hint (page_round_down (sub64 next_hint len)) fuel)
          ≡ some r)
        × Allocated rs len false r)
unfolding Allocated IsPlace
looked_for fuel rs next_hint hint len h some_len fits top small enough =
    elim (Bool-cases (hint_fits rs hint len)) [
      | inl good ↦
          let tests =
            hint_tests hint len (add64 hint len) (is_free rs hint len) (omega arith) good in
          (
            (hint, next_hint),
            (
              rw good refl,
              (top, inr (tests.0, λ e. free_here rs hint len h some_len tests.0.1.1 tests.1)),
            ),
          )
      | inr bad ↦ elim (Bool-cases (ltb next_hint (add64 len mmap_base))) [
        | inl low ↦ ((mmap_failed, next_hint), (rw (bad, low) refl, (top, inl refl)))
        | inr high ↦
            let start = page_round_down (sub64 next_hint len) in
            let down : start ≡ sub64 next_hint len - sub64 next_hint len % page_size =
              round_down (sub64 next_hint len) (omega arith) in
            let room : len + mmap_base ≤ next_hint =
              room_for next_hint len (add64 len mmap_base) (omega arith) high in
            let found =
              search_down_lem rs len next_hint start fuel h some_len top (omega arith) (omega arith)
                (omega arith) in
            (found.0, (rw (bad, high) found.1.0, found.1.1))
      ]
    ]

-- With regions in order, at least one page and no more than fit below MMAP_TOP, a hint of the address
-- space below MMAP_TOP, a wish that does not wrap and fuel for the mapping area, `allocVA` answers:
-- MMAP_FAILED, or a page-aligned place inside the area, where nothing is backed unless the place was
-- fixed by the caller; and its next hint is not above MMAP_TOP.
pub alloc_va-Allocated :
    (fuel : ℕ) (rs : List MmapRegion) (next_hint hint pages : ℕ) (fixed : Bool)
    → InOrder 0 rs
    → 0 < pages
    → pages * page_size ≤ mmap_top
    → next_hint ≤ mmap_top
    → hint + pages * page_size < word
    → mmap_top < fuel * page_size
    → (r : ℕ × ℕ) × ((alloc_va fuel rs next_hint hint pages fixed ≡ some r)
        × Allocated rs (pages * page_size) fixed r)
unfolding alloc_va Allocated
alloc_va-Allocated fuel rs next_hint hint pages true h some_pages fits top small enough =
    let same : mul64 pages page_size ≡ pages * page_size = omega arith in
    rw same (asked rs hint next_hint (pages * page_size) top small)
alloc_va-Allocated fuel rs next_hint hint pages false h some_pages fits top small enough =
    let same : mul64 pages page_size ≡ pages * page_size = omega arith in
    rw same
      (looked_for fuel rs next_hint hint (pages * page_size) h (omega arith) fits top small enough)
