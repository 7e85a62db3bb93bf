-- ===== src/Mm/Mmap/Effects.antt =====
-- Which pages `unmap` of kernel/mm/vm/mmap.cpp takes out of the page table.
use hobby_os.Prelude.{
  ℕ, ◌≤◌, update, sym, Bool, true, false, ◌&&◌, ◌||◌, Option, none, some, List, [], ◌∷◌, ltb, leb,
  if◌then◌else◌, ◌==◌, sub32, ◌≡◌, refl, ap, ◌∙◌, inl, inr, arith, Bool-cases,
}
use mathlib.Core.Path.{ap₂}
use hobby_os.Mm.Mmap.{MmapRegion, Effect, frees, unmaps, holds, let_go, unmap_from}
use hobby_os.Mm.Mmap.Regions.{InOrder}

abbrev pub covers : Effect → ℕ → Bool
covers (frees a b) va = leb a va && ltb va b
covers (unmaps a b) va = leb a va && ltb va b

-- Whether the page of an address is taken out of the page table.
abbrev pub lost : List Effect → ℕ → Bool
lost [] va = false
lost (e ∷ es) va = covers e va || lost es va

-- Whether an address is in a region that meets the range, inside of the range or not.
abbrev pub met : List MmapRegion → ℕ → ℕ → ℕ → Bool
met [] addr stop va = false
met (r ∷ rs) addr stop va =
    (holds r va && ltb r.va_start stop && ltb addr r.va_end) || met rs addr stop va

-- Letting go of a region takes out all its pages.
let_go-covers : (refs : ℕ → ℕ) (r : MmapRegion) (va : ℕ) → covers (let_go refs r).1 va ≡ holds r va
let_go-covers refs r va = by_ref (if r.shared then r.shared_ref else none)
  where
    by_count :
        (b : Bool)
        → covers (if b then frees r.va_start r.va_end else unmaps r.va_start r.va_end) va
          ≡ holds r va
    by_count true = refl
    by_count false = refl

    by_ref :
        (o : Option ℕ)
        → covers
            (let gone : (ℕ → ℕ) × Effect = elim o [
              | none ↦ (refs, frees r.va_start r.va_end)
              | some p ↦
                  let left = sub32 (refs p) 1 in
                  (
                    update refs p left,
                    if left == 0 then frees r.va_start r.va_end else unmaps r.va_start r.va_end,
                  )
            ] in
              gone.1)
            va
          ≡ holds r va
    by_ref none = refl
    by_ref (some p) = by_count (sub32 (refs p) 1 == 0)

met_beyond :
    (lo addr stop va : ℕ) (rs : List MmapRegion)
    → InOrder lo rs
    → stop ≤ lo
    → met rs addr stop va ≡ false
unfolding InOrder
met_beyond lo addr stop va [] h le = refl
met_beyond lo addr stop va (r ∷ rs) h le =
    let low = h.0.0 in
    let full = h.0.1 in
    let rest = met_beyond r.va_end addr stop va rs h.1 (omega arith) in ground (arith, rest)

lost_stops :
    (addr stop : ℕ) (r : MmapRegion) (rs : List MmapRegion) (refs : ℕ → ℕ)
    → ltb r.va_start stop ≡ false
    → (unmap_from addr stop (r ∷ rs) refs).1.1 ≡ []
unfolding unmap_from
lost_stops addr stop r rs refs h = rw h

lost_skips :
    (addr stop : ℕ) (r : MmapRegion) (rs : List MmapRegion) (refs : ℕ → ℕ)
    → ltb r.va_start stop ≡ true
    → leb r.va_end addr ≡ true
    → (unmap_from addr stop (r ∷ rs) refs).1.1 ≡ (unmap_from addr stop rs refs).1.1
unfolding unmap_from
lost_skips addr stop r rs refs h g = rw (h, g)

lost_cuts :
    (addr stop : ℕ) (r : MmapRegion) (rs : List MmapRegion) (refs : ℕ → ℕ)
    → ltb r.va_start stop ≡ true
    → leb r.va_end addr ≡ false
    → (unmap_from addr stop (r ∷ rs) refs).1.1
      ≡ (let_go refs r).1 ∷ (unmap_from addr stop rs (let_go refs r).0).1.1
unfolding unmap_from
lost_cuts addr stop r rs refs h g = rw (h, g)

not_met :
    (r : MmapRegion) (addr stop va : ℕ) (b : Bool)
    → leb r.va_end addr ≡ true
    → b ≡ ((holds r va && ltb r.va_start stop && ltb addr r.va_end) || b)
not_met r addr stop va b h = ground (arith, h)

is_met :
    (r : MmapRegion) (addr stop va : ℕ) (b : Bool)
    → ltb r.va_start stop ≡ true
    → leb r.va_end addr ≡ false
    → (holds r va || b) ≡ ((holds r va && ltb r.va_start stop && ltb addr r.va_end) || b)
is_met r addr stop va b h g = ground (arith, h, g)

-- `unmap_from` takes out the pages of the regions that meet the range, in whole, and no other.
pub unmap_from-lost :
    (lo addr stop : ℕ) (rs : List MmapRegion) (refs : ℕ → ℕ) (va : ℕ)
    → InOrder lo rs
    → lost (unmap_from addr stop rs refs).1.1 va ≡ met rs addr stop va
unfolding InOrder unmap_from
unmap_from-lost lo addr stop [] refs va h = refl
unmap_from-lost lo addr stop (r ∷ rs) refs va h = elim (Bool-cases (ltb r.va_start stop)) [
  | inr beyond ↦
      ap (λ es. lost es va) (lost_stops addr stop r rs refs beyond)
      ∙ sym (
          met_beyond r.va_start addr stop va (r ∷ rs) ((omega arith, h.0.1), h.1)
            (not_lt r.va_start stop beyond))
  | inl before ↦ elim (Bool-cases (leb r.va_end addr)) [
    | inl skipped ↦
        ap (λ es. lost es va) (lost_skips addr stop r rs refs before skipped)
        ∙ unmap_from-lost r.va_end addr stop rs refs va h.1
        ∙ not_met r addr stop va (met rs addr stop va) skipped
    | inr meets ↦
        ap (λ es. lost es va) (lost_cuts addr stop r rs refs before meets)
        ∙ ap₂ (λ a b. a || b) (let_go-covers refs r va)
            (unmap_from-lost r.va_end addr stop rs (let_go refs r).0 va h.1)
        ∙ is_met r addr stop va (met rs addr stop va) before meets
  ]
]
  where
    not_lt : (a b : ℕ) → ltb a b ≡ false → b ≤ a
    not_lt a b e = ground arith
